-- ===== src/Policy/Condition/Judged.antt =====
-- What a condition of internal/core/policy/condition returns: no error, and a match exactly if the
-- Boolean is true.
use dependency_firewall.Base.{Bool, Option, is_some, ◌≡◌}
use dependency_firewall.Domain.Message.{Message, Result, err, ok}

abbrev pub Judged : Result (Option Message) → Bool → Type 0
Judged (ok m) b = is_some m ≡ b
Judged (err e) b = ⊥
