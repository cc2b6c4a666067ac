-- ===== src/Base/Text.antt =====
-- Package `strings`, as far as the program uses it. A Go string is a `String`; `<` on strings compares
-- bytes, which is the order of the code points. Case and white space are those of ASCII: a
-- character beyond ASCII is left as it is by `to_lower` and is no space for `trim_space`.
pub mod Laws
use Prim.Native.Nat.{zero, suc, ◌/◌, ◌%◌, ℕ, ◌+◌, ◌<◌}
use Prim.Native.Char.{Char, char, code, IsScalar}
use Prim.Native.String
use Prim.Native.String.{String, [], ◌∷◌, compare}
use mathlib.Core.Logic.{dite}
use mathlib.Core.Bool.{Bool, true, false, ◌&&◌, ◌||◌}
use mathlib.Core.Option.{Option, none, some}
use mathlib.Core.List.{List}
use native.Mathlib.Omega.{arith}
use native.Mathlib.Decide.{dec_lt}
use text.Mathlib.Text.{is_lt, ◌==◌}
use dependency_firewall.Base.Logic.{if◌then◌else◌, eqb, leb}

infixr 65 ◌<>◌
abbrev pub ◌<>◌ : String → String → String
s <> t = String.◌++◌ s t

-- s < t
abbrev pub str_lt : String → String → Bool
str_lt s t = is_lt (compare s t)

pub IsScalar-ascii : (n : ℕ) → n < 128 → IsScalar n
IsScalar-ascii n h = ground arith

-- unicode.ToLower, on ASCII
pub lower_char : Char → Char
lower_char c =
    dite (dec_lt (code c) 65) (λ _. c)
      λ _.
        dite (dec_lt (code c) 91)
          (λ h. char (code c + 32) (IsScalar-ascii (code c + 32) (omega arith))) λ _. c

-- strings.ToLower
unfoldable pub to_lower : String → String
unfolding lower_char dec_lt
to_lower [] = []
to_lower (c ∷ s) = lower_char c ∷ to_lower s

abbrev pub is_blank : String → Bool
is_blank [] = true
is_blank (c ∷ s) = false

-- unicode.IsSpace, on ASCII
unfoldable pub is_space : Char → Bool
is_space c = eqb (code c) 32 || (leb 9 (code c) && leb (code c) 13)

-- strings.TrimLeftFunc
unfoldable pub trim_left : (Char → Bool) → String → String
trim_left p [] = []
trim_left p (c ∷ s) = if p c then trim_left p s else c ∷ s

-- strings.TrimRightFunc
unfoldable pub trim_right : (Char → Bool) → String → String
trim_right p [] = []
trim_right p (c ∷ s) = let rest = trim_right p s in if p c && is_blank rest then [] else c ∷ rest

unfoldable pub trim : (Char → Bool) → String → String
unfolding trim_left trim_right
trim p s = trim_right p (trim_left p s)

-- strings.TrimSpace
unfoldable pub trim_space : String → String
unfolding trim is_space
trim_space s = trim is_space s

-- strings.HasPrefix
unfoldable pub has_prefix : String → String → Bool
has_prefix s [] = true
has_prefix [] (d ∷ p) = false
has_prefix (c ∷ s) (d ∷ p) = eqb (code c) (code d) && has_prefix s p

-- strings.SplitN(s, sep, 2) for a one-character separator: what stands before the first one, and
-- what stands after it, if there is one.
unfoldable pub split_once : ℕ → String → String × Option String
split_once sep [] = ([], none)
split_once sep (c ∷ s) =
    let (before, after) = split_once sep s in
    if eqb (code c) sep then ([], some s) else (c ∷ before, after)

-- slices.Contains, and membership in a map that is used as a set
abbrev pub contains : List String → String → Bool
contains List.[] v = false
contains (List.◌∷◌ x xs) v = x == v || contains xs v

-- strings.Join
abbrev pub join : String → List String → String
join sep List.[] = ""
join sep (List.◌∷◌ s List.[]) = s
join sep (List.◌∷◌ s (List.◌∷◌ t ss)) = s <> sep <> join sep (List.◌∷◌ t ss)

pub digit_char : ℕ → Char
digit_char n = char (48 + n % 10) (IsScalar-ascii (48 + n % 10) (omega arith))

-- the decimal digits of `n` before those of `rest`; `fuel` bounds their number
decimal_from : ℕ → ℕ → String → String
decimal_from zero n rest = rest
decimal_from (suc fuel) n rest =
    let next = digit_char n ∷ rest in
    let more = decimal_from fuel (n / 10) next in if eqb (n / 10) 0 then next else more

-- strconv.FormatInt(n, 10), at a number that is not negative
unfoldable pub format_nat : ℕ → String
unfolding decimal_from digit_char
format_nat n = decimal_from (suc n) n []
