-- ===== src/Service/Notifier.antt =====
-- internal/core/service/dependency_graph_notifier.go: the wake-up signals of the graph workers. A
-- channel is a number and the count of the signals that wait in it; its capacity is 1. A method of
-- the notifier runs under its lock, so the steps of a run follow one another.
pub mod Signals
use dependency_firewall.Base.{
  Bool, List, String, [], eqb, if◌then◌else◌, keep, ltb, map, not, suc, trim_space, ℕ, ◌++◌, ◌+◌,
  ◌-◌, ◌==◌, ◌||◌, ◌∷◌,
}

-- a subscriber and its tenant scope
pub record Subscriber : Type 0 where
  pub channel : ℕ
  pub scope : String
  pub pending : ℕ

-- DependencyGraphJobNotifier; `made` is the number of the channels made so far
pub record Notifier : Type 0 where
  pub subscribers : List Subscriber
  pub made : ℕ

abbrev pub new_notifier : Notifier
new_notifier = record { subscribers = []; made = 0 }

-- tenantScope != "*" && tenantScope != tenantID is its negation
abbrev pub hears : String → Subscriber → Bool
hears tenant s = s.scope == "*" || s.scope == tenant

-- the select with a default: a full channel takes no further signal
unfoldable pub signal : String → Subscriber → Subscriber
signal tenant s =
    if not (hears tenant s)
    then s
    else if ltb s.pending 1
    then record s { pending = s.pending + 1 }
    else s

unfoldable pub notify : String → Notifier → Notifier
unfolding signal
notify tenant n = record n { subscribers = map (signal tenant) n.subscribers }

-- strings.TrimSpace, and the scope of all tenants where nothing is left
unfoldable pub tenant_scope : String → String
tenant_scope tenant = let t = trim_space tenant in if t == "" then "*" else t

abbrev pub new_subscriber : String → Notifier → Subscriber
new_subscriber tenant n = record { channel = n.made; scope = tenant_scope tenant; pending = 0 }

unfoldable pub watch_resolve_jobs : String → Notifier → ℕ × Notifier
watch_resolve_jobs tenant n = (
  n.made,
  record { subscribers = n.subscribers ++ new_subscriber tenant n ∷ []; made = suc n.made },
)

-- the goroutine of a subscription, when its context is canceled
unfoldable pub cancel : ℕ → Notifier → Notifier
cancel channel n = record n { subscribers = keep (λ s. not (eqb s.channel channel)) n.subscribers }

-- A consumer takes a signal out of its channel; without one it waits.
abbrev pub take_signal : ℕ → Subscriber → Subscriber
take_signal channel s = if eqb s.channel channel then record s { pending = s.pending - 1 } else s

unfoldable pub receive : ℕ → Notifier → Notifier
receive channel n = record n { subscribers = map (take_signal channel) n.subscribers }

-- what happens to a notifier
pub data Event : Type 0 where
  notified : String → Event
  watched : String → Event
  canceled : ℕ → Event
  received : ℕ → Event

unfoldable pub step : Event → Notifier → Notifier
step (notified tenant) n = notify tenant n
step (watched tenant) n = (watch_resolve_jobs tenant n).1
step (canceled channel) n = cancel channel n
step (received channel) n = receive channel n

unfoldable pub run : List Event → Notifier → Notifier
unfolding step
run [] n = n
run (e ∷ es) n = run es (step e n)
