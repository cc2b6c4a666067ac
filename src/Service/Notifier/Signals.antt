-- ===== src/Service/Notifier/Signals.antt =====
-- What a subscriber of internal/core/service/dependency_graph_notifier.go can rely on.
-- whether some channel holds more than one signal
use dependency_firewall.Base.{
  Bool, List, String, [], any, arith, eqb, false, keep, leb, ltb, map, not, refl, true, ℕ, ◌&&◌,
  ◌++◌, ◌||◌, ◌∷◌, ◌≡◌,
}
use dependency_firewall.Service.Notifier.{
  Event, Notifier, Subscriber, cancel, canceled, hears, new_notifier, new_subscriber, notified,
  notify, receive, received, run, signal, step, take_signal, watch_resolve_jobs, watched,
}

abbrev pub overfull : Notifier → Bool
overfull n = any (λ (s : Subscriber). ltb 1 s.pending) n.subscribers

-- whether the subscriber of a channel is one of those that the tenant's jobs concern
abbrev pub subscribed : ℕ → String → Notifier → Bool
subscribed channel tenant n =
    any (λ (s : Subscriber). eqb s.channel channel && hears tenant s) n.subscribers

-- whether a signal waits in the channel
abbrev pub signalled : ℕ → Notifier → Bool
signalled channel n =
    any (λ (s : Subscriber). eqb s.channel channel && leb 1 s.pending) n.subscribers

-- whether the consumer of the channel takes a signal or goes away
abbrev pub concerns : ℕ → Event → Bool
concerns channel (notified tenant) = false
concerns channel (watched tenant) = false
concerns channel (canceled c) = eqb c channel
concerns channel (received c) = eqb c channel

signal-overfull :
    (tenant : String) (ss : List Subscriber)
    → any (λ (s : Subscriber). ltb 1 s.pending) ss ≡ false
    → any (λ (s : Subscriber). ltb 1 s.pending) (map (signal tenant) ss) ≡ false
unfolding signal
signal-overfull tenant [] h = refl
signal-overfull tenant (s ∷ ss) h = ground (arith, signal-overfull tenant ss)

take-overfull :
    (channel : ℕ) (ss : List Subscriber)
    → any (λ (s : Subscriber). ltb 1 s.pending) ss ≡ false
    → any (λ (s : Subscriber). ltb 1 s.pending) (map (take_signal channel) ss) ≡ false
take-overfull channel [] h = refl
take-overfull channel (s ∷ ss) h = ground (arith, take-overfull channel ss)

keep-overfull :
    (channel : ℕ) (ss : List Subscriber)
    → any (λ (s : Subscriber). ltb 1 s.pending) ss ≡ false
    → any
        (λ (s : Subscriber). ltb 1 s.pending)
        (keep (λ (s : Subscriber). not (eqb s.channel channel)) ss)
      ≡ false
keep-overfull channel [] h = refl
keep-overfull channel (s ∷ ss) h = ground (arith, keep-overfull channel ss)

watch-any :
    (p : Subscriber → Bool) (ss : List Subscriber) (s : Subscriber)
    → any p (ss ++ s ∷ []) ≡ (any p ss || p s)
watch-any p [] s = ground arith
watch-any p (x ∷ ss) s = ground (arith, watch-any p ss s)

step-overfull : (e : Event) (n : Notifier) → overfull n ≡ false → overfull (step e n) ≡ false
unfolding step notify watch_resolve_jobs cancel receive
step-overfull (notified tenant) n h = signal-overfull tenant n.subscribers h
step-overfull (watched tenant) n h =
    ground (
      arith,
      watch-any (λ (s : Subscriber). ltb 1 s.pending) n.subscribers (new_subscriber tenant n),
    )
step-overfull (canceled channel) n h = keep-overfull channel n.subscribers h
step-overfull (received channel) n h = take-overfull channel n.subscribers h

run-overfull : (es : List Event) (n : Notifier) → overfull n ≡ false → overfull (run es n) ≡ false
unfolding run
run-overfull [] n h = h
run-overfull (e ∷ es) n h = run-overfull es (step e n) (step-overfull e n h)

-- Whatever happens to a new notifier, no channel ever holds more than one signal.
pub run-coalesces : (es : List Event) → overfull (run es new_notifier) ≡ false
run-coalesces es = run-overfull es new_notifier refl

signal-signalled :
    (channel : ℕ) (tenant : String) (ss : List Subscriber)
    → any (λ (s : Subscriber). eqb s.channel channel && (hears tenant s || leb 1 s.pending)) ss
      ≡ true
    → any (λ (s : Subscriber). eqb s.channel channel && leb 1 s.pending) (map (signal tenant) ss)
      ≡ true
unfolding signal
signal-signalled channel tenant [] h = h
signal-signalled channel tenant (s ∷ ss) h = ground (arith, signal-signalled channel tenant ss)

weaken :
    (p q : Subscriber → Bool)
    → ((s : Subscriber) → p s ≡ true → q s ≡ true)
    → (ss : List Subscriber) → any p ss ≡ true
    → any q ss ≡ true
weaken p q f [] h = h
weaken p q f (s ∷ ss) h = ground (arith, f s, weaken p q f ss)

take-signalled :
    (channel k : ℕ) (ss : List Subscriber)
    → eqb k channel ≡ false
    → any (λ (s : Subscriber). eqb s.channel channel && leb 1 s.pending) ss ≡ true
    → any (λ (s : Subscriber). eqb s.channel channel && leb 1 s.pending) (map (take_signal k) ss)
      ≡ true
take-signalled channel k [] c h = h
take-signalled channel k (s ∷ ss) c h = ground (arith, take-signalled channel k ss)

keep-signalled :
    (channel k : ℕ) (ss : List Subscriber)
    → eqb k channel ≡ false
    → any (λ (s : Subscriber). eqb s.channel channel && leb 1 s.pending) ss ≡ true
    → any
        (λ (s : Subscriber). eqb s.channel channel && leb 1 s.pending)
        (keep (λ (s : Subscriber). not (eqb s.channel k)) ss)
      ≡ true
keep-signalled channel k [] c h = h
keep-signalled channel k (s ∷ ss) c h = ground (arith, keep-signalled channel k ss)

notify-signalled :
    (channel : ℕ) (tenant : String) (n : Notifier)
    → subscribed channel tenant n ≡ true
    → signalled channel (notify tenant n) ≡ true
unfolding notify
notify-signalled channel tenant n h =
    signal-signalled channel tenant n.subscribers
      (weaken _ _ (λ s. λ p. ground arith) n.subscribers h)

step-signalled :
    (channel : ℕ) (e : Event) (n : Notifier)
    → concerns channel e ≡ false
    → signalled channel n ≡ true
    → signalled channel (step e n) ≡ true
unfolding step notify watch_resolve_jobs cancel receive
step-signalled channel (notified tenant) n c h =
    signal-signalled channel tenant n.subscribers
      (weaken _ _ (λ s. λ p. ground arith) n.subscribers h)
step-signalled channel (watched tenant) n c h = ground (
  arith,
  watch-any (λ (s : Subscriber). eqb s.channel channel && leb 1 s.pending) n.subscribers
      (new_subscriber tenant n),
)
step-signalled channel (canceled k) n c h = keep-signalled channel k n.subscribers c h
step-signalled channel (received k) n c h = take-signalled channel k n.subscribers c h

run-signalled :
    (channel : ℕ) (es : List Event) (n : Notifier)
    → any (concerns channel) es ≡ false
    → signalled channel n ≡ true
    → signalled channel (run es n) ≡ true
unfolding run
run-signalled channel [] n c h = h
run-signalled channel (e ∷ es) n c h =
    run-signalled channel es (step e n) (ground arith) (step-signalled channel e n (ground arith) h)

-- A signal for a tenant reaches every subscriber that the tenant's jobs concern: it waits in the
-- channel, whatever happens, until the subscriber takes a signal or goes away.
pub notify-waits :
    (channel : ℕ) (tenant : String) (n : Notifier) (es : List Event)
    → subscribed channel tenant n ≡ true
    → any (concerns channel) es ≡ false
    → signalled channel (run es (notify tenant n)) ≡ true
notify-waits channel tenant n es h c =
    run-signalled channel es (notify tenant n) c (notify-signalled channel tenant n h)
