-- ===== src/Engine/Mdns.antt =====
-- core/engine/mdns.go: the loop that starts the mDNS service.
pub mod Found
mod Tests
use net_hive.Prelude.{
  ℕ, ◌+◌, ◌-◌, ◌≡◌, refl, ap, ◌∙◌, Bool, true, false, Option, none, some, List, [], ◌∷◌, ◌++◌,
  arith, if◌then◌else◌, length, All,
}

-- What the `select` of `mdnsLoop` finds: the context is done, or the ticker fires and `mdns.Start`
-- then succeeds or not.
pub data MdnsEvent : Type 0 where
  cancelled : MdnsEvent
  tick : Bool → MdnsEvent

-- The loop from count `i` on: the count with which it ends, or `none` if it is still in the loop.
-- The case of a context that is done does nothing.
unfoldable pub mdns_retry : ℕ → List MdnsEvent → Option ℕ
mdns_retry i [] = none
mdns_retry i (cancelled ∷ es) = mdns_retry (i + 1) es
mdns_retry i (tick started ∷ es) =
    let rest = mdns_retry (i + 1) es in if started then some i else rest

-- `mdnsLoop`, at the outcome of the first `mdns.Start` and what comes later.
unfoldable pub mdns_loop : Bool → List MdnsEvent → Option ℕ
mdns_loop started es = if started then some 1 else mdns_retry 2 es

-- The service does not start at this event.
abbrev Idle : MdnsEvent → Type 0
Idle cancelled = Unit
Idle (tick started) = started ≡ false

mdns_retry-Idle :
    (i : ℕ) (idle : List MdnsEvent) (es : List MdnsEvent)
    → All Idle idle
    → (mdns_retry i idle ≡ none) × (mdns_retry i (idle ++ tick true ∷ es) ≡ some (i + length idle))
unfolding mdns_retry
mdns_retry-Idle i [] es h = (refl, ap some (omega arith))
mdns_retry-Idle i (cancelled ∷ idle) es h =
    let (waits, ends) = mdns_retry-Idle (i + 1) idle es h.1 in (waits, ends ∙ ap some (omega arith))
mdns_retry-Idle i (tick started ∷ idle) es h =
    let (waits, ends) = mdns_retry-Idle (i + 1) idle es h.1 in
    rw h.0 (waits, ends ∙ ap some (omega arith))

-- `mdnsLoop` ends only when `mdns.Start` succeeds, and at its first success: after any sequence of
-- failures and of rounds in which the context is done it is still in the loop. So a cancelled
-- context does not end it.
pub mdns_loop_lem :
    (idle es : List MdnsEvent)
    → All Idle idle
    → (mdns_loop true es ≡ some 1)
      × (mdns_loop false idle ≡ none)
      × (mdns_loop false (idle ++ tick true ∷ es) ≡ some (2 + length idle))
unfolding mdns_loop
mdns_loop_lem idle es h = let (waits, ends) = mdns_retry-Idle 2 idle es h in (refl, waits, ends)
