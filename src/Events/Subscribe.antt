-- ===== src/Events/Subscribe.antt =====
-- events.py: what `subscribe` accepts.
use packets.Base.{
  ℕ, ◌≤◌, Bool, true, false, List, String, ◌≡◌, All, All-append, arith, string_key, ◌==◌, ◌||◌,
  length, Option, leb, ◌&&◌,
}
use packets.Events.Delivery.{
  Subscription, EventBus, QueueArg, own_queue, no_queue, Result, ok, raises, known_event,
  drop_oldest, drop_newest,
}
use packets.Events.Bus.{subscribe}
use packets.Events.Queues.{IsBounded}

module _ {Payload : Type 0} where
  -- A queue holds no more than its bound, which is the contract of `queue.Queue`.
  abbrev pub WithinBound : QueueArg (String × Payload) → Type 0
  WithinBound no_queue = Unit
  WithinBound (own_queue bound held) = (1 ≤ bound) → length held ≤ bound

  abbrev bounded : QueueArg (String × Payload) → ℕ → Bool
  bounded no_queue maxsize = leb 1 maxsize
  bounded (own_queue bound held) maxsize = leb 1 bound

  -- What `subscribe` accepts.
  abbrev pub acceptable : String → QueueArg (String × Payload) → ℕ → String → Bool
  acceptable event q maxsize overflow =
      known_event event && (overflow == drop_oldest || overflow == drop_newest) && bounded q maxsize

module _ {Payload Callback : Type 0} where
  -- The subscriptions after `subscribe`, or those before if it raises.
  abbrev pub after :
      EventBus Payload Callback
      → Result (EventBus Payload Callback × ℕ)
      → List (Subscription Payload)
  after bus (ok (bus', handle)) = bus'.subs
  after bus (raises e) = bus.subs

  abbrev pub accepted : Result (EventBus Payload Callback × ℕ) → Bool
  accepted (ok r) = true
  accepted (raises e) = false

  -- `subscribe` succeeds exactly for a known event, a known policy and a bound of at least 1, and
  -- keeps every queue within its bound.
  pub subscribe_lem :
      (bus : EventBus Payload Callback) (event : String) (q : QueueArg (String × Payload))
      (maxsize : ℕ) (overflow : String) (name : Option String)
      → WithinBound q
      → All IsBounded bus.subs
      → let r = subscribe bus event q maxsize overflow name in
        (accepted r ≡ acceptable event q maxsize overflow) × All IsBounded (after bus r)
  unfolding subscribe
  subscribe_lem bus event no_queue maxsize overflow name w b =
      (ground arith, grind (arith, All-append IsBounded))
  subscribe_lem bus event (own_queue bound held) maxsize overflow name w b =
      (ground arith, grind (arith, All-append IsBounded))
