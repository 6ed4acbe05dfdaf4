-- ===== src/Events/Delivery.antt =====
-- packets/routing/rtengine/events.py: `Subscription`, the state of `EventBus`, and the delivery of an
-- item to the subscriptions.
use packets.Base.{
  ℕ, ◌+◌, Bool, false, List, [], ◌∷◌, ◌++◌, String, string_key, nat_key, ◌==◌, ◌||◌, if◌then◌else◌,
  ltb, eqb, length,
}
use packets.Base.Dict.{Dict}

abbrev pub all_events : String
all_events = "*"

abbrev pub drop_oldest : String
drop_oldest = "drop-oldest"

abbrev pub drop_newest : String
drop_newest = "drop-newest"

abbrev contains : String → List String → Bool
contains s [] = false
contains s (t ∷ ts) = s == t || contains s ts

-- `EVENTS`
abbrev pub events : List String
events =
    "route-best" ∷ "route-withdraw" ∷ "peer-state" ∷ "fib-result" ∷ "config-change" ∷ "engine-state"
    ∷ []

unfoldable pub known_event : String → Bool
known_event event = event == all_events || contains event events

-- The `ValueError`s of `subscribe` and `on`.
pub data BusError : Type 0 where
  unknown_event : String → BusError
  bad_overflow : BusError
  bad_maxsize : BusError
  unbounded_queue : BusError

-- What `subscribe` is given as `q`: no queue, or one of that bound with what it holds already.
pub data QueueArg (Item : Type 0) : Type 0 where
  no_queue : QueueArg Item
  own_queue : ℕ → List Item → QueueArg Item

-- A subscription with its queue, oldest first. `handle` stands for the object's identity.
pub record Subscription (Payload : Type 0) : Type 0 where
  pub handle : ℕ
  pub event : String
  pub queue : List (String × Payload)
  pub maxsize : ℕ
  pub overflow : String
  pub name : String
  pub delivered : ℕ
  pub dropped : ℕ
  pub active : Bool

pub record EventBus (Payload Callback : Type 0) : Type 0 where
  pub subs : List (Subscription Payload)
  pub callbacks : Dict String (List Callback)
  pub published : Dict String ℕ
  pub callback_errors : ℕ
  pub created : ℕ

pub data Result (A : Type 0) : Type 0 where
  ok : A → Result A
  raises : BusError → Result A

module _ {Payload : Type 0} where
  abbrev has_room : Subscription Payload → Bool
  has_room s = eqb s.maxsize 0 || ltb (length s.queue) s.maxsize

  abbrev put_item : String × Payload → Subscription Payload → Subscription Payload
  put_item item s = record s { queue = s.queue ++ item ∷ []; delivered = s.delivered + 1 }

  abbrev tail : List (String × Payload) → List (String × Payload)
  tail [] = []
  tail (x ∷ xs) = xs

  abbrev discard_oldest : Subscription Payload → Subscription Payload
  discard_oldest s = record s { queue = tail s.queue }

  abbrev count_dropped : Subscription Payload → Subscription Payload
  count_dropped s = record s { dropped = s.dropped + 1 }

  abbrev make_room : String × Payload → Subscription Payload → Subscription Payload
  make_room item s = if has_room s then put_item item s else s

  -- The body of the loop of `publish`: the subscription after the item, and what to add to the
  -- number of drops.
  unfoldable pub deliver : String × Payload → Subscription Payload → Subscription Payload × ℕ
  deliver item s =
      if has_room s
      then (put_item item s, 0)
      else if s.overflow == drop_oldest
      then (count_dropped (make_room item (discard_oldest s)), 1)
      else (count_dropped s, 1)

  -- Whether a subscription is among the targets of an event.
  abbrev pub wants : String → Subscription Payload → Bool
  wants event s = s.event == event || s.event == all_events

  abbrev deliver_if : String → Payload → Subscription Payload → Subscription Payload × ℕ
  deliver_if event payload s = if wants event s then deliver (event, payload) s else (s, 0)

  -- The loop of `publish` over its targets.
  unfoldable pub deliver_all :
      String → Payload → List (Subscription Payload) → List (Subscription Payload) × ℕ
  deliver_all event payload [] = ([], 0)
  deliver_all event payload (s ∷ ss) =
      let (s', n) = deliver_if event payload s in
      let (ss', m) = deliver_all event payload ss in (s' ∷ ss', n + m)

  -- `drain`
  unfoldable pub drain : Subscription Payload → List (String × Payload) × Subscription Payload
  drain s = (s.queue, record s { queue = [] })

  abbrev pub checked_queue : QueueArg (String × Payload) → ℕ → Result (ℕ × List (String × Payload))
  checked_queue no_queue maxsize = if ltb maxsize 1 then raises bad_maxsize else ok (maxsize, [])
  checked_queue (own_queue bound held) maxsize =
      if ltb bound 1 then raises unbounded_queue else ok (bound, held)

  unfoldable pub without : ℕ → List (Subscription Payload) → List (Subscription Payload)
  without handle [] = []
  without handle (s ∷ ss) =
      let rest = without handle ss in if s.handle == handle then ss else s ∷ rest

  abbrev pub registered : ℕ → List (Subscription Payload) → Bool
  registered handle [] = false
  registered handle (s ∷ ss) = s.handle == handle || registered handle ss

  abbrev pub sum_dropped : List (Subscription Payload) → ℕ
  sum_dropped [] = 0
  sum_dropped (s ∷ ss) = s.dropped + sum_dropped ss
