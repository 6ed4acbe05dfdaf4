-- ===== src/Events/Bus.antt =====
-- packets/routing/rtengine/events.py: `Subscription` and `EventBus`. The payloads and the callbacks
-- are parameters; `invoke` is what a call of a callback does to the bus, and whether it raised.
use packets.Base.{
  ℕ, ◌+◌, Bool, true, false, Option, none, some, List, [], ◌∷◌, ◌++◌, String, Key, string_key,
  nat_key, ◌==◌, not, ◌||◌, if◌then◌else◌,
}
use packets.Base.Dict
use packets.Base.Dict.{Dict, count_up}
use mathlib.Core.Option
use packets.Events.Delivery.{
  EventBus, QueueArg, Result, all_events, bad_overflow, checked_queue, deliver_all, drop_newest,
  drop_oldest, known_event, ok, raises, registered, sum_dropped, unknown_event, without,
}

-- `name or event`
abbrev name_or : Option String → String → String
name_or none event = event
name_or (some name) event = if name == "" then event else name

module _ {Payload Callback : Type 0} where
  unfoldable pub new : EventBus Payload Callback
  new = record { subs = []; callbacks = []; published = []; callback_errors = 0; created = 0 }

  abbrev register :
      EventBus Payload Callback
      → String
      → String
      → String
      → Result (ℕ × List (String × Payload))
      → Result (EventBus Payload Callback × ℕ)
  register bus event overflow name (raises e) = raises e
  register bus event overflow name (ok (bound, held)) = ok (
    record bus {
      subs =
          bus.subs
          ++ record {
            handle = bus.created;
            event = event;
            queue = held;
            maxsize = bound;
            overflow = overflow;
            name = name;
            delivered = 0;
            dropped = 0;
            active = true;
          }
            ∷ [];
      created = bus.created + 1;
    },
    bus.created,
  )

  -- `subscribe`; it returns the handle of the new subscription.
  unfoldable pub subscribe :
      EventBus Payload Callback
      → String
      → QueueArg (String × Payload)
      → ℕ
      → String
      → Option String
      → Result (EventBus Payload Callback × ℕ)
  subscribe bus event q maxsize overflow name =
      if not (known_event event)
      then raises (unknown_event event)
      else if not (overflow == drop_oldest || overflow == drop_newest)
      then raises bad_overflow
      else register bus event overflow (name_or name event) (checked_queue q maxsize)

  -- `unsubscribe`; the flag `active` of the removed subscription is not kept by the bus.
  unfoldable pub unsubscribe : EventBus Payload Callback → ℕ → EventBus Payload Callback × Bool
  unfolding without
  unsubscribe bus handle =
      if registered handle bus.subs
      then (record bus { subs = without handle bus.subs }, true)
      else (bus, false)

  abbrev pub handlers : String → EventBus Payload Callback → List Callback
  handlers event bus = Option.get_or (Dict.get event bus.callbacks) []

  -- `on`
  unfoldable pub on :
      EventBus Payload Callback → String → Callback → Result (EventBus Payload Callback)
  on bus event callback =
      if not (known_event event)
      then raises (unknown_event event)
      else ok (record bus {
        callbacks = Dict.put event (handlers event bus ++ callback ∷ []) bus.callbacks;
      })

  -- `dropped_total`
  unfoldable pub dropped_total : EventBus Payload Callback → ℕ
  dropped_total bus = sum_dropped bus.subs

  -- `close`
  unfoldable pub close : EventBus Payload Callback → EventBus Payload Callback
  close bus = record bus { subs = []; callbacks = [] }

module _ {Callback : Type 0} ⦃key : Key Callback⦄ where
  abbrev pub is_handler : Callback → List Callback → Bool
  is_handler f [] = false
  is_handler f (g ∷ gs) = g == f || is_handler f gs

  -- `list.remove`: the first one goes.
  abbrev pub remove_first : Callback → List Callback → List Callback
  remove_first f [] = []
  remove_first f (g ∷ gs) = let rest = remove_first f gs in if g == f then gs else g ∷ rest

  -- `off`
  unfoldable pub off :
      {Payload : Type 0}
      → EventBus Payload Callback
      → String
      → Callback
      → EventBus Payload Callback × Bool
  off bus event f =
      if is_handler f (handlers event bus)
      then (
        record bus {
          callbacks = Dict.put event (remove_first f (handlers event bus)) bus.callbacks;
        },
        true,
      )
      else (bus, false)

module _ {Payload Callback : Type 0}
    (invoke : Callback
      → String
      → Payload
      → EventBus Payload Callback
      → EventBus Payload Callback × Bool) where
  abbrev count_error : EventBus Payload Callback × Bool → EventBus Payload Callback
  count_error (bus, raised) =
      if raised then record bus { callback_errors = bus.callback_errors + 1 } else bus

  -- `_invoke`, over the snapshot of the handlers
  unfoldable pub invoke_all :
      List Callback → String → Payload → EventBus Payload Callback → EventBus Payload Callback
  invoke_all [] event payload bus = bus
  invoke_all (f ∷ fs) event payload bus =
      invoke_all fs event payload (count_error (invoke f event payload bus))

  abbrev delivered_to : String → Payload → EventBus Payload Callback → EventBus Payload Callback
  delivered_to event payload bus = record bus {
    published = count_up event bus.published;
    subs = (deliver_all event payload bus.subs).0;
  }

  -- `publish`, with the number of drops that it returns. The second snapshot is taken after the
  -- first handlers have run.
  unfoldable pub publish :
      EventBus Payload Callback → String → Payload → EventBus Payload Callback × ℕ
  unfolding deliver_all
  publish bus event payload =
      let told = delivered_to event payload bus in
      let first = invoke_all (handlers event told) event payload told in
      let second =
        if event == all_events
        then first
        else invoke_all (handlers all_events first) event payload first in
      (second, (deliver_all event payload bus.subs).1)
