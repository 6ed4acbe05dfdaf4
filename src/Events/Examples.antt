-- ===== src/Events/Examples.antt =====
-- events.py: the theorems at concrete subscriptions.
use packets.Base.{
  ℕ, ◌+◌, Bool, true, false, String, List, [], ◌∷◌, ◌++◌, ◌≡◌, ◌≢◌, refl, arith, All, none,
  count_if, ◌==◌, string_key, if◌then◌else◌, eqb,
}
use packets.Base.Dict
use packets.Events.Delivery.{
  Subscription, EventBus, Result, drop_oldest, drop_newest, deliver, all_events, no_queue, QueueArg,
}
use packets.Events.Bus.{publish, dropped_total, handlers, subscribe, new}
use packets.Events.Queues.{
  IsBounded, NewestOf, OldestOf, deliver_items, deliver_items-oldest, deliver_items-newest,
}
use packets.Events.Callbacks.{publish-dropped, publish-callback_errors, publish-registering}

abbrev monitor : Subscription ℕ
monitor = record {
  handle = 0;
  event = "*";
  queue = [];
  maxsize = 2;
  overflow = "drop-oldest";
  name = "monitor";
  delivered = 0;
  dropped = 0;
  active = true;
}

abbrev auditor : Subscription ℕ
auditor = record monitor { handle = 1; overflow = "drop-newest" }

abbrev items : List (String × ℕ)
items = ("route-best", 1) ∷ ("route-best", 2) ∷ ("peer-state", 3) ∷ []

oldest_dropped : (deliver_items monitor items).queue ≡ ("route-best", 2) ∷ ("peer-state", 3) ∷ []
unfolding deliver_items deliver
oldest_dropped = refl

deliver_items-oldest_example : NewestOf monitor items (deliver_items monitor items)
deliver_items-oldest_example = deliver_items-oldest items monitor (omega arith) refl

different : drop_newest ≢ drop_oldest
different e = ground (arith, string_key.same_iff drop_newest drop_oldest)

deliver_items-newest_example : OldestOf auditor items (deliver_items auditor items)
deliver_items-newest_example = deliver_items-newest items auditor (omega arith) different

-- The callback 1 raises.
abbrev calm : ℕ → String → ℕ → EventBus ℕ ℕ → EventBus ℕ ℕ × Bool
calm f event p bus = (bus, eqb f 1)

abbrev bus : EventBus ℕ ℕ
bus = record new {
  subs = monitor ∷ auditor ∷ [];
  callbacks = ("route-best", 0 ∷ 1 ∷ []) ∷ ("*", 1 ∷ []) ∷ [];
}

publish-dropped_example :
    let (bus', n) = publish calm bus "route-best" 7 in
    (dropped_total bus' ≡ dropped_total bus + n) × All IsBounded bus'.subs
publish-dropped_example =
    publish-dropped calm (λ f event p b. refl) bus "route-best" 7 (omega arith)

publish-callback_errors_example :
    let raised = λ (e : String). count_if (λ f. eqb f 1) (handlers e bus) in
    (publish calm bus "route-best" 7).0.callback_errors
    ≡ bus.callback_errors
      + (if "route-best" == all_events
          then raised "route-best"
          else raised "route-best" + raised all_events)
publish-callback_errors_example =
    publish-callback_errors calm (λ f event p. eqb f 1) (λ f event p b. refl) bus "route-best" 7

-- The callback 0 registers the callback 1, which raises.
abbrev wiring : ℕ → String → ℕ → EventBus ℕ ℕ → EventBus ℕ ℕ × Bool
wiring f event p b =
    if eqb f 0
    then (
      record b { callbacks = Dict.put all_events (handlers all_events b ++ 1 ∷ []) b.callbacks },
      false,
    )
    else (b, true)

abbrev unwired : EventBus ℕ ℕ
unwired = record new { callbacks = ("peer-state", 0 ∷ []) ∷ [] }

named : "peer-state" ≢ all_events
named e = ground (arith, string_key.same_iff "peer-state" all_events)

publish-registering_example :
    (publish wiring unwired "peer-state" 7).0.callback_errors ≡ unwired.callback_errors + 1
unfolding Dict.get new
publish-registering_example =
    publish-registering wiring unwired "peer-state" 7 0 1 named refl refl (λ b. refl) (λ b. refl)

abbrev unqueued : QueueArg (String × ℕ)
unqueued = no_queue

abbrev subscribed : Result (EventBus ℕ ℕ × ℕ)
subscribed = subscribe bus "peer-state" no_queue 10 "drop-newest" none
