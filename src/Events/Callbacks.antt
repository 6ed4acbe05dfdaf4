-- ===== src/Events/Callbacks.antt =====
-- events.py: `publish` over the whole bus, with its synchronous callbacks.
use packets.Base.{
  ◌+◌, Bool, true, false, List, [], ◌∷◌, ◌++◌, String, ◌≡◌, ◌≢◌, refl, sym, ap, ◌∙◌, All, arith,
  string_key, ◌==◌, if◌then◌else◌, count_if, Bool-cases, inl, inr,
}
use packets.Base.Dict
use packets.Base.Dict.{count_up}
use packets.Events.Delivery.{deliver_all, sum_dropped, EventBus, all_events}
use packets.Events.Bus.{publish, dropped_total, invoke_all, handlers}
use packets.Events.Queues.{IsBounded, sum_dropped-deliver_all, deliver_all-IsBounded}
use mathlib.Core.Path.{subst}

module _ {Payload Callback : Type 0}
    (invoke : Callback
      → String
      → Payload
      → EventBus Payload Callback
      → EventBus Payload Callback × Bool) where
  subs-invoke_all :
      ((f : Callback) (event : String) (p : Payload) (b : EventBus Payload Callback)
        → (invoke f event p b).0.subs ≡ b.subs)
      → (fs : List Callback) (event : String) (p : Payload) (b : EventBus Payload Callback)
      → (invoke_all invoke fs event p b).subs ≡ b.subs
  unfolding invoke_all
  subs-invoke_all tame [] event p b = refl
  subs-invoke_all tame (f ∷ fs) event p b =
      subs-invoke_all tame fs event p _ ∙ ground (arith, tame f event p b)

  subs-publish :
      ((f : Callback) (event : String) (p : Payload) (b : EventBus Payload Callback)
        → (invoke f event p b).0.subs ≡ b.subs)
      → (bus : EventBus Payload Callback) (event : String) (p : Payload)
      → (publish invoke bus event p).0.subs ≡ (deliver_all event p bus.subs).0
  unfolding publish
  subs-publish tame bus event p = elim (Bool-cases (event == all_events)) [
    | inl e ↦ rw e (subs-invoke_all tame _ event p _)
    | inr e ↦ rw e (subs-invoke_all tame _ event p _ ∙ subs-invoke_all tame _ event p _)
  ]

  -- If no callback touches the subscriptions, `publish` returns what it adds to the total of the
  -- drops, and keeps every queue within its bound.
  pub publish-dropped :
      ((f : Callback) (event : String) (p : Payload) (b : EventBus Payload Callback)
        → (invoke f event p b).0.subs ≡ b.subs)
      → (bus : EventBus Payload Callback) (event : String) (p : Payload) → All IsBounded bus.subs
      → let (bus', n) = publish invoke bus event p in
        (dropped_total bus' ≡ dropped_total bus + n) × All IsBounded bus'.subs
  unfolding dropped_total publish
  publish-dropped tame bus event p b =
      let same = subs-publish tame bus event p in
      (
        ap sum_dropped same ∙ sum_dropped-deliver_all event p bus.subs,
        subst (All IsBounded) (sym same) (deliver_all-IsBounded event p bus.subs b),
      )

  -- The callbacks that raise.
  module _ (fails : Callback → String → Payload → Bool)
      (isolated : (f : Callback) (event : String) (p : Payload) (b : EventBus Payload Callback)
        → invoke f event p b ≡ (b, fails f event p)) where
    invoke_all_lem :
        (fs : List Callback) (event : String) (p : Payload) (b : EventBus Payload Callback)
        → invoke_all invoke fs event p b
          ≡ record b { callback_errors = b.callback_errors + count_if (λ f. fails f event p) fs }
    unfolding invoke_all
    invoke_all_lem [] event p b = ground arith
    invoke_all_lem (f ∷ fs) event p b =
        rw (isolated f event p b) (elim (Bool-cases (fails f event p)) [
          | inl e ↦ rw e (
              invoke_all_lem fs event p (record b { callback_errors = b.callback_errors + 1 })
              ∙ ground arith)
          | inr e ↦ rw e (invoke_all_lem fs event p b ∙ ground arith)
        ])

    -- If no callback changes the bus, `publish` counts exactly the handlers of the event, and for
    -- a named event those of all events, that raise.
    pub publish-callback_errors :
        (bus : EventBus Payload Callback) (event : String) (p : Payload)
        → let raised = λ (e : String). count_if (λ f. fails f event p) (handlers e bus) in
          (publish invoke bus event p).0.callback_errors
          ≡ bus.callback_errors
            + (if event == all_events then raised event else raised event + raised all_events)
    unfolding publish
    publish-callback_errors bus event p = elim (Bool-cases (event == all_events)) [
      | inl e ↦ rw (e, invoke_all_lem) refl
      | inr e ↦ rw (e, invoke_all_lem, invoke_all_lem) (omega arith)
    ]

  abbrev registering : Callback → EventBus Payload Callback → EventBus Payload Callback
  registering g b = record b {
    callbacks = Dict.put all_events (handlers all_events b ++ g ∷ []) b.callbacks;
  }

  -- If the only handler of an event registers, while the event is published, a handler of all
  -- events that raises, then the same `publish` already calls the new handler and counts its error.
  pub publish-registering :
      (bus : EventBus Payload Callback) (event : String) (p : Payload) (f g : Callback)
      → event ≢ all_events
      → handlers event bus ≡ f ∷ []
      → handlers all_events bus ≡ []
      → ((b : EventBus Payload Callback) → invoke f event p b ≡ (registering g b, false))
      → ((b : EventBus Payload Callback) → invoke g event p b ≡ (b, true))
      → (publish invoke bus event p).0.callback_errors ≡ bus.callback_errors + 1
  unfolding publish invoke_all
  publish-registering bus event p f g ne only none_all registers raised =
      elim (Bool-cases (event == all_events)) [
        | inl e ↦ absurd (ne ((string_key.same_iff event all_events).0 e))
        | inr e ↦ rw (e, only, invoke_all, registers, Dict.get-put, none_all, raised) refl
      ]
