-- ===== src/Client/Lifecycle/Delivered.antt =====
-- Which listeners a notification of the life of a session reaches.
use mathlib.Core.List.{append-nil, append_assoc}
use copilot_sdk_swift.Prelude.{
  ℕ, ◌<◌, ◌≡◌, ap, inl, inr, ◌∙◌, List, [], ◌∷◌, ◌++◌, some, arith, length,
}
use copilot_sdk_swift.Js.Value.{Value}
use copilot_sdk_swift.Js.JsSet
use copilot_sdk_swift.Js.JsSet.{JsSet, members, visit_all}
use copilot_sdk_swift.Js.JsSet.Laws.{for_each-members}
use copilot_sdk_swift.Js.Outcome.{Outcome-cases}
use copilot_sdk_swift.Client.State.{Client}
use copilot_sdk_swift.Client.Lifecycle.{
  SessionLifecycleEvent, LifecycleListeners, Announced, lifecycle_slots, lifecycle_event,
  call_lifecycle, announce, handle_session_lifecycle_notification,
}

module _ (listeners : LifecycleListeners) (event : SessionLifecycleEvent)
    (passive : (h : ℕ) → (listeners h event).0 ≡ []) where
  call_lifecycle_passive :
      (h : ℕ) (d : Announced)
      → call_lifecycle listeners event h d
        ≡ record { client = d.client; called = d.called ++ h ∷ [] }
  unfolding call_lifecycle
  call_lifecycle_passive h d = elim (Outcome-cases (listeners h event).1) [
    | inl (x, e) ↦ ground (arith, e, passive h)
    | inr (x, e) ↦ ground (arith, e, passive h)
  ]

  visit_all_passive :
      (slots : Announced → JsSet) (hs : List ℕ) (d : Announced)
      → visit_all slots (call_lifecycle listeners event) hs d
        ≡ record { client = d.client; called = d.called ++ hs }
  unfolding visit_all
  visit_all_passive slots [] d = ground (arith, append-nil d.called)
  visit_all_passive slots (h ∷ hs) d =
      rw (call_lifecycle_passive h d)
        (visit_all_passive slots hs _ ∙ ground (arith, append_assoc d.called (h ∷ []) hs))

  loop_passive :
      (f : Client → JsSet) (fuel : ℕ) (d : Announced)
      → length (f d.client) < fuel
      → JsSet.for_each (λ x. f x.client) (call_lifecycle listeners event) fuel 0 d
        ≡ some (record { client = d.client; called = d.called ++ members (f d.client) })
  loop_passive f fuel d h =
      for_each-members (λ x. f x.client) (call_lifecycle listeners event)
        (λ j x. ap (λ (y : Announced). f y.client) (call_lifecycle_passive j x)) fuel 0 d
        (omega arith) (omega arith)
      ∙ ap some (visit_all_passive (λ x. f x.client) (members (f d.client)) d)

  -- A well-formed notification reaches the listeners of its type and then those of all notifications, each
  -- once and in the order of subscription, and leaves the client as it is; if no listener changes the
  -- subscriptions and the fuel is more than the slots of either set.
  pub handle_session_lifecycle_notification_passive :
      (notification : Value) (fuel : ℕ) (c : Client)
      → lifecycle_event notification ≡ some event
      → length (lifecycle_slots event.event_type c) < fuel
      → length c.session_lifecycle_handlers < fuel
      → handle_session_lifecycle_notification listeners fuel notification c
        ≡ some (record {
          client = c;
          called =
              members (lifecycle_slots event.event_type c) ++ members c.session_lifecycle_handlers;
        })
  unfolding handle_session_lifecycle_notification announce
  handle_session_lifecycle_notification_passive notification fuel c e typed any =
      rw (e, handle_session_lifecycle_notification)
        (rw
          (
            loop_passive (lifecycle_slots event.event_type) fuel
                (record { client = c; called = [] }) typed,
            announce,
          )
          (loop_passive (λ x. x.session_lifecycle_handlers) fuel
            (record { client = c; called = members (lifecycle_slots event.event_type c) }) any))
