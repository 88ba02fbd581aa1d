-- ===== src/Session/Dispatch/Delivery.antt =====
-- Which listeners an event reaches.
use mathlib.Core.List.{append-nil, append_assoc}
use copilot_sdk_swift.Prelude.{
  ℕ, suc, ◌<◌, ◌≡◌, refl, true, false, ap, inl, inr, ◌∙◌, List, [], ◌∷◌, ◌++◌, some, arith, length,
}
use copilot_sdk_swift.Js.JsSet
use copilot_sdk_swift.Js.JsSet.{JsSet, members, visit_all}
use copilot_sdk_swift.Js.JsSet.Laws.{for_each-members}
use copilot_sdk_swift.Js.Outcome.{Outcome-cases}
use copilot_sdk_swift.Session.State.{
  Session, SessionEvent, event_type, external_tool_requested, permission_requested,
}
use copilot_sdk_swift.Session.Subscribe.{typed_slots}
use copilot_sdk_swift.Session.Broadcast.{handle_broadcast_event}
use copilot_sdk_swift.Session.Dispatch.{
  Listeners, Dispatching, call_listener, deliver, dispatch_event,
}

-- The listeners that change no subscriptions during this event; they may throw.
abbrev pub IsPassive : Listeners → SessionEvent → Type 0
IsPassive listeners event = (h : ℕ) → (listeners h event).0 ≡ []

module _ (listeners : Listeners) (event : SessionEvent) (passive : IsPassive listeners event) where
  call_listener_passive :
      (h : ℕ) (d : Dispatching)
      → call_listener listeners event h d
        ≡ record { session = d.session; called = d.called ++ h ∷ [] }
  unfolding call_listener
  call_listener_passive h d = elim (Outcome-cases (listeners h event).1) [
    | inl (x, e) ↦ ground (arith, e, passive h)
    | inr (x, e) ↦ ground (arith, e, passive h)
  ]

  visit_all_passive :
      (slots : Dispatching → JsSet) (hs : List ℕ) (d : Dispatching)
      → visit_all slots (call_listener listeners event) hs d
        ≡ record { session = d.session; called = d.called ++ hs }
  unfolding visit_all
  visit_all_passive slots [] d = ground (arith, append-nil d.called)
  visit_all_passive slots (h ∷ hs) d =
      rw (call_listener_passive h d)
        (visit_all_passive slots hs _ ∙ ground (arith, append_assoc d.called (h ∷ []) hs))

  loop_passive :
      (f : Session → JsSet) (fuel : ℕ) (d : Dispatching)
      → length (f d.session) < fuel
      → JsSet.for_each (λ x. f x.session) (call_listener listeners event) fuel 0 d
        ≡ some (record { session = d.session; called = d.called ++ members (f d.session) })
  loop_passive f fuel d h =
      for_each-members (λ x. f x.session) (call_listener listeners event)
        (λ j x. ap (λ (y : Dispatching). f y.session) (call_listener_passive j x)) fuel 0 d
        (omega arith) (omega arith)
      ∙ ap some (visit_all_passive (λ x. f x.session) (members (f d.session)) d)

  deliver_passive :
      (fuel : ℕ) (s : Session)
      → length (typed_slots (event_type event) s) < fuel
      → length s.event_handlers < fuel
      → deliver listeners event fuel (record { session = s; called = [] })
        ≡ some (record {
          session = s;
          called = members (typed_slots (event_type event) s) ++ members s.event_handlers;
        })
  unfolding deliver
  deliver_passive fuel s typed any =
      rw
        (
          loop_passive (typed_slots (event_type event)) fuel (record { session = s; called = [] })
              typed,
          deliver,
        )
        (loop_passive (λ x. x.event_handlers) fuel
          (record { session = s; called = members (typed_slots (event_type event) s) }) any)

  -- An event reaches every listener that is subscribed to its type, and then every listener of all
  -- events, in the order of subscription and once each, also if some of them throw; if none of them
  -- changes the subscriptions and the fuel is more than the slots of either set.
  pub dispatch_event_passive :
      (fuel : ℕ) (s : Session)
      → length (typed_slots (event_type event) (handle_broadcast_event event s).0) < fuel
      → length (handle_broadcast_event event s).0.event_handlers < fuel
      → dispatch_event listeners event fuel s
        ≡ some (
          record {
            session = (handle_broadcast_event event s).0;
            called =
                members (typed_slots (event_type event) (handle_broadcast_event event s).0)
                ++ members (handle_broadcast_event event s).0.event_handlers;
          },
          (handle_broadcast_event event s).1,
        )
  unfolding dispatch_event
  dispatch_event_passive fuel s typed any =
      rw (deliver_passive fuel (handle_broadcast_event event s).0 typed any, dispatch_event)

handlers-handle_broadcast_event :
    (event : SessionEvent) (s : Session)
    → ((handle_broadcast_event event s).0.event_handlers ≡ s.event_handlers)
      × ((handle_broadcast_event event s).0.typed_event_handlers ≡ s.typed_event_handlers)
unfolding handle_broadcast_event
handlers-handle_broadcast_event (external_tool_requested _ _ _ _ _ _) s = (refl, refl)
handlers-handle_broadcast_event (permission_requested _ _ true) s = (refl, refl)
handlers-handle_broadcast_event (permission_requested _ _ false) s = (refl, refl)
handlers-handle_broadcast_event _ s = (refl, refl)

pub loop-empty :
    (listeners : Listeners) (event : SessionEvent) (f : Dispatching → JsSet) (fuel : ℕ)
    (d : Dispatching)
    → f d ≡ []
    → JsSet.for_each f (call_listener listeners event) (suc fuel) 0 d ≡ some d
unfolding JsSet.for_each
loop-empty listeners event f fuel d e = rw (e, JsSet.for_each)

-- Where nobody listens, an event calls nobody.
pub dispatch_event_unheard :
    (listeners : Listeners) (event : SessionEvent) (fuel : ℕ) (s : Session)
    → typed_slots (event_type event) s ≡ []
    → s.event_handlers ≡ []
    → dispatch_event listeners event (suc fuel) s
      ≡ some (
        record { session = (handle_broadcast_event event s).0; called = [] },
        (handle_broadcast_event event s).1,
      )
unfolding dispatch_event deliver
dispatch_event_unheard listeners event fuel s typed any =
    let d : Dispatching = record { session = (handle_broadcast_event event s).0; called = [] } in
    let (same_any, same_typed) = handlers-handle_broadcast_event event s in
    let typed' : typed_slots (event_type event) d.session ≡ [] =
      (unfold typed_slots in rw same_typed typed) in
    rw
      (
        loop-empty listeners event (λ x. typed_slots (event_type event) x.session) fuel d typed',
        dispatch_event,
      )
      (rw (
        loop-empty listeners event (λ x. x.session.event_handlers) fuel d (same_any ∙ any),
        deliver,
      ))
