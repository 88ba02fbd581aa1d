-- ===== src/Client/Machine/Registry.antt =====
-- A client knows each session by the session's own id.
use copilot_sdk_swift.Prelude.{
  ℕ, String, ◌≡◌, refl, sym, ap, ◌∙◌, true, false, Option, some, List, [], ◌∷◌, ◌==◌, eq_iff, arith,
  All, inl, inr, Bool-cases, Option-cases, if-true, if-false,
}
use copilot_sdk_swift.Js.JsMap
use copilot_sdk_swift.Js.JsMap.{JsMap}
use copilot_sdk_swift.Js.JsSet
use copilot_sdk_swift.Js.JsSet.{JsSet}
use copilot_sdk_swift.Js.JsSet.Laws.{for_each-keeps}
use copilot_sdk_swift.Js.Outcome.{Outcome-cases}
use copilot_sdk_swift.Session.State.{
  Session, SessionEvent, permission_requested, external_tool_requested, event_type,
}
use copilot_sdk_swift.Session.Subscribe.{on_typed, on_any, off_typed, off_any, typed_slots}
use copilot_sdk_swift.Session.Broadcast.{Task, handle_broadcast_event}
use copilot_sdk_swift.Session.Dispatch.{
  Subscription, subscribe_typed, unsubscribe_typed, subscribe_any, unsubscribe_any,
  apply_subscription, apply_all, Listeners, Dispatching, call_listener, deliver, dispatch_event,
}

abbrev pub IsNamed : String × Session → Type 0
IsNamed (id, s) = s.session_id ≡ id

abbrev pub IsRegistry : JsMap Session → Type 0
IsRegistry m = All IsNamed m

pub set-IsRegistry :
    (id : String) (s : Session) (m : JsMap Session)
    → s.session_id ≡ id
    → IsRegistry m
    → IsRegistry (JsMap.set id s m)
unfolding JsMap.set
set-IsRegistry id s [] e r = (e, tt)
set-IsRegistry id s ((j, t) ∷ m) e r = elim (Bool-cases (j == id)) [
  | inl b ↦ rw (b, JsMap.set) (e ∙ sym ((eq_iff j id).0 b), r.1)
  | inr b ↦ rw (b, JsMap.set) (r.0, set-IsRegistry id s m e r.1)
]

pub delete-IsRegistry :
    (id : String) (m : JsMap Session) → IsRegistry m → IsRegistry (JsMap.delete id m)
unfolding JsMap.delete
delete-IsRegistry id [] r = tt
delete-IsRegistry id ((j, t) ∷ m) r = elim (Bool-cases (j == id)) [
  | inl b ↦ rw (b, JsMap.delete) (delete-IsRegistry id m r.1)
  | inr b ↦ rw (b, JsMap.delete) (r.0, delete-IsRegistry id m r.1)
]

pub get-IsRegistry :
    (id : String) (s : Session) (m : JsMap Session)
    → IsRegistry m
    → JsMap.get id m ≡ some s
    → s.session_id ≡ id
unfolding JsMap.get
get-IsRegistry id s [] r h = absurd (cc h)
get-IsRegistry id s ((j, t) ∷ m) r h = elim (Bool-cases (j == id)) [
  | inl b ↦
      let same : some t ≡ some s = sym (if-true (j == id) _ _ b) ∙ h in
      let st : t ≡ s = cc same in rw (← st) (r.0 ∙ (eq_iff j id).0 b)
  | inr b ↦ get-IsRegistry id s m r.1 (sym (if-false (j == id) _ _ b) ∙ h)
]

-- The dispatch of an event leaves the id of the session.
pub session_id-apply_subscription :
    (op : Subscription) (s : Session) → (apply_subscription op s).session_id ≡ s.session_id
unfolding apply_subscription on_typed on_any off_typed off_any
session_id-apply_subscription (subscribe_typed t h) s = refl
session_id-apply_subscription (unsubscribe_typed t h) s = ground arith
session_id-apply_subscription (subscribe_any h) s = refl
session_id-apply_subscription (unsubscribe_any h) s = refl

session_id-apply_all :
    (ops : List Subscription) (s : Session) → (apply_all ops s).session_id ≡ s.session_id
unfolding apply_all
session_id-apply_all [] s = refl
session_id-apply_all (op ∷ ops) s =
    session_id-apply_all ops (apply_subscription op s) ∙ session_id-apply_subscription op s

session_id-handle_broadcast_event :
    (event : SessionEvent) (s : Session)
    → (handle_broadcast_event event s).0.session_id ≡ s.session_id
unfolding handle_broadcast_event
session_id-handle_broadcast_event (external_tool_requested _ _ _ _ _ _) s = refl
session_id-handle_broadcast_event (permission_requested _ _ true) s = refl
session_id-handle_broadcast_event (permission_requested _ _ false) s = refl
session_id-handle_broadcast_event _ s = refl

session_id-call_listener :
    (listeners : Listeners) (event : SessionEvent) (h : ℕ) (d : Dispatching)
    → (call_listener listeners event h d).session.session_id ≡ d.session.session_id
unfolding call_listener
session_id-call_listener listeners event h d = elim (Outcome-cases (listeners h event).1) [
  | inl (x, e) ↦ rw (e, call_listener) (session_id-apply_all (listeners h event).0 d.session)
  | inr (x, e) ↦ rw (e, call_listener) (session_id-apply_all (listeners h event).0 d.session)
]

module _ (listeners : Listeners) (event : SessionEvent) where
  deliver-keeps :
      (fuel : ℕ) (d r : Dispatching)
      → deliver listeners event fuel d ≡ some r
      → r.session.session_id ≡ d.session.session_id
  unfolding deliver
  deliver-keeps fuel d r h =
      let loop = λ (slots : Dispatching → JsSet).
        JsSet.for_each slots (call_listener listeners event) fuel 0 in
      let named = λ (x : Dispatching). x.session.session_id ≡ d.session.session_id in
      let keep = λ (j : ℕ) (x : Dispatching) (e : x.session.session_id ≡ d.session.session_id).
        session_id-call_listener listeners event j x ∙ e in
      elim (Option-cases (loop (λ x. typed_slots (event_type event) x.session) d)) [
        | inl e ↦ absurd (ground (arith, e, h))
        | inr (m, e) ↦
            for_each-keeps (λ x. x.session.event_handlers) (call_listener listeners event) named
              keep fuel 0 m r
              (for_each-keeps (λ x. typed_slots (event_type event) x.session)
                (call_listener listeners event) named keep fuel 0 d m refl e)
              (ground (arith, e, h))
      ]

  pub session_id-dispatch_event :
      (fuel : ℕ) (s : Session) (d : Dispatching) (task : Option Task)
      → dispatch_event listeners event fuel s ≡ some (d, task)
      → d.session.session_id ≡ s.session_id
  unfolding dispatch_event
  session_id-dispatch_event fuel s d task h =
      let start : Dispatching = record {
        session = (handle_broadcast_event event s).0;
        called = [];
      } in
      elim (Option-cases (deliver listeners event fuel start)) [
        | inl e ↦ absurd (ground (arith, e, h))
        | inr (r, e) ↦
            let same : r ≡ d = ground (arith, e, h) in
            ap (λ (x : Dispatching). x.session.session_id) (sym same)
            ∙ deliver-keeps fuel start r e
            ∙ session_id-handle_broadcast_event event s
      ]
