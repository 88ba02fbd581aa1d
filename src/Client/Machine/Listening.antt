-- ===== src/Client/Machine/Listening.antt =====
-- The listeners of a client and the calls on its sessions keep the invariant of a client.
use copilot_sdk_swift.Prelude.{
  ℕ, String, ◌≡◌, refl, ◌∙◌, Option, none, some, List, [], ◌∷◌, arith, inl, inr, Option-cases,
}
use copilot_sdk_swift.Js.Value.{Value}
use copilot_sdk_swift.Js.Outcome.{Outcome-cases}
use copilot_sdk_swift.Js.JsMap
use copilot_sdk_swift.Js.JsSet
use copilot_sdk_swift.Js.JsSet.{JsSet}
use copilot_sdk_swift.Js.JsSet.Laws.{for_each-keeps}
use copilot_sdk_swift.Session.State.{Session, SessionCapabilities}
use copilot_sdk_swift.Session.Subscribe.{
  register_tools, register_commands, register_elicitation_handler, register_permission_handler,
  register_user_input_handler, register_hooks, register_transform_callbacks, set_capabilities,
}
use copilot_sdk_swift.Session.Requests
use copilot_sdk_swift.Session.Requests.{destroy_request, disconnect}
use copilot_sdk_swift.Rpc.{Request, Peer}
use copilot_sdk_swift.Client.State.{Client}
use copilot_sdk_swift.Client.Incoming.{with_session}
use copilot_sdk_swift.Client.Lifecycle.{
  SessionLifecycleEvent, LifecycleListeners, LifecycleSubscription, Announced, subscribe_typed,
  unsubscribe_typed, subscribe_any, unsubscribe_any, on_lifecycle, on_any_lifecycle, off_lifecycle,
  off_any_lifecycle, apply_lifecycle, lifecycle_event, lifecycle_slots, call_lifecycle, announce,
  handle_session_lifecycle_notification,
}
use copilot_sdk_swift.Client.Machine.{
  ◌⇢◌, subscribes, takes_tools, takes_commands, takes_elicitation, takes_permission,
  takes_user_input, takes_hooks, takes_transform, takes_capabilities, disconnects,
}
use copilot_sdk_swift.Client.Machine.Registry.{get-IsRegistry, session_id-apply_subscription}
use copilot_sdk_swift.Client.Machine.Kept.{Inv, same-IsReady, with_session-Inv}

-- The same client with other listeners.
with_listeners-Inv :
    (c : Client) (hs : JsSet) (typed : JsMap.JsMap JsSet)
    → Inv c
    → Inv (record c { session_lifecycle_handlers = hs; typed_lifecycle_handlers = typed })
with_listeners-Inv c hs typed v = record {
  ready = λ e. same-IsReady refl refl (v.ready e);
  registry = v.registry;
  child = v.child;
  process = v.process;
}

off_lifecycle-Inv : (t : String) (h : ℕ) (c : Client) → Inv c → Inv (off_lifecycle t h c)
unfolding off_lifecycle
off_lifecycle-Inv t h c v = elim (Option-cases (JsMap.get t c.typed_lifecycle_handlers)) [
  | inl e ↦ rw (e, off_lifecycle) v
  | inr (hs, e) ↦ rw (e, off_lifecycle) (with_listeners-Inv c c.session_lifecycle_handlers _ v)
]

pub apply_lifecycle-Inv :
    (ops : List LifecycleSubscription) (c : Client) → Inv c → Inv (apply_lifecycle ops c)
unfolding apply_lifecycle on_lifecycle on_any_lifecycle off_any_lifecycle
apply_lifecycle-Inv [] c v = v
apply_lifecycle-Inv (subscribe_typed t h ∷ ops) c v =
    apply_lifecycle-Inv ops _ (with_listeners-Inv c c.session_lifecycle_handlers _ v)
apply_lifecycle-Inv (unsubscribe_typed t h ∷ ops) c v =
    apply_lifecycle-Inv ops _ (off_lifecycle-Inv t h c v)
apply_lifecycle-Inv (subscribe_any h ∷ ops) c v =
    apply_lifecycle-Inv ops _ (with_listeners-Inv c _ c.typed_lifecycle_handlers v)
apply_lifecycle-Inv (unsubscribe_any h ∷ ops) c v =
    apply_lifecycle-Inv ops _ (with_listeners-Inv c _ c.typed_lifecycle_handlers v)

module _ (listeners : LifecycleListeners) where
  call_lifecycle-Inv :
      (event : SessionLifecycleEvent) (h : ℕ) (d : Announced)
      → Inv d.client
      → Inv (call_lifecycle listeners event h d).client
  unfolding call_lifecycle
  call_lifecycle-Inv event h d v = elim (Outcome-cases (listeners h event).1) [
    | inl (x, e) ↦ rw (e, call_lifecycle) (apply_lifecycle-Inv (listeners h event).0 d.client v)
    | inr (x, e) ↦ rw (e, call_lifecycle) (apply_lifecycle-Inv (listeners h event).0 d.client v)
  ]

  announce-Inv :
      (event : SessionLifecycleEvent) (fuel : ℕ) (d r : Announced)
      → announce listeners event fuel d ≡ some r
      → Inv d.client
      → Inv r.client
  unfolding announce
  announce-Inv event fuel d r h v =
      let slots = λ (x : Announced). lifecycle_slots event.event_type x.client in
      let visit = call_lifecycle listeners event in
      let good = λ (x : Announced). Inv x.client in
      elim (Option-cases (JsSet.for_each slots visit fuel 0 d)) [
        | inl e ↦ absurd (ground (arith, e, h))
        | inr (m, e) ↦
            for_each-keeps (λ x. x.client.session_lifecycle_handlers) visit good
              (call_lifecycle-Inv event) fuel 0 m r
              (for_each-keeps slots visit good (call_lifecycle-Inv event) fuel 0 d m v e)
              (ground (arith, e, h))
      ]

  pub hears_lifecycle-Inv :
      (fuel : ℕ) (notification : Value) (c : Client) (r : Announced)
      → handle_session_lifecycle_notification listeners fuel notification c ≡ some r
      → Inv c
      → Inv r.client
  unfolding handle_session_lifecycle_notification
  hears_lifecycle-Inv fuel notification c r h v =
      let quiet : Announced = record { client = c; called = [] } in
      elim (Option-cases (lifecycle_event notification)) [
        | inl e ↦ let same : quiet ≡ r = ground (arith, e, h) in rw (← same) v
        | inr (event, e) ↦ announce-Inv event fuel quiet r (ground (arith, e, h)) v
      ]

session_id-set_capabilities :
    (cs : Option SessionCapabilities) (s : Session)
    → (set_capabilities cs s).session_id ≡ s.session_id
unfolding set_capabilities
session_id-set_capabilities none s = refl
session_id-set_capabilities (some c) s = refl

session_id-disconnect :
    (peer : Peer) (sent : List Request) (s : Session)
    → (disconnect peer s sent).0.session_id ≡ s.session_id
unfolding disconnect Requests.released
session_id-disconnect peer sent s = elim (Outcome-cases (peer sent (destroy_request s))) [
  | inl (x, e) ↦ ground (arith, e)
  | inr (x, e) ↦ ground (arith, e)
]

-- A call on a session leaves its id.
session_id-⇢ : (s t : Session) → s ⇢ t → t.session_id ≡ s.session_id
unfolding register_tools register_commands register_elicitation_handler register_permission_handler
    register_user_input_handler register_hooks register_transform_callbacks
session_id-⇢ s t (subscribes op) = session_id-apply_subscription op s
session_id-⇢ s t (takes_tools _) = refl
session_id-⇢ s t (takes_commands _) = refl
session_id-⇢ s t (takes_elicitation _) = refl
session_id-⇢ s t (takes_permission _) = refl
session_id-⇢ s t (takes_user_input _) = refl
session_id-⇢ s t (takes_hooks _) = refl
session_id-⇢ s t (takes_transform _) = refl
session_id-⇢ s t (takes_capabilities cs) = session_id-set_capabilities cs s
session_id-⇢ s t (disconnects peer sent) = session_id-disconnect peer sent s

pub uses-Inv :
    (id : String) (s t : Session) (c : Client)
    → JsMap.get id c.sessions ≡ some s
    → s ⇢ t
    → Inv c
    → Inv (with_session id t c)
uses-Inv id s t c g step v =
    with_session-Inv id t c v (session_id-⇢ s t step ∙ get-IsRegistry id s c.sessions v.registry g)
