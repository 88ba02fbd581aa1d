-- ===== src/Client/Machine/Calls.antt =====
-- The calls that keep the invariant of a client.
use copilot_sdk_swift.Prelude.{
  ℕ, String, ◌≡◌, refl, ap, ◌∙◌, Option, some, List, arith, inl, inr, Option-cases,
}
use copilot_sdk_swift.Js.Value.{Value}
use copilot_sdk_swift.Js.JsMap
use copilot_sdk_swift.Js.Outcome.{Outcome, Outcome-cases}
use copilot_sdk_swift.Rpc.{Request, Peer}
use copilot_sdk_swift.Session.State.{Session, SessionEvent}
use copilot_sdk_swift.Session.Dispatch.{Listeners, dispatch_event}
use copilot_sdk_swift.Client.State.{Client}
use copilot_sdk_swift.Client.Start.{StartWorld}
use copilot_sdk_swift.Client.Stop
use copilot_sdk_swift.Client.Stop.{Teardown, stop, force_stop, owns_process}
use copilot_sdk_swift.Client.SessionConfig.{SessionConfig, prepare_session}
use copilot_sdk_swift.Client.Sessions.{
  answer_of, begin, ensure_started, make_fs_handler, open_session, request_session,
}
use copilot_sdk_swift.Client.Sessions.Kept.{answer_of-Keeps, prepare_session-Keeps}
use copilot_sdk_swift.Client.Queries.{
  ask, delete_request, delete_session, fetch_models, list_models, read_deletion,
}
use copilot_sdk_swift.Client.Queries.Answered.{
  delete_session-deleted, delete_session-failed, list_models-failed, list_models-filled,
  list_models-hit,
}
use copilot_sdk_swift.Client.Incoming.{
  addressed, ignored, Notified, with_session, handle_session_event_notification,
}
use copilot_sdk_swift.Client.Machine.Registry.{get-IsRegistry, session_id-dispatch_event}
use copilot_sdk_swift.Client.Machine.Kept.{
  Inv, with_cache-Inv, with_session-Inv, without_session-Inv, ensure_started-Inv,
}

pub request_session-Inv :
    (peer : Peer) (r : Request) (id : String) (s : Session) (c : Client) (sent : List Request)
    → s.session_id ≡ id
    → Inv c
    → Inv (request_session peer r id s c sent).1
unfolding request_session
request_session-Inv peer r id s c sent e v = elim (Outcome-cases (answer_of peer sent r s)) [
  | inl (s', a) ↦
      rw (a, request_session)
        (with_session-Inv id s' c v
          (answer_of-Keeps peer r id sent s s' (record { named = e; permission = refl }) a).named)
  | inr (x, a) ↦ rw (a, request_session) (without_session-Inv id c v)
]

pub open_session-Inv :
    (peer : Peer) (r : Request) (id : String) (config : SessionConfig) (c : Client)
    (sent : List Request)
    → Inv c
    → Inv (open_session peer r id config c sent).1
unfolding open_session
open_session-Inv peer r id config c sent v =
    let s = prepare_session id config in
    let k = prepare_session-Keeps id config in
    let registered = with_session-Inv id s c v k.named in
    elim (Outcome-cases (make_fs_handler config c)) [
      | inl (x, e) ↦
          rw (e, open_session)
            (request_session-Inv peer r id s (with_session id s c) sent k.named registered)
      | inr (x, e) ↦ rw (e, open_session) registered
    ]

pub begin-Inv :
    (peer : Peer) (w : StartWorld) (doing id : String) (r : Request) (config : SessionConfig)
    (c : Client) (sent : List Request)
    → Inv c
    → Inv (begin peer w doing id r config c sent).1
begin-Inv peer w doing id r config c sent v = elim (Option-cases config.on_permission_request) [
  | inl p ↦ rw (p, begin) v
  | inr (handler, p) ↦ elim (Outcome-cases (ensure_started w c).0) [
    | inl (x, e) ↦
        rw (p, e, begin)
          (open_session-Inv peer r id config (ensure_started w c).1 sent (ensure_started-Inv w c v))
    | inr (x, e) ↦ rw (p, e, begin) (ensure_started-Inv w c v)
  ]
]

pub released-Inv : (c : Client) → Inv c → Inv (Stop.released c)
unfolding Stop.released
released-Inv c v = record {
  ready = λ e. absurd (cc e);
  registry = tt;
  child = v.child;
  process = λ e. let none = v.process e in ground (arith, none);
}

pub delete_session-Inv :
    (peer : Peer) (c : Client) (id : String) (sent : List Request)
    → Inv c
    → Inv (delete_session peer c id sent).1
delete_session-Inv peer c id sent v =
    let asked = ask peer c (delete_request id) (read_deletion id) sent in
    elim (Outcome-cases asked.0) [
      | inl (x, e) ↦
          rw
            (delete_session-deleted peer c id sent asked.1
              (ap (λ (o : Outcome (Unit {0})). (o, asked.1)) e))
            (without_session-Inv id c v)
      | inr (x, e) ↦
          rw
            (delete_session-failed peer c id sent x asked.1
              (ap (λ (o : Outcome (Unit {0})). (o, asked.1)) e))
            v
    ]

pub list_models-Inv :
    (peer : Peer) (handler : Option (Outcome (List Value))) (c : Client) (sent : List Request)
    → Inv c
    → Inv (list_models peer handler c sent).1
list_models-Inv peer handler c sent v = elim (Option-cases c.models_cache) [
  | inr (models, m) ↦ rw (list_models-hit peer handler c sent models m) v
  | inl m ↦ elim (Outcome-cases (fetch_models peer handler c sent).0) [
    | inl (models, o) ↦
        rw (list_models-filled peer handler c sent models m o) (with_cache-Inv c (some models) v)
    | inr (x, o) ↦ rw (list_models-failed peer handler c sent x m o) v
  ]
]

module _ (as_event : Value → SessionEvent) (listeners : Listeners) where
  pub hears-Inv :
      (fuel : ℕ) (notification : Value) (c : Client) (r : Notified)
      → handle_session_event_notification as_event listeners fuel notification c ≡ some r
      → Inv c
      → Inv r.client
  unfolding handle_session_event_notification
  hears-Inv fuel notification c r h v = elim (Option-cases (addressed notification)) [
    | inl a ↦ let same : ignored c ≡ r = ground (arith, a, h) in rw (← same) v
    | inr ((id, event), a) ↦ elim (Option-cases (JsMap.get id c.sessions)) [
      | inl g ↦ let same : ignored c ≡ r = ground (arith, a, g, h) in rw (← same) v
      | inr (s, g) ↦ elim (Option-cases (dispatch_event listeners (as_event event) fuel s)) [
        | inl d ↦ absurd (ground (arith, a, g, d, h))
        | inr ((d, task), e) ↦
            let named =
              session_id-dispatch_event listeners (as_event event) fuel s d task e
              ∙ get-IsRegistry id s c.sessions v.registry g in
            let same : with_session id d.session c ≡ r.client = ground (arith, a, g, e, h) in
            rw (← same) (with_session-Inv id d.session c v named)
      ]
    ]
  ]
