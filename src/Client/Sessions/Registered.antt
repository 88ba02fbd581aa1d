-- ===== src/Client/Sessions/Registered.antt =====
-- Which sessions a client has after `createSession` and `resumeSession`.
use copilot_sdk_swift.Prelude.{
  String, ◌≡◌, none, some, List, [], ◌∷◌, ◌++◌, ◌==◌, if◌then◌else◌, arith, ◌∙◌, ap, inl, inr, sym,
  eq_refl,
}
use copilot_sdk_swift.Js.Outcome.{Thrown, ok, throw, Outcome-cases}
use copilot_sdk_swift.Js.JsMap
use copilot_sdk_swift.Js.JsMap.{get-set, get-delete}
use copilot_sdk_swift.Rpc.{Request, Peer}
use copilot_sdk_swift.Session.State.{Session}
use copilot_sdk_swift.Client.State.{Client}
use copilot_sdk_swift.Client.Incoming.{with_session}
use copilot_sdk_swift.Client.SessionConfig.{SessionConfig, prepare_session}
use copilot_sdk_swift.Client.Sessions.{
  make_fs_handler, missing_fs_handler, without_session, request_session, open_session, Opened,
  answer_of,
}

module _ (peer : Peer) (r : Request) (id : String) (config : SessionConfig) (c : Client)
    (sent : List Request) where
  request_session-ok :
      (s0 s : Session) (c0 c' : Client) (sent' : List Request)
      → request_session peer r id s0 c0 sent ≡ (ok s, c', sent')
      → c' ≡ with_session id s c0
  unfolding request_session
  request_session-ok s0 s c0 c' sent' h = elim (Outcome-cases (answer_of peer sent r s0)) [
    | inl (s1, e) ↦
        let eq : (ok s1, with_session id s1 c0, sent ++ r ∷ []) ≡ (ok s, c', sent') =
          ground (arith, e, h) in
        let same : s1 ≡ s = cc eq in
        sym (ap (λ (p : Opened). p.1) eq) ∙ ap (λ (x : Session). with_session id x c0) same
    | inr (x, e) ↦ absurd (ground (arith, e, h))
  ]

  -- The session that is returned is the one that the client has under its id, and its other sessions
  -- are as before.
  pub open_session-ok :
      (s : Session) (c' : Client) (sent' : List Request)
      → open_session peer r id config c sent ≡ (ok s, c', sent')
      → (j : String)
      → JsMap.get j c'.sessions ≡ (if id == j then some s else JsMap.get j c.sessions)
  unfolding open_session
  open_session-ok s c' sent' h j = elim (Outcome-cases (make_fs_handler config c)) [
    | inl (x, f) ↦
        let s0 = prepare_session id config in
        let eq = request_session-ok s0 s (with_session id s0 c) c' sent' (ground (arith, f, h)) in
        ap (λ (x : Client). JsMap.get j x.sessions) eq
        ∙ get-set id j s (with_session id s0 c).sessions
        ∙ ground (arith, get-set id j s0 c.sessions)
    | inr (x, f) ↦ absurd (ground (arith, f, h))
  ]

  -- If the CLI refuses the request, the client has no session under the id, not even one that it had
  -- before; its other sessions are as before.
  pub open_session-refused :
      (e : Thrown)
      → make_fs_handler config c ≡ ok tt
      → peer sent r ≡ throw e
      → (j : String)
      → ((open_session peer r id config c sent).0 ≡ throw e)
        × (JsMap.get j (open_session peer r id config c sent).1.sessions
            ≡ (if id == j then none else JsMap.get j c.sessions))
  unfolding open_session request_session
  open_session-refused e f h j =
      let c0 = with_session id (prepare_session id config) c in
      let outcome : open_session peer r id config c sent
          ≡ (throw e, without_session id c0, sent ++ r ∷ []) =
        ground (arith, f, h) in
      (
        ap (λ (p : Opened). p.0) outcome,
        ap (λ (p : Opened). JsMap.get j p.1.sessions) outcome
            ∙ get-delete id j c0.sessions
            ∙ ground (arith, get-set id j (prepare_session id config) c.sessions),
      )

  -- If the file system handler is missing, the call throws, but the session stays registered.
  pub open_session-no_fs_handler :
      make_fs_handler config c ≡ throw missing_fs_handler
      → ((open_session peer r id config c sent).0 ≡ throw missing_fs_handler)
        × (JsMap.get id (open_session peer r id config c sent).1.sessions
            ≡ some (prepare_session id config))
  unfolding open_session
  open_session-no_fs_handler f =
      let s = prepare_session id config in
      let outcome : open_session peer r id config c sent
          ≡ (throw missing_fs_handler, with_session id s c, sent) =
        ground (arith, f) in
      (
        ap (λ (p : Opened). p.0) outcome,
        ap (λ (p : Opened). JsMap.get id p.1.sessions) outcome
            ∙ get-set id id s c.sessions
            ∙ ground (arith, eq_refl id),
      )

  pub sent-open_session :
      make_fs_handler config c ≡ ok tt → (open_session peer r id config c sent).2 ≡ sent ++ r ∷ []
  unfolding open_session request_session
  sent-open_session f = elim (Outcome-cases (answer_of peer sent r (prepare_session id config))) [
    | inl (s, e) ↦ ground (arith, f, e)
    | inr (x, e) ↦ ground (arith, f, e)
  ]
