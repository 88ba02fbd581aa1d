-- ===== src/Client/Sessions/Opening.antt =====
-- What `createSession` and `resumeSession` of client.ts do on a client with and without a connection.
use copilot_sdk_swift.Prelude.{
  ℕ, ◌<◌, String, ◌≡◌, refl, true, false, Option, none, some, List, [], ◌∷◌, ◌++◌, ◌==◌,
  if◌then◌else◌, arith, ◌∙◌, ap, Option-cases, inl, inr,
}
use copilot_sdk_swift.Js.Outcome.{Thrown, Outcome, ok, throw, Outcome-cases}
use copilot_sdk_swift.Js.JsMap
use copilot_sdk_swift.Rpc.{Request, Peer}
use copilot_sdk_swift.Session.State.{Session, PermissionHandler}
use copilot_sdk_swift.Session.Requests.{TraceContext, get_trace_context}
use copilot_sdk_swift.Client.State.{Client, disconnected, failed}
use copilot_sdk_swift.Client.Start.{
  StartWorld, start, version_mismatch, sdk_protocol_version, no_port, attach,
}
use copilot_sdk_swift.Client.Start.Unsupported.{start_too_new}
use copilot_sdk_swift.Client.SessionConfig.{
  SessionConfig, prepare_session, create_request, resume_request,
}
use copilot_sdk_swift.Client.Sessions.{
  make_fs_handler, missing_fs_handler, open_session, Opened, begin, ensure_started, create_session,
  resume_session, id_or,
}
use copilot_sdk_swift.Client.Sessions.Registered.{
  open_session-ok, open_session-refused, open_session-no_fs_handler, sent-open_session,
}

module _ (peer : Peer) (w : StartWorld) (trace : Option (Outcome (Option TraceContext)))
    (config : SessionConfig) (c : Client) (sent : List Request) where
  begin-ok :
      (doing id : String) (r : Request) (s : Session) (c' : Client) (sent' : List Request)
      → begin peer w doing id r config c sent ≡ (ok s, c', sent')
      → (j : String)
      → JsMap.get j c'.sessions
        ≡ (if id == j then some s else JsMap.get j (ensure_started w c).1.sessions)
  begin-ok doing id r s c' sent' h j = elim (Option-cases config.on_permission_request) [
    | inl p ↦ absurd (ground (arith, p, h))
    | inr (handler, p) ↦ elim (Outcome-cases (ensure_started w c).0) [
      | inr (x, e) ↦ absurd (ground (arith, p, e, h))
      | inl (x, e) ↦
          open_session-ok peer r id config (ensure_started w c).1 sent s c' sent'
            (ground (arith, p, e, h)) j
    ]
  ]

  -- A session that `createSession` returns is the one that the client has under the configured id, or
  -- the random one; the other sessions are those after the start of the client.
  pub created_session_registered :
      (id : String) (s : Session) (c' : Client) (sent' : List Request)
      → create_session peer w trace id config c sent ≡ (ok s, c', sent')
      → (j : String)
      → JsMap.get j c'.sessions ≡ (
          if id_or id config.session_id == j
          then some s
          else JsMap.get j (ensure_started w c).1.sessions)
  unfolding create_session
  created_session_registered id s c' sent' h j =
      begin-ok "creating" (id_or id config.session_id)
        (create_request (get_trace_context trace) (id_or id config.session_id) config) s c' sent' h
        j

  -- Likewise a session that `resumeSession` returns is the one that the client has under the given id.
  pub resumed_session_registered :
      (id : String) (s : Session) (c' : Client) (sent' : List Request)
      → resume_session peer w trace id config c sent ≡ (ok s, c', sent')
      → (j : String)
      → JsMap.get j c'.sessions
        ≡ (if id == j then some s else JsMap.get j (ensure_started w c).1.sessions)
  unfolding resume_session
  resumed_session_registered id s c' sent' h j =
      begin-ok "resuming" id (resume_request (get_trace_context trace) id config) s c' sent' h j

  module _ (handler : PermissionHandler) (given : config.on_permission_request ≡ some handler)
      (online : c.connection ≡ true) where
    begin-connected :
        (doing id : String) (r : Request)
        → begin peer w doing id r config c sent ≡ open_session peer r id config c sent
    unfolding ensure_started
    begin-connected doing id r = ground (arith, given, online)

    create_session-connected :
        (id : String)
        → create_session peer w trace id config c sent
          ≡ open_session peer
              (create_request (get_trace_context trace) (id_or id config.session_id) config)
              (id_or id config.session_id)
              config
              c
              sent
    unfolding create_session
    create_session-connected id =
        begin-connected "creating" (id_or id config.session_id)
          (create_request (get_trace_context trace) (id_or id config.session_id) config)

    -- A `resumeSession` that the CLI refuses takes a session that the client has under this id off the
    -- client, although the CLI still has it; the other sessions stay.
    pub refused_resume_drops_session :
        (id : String) (e : Thrown)
        → make_fs_handler config c ≡ ok tt
        → peer sent (resume_request (get_trace_context trace) id config) ≡ throw e
        → (j : String)
        → ((resume_session peer w trace id config c sent).0 ≡ throw e)
          × (JsMap.get j (resume_session peer w trace id config c sent).1.sessions
              ≡ (if id == j then none else JsMap.get j c.sessions))
    unfolding resume_session
    refused_resume_drops_session id e f h j = rw begin-connected (
        open_session-refused peer (resume_request (get_trace_context trace) id config) id config c
          sent e f h j)

    -- Where the client is for a session file system and the session has no handler for it,
    -- `createSession` throws, but leaves the session, which was never created, with the client.
    pub failed_create_leaves_session :
        (id : String)
        → make_fs_handler config c ≡ throw missing_fs_handler
        → ((create_session peer w trace id config c sent).0 ≡ throw missing_fs_handler)
          × (JsMap.get
                (id_or id config.session_id)
                (create_session peer w trace id config c sent).1.sessions
              ≡ some (prepare_session (id_or id config.session_id) config))
    unfolding create_session
    failed_create_leaves_session id f = rw begin-connected (
        open_session-no_fs_handler peer
          (create_request (get_trace_context trace) (id_or id config.session_id) config)
          (id_or id config.session_id) config c sent f)

make_fs_handler-plain :
    (config : SessionConfig) (c : Client)
    → c.session_fs_config ≡ none
    → make_fs_handler config c ≡ ok tt
make_fs_handler-plain config c h = rw (h, make_fs_handler) refl

-- A client of an external server that speaks a version of the protocol which is too new.
module _ (peer : Peer) (w : StartWorld) (trace : Option (Outcome (Option TraceContext)))
    (config : SessionConfig) (c : Client) (sent : List Request) (handler : PermissionHandler)
    (v : ℕ) (given : config.on_permission_request ≡ some handler) (off : c.state ≡ disconnected)
    (external : c.is_external_server ≡ true) (child : c.is_child_process ≡ false)
    (stdio : c.use_stdio ≡ false) (port : no_port c.actual_port ≡ false)
    (plain : c.session_fs_config ≡ none) (reached : w.socket ≡ ok tt) (newer : w.ping ≡ ok (some v))
    (too_new : sdk_protocol_version < v) where
  -- `start` throws because of the version, but leaves the connection, so that `createSession` goes on to
  -- send its request without a version that was agreed on.
  pub unsupported_server_gets_sessions :
      (id : String)
      → ((start w c).0 ≡ throw (version_mismatch (some v)))
        × ((start w c).1.negotiated_protocol_version ≡ c.negotiated_protocol_version)
        × ((create_session peer w trace id config (start w c).1 sent).2
            ≡ sent
              ++ create_request (get_trace_context trace) (id_or id config.session_id) config ∷ [])
  unsupported_server_gets_sessions id =
      let r = create_request (get_trace_context trace) (id_or id config.session_id) config in
      let c1 = record (attach (record c { socket = true })) { state = failed } in
      let started = start_too_new w v reached newer too_new c off external child stdio port in
      (
        ap (λ (p : Outcome (Unit {0}) × Client). p.0) started,
        ap (λ (p : Outcome (Unit {0}) × Client). p.1.negotiated_protocol_version) started,
        ap (λ (p : Outcome (Unit {0}) × Client). (create_session peer w trace id config p.1 sent).2)
              started
            ∙ ap (λ (p : Opened). p.2)
                (create_session-connected peer w trace config c1 sent handler given refl id)
            ∙ sent-open_session peer r (id_or id config.session_id) config c1 sent
                (make_fs_handler-plain config c1 plain),
      )
