-- ===== src/Tests/Openings.antt =====
-- Runs of the theorems about `createSession` and `resumeSession`.
use copilot_sdk_swift.Prelude.{◌≡◌, refl, false, none, some, [], ◌∷◌, ◌++◌, arith}
use copilot_sdk_swift.Js.Value.{str, end, field, lookup}
use copilot_sdk_swift.Js.Outcome.{connection_error, ok, throw}
use copilot_sdk_swift.Js.JsMap
use copilot_sdk_swift.Session.State.{Session}
use copilot_sdk_swift.Session.Subscribe.{
  on_any, set_capabilities, register_transform_callbacks, register_hooks,
  register_elicitation_handler, register_user_input_handler, register_permission_handler,
  register_commands, register_tools,
}
use copilot_sdk_swift.Session.Requests.{get_trace_context}
use copilot_sdk_swift.Client.State.{Client}
use copilot_sdk_swift.Client.Start.{StartWorld, start, version_mismatch}
use copilot_sdk_swift.Client.Incoming.{with_session}
use copilot_sdk_swift.Client.SessionConfig.{SessionConfig, prepare_session, create_request}
use copilot_sdk_swift.Client.Sessions.{
  missing_fs_handler, ensure_started, create_session, resume_session, open_session, request_session,
  read_response,
}
use copilot_sdk_swift.Client.Sessions.Opening.{
  created_session_registered, refused_resume_drops_session, failed_create_leaves_session,
  unsupported_server_gets_sessions,
}
use copilot_sdk_swift.Tests.Fixtures.{accepting, lost, approve, external_client, busy_client}

abbrev config : SessionConfig
config = record {
  session_id = some "n";
  tools = none;
  commands = none;
  system_message = none;
  on_permission_request = some approve;
  default_permissions = false;
  on_user_input_request = none;
  on_elicitation_request = none;
  hooks = none;
  on_event = some 4;
  create_session_fs_handler = none;
  settings = field "model" (str "m") end;
}

-- A server whose version is too new.
abbrev too_new_server : StartWorld
too_new_server = record {
  server = record {
    spawned = false;
    announced_port = none;
    timer = false;
    stderr = "";
    settled = ok tt;
  };
  socket = ok tt;
  ping = ok (some 4);
  provider = ok tt;
}

abbrev with_files : Client
with_files = record busy_client {
  session_fs_config =
      some (record { initial_cwd = "/"; session_state_path = "/state"; conventions = "posix" });
}

abbrev created : Session
created = prepare_session "n" config

created_session_registered_example :
    JsMap.get "n" (with_session "n" created (with_session "n" created busy_client)).sessions
    ≡ some created
unfolding create_session prepare_session open_session request_session read_response ensure_started
    on_any set_capabilities lookup register_transform_callbacks register_hooks
    register_elicitation_handler register_user_input_handler register_permission_handler
    register_commands register_tools
created_session_registered_example =
    created_session_registered accepting too_new_server none config busy_client [] "r" created
      (with_session "n" created (with_session "n" created busy_client))
      (create_request (get_trace_context none) "n" config ∷ []) refl "n"

refused_resume_drops_session_example :
    ((resume_session lost too_new_server none "s" config busy_client []).0
      ≡ throw (connection_error "closed"))
    × (JsMap.get "s" (resume_session lost too_new_server none "s" config busy_client []).1.sessions
        ≡ none)
refused_resume_drops_session_example =
    refused_resume_drops_session lost too_new_server none config busy_client [] approve refl refl
      "s" (connection_error "closed") refl refl "s"

failed_create_leaves_session_example :
    ((create_session accepting too_new_server none "r" config with_files []).0
      ≡ throw missing_fs_handler)
    × (JsMap.get "n"
          (create_session accepting too_new_server none "r" config with_files []).1.sessions
        ≡ some created)
failed_create_leaves_session_example =
    failed_create_leaves_session accepting too_new_server none config with_files [] approve refl
      refl "r" refl

unsupported_server_gets_sessions_example :
    ((start too_new_server external_client).0 ≡ throw (version_mismatch (some 4)))
    × ((start too_new_server external_client).1.negotiated_protocol_version ≡ none)
    × ((create_session accepting too_new_server none "r" config
          (start too_new_server external_client).1
          []).2
        ≡ [] ++ create_request (get_trace_context none) "n" config ∷ [])
unsupported_server_gets_sessions_example =
    unsupported_server_gets_sessions accepting too_new_server none config external_client [] approve
      4 refl refl refl refl refl refl refl refl refl (omega arith) "r"
