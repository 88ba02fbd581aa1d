-- ===== src/Tests/Histories.antt =====
-- Runs of the theorems about clients over time, their process, and extensions.
use copilot_sdk_swift.Prelude.{
  ℕ, Bool, String, ◌≡◌, refl, true, false, some, none, [], ◌∷◌, ◌++◌, List, arith,
}
use copilot_sdk_swift.Js.Value.{Value, end, lookup}
use copilot_sdk_swift.Js.Outcome.{throw, error, ok}
use copilot_sdk_swift.Rpc.{Request, Peer}
use copilot_sdk_swift.Session.State.{Session, PermissionHandler}
use copilot_sdk_swift.Session.Tasks.{execute_permission_and_respond}
use copilot_sdk_swift.Client.State.{Client, connected}
use copilot_sdk_swift.Client.Start.{
  StartWorld, ServerStart, start, start_steps, start_cli_server, connect_to_server,
  verify_protocol_version,
}
use copilot_sdk_swift.Client.Stop.{Teardown, stop}
use copilot_sdk_swift.Client.Options.{ClientOptions, construct, new_client}
use copilot_sdk_swift.Session.Subscribe.{
  register_transform_callbacks, set_capabilities, register_hooks, register_elicitation_handler,
  register_user_input_handler, register_permission_handler, register_commands, register_tools,
}
use copilot_sdk_swift.Client.Sessions.{resume_session}
use copilot_sdk_swift.Client.SessionConfig.{SessionConfig, prepare_session}
use copilot_sdk_swift.Client.Lifecycle.{on_any_lifecycle, subscribe_any, apply_lifecycle}
use copilot_sdk_swift.Client.Machine.{
  Reached, constructed, listens, followed, starts, closes, close_connection,
}
use copilot_sdk_swift.Client.Machine.Kept.{Inv}
use copilot_sdk_swift.Client.Machine.Invariant.{Reached-Inv}
use copilot_sdk_swift.Client.Machine.Restart.{IsResponsive, start-stop_connects}
use copilot_sdk_swift.Client.Command.{SpawnOptions}
use copilot_sdk_swift.Client.Spawn.{
  ProcessEvent, prints, logs, exits, timer_fires, launch, observe_process,
}
use copilot_sdk_swift.Client.Spawn.Launch.{launch-settles, launch-once, launch-Announces}
use copilot_sdk_swift.Session.Callbacks.{
  no_result_permission_v2_error, handle_permission_request_v2,
}
use copilot_sdk_swift.Client.Options.{chars}
use copilot_sdk_swift.Client.Spawn.Printed.{Announces, stdout_of}
use copilot_sdk_swift.Extension.{child_options, join_config, join_session, join_session_silent}
use copilot_sdk_swift.Tests.Fixtures.{accepting, lost}

abbrev own_server : ClientOptions
own_server = record child_options { is_child_process = false }

abbrev tcp_server : ClientOptions
tcp_server = record own_server { use_stdio = some false }

abbrev announcing : StartWorld
announcing = record {
  server = record {
    spawned = true;
    announced_port = some 4000;
    timer = true;
    stderr = "";
    settled = ok tt;
  };
  socket = ok tt;
  ping = ok (some 3);
  provider = ok tt;
}

abbrev broken : Teardown
broken = record { dispose = ok tt; close_socket = ok tt; kill = ok tt }

abbrev fresh : Client
fresh = new_client own_server none

fresh-Reached : Reached fresh
unfolding construct
fresh-Reached = constructed own_server refl

abbrev used : Client
used = apply_lifecycle (subscribe_any 1 ∷ []) (close_connection (start announcing fresh).1)

used-Reached : Reached used
used-Reached =
    followed (followed (followed fresh-Reached (starts announcing refl)) (closes refl))
      (listens (subscribe_any 1 ∷ []) refl)

Reached-Inv_example : Inv used
Reached-Inv_example = Reached-Inv used used-Reached

-- Over stdio, the default, the process announces no port.
abbrev silent_start : StartWorld
silent_start = record announcing { server = record announcing.server { announced_port = none } }

silent_start-IsResponsive : IsResponsive true silent_start
silent_start-IsResponsive = record {
  spawned = refl;
  settled = refl;
  port = λ e. absurd (cc e);
  socket = refl;
  version = 3;
  ping = refl;
  at_least = omega arith;
  at_most = omega arith;
  provider = refl;
}

start-stop_connects_example :
    ((start silent_start (stop lost broken used []).1).0 ≡ ok tt)
    × ((start silent_start (stop lost broken used []).1).1.state ≡ connected)
unfolding start start_steps start_cli_server connect_to_server verify_protocol_version
    close_connection apply_lifecycle on_any_lifecycle
start-stop_connects_example =
    start-stop_connects used silent_start lost broken [] used-Reached silent_start-IsResponsive refl

abbrev joined_config : SessionConfig
joined_config = record {
  session_id = none;
  tools = none;
  commands = none;
  system_message = none;
  on_permission_request = none;
  default_permissions = false;
  on_user_input_request = none;
  on_elicitation_request = none;
  hooks = none;
  on_event = none;
  create_session_fs_handler = none;
  settings = end;
}

abbrev joined : Session
joined = prepare_session "s" (join_config joined_config)

join_session_silent_example :
    (handler : PermissionHandler) × (joined.permission_handler ≡ some handler)
    × ((peer' : Peer) (request_id : String) (request : Value) (sent : List Request)
        → execute_permission_and_respond peer' joined.session_id request_id request handler sent
          ≡ (ok tt, sent))
    × ((request : Value)
        → handle_permission_request_v2 request joined ≡ throw (error no_result_permission_v2_error))
unfolding join_session resume_session start start_steps connect_to_server verify_protocol_version
    lookup register_transform_callbacks set_capabilities register_hooks register_elicitation_handler
    register_user_input_handler register_permission_handler register_commands register_tools
join_session_silent_example =
    join_session_silent accepting announcing none (some "s") joined_config joined refl refl

abbrev tcp_process : SpawnOptions
tcp_process = record {
  cli_path = some "/bin/copilot";
  cli_args = [];
  log_level = "debug";
  use_stdio = false;
  port = 0;
  github_token = some "t";
  use_logged_in_user = false;
  env = ("NODE_DEBUG", "net") ∷ ("PATH", "/bin") ∷ [];
  telemetry = none;
}

abbrev all_files : String → Bool
all_files path = true

abbrev running : ServerStart
running = record {
  spawned = true;
  announced_port = some 42;
  timer = true;
  stderr = "x";
  settled = ok tt;
}

abbrev printed : List ProcessEvent
printed = logs "x" ∷ prints "listening on " ∷ prints "PORT 42" ∷ []

launch-settles_example :
    (w : ServerStart) × (launch tcp_process all_files (logs "x" ∷ timer_fires ∷ []) ≡ some w)
launch-settles_example = launch-settles tcp_process all_files (logs "x" ∷ []) []

launch-once_example :
    (v : ServerStart) × (launch tcp_process all_files (printed ++ exits "1" ∷ []) ≡ some v)
    × (v.settled ≡ ok tt)
    × (v.announced_port ≡ some 42)
unfolding launch observe_process
launch-once_example = launch-once tcp_process all_files printed (exits "1" ∷ []) running refl

launch-Announces_example :
    (p : ℕ) × (some 42 ≡ some p)
    × (seen : List ProcessEvent) × (later : List ProcessEvent) × (printed ≡ seen ++ later)
    × Announces (chars (stdout_of "" seen)) p
unfolding launch observe_process
launch-Announces_example = launch-Announces tcp_process all_files printed running refl refl refl
