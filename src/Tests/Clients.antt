-- ===== src/Tests/Clients.antt =====
-- Runs of the theorems about the client.
use copilot_sdk_swift.Prelude.{◌≤◌, ◌+◌, ◌≡◌, refl, true, some, none, [], length}
use copilot_sdk_swift.Js.Outcome.{error, ok, throw}
use copilot_sdk_swift.Client.State.{Client, connected}
use copilot_sdk_swift.Client.Start.{
  StartWorld, start, start_steps, connect_to_server, verify_protocol_version, port_not_available,
}
use copilot_sdk_swift.Client.Start.Connected.{IsReady, start-IsReady}
use copilot_sdk_swift.Client.Stop.{
  Teardown, disconnect_with_retries, stop, force_stop, max_attempts,
}
use copilot_sdk_swift.Client.Stop.Retries.{Attempts, disconnect_with_retries-Attempts}
use copilot_sdk_swift.Client.Stop.Stopped.{IsReleased, stop-IsReleased, restart_external_fails}
use copilot_sdk_swift.Tests.Fixtures.{lost, heard, external_client, busy_client}

-- A server that can be reached and speaks version 3.
abbrev reachable : StartWorld
reachable = record {
  server = record {
    spawned = true;
    announced_port = none;
    timer = true;
    stderr = "";
    settled = ok tt;
  };
  socket = ok tt;
  ping = ok (some 3);
  provider = ok tt;
}

abbrev started : Client
started = record external_client {
  connection = true;
  socket = true;
  state = connected;
  negotiated_protocol_version = some 3;
}

start-IsReady_example : IsReady started × (started.state ≡ connected)
unfolding start start_steps connect_to_server verify_protocol_version
start-IsReady_example = start-IsReady reachable external_client started refl refl

-- Nothing can be torn down.
abbrev stuck : Teardown
stuck = record {
  dispose = throw (error "a");
  close_socket = throw (error "b");
  kill = throw (error "c");
}

disconnect_with_retries-Attempts_example :
    Attempts lost heard max_attempts [] (disconnect_with_retries lost heard [])
disconnect_with_retries-Attempts_example = disconnect_with_retries-Attempts lost heard []

stop-IsReleased_example :
    IsReleased (stop lost stuck busy_client []).1
    × (force_stop busy_client ≡ record (stop lost stuck busy_client []).1 { force_stopping = true })
    × (length (stop lost stuck busy_client []).0 ≤ length busy_client.sessions + 3)
stop-IsReleased_example = stop-IsReleased lost stuck busy_client []

restart_external_fails_example :
    (start reachable (stop lost stuck busy_client []).1).0 ≡ throw port_not_available
restart_external_fails_example =
    restart_external_fails lost stuck busy_client [] reachable refl refl refl
