-- ===== src/Client/Stop/Stopped.antt =====
-- What `stop` and `forceStop` of client.ts leave, and a `start` after them.
use copilot_sdk_swift.Prelude.{
  ◌+◌, ◌≤◌, ◌≡◌, refl, ◌∙◌, ap, String, Bool, true, false, none, List, [], ◌∷◌, arith, length,
  length-append, if-true, if-false,
}
use copilot_sdk_swift.Js.Outcome.{Outcome, ok, throw}
use copilot_sdk_swift.Js.JsMap
use copilot_sdk_swift.Rpc.{Request, Peer}
use copilot_sdk_swift.Session.State.{Session}
use copilot_sdk_swift.Client.State.{Client, connecting, rest_of, disconnected}
use copilot_sdk_swift.Client.Start.{
  StartWorld, from_verification, no_port, start, start_steps, connect_to_server, port_not_available,
}
use copilot_sdk_swift.Client.Stop.{
  Teardown, disconnect_with_retries, disconnect_all, owns_process, released, stop, force_stop,
  teardown_error,
}

-- Nothing that a connection needs is left; a process only if it is not the client's own.
pub record IsReleased (c : Client) : Type 0 where
  pub sessions : c.sessions ≡ JsMap.empty
  pub connection : c.connection ≡ false
  pub socket : c.socket ≡ false
  pub process : owns_process c ≡ false
  pub timer : c.cli_start_timeout ≡ false
  pub models_cache : c.models_cache ≡ none
  pub state : c.state ≡ disconnected

released-IsReleased : (c : Client) → IsReleased (released c)
unfolding released
released-IsReleased c = record {
  sessions = refl;
  connection = refl;
  socket = refl;
  process = ground arith;
  timer = refl;
  models_cache = refl;
  state = refl;
}

length-disconnect_all :
    (peer : Peer) (sessions : JsMap.JsMap Session) (sent : List Request)
    → length (disconnect_all peer sessions sent).0 ≤ length sessions
unfolding disconnect_all
length-disconnect_all peer [] sent = omega arith
length-disconnect_all peer ((k, s) ∷ rest) sent =
    ground (arith, length-disconnect_all peer rest (disconnect_with_retries peer s sent).sent)

length-teardown_error :
    (b : Bool) (what : String) (o : Outcome (Unit {0})) → length (teardown_error b what o) ≤ 1
length-teardown_error false what o = omega arith
length-teardown_error true what (ok _) = omega arith
length-teardown_error true what (throw e) = omega arith

-- Whatever fails, `stop` and `forceStop` release all that the client holds, and leave the same client
-- but for the flag of a forced stop; `stop` reports an error for each session and for each of the
-- three resources at most.
pub stop-IsReleased :
    (peer : Peer) (t : Teardown) (c : Client) (sent : List Request)
    → IsReleased (stop peer t c sent).1
      × (force_stop c ≡ record (stop peer t c sent).1 { force_stopping = true })
      × (length (stop peer t c sent).0 ≤ length c.sessions + 3)
unfolding stop force_stop
stop-IsReleased peer t c sent =
    let errors = length-disconnect_all peer c.sessions sent in
    (
      released-IsReleased c,
      refl,
      omega (
        arith,
        errors,
        length-append {0} {A = String},
        length-teardown_error c.connection "Failed to dispose connection: " t.dispose,
        length-teardown_error c.socket "Failed to close socket: " t.close_socket,
        length-teardown_error (owns_process c) "Failed to kill CLI process: " t.kill,
      ),
    )

-- A client whose transport is TCP to an external server, with no port.
connect_to_server_no_port :
    (socket : Outcome (Unit {0})) (c : Client)
    → c.is_child_process ≡ false
    → c.use_stdio ≡ false
    → c.actual_port ≡ none
    → connect_to_server socket c ≡ (throw port_not_available, c)
unfolding connect_to_server
connect_to_server_no_port socket c child stdio port =
    if-false c.is_child_process _ _ child
    ∙ if-false c.use_stdio _ _ stdio
    ∙ (if-true (no_port c.actual_port) _ _ (rw (port, no_port)))

start_steps_no_port :
    (w : StartWorld) (c : Client)
    → c.is_external_server ≡ true
    → c.is_child_process ≡ false
    → c.use_stdio ≡ false
    → c.actual_port ≡ none
    → start_steps w c ≡ (throw port_not_available, c)
unfolding start_steps
start_steps_no_port w c external child stdio port =
    if-true c.is_external_server _ _ external
    ∙ ap (rest_of (λ _. from_verification w))
        (connect_to_server_no_port w.socket c child stdio port)

-- A client of an external server (`cliUrl`) cannot be started again: `stop` forgets the port, which
-- only the constructor sets, so that every later `start` fails.
pub restart_external_fails :
    (peer : Peer) (t : Teardown) (c : Client) (sent : List Request) (w : StartWorld)
    → c.is_external_server ≡ true
    → c.is_child_process ≡ false
    → c.use_stdio ≡ false
    → (start w (stop peer t c sent).1).0 ≡ throw port_not_available
unfolding stop released start
restart_external_fails peer t c sent w external child stdio = rw (
  start_steps_no_port w (record (released c) { state = connecting }) external child stdio refl,
  start,
)
