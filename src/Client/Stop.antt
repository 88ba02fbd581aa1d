-- ===== src/Client/Stop.antt =====
-- `stop` and `forceStop` of client.ts. A session's `disconnect` is the one of Session.Requests, with
-- the requests that are sent to the CLI; how disposing of the connection, closing the socket and
-- killing the process end is a parameter.

pub mod Retries
pub mod Stopped
use copilot_sdk_swift.Prelude.{
  ℕ, zero, suc, ◌+◌, ◌-◌, ◌*◌, ◌^◌, ◌≡◌, refl, String, Bool, true, false, not, ◌&&◌, Option, none,
  some, List, [], ◌∷◌, ◌++◌, if◌then◌else◌, ◌+++◌, ltb,
}
use copilot_sdk_swift.Js.Outcome.{Thrown, Outcome, ok, throw, message_of}
use copilot_sdk_swift.Js.JsMap
use copilot_sdk_swift.Js.JsMap.{JsMap}
use copilot_sdk_swift.Rpc.{Request, Peer}
use copilot_sdk_swift.Session.State.{Session}
use copilot_sdk_swift.Session.Requests.{disconnect}
use copilot_sdk_swift.Client.State.{Client, ConnectionState, disconnected}

pub record Teardown : Type 0 where
  pub dispose : Outcome (Unit {0})
  pub close_socket : Outcome (Unit {0})
  pub kill : Outcome (Unit {0})

-- What the retries of one session leave: the message of the last error, the requests, and the delays
-- that were waited for, in milliseconds.
pub record Retried : Type 0 where
  pub last_error : Option String
  pub sent : List Request
  pub delays : List ℕ

abbrev pub max_attempts : ℕ
max_attempts = 3

-- Only between two attempts.
abbrev pub backoff : ℕ → List ℕ
backoff attempt = if ltb attempt max_attempts then 100 * 2 ^ (attempt - 1) ∷ [] else []

module _ (peer : Peer) where
  -- The `for` loop over the attempts: `left` are left, the next one is number `attempt`.
  unfoldable pub try_disconnect : (left attempt : ℕ) → Session → Retried → Retried
  try_disconnect zero attempt s r = r
  try_disconnect (suc left) attempt s r =
      let (s', o, sent') = disconnect peer s r.sent in
      elim o [
        | ok _ ↦ record { last_error = none; sent = sent'; delays = r.delays }
        | throw e ↦ try_disconnect left (suc attempt) s' (record {
          last_error = some (message_of e);
          sent = sent';
          delays = r.delays ++ backoff attempt;
        })
      ]

  unfoldable pub disconnect_with_retries : Session → List Request → Retried
  unfolding try_disconnect
  disconnect_with_retries s sent =
      try_disconnect max_attempts 1 s (record { last_error = none; sent = sent; delays = [] })

  abbrev disconnect_error : Session → Option String → List String
  disconnect_error s none = []
  disconnect_error s (some m) =
      ("Failed to disconnect session " +++ s.session_id +++ " after 3 attempts: " +++ m) ∷ []

  -- The loop over the sessions: the errors, and the requests.
  unfoldable pub disconnect_all : JsMap Session → List Request → List String × List Request
  unfolding disconnect_with_retries
  disconnect_all [] sent = ([], sent)
  disconnect_all ((_, s) ∷ rest) sent =
      let r = disconnect_with_retries s sent in
      let (errors, sent') = disconnect_all rest r.sent in
      (disconnect_error s r.last_error ++ errors, sent')

-- The error of one step of the teardown, if there is something to tear down and that fails.
abbrev pub teardown_error : Bool → String → Outcome (Unit {0}) → List String
teardown_error false what o = []
teardown_error true what (ok _) = []
teardown_error true what (throw e) = (what +++ message_of e) ∷ []

-- `this.cliProcess && !this.isExternalServer`
abbrev pub owns_process : Client → Bool
owns_process c = c.cli_process && not c.is_external_server

-- The fields that both ways to stop clear.
unfoldable pub released : Client → Client
released c = record c {
  sessions = JsMap.empty;
  connection = false;
  models_cache = none;
  socket = false;
  cli_process = if owns_process c then false else c.cli_process;
  cli_start_timeout = false;
  state = disconnected;
  actual_port = none;
  stderr_buffer = "";
  process_exit_promise = false;
}

-- The errors, the client and the requests.
unfoldable pub stop : Peer → Teardown → Client → List Request → List String × Client × List Request
unfolding disconnect_all
stop peer t c sent =
    let (errors, sent') = disconnect_all peer c.sessions sent in
    (
      errors
          ++ (teardown_error c.connection "Failed to dispose connection: " t.dispose
              ++ (teardown_error c.socket "Failed to close socket: " t.close_socket
                  ++ teardown_error (owns_process c) "Failed to kill CLI process: " t.kill)),
      released c,
      sent',
    )

-- Sends nothing, and drops the errors of the teardown.
unfoldable pub force_stop : Client → Client
force_stop c = record (released c) { force_stopping = true }
