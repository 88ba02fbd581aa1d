-- ===== src/Client/Start.antt =====
-- `start` of client.ts, with `connectToServer` and `verifyProtocolVersion`. What the process, the
-- socket and the server do during one call is a parameter.
pub mod Connected
pub mod Unsupported
use copilot_sdk_swift.Prelude.{
  ℕ, String, Bool, true, false, ◌||◌, Option, none, some, ltb, same_num, if◌then◌else◌, ◌+++◌,
}
use copilot_sdk_swift.Js.Value.{decimal}
use copilot_sdk_swift.Js.Outcome.{Thrown, error, Outcome, ok, throw}
use copilot_sdk_swift.Client.State.{
  Client, ConnectionState, connecting, connected, failed, Exec, return, fail, from_outcome, modify,
  ◌>>=◌, ◌>>◌,
}

-- What `startCLIServer` leaves: whether it got as far as to spawn a process (and with it the promise
-- of its exit), the port that a server on TCP announced, whether its timer is set, and how it settled.
pub record ServerStart : Type 0 where
  pub spawned : Bool
  pub announced_port : Option ℕ
  pub timer : Bool
  pub stderr : String
  pub settled : Outcome (Unit {0})

pub record StartWorld : Type 0 where
  pub server : ServerStart
  -- whether the socket connects, for TCP
  pub socket : Outcome (Unit {0})
  -- the `protocolVersion` in the answer to the ping, or the error of the ping or of the exit of the
  -- process, whichever comes first
  pub ping : Outcome (Option ℕ)
  -- the answer to "sessionFs.setProvider"
  pub provider : Outcome (Unit {0})

abbrev pub min_protocol_version : ℕ
min_protocol_version = 2

abbrev pub sdk_protocol_version : ℕ
sdk_protocol_version = 3

-- The field keeps what it had where the call does not set it.
abbrev or_old : Option ℕ → Option ℕ → Option ℕ
or_old none old = old
or_old (some p) old = some p

unfoldable pub start_cli_server : ServerStart → Exec (Unit {0})
start_cli_server w = do
  modify (λ c. record c {
    stderr_buffer = w.stderr;
    cli_process = c.cli_process || w.spawned;
    process_exit_promise = c.process_exit_promise || w.spawned;
    actual_port = if c.use_stdio then c.actual_port else or_old w.announced_port c.actual_port;
    cli_start_timeout = c.cli_start_timeout || w.timer;
  })
  from_outcome w.settled

abbrev pub attach : Client → Client
attach c = record c { connection = true }

unfoldable pub connect_to_parent_process_via_stdio : Exec (Unit {0})
connect_to_parent_process_via_stdio c =
    if c.cli_process
    then (throw (error "CLI child process was unexpectedly started in parent process mode"), c)
    else (ok tt, attach c)

unfoldable pub connect_to_child_process_via_stdio : Exec (Unit {0})
connect_to_child_process_via_stdio c =
    if c.cli_process then (ok tt, attach c) else (throw (error "CLI process not started"), c)

-- `!this.actualPort`
abbrev pub no_port : Option ℕ → Bool
no_port none = true
no_port (some p) = same_num p 0

abbrev pub port_not_available : Thrown
port_not_available = error "Server port not available"

unfoldable pub connect_via_tcp : Outcome (Unit {0}) → Exec (Unit {0})
connect_via_tcp socket c =
    if no_port c.actual_port then (throw port_not_available, c) else elim socket [
      | ok _ ↦ (ok tt, attach (record c { socket = true }))
      | throw e ↦ (throw e, record c { socket = true })
    ]

unfoldable pub connect_to_server : Outcome (Unit {0}) → Exec (Unit {0})
unfolding connect_to_parent_process_via_stdio connect_to_child_process_via_stdio connect_via_tcp
connect_to_server socket c =
    if c.is_child_process
    then connect_to_parent_process_via_stdio c
    else if c.use_stdio
    then connect_to_child_process_via_stdio c
    else connect_via_tcp socket c

abbrev pub version_mismatch : Option ℕ → Thrown
version_mismatch none =
    error
      "SDK protocol version mismatch: SDK supports versions 2-3, but server does not report a protocol version. Please update your server to ensure compatibility."
version_mismatch (some v) = error (
    "SDK protocol version mismatch: SDK supports versions 2-3, but server reports version "
    +++ decimal v
    +++ ". Please update your SDK or server to ensure compatibility.")

-- The check of the version that the server reports.
unfoldable pub check_version : Option ℕ → Exec (Unit {0})
check_version none = fail (version_mismatch none)
check_version (some v) =
    if ltb v min_protocol_version || ltb sdk_protocol_version v
    then fail (version_mismatch (some v))
    else modify (λ c. record c { negotiated_protocol_version = some v })

unfoldable pub verify_protocol_version : Outcome (Option ℕ) → Exec (Unit {0})
unfolding check_version
verify_protocol_version ping c =
    if c.connection
    then (from_outcome ping >>= check_version) c
    else (throw (error "Client not connected"), c)

abbrev pub set_provider : Outcome (Unit {0}) → Exec (Unit {0})
set_provider provider c = elim c.session_fs_config [ none ↦ (ok tt, c) | some _ ↦ (provider, c) ]

abbrev pub become_connected : Client → Client
become_connected d = record d { state = connected }

-- The end of the `try` block of `start`, from each of its steps on.
abbrev pub from_provider : StartWorld → Exec (Unit {0})
from_provider w = do set_provider w.provider; modify become_connected

abbrev pub from_verification : StartWorld → Exec (Unit {0})
from_verification w = do verify_protocol_version w.ping; from_provider w

abbrev pub from_connection : StartWorld → Exec (Unit {0})
from_connection w = do connect_to_server w.socket; from_verification w

-- The `try` block: the server is started only where it is not an external one.
unfoldable pub start_steps : StartWorld → Exec (Unit {0})
start_steps w c =
    if c.is_external_server
    then from_connection w c
    else (do start_cli_server w.server; from_connection w) c

abbrev pub is_connected : ConnectionState → Bool
is_connected connected = true
is_connected _ = false

-- The end of the `try` block, and the `catch`.
abbrev pub settle_start : Outcome (Unit {0}) × Client → Outcome (Unit {0}) × Client
settle_start (o, c) = elim o [
  | ok _ ↦ (ok tt, c)
  | throw e ↦ (throw e, record c { state = failed })
]

unfoldable pub start : StartWorld → Exec (Unit {0})
start w c =
    if is_connected c.state
    then (ok tt, c)
    else settle_start (start_steps w (record c { state = connecting }))
