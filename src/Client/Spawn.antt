-- ===== src/Client/Spawn.antt =====
-- `startCLIServer` of client.ts: how its promise settles by what the process does.
pub mod Settled
pub mod Printed
pub mod Launch
use Prim.Native.Char.{Char, code}
use copilot_sdk_swift.Prelude.{
  ℕ, ◌+◌, String, Bool, true, false, not, ◌&&◌, ◌||◌, Option, none, some, List, [], ◌∷◌, ◌++◌, ltb,
  leb, same_num, if◌then◌else◌, ◌+++◌, is_some, ◌==◌,
}
use copilot_sdk_swift.Js.Value.{decimal}
use copilot_sdk_swift.Js.Outcome.{Thrown, error, Outcome, ok, throw}
use copilot_sdk_swift.Js.JsMap
use copilot_sdk_swift.Js.JsMap.{JsMap}
use copilot_sdk_swift.Client.Start.{ServerStart}
use copilot_sdk_swift.Client.Command.{SpawnOptions}
use copilot_sdk_swift.Client.Options.{
  given, chars, text, is_space, skip_space, unsigned, digits_value,
}

-- What the process does, and the timer of ten seconds. An exit has its code as a text.
pub data ProcessEvent : Type 0 where
  prints logs : String → ProcessEvent
  errs : (message : String) → ProcessEvent
  exits : (exit_code : String) → ProcessEvent
  timer_fires : ProcessEvent

-- The state of the promise; `resolved` is that it has settled.
pub record Starting : Type 0 where
  pub stdout : String
  pub stderr_buffer : String
  pub announced_port : Option ℕ
  pub settled : Option (Outcome (Unit {0}))

abbrev lower : ℕ → ℕ
lower n = if leb 65 n && leb n 90 then n + 32 else n

-- The rest behind a phrase in small letters, whatever the case in the text.
unfoldable pub behind_phrase : List ℕ → List Char → Option (List Char)
behind_phrase [] cs = some cs
behind_phrase (n ∷ ns) [] = none
behind_phrase (n ∷ ns) (c ∷ cs) =
    let rest = behind_phrase ns cs in if same_num (lower (code c)) n then rest else none

-- "listening on port "
abbrev phrase : List ℕ
phrase =
    108 ∷ 105 ∷ 115 ∷ 116 ∷ 101 ∷ 110 ∷ 105 ∷ 110 ∷ 103 ∷ 32 ∷ 111 ∷ 110 ∷ 32 ∷ 112 ∷ 111 ∷ 114
    ∷ 116 ∷ 32 ∷ []

abbrev port_here : Option (List Char) → Option ℕ
port_here none = none
port_here (some cs) = unsigned cs

-- `stdout.match(/listening on port (\d+)/i)`: the number behind the first place that fits.
unfoldable pub find_port : List Char → Option ℕ
unfolding behind_phrase digits_value
find_port [] = none
find_port (c ∷ cs) = elim (port_here (behind_phrase phrase (c ∷ cs))) [
  | some n ↦ some n
  | none ↦ find_port cs
]

abbrev is_empty : List Char → Bool
is_empty [] = true
is_empty (c ∷ cs) = false

unfoldable pub trim_end : List Char → List Char
trim_end [] = []
trim_end (c ∷ cs) = let rest = trim_end cs in if is_space c && is_empty rest then [] else c ∷ rest

unfoldable pub trim : String → String
unfolding skip_space trim_end
trim s = text (trim_end (skip_space (chars s)))

-- An error with what the process logged, if it logged anything.
abbrev with_stderr : String → String → Thrown
with_stderr message buffer =
    let output = trim buffer in
    error (if output == "" then message else message +++ "\nstderr: " +++ output)

abbrev pub settle_once : Outcome (Unit {0}) → Starting → Starting
settle_once o s = elim s.settled [ none ↦ record s { settled = some o } | some p ↦ s ]

-- A text on the standard output, which is read only for TCP.
abbrev pub announce : Option ℕ → Starting → Starting
announce none s = s
announce (some port) s = elim s.settled [
  | none ↦ record s { announced_port = some port; settled = some (ok tt) }
  | some p ↦ s
]

unfoldable pub observe_process : (use_stdio : Bool) → ProcessEvent → Starting → Starting
unfolding find_port trim
observe_process true (prints d) s = s
observe_process false (prints d) s =
    let stdout = s.stdout +++ d in
    announce (find_port (chars stdout)) (record s { stdout = stdout })
observe_process use_stdio (logs d) s = record s { stderr_buffer = s.stderr_buffer +++ d }
observe_process use_stdio (errs message) s =
    settle_once (throw (with_stderr ("Failed to start CLI server: " +++ message) s.stderr_buffer)) s
observe_process use_stdio (exits exit_code) s =
    settle_once (throw (with_stderr ("CLI server exited with code " +++ exit_code) s.stderr_buffer))
      s
observe_process use_stdio timer_fires s =
    settle_once (throw (error "Timeout waiting for CLI server to start")) s

unfoldable pub observe_processes : (use_stdio : Bool) → List ProcessEvent → Starting → Starting
observe_processes use_stdio [] s = s
observe_processes use_stdio (e ∷ es) s =
    observe_processes use_stdio es (observe_process use_stdio e s)

-- With stdio it is ready at once.
abbrev pub spawned_process : Bool → Starting
spawned_process use_stdio = record {
  stdout = "";
  stderr_buffer = "";
  announced_port = none;
  settled = if use_stdio then some (ok tt) else none;
}

abbrev pub not_spawned : Thrown → ServerStart
not_spawned e = record {
  spawned = false;
  announced_port = none;
  timer = false;
  stderr = "";
  settled = throw e;
}

abbrev pub of_settled : Starting → Option (Outcome (Unit {0})) → Option ServerStart
of_settled s none = none
of_settled s (some o) = some (record {
  spawned = true;
  announced_port = s.announced_port;
  timer = true;
  stderr = s.stderr_buffer;
  settled = o;
})

abbrev pub settled_start : Starting → Option ServerStart
settled_start s = of_settled s s.settled

abbrev pub no_cli_path : Thrown
no_cli_path =
    error
      "Path to Copilot CLI is required. Please provide it via the cliPath option, or use cliUrl to rely on a remote CLI."

abbrev pub cli_not_found : String → Thrown
cli_not_found path =
    error ("Copilot CLI not found at " +++ path +++ ". Ensure @github/copilot is installed.")

-- What `startCLIServer` leaves after some events; `none` while it still waits. Whether there is a file at
-- the path is a parameter.
unfoldable pub launch :
    SpawnOptions → (exists : String → Bool) → List ProcessEvent → Option ServerStart
unfolding observe_processes
launch o exists events = elim o.cli_path [
  | none ↦ some (not_spawned no_cli_path)
  | some path ↦
      if path == ""
      then some (not_spawned no_cli_path)
      else if exists path
      then settled_start (observe_processes o.use_stdio events (spawned_process o.use_stdio))
      else some (not_spawned (cli_not_found path))
]

-- What `processExitPromise` rejects with: the rejection that `verifyProtocolVersion` races the ping with.
unfoldable pub exit_error : (exit_code : String) → Starting → Thrown
unfolding trim
exit_error exit_code s =
    let output = trim s.stderr_buffer in
    error (
      if output == ""
      then "CLI server exited unexpectedly with code " +++ exit_code
      else "CLI server exited with code " +++ exit_code +++ "\nstderr: " +++ output)
