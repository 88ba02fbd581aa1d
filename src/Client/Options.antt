-- ===== src/Client/Options.antt =====
-- The constructor of `CopilotClient` in client.ts, `parseCliUrl` and `validateSessionFsConfig`: the options
-- that decide the state of the client.
pub mod Checked
use Prim.Native.Char.{Char, code}
use Prim.Native.String
use copilot_sdk_swift.Prelude.{
  ℕ, zero, suc, ◌+◌, ◌*◌, ◌-◌, String, Bool, true, false, not, ◌&&◌, ◌||◌, Option, none, some, List,
  [], ◌∷◌, ◌==◌, ltb, leb, same_num, if◌then◌else◌, ◌+++◌, is_some,
}
use copilot_sdk_swift.Js.Outcome.{Thrown, error, Outcome, ok, throw, ◌>>=◌}
use copilot_sdk_swift.Js.JsMap
use copilot_sdk_swift.Js.JsSet
use copilot_sdk_swift.Client.State.{Client, SessionFsConfig, disconnected}

pub record ClientOptions : Type 0 where
  pub cli_url : Option String
  pub cli_path : Option String
  pub use_stdio : Option Bool
  pub is_child_process : Bool
  pub github_token : Option String
  pub use_logged_in_user : Option Bool
  pub session_fs : Option SessionFsConfig
  pub auto_start : Option Bool

-- A text option that counts as true: it is there and not empty.
abbrev pub given : Option String → Bool
given none = false
given (some t) = if t == "" then false else true

abbrev is_option : Bool → Option Bool → Bool
is_option b none = false
is_option true (some c) = c
is_option false (some c) = not c

abbrev pub is_digit : Char → Bool
is_digit c = leb 48 (code c) && leb (code c) 57

-- The characters of a text.
abbrev pub chars : String → List Char
chars String.[] = []
chars (String.◌∷◌ c s) = c ∷ chars s

abbrev all_digits : List Char → Bool
all_digits [] = true
all_digits (c ∷ cs) = is_digit c && all_digits cs

-- `/^\d+$/`
unfoldable pub is_number : List Char → Bool
is_number [] = false
is_number (c ∷ cs) = is_digit c && all_digits cs

-- The number that the digits at the front stand for, after the value of the digits before.
unfoldable pub digits_value : ℕ → List Char → ℕ
digits_value n [] = n
digits_value n (c ∷ cs) =
    let rest = digits_value (n * 10 + (code c - 48)) cs in if is_digit c then rest else n

-- White space and line ends, which `parseInt` skips.
abbrev pub is_space : Char → Bool
is_space c =
    let n = code c in
    (leb 9 n && leb n 13)
    || same_num n 32
    || same_num n 160
    || same_num n 5760
    || (leb 8192 n && leb n 8202)
    || same_num n 8232
    || same_num n 8233
    || same_num n 8239
    || same_num n 8287
    || same_num n 12288
    || same_num n 65279

unfoldable pub skip_space : List Char → List Char
skip_space [] = []
skip_space (c ∷ cs) = let rest = skip_space cs in if is_space c then rest else c ∷ cs

abbrev pub unsigned : List Char → Option ℕ
unsigned [] = none
unsigned (c ∷ cs) = if is_digit c then some (digits_value 0 (c ∷ cs)) else none

abbrev after_plus : List Char → Option ℕ
after_plus [] = none
after_plus (c ∷ cs) = if same_num (code c) 43 then unsigned cs else unsigned (c ∷ cs)

-- `parseInt(text, 10)`; `none` where it is NaN or negative (or -0), which the caller refuses alike.
unfoldable pub parse_int : List Char → Option ℕ
unfolding digits_value skip_space
parse_int cs = after_plus (skip_space cs)

abbrev add_to_first : Char → List (List Char) → List (List Char)
add_to_first c [] = (c ∷ []) ∷ []
add_to_first c (p ∷ ps) = (c ∷ p) ∷ ps

-- `split(":")`
unfoldable pub split_colons : List Char → List (List Char)
split_colons [] = [] ∷ []
split_colons (c ∷ cs) =
    let rest = split_colons cs in if same_num (code c) 58 then [] ∷ rest else add_to_first c rest

-- The rest behind a prefix, which is given by the codes of its characters.
unfoldable pub drop_prefix : List ℕ → List Char → Option (List Char)
drop_prefix [] cs = some cs
drop_prefix (n ∷ ns) [] = none
drop_prefix (n ∷ ns) (c ∷ cs) =
    let rest = drop_prefix ns cs in if same_num (code c) n then rest else none

abbrev http : List ℕ
http = 104 ∷ 116 ∷ 116 ∷ 112 ∷ 58 ∷ 47 ∷ 47 ∷ []

abbrev https : List ℕ
https = 104 ∷ 116 ∷ 116 ∷ 112 ∷ 115 ∷ 58 ∷ 47 ∷ 47 ∷ []

-- `url.replace(/^https?:\/\//, "")`
unfoldable pub without_protocol : List Char → List Char
unfolding drop_prefix
without_protocol cs = elim (drop_prefix http cs) [
  | some rest ↦ rest
  | none ↦ elim (drop_prefix https cs) [ some rest ↦ rest | none ↦ cs ]
]

abbrev pub text : List Char → String
text [] = ""
text (c ∷ cs) = String.◌∷◌ c (text cs)

abbrev host_of : List Char → String
host_of [] = "localhost"
host_of (c ∷ cs) = text (c ∷ cs)

abbrev invalid_port : String → Outcome (String × ℕ)
invalid_port url = throw (error ("Invalid port in cliUrl: " +++ url))

abbrev checked_port : String → String → Option ℕ → Outcome (String × ℕ)
checked_port url host none = invalid_port url
checked_port url host (some n) =
    if same_num n 0 || ltb 65535 n then invalid_port url else ok (host, n)

abbrev pub host_and_port : String → List (List Char) → Outcome (String × ℕ)
host_and_port url (host ∷ port ∷ []) = checked_port url (host_of host) (parse_int port)
host_and_port url _ = throw (
    error (
      "Invalid cliUrl format: " +++ url
      +++ ". Expected \"host:port\", \"http://host:port\", or \"port\""))

abbrev pub address_text : String → List Char
address_text url = without_protocol (chars url)

unfoldable pub parse_cli_url : String → Outcome (String × ℕ)
unfolding is_number digits_value parse_int split_colons without_protocol
parse_cli_url url =
    let cs = address_text url in
    if is_number cs
    then ok ("localhost", digits_value 0 cs)
    else host_and_port url (split_colons cs)

unfoldable pub validate_session_fs_config : SessionFsConfig → Outcome (Unit {0})
validate_session_fs_config config =
    if config.initial_cwd == ""
    then throw (error "sessionFs.initialCwd is required")
    else if config.session_state_path == ""
    then throw (error "sessionFs.sessionStatePath is required")
    else if config.conventions == "windows" || config.conventions == "posix"
    then ok tt
    else throw (error "sessionFs.conventions must be either 'windows' or 'posix'")

abbrev pub validated : Option SessionFsConfig → Outcome (Unit {0})
validated none = ok tt
validated (some config) = validate_session_fs_config config

-- The address of an external server.
abbrev pub address : Option String → Outcome (Option (String × ℕ))
address none = ok none
address (some url) = if url == "" then ok none else parse_cli_url url >>= λ a. ok (some a)

abbrev or_default : Bool → Option Bool → Bool
or_default d none = d
or_default d (some b) = b

-- The new client; an address makes its server an external one, and so does a parent process.
abbrev pub new_client : ClientOptions → Option (String × ℕ) → Client
new_client o a = record {
  cli_start_timeout = false;
  cli_process = false;
  connection = false;
  socket = false;
  actual_port = elim a [ none ↦ none | some (host, port) ↦ some port ];
  actual_host = elim a [ none ↦ "localhost" | some (host, port) ↦ host ];
  state = disconnected;
  sessions = JsMap.empty;
  stderr_buffer = "";
  is_external_server = is_some a || o.is_child_process;
  force_stopping = false;
  models_cache = none;
  session_lifecycle_handlers = JsSet.empty;
  typed_lifecycle_handlers = JsMap.empty;
  process_exit_promise = false;
  negotiated_protocol_version = none;
  session_fs_config = o.session_fs;
  is_child_process = o.is_child_process;
  use_stdio = if given o.cli_url then false else or_default true o.use_stdio;
  auto_start = or_default true o.auto_start;
}

-- The guards, in their order, and the new client.
unfoldable pub construct : ClientOptions → Outcome Client
unfolding parse_cli_url validate_session_fs_config
construct o =
    if given o.cli_url && (is_option true o.use_stdio || given o.cli_path)
    then throw (error "cliUrl is mutually exclusive with useStdio and cliPath")
    else if o.is_child_process && (given o.cli_url || is_option false o.use_stdio)
    then throw
        (error "isChildProcess must be used in conjunction with useStdio and not with cliUrl")
    else if given o.cli_url && (given o.github_token || is_some o.use_logged_in_user)
    then throw (
        error
          "githubToken and useLoggedInUser cannot be used with cliUrl (external server manages its own auth)")
    else (validated o.session_fs >>= λ _. address o.cli_url >>= λ a. ok (new_client o a))
