-- ===== src/Client/Command.antt =====
-- The arguments and the environment that `startCLIServer` of client.ts gives to the CLI process.
pub mod Environment
use Prim.Native.Char.{Char, code}
use copilot_sdk_swift.Prelude.{
  ℕ, ◌+◌, String, Bool, true, false, not, ◌&&◌, ◌||◌, Option, none, some, List, [], ◌∷◌, ◌++◌, ltb,
  leb, same_num, if◌then◌else◌, ◌+++◌, is_some, ◌==◌,
}
use copilot_sdk_swift.Js.Value.{decimal}
use copilot_sdk_swift.Js.Outcome.{Thrown, error, Outcome, ok, throw}
use copilot_sdk_swift.Js.JsMap
use copilot_sdk_swift.Js.JsMap.{JsMap}
use copilot_sdk_swift.Client.Start.{ServerStart}
use copilot_sdk_swift.Client.Options.{
  given, chars, text, is_space, skip_space, unsigned, digits_value,
}

pub record TelemetryConfig : Type 0 where
  pub otlp_endpoint : Option String
  pub file_path : Option String
  pub exporter_type : Option String
  pub source_name : Option String
  pub capture_content : Option Bool

-- The options that go to the process.
pub record SpawnOptions : Type 0 where
  pub cli_path : Option String
  pub cli_args : List String
  pub log_level : String
  pub use_stdio : Bool
  pub port : ℕ
  pub github_token : Option String
  pub use_logged_in_user : Bool
  pub env : JsMap String
  pub telemetry : Option TelemetryConfig

abbrev transport_args : Bool → ℕ → List String
transport_args true port = "--stdio" ∷ []
transport_args false port = if ltb 0 port then "--port" ∷ decimal port ∷ [] else []

abbrev auth_args : SpawnOptions → List String
auth_args o =
    (if given o.github_token then "--auth-token-env" ∷ "COPILOT_SDK_AUTH_TOKEN" ∷ [] else [])
    ++ (if o.use_logged_in_user then [] else "--no-auto-login" ∷ [])

unfoldable pub server_args : SpawnOptions → List String
unfolding decimal
server_args o =
    o.cli_args
    ++ ("--headless" ∷ "--no-auto-update" ∷ "--log-level" ∷ o.log_level ∷ []
        ++ (transport_args o.use_stdio o.port ++ auth_args o))

abbrev pub set_some : String → Option String → JsMap String → JsMap String
set_some key none env = env
set_some key (some v) env = JsMap.set key v env

abbrev pub flag_text : Option Bool → Option String
flag_text none = none
flag_text (some true) = some "true"
flag_text (some false) = some "false"

abbrev pub with_token : Option String → JsMap String → JsMap String
with_token none env = env
with_token (some t) env = if t == "" then env else JsMap.set "COPILOT_SDK_AUTH_TOKEN" t env

abbrev pub with_telemetry : Option TelemetryConfig → JsMap String → JsMap String
with_telemetry none env = env
with_telemetry (some t) env =
    set_some "OTEL_INSTRUMENTATION_GENAI_CAPTURE_MESSAGE_CONTENT" (flag_text t.capture_content) (
      set_some "COPILOT_OTEL_SOURCE_NAME" t.source_name (
        set_some "COPILOT_OTEL_EXPORTER_TYPE" t.exporter_type (
          set_some "COPILOT_OTEL_FILE_EXPORTER_PATH" t.file_path (
            set_some "OTEL_EXPORTER_OTLP_ENDPOINT" t.otlp_endpoint
              (JsMap.set "COPILOT_OTEL_ENABLED" "true" env)))))

unfoldable pub server_env : SpawnOptions → JsMap String
server_env o =
    with_telemetry o.telemetry (with_token o.github_token (JsMap.delete "NODE_DEBUG" o.env))

abbrev is_js : List Char → Bool
is_js (a ∷ b ∷ c ∷ []) = same_num (code a) 46 && same_num (code b) 106 && same_num (code c) 115
is_js _ = false

-- `cliPath.endsWith(".js")`
unfoldable pub ends_js : List Char → Bool
ends_js [] = false
ends_js (c ∷ cs) = ends_js cs || is_js (c ∷ cs)

-- The program and its arguments: a script is run by `node`.
unfoldable pub command_line : (node path : String) → SpawnOptions → String × List String
unfolding ends_js server_args
command_line node path o =
    if ends_js (chars path) then (node, path ∷ server_args o) else (path, server_args o)
