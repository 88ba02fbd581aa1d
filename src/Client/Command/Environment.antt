-- ===== src/Client/Command/Environment.antt =====
-- Which variables the CLI process gets.
use copilot_sdk_swift.Prelude.{
  String, ◌≡◌, refl, ◌∙◌, Bool, false, Option, none, some, arith, inl, inr, Bool-cases, ◌==◌, ◌||◌,
  if-false, if◌then◌else◌,
}
use copilot_sdk_swift.Js.JsMap.{JsMap, get, get-set, get-delete}
use copilot_sdk_swift.Client.Command.{
  SpawnOptions, TelemetryConfig, server_env, set_some, with_telemetry, with_token,
}

-- The variables that the options set.
abbrev pub is_managed : String → Bool
is_managed k =
    "COPILOT_SDK_AUTH_TOKEN" == k
    || "COPILOT_OTEL_ENABLED" == k
    || "OTEL_EXPORTER_OTLP_ENDPOINT" == k
    || "COPILOT_OTEL_FILE_EXPORTER_PATH" == k
    || "COPILOT_OTEL_EXPORTER_TYPE" == k
    || "COPILOT_OTEL_SOURCE_NAME" == k
    || "OTEL_INSTRUMENTATION_GENAI_CAPTURE_MESSAGE_CONTENT" == k

set_some-other :
    (k j : String) (v : Option String) (m : JsMap String)
    → j == k ≡ false
    → get k (set_some j v m) ≡ get k m
set_some-other k j none m h = refl
set_some-other k j (some v) m h = get-set j k v m ∙ if-false (j == k) (some v) (get k m) h

with_telemetry-other :
    (t : Option TelemetryConfig) (k : String) (env : JsMap String)
    → is_managed k ≡ false
    → get k (with_telemetry t env) ≡ get k env
with_telemetry-other none k env h = refl
with_telemetry-other (some t) k env h =
    set_some-other k "OTEL_INSTRUMENTATION_GENAI_CAPTURE_MESSAGE_CONTENT" _ _ (ground (arith, h))
    ∙ set_some-other k "COPILOT_OTEL_SOURCE_NAME" _ _ (ground (arith, h))
    ∙ set_some-other k "COPILOT_OTEL_EXPORTER_TYPE" _ _ (ground (arith, h))
    ∙ set_some-other k "COPILOT_OTEL_FILE_EXPORTER_PATH" _ _ (ground (arith, h))
    ∙ set_some-other k "OTEL_EXPORTER_OTLP_ENDPOINT" _ _ (ground (arith, h))
    ∙ set_some-other k "COPILOT_OTEL_ENABLED" (some "true") env (ground (arith, h))

with_token-other :
    (t : Option String) (k : String) (env : JsMap String)
    → is_managed k ≡ false
    → get k (with_token t env) ≡ get k env
with_token-other none k env h = refl
with_token-other (some t) k env h = elim (Bool-cases (t == "")) [
  | inl e ↦ rw e refl
  | inr e ↦ rw e (set_some-other k "COPILOT_SDK_AUTH_TOKEN" (some t) env (ground (arith, h)))
]

pub server_env-others :
    (o : SpawnOptions) (k : String)
    → is_managed k ≡ false
    → get k (server_env o) ≡ (if "NODE_DEBUG" == k then none else get k o.env)
unfolding server_env
server_env-others o k h =
    with_telemetry-other o.telemetry k _ h
    ∙ with_token-other o.github_token k _ h
    ∙ get-delete "NODE_DEBUG" k o.env
