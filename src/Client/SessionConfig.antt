-- ===== src/Client/SessionConfig.antt =====
-- The configuration of a session (`SessionConfig` of types.ts), the session object that client.ts makes of
-- it, and the parameters of "session.create" and "session.resume".
use copilot_sdk_swift.Prelude.{
  ℕ, String, Bool, true, false, ◌||◌, Option, none, some, List, [], ◌∷◌, is_some, map,
}
use mathlib.Core.Option
use copilot_sdk_swift.Js.Value.{
  Value, undefined, bool, str, arr, obj, Items, nil, cons, Fields, end, field, lookup,
}
use copilot_sdk_swift.Js.Outcome.{Outcome}
use copilot_sdk_swift.Rpc.{Request}
use copilot_sdk_swift.Session.State.{
  Session, PermissionHandler, UserInputHandler, ElicitationHandler, SessionHooks, ToolHandler,
  CommandHandler, new_session,
}
use copilot_sdk_swift.Session.Subscribe.{
  register_tools, register_commands, register_permission_handler, register_user_input_handler,
  register_elicitation_handler, register_hooks, register_transform_callbacks, on_any,
}
use copilot_sdk_swift.Session.Requests.{TraceContext, with_trace}
use copilot_sdk_swift.Client.SystemMessage.{
  SystemMessage, Extracted, extract_transform_callbacks, empty_extraction,
}

-- What `parameters` of a tool are: a JSON schema, or a Zod schema by what its `toJSONSchema` returns.
pub data ToolParameters : Type 0 where
  absent : ToolParameters
  json_schema zod_schema : Value → ToolParameters

unfoldable pub to_json_schema : ToolParameters → Value
to_json_schema absent = undefined
to_json_schema (json_schema v) = v
to_json_schema (zod_schema v) = v

pub record Tool : Type 0 where
  pub name : String
  pub description : Value
  pub parameters : ToolParameters
  pub overrides_built_in_tool : Value
  pub skip_permission : Value
  pub handler : ToolHandler

pub record CommandDefinition : Type 0 where
  pub name : String
  pub description : Value
  pub handler : CommandHandler

-- `SessionConfig` and `ResumeSessionConfig`; `settings` are the options that are passed on as they are,
-- by their names.
pub record SessionConfig : Type 0 where
  pub session_id : Option String
  pub tools : Option (List Tool)
  pub commands : Option (List CommandDefinition)
  pub system_message : Option SystemMessage
  pub on_permission_request : Option PermissionHandler
  -- whether that handler is the default one of an extension
  pub default_permissions : Bool
  pub on_user_input_request : Option UserInputHandler
  pub on_elicitation_request : Option ElicitationHandler
  pub hooks : Option SessionHooks
  pub on_event : Option ℕ
  -- how the call of `createSessionFsHandler` ends, if there is one
  pub create_session_fs_handler : Option (Outcome (Unit {0}))
  pub settings : Fields

abbrev extracted : Option SystemMessage → Extracted
extracted none = empty_extraction
extracted (some m) = extract_transform_callbacks m

abbrev listen : Option ℕ → Session → Session
listen none s = s
listen (some h) s = on_any h s

-- The new session object, with all that is registered before the request.
unfoldable pub prepare_session : String → SessionConfig → Session
prepare_session id config =
    let s0 =
      register_tools (Option.map (map λ (t : Tool). (t.name, t.handler)) config.tools)
        (new_session id none) in
    let s1 =
      register_commands
        (Option.map (map λ (d : CommandDefinition). (d.name, d.handler)) config.commands) s0 in
    let s2 = register_permission_handler config.on_permission_request s1 in
    let s3 = register_user_input_handler config.on_user_input_request s2 in
    let s4 = register_elicitation_handler config.on_elicitation_request s3 in
    let s5 = register_hooks config.hooks s4 in
    let s6 =
      register_transform_callbacks (extracted config.system_message).transform_callbacks s5 in
    listen config.on_event s6

abbrev tool_item : Tool → Value
tool_item t = obj (
    field "name" (str t.name) (
      field "description" t.description (
        field "parameters" (to_json_schema t.parameters) (
          field "overridesBuiltInTool" t.overrides_built_in_tool
            (field "skipPermission" t.skip_permission end)))))

abbrev command_item : CommandDefinition → Value
command_item d = obj (field "name" (str d.name) (field "description" d.description end))

abbrev items {ℓ} : {A : Type ℓ} → (A → Value) → List A → Items
items f [] = nil
items f (x ∷ xs) = cons (f x) (items f xs)

abbrev items_or_undefined {ℓ} : {A : Type ℓ} → (A → Value) → Option (List A) → Value
items_or_undefined f none = undefined
items_or_undefined f (some xs) = arr (items f xs)

-- `!!(config.hooks && Object.values(config.hooks).some(Boolean))`
unfoldable pub has_hooks : Option SessionHooks → Bool
has_hooks none = false
has_hooks (some h) =
    is_some h.on_pre_tool_use
    || is_some h.on_post_tool_use
    || is_some h.on_user_prompt_submitted
    || is_some h.on_session_start
    || is_some h.on_session_end
    || is_some h.on_error_occurred

abbrev setting : SessionConfig → String → Fields → Fields
setting config key fs = field key (lookup key config.settings) fs

-- The fields that the two requests have in common, behind the first ones.
abbrev shared_params : SessionConfig → Fields → Fields
shared_params config rest = setting config "clientName" (
    setting config "model" (
      setting config "reasoningEffort" (
        field "tools" (items_or_undefined tool_item config.tools) (
          field "commands" (items_or_undefined command_item config.commands) (
            field "systemMessage" (extracted config.system_message).wire_payload (
              setting config "availableTools" (
                setting config "excludedTools" (
                  setting config "provider" (
                    setting config "modelCapabilities" (
                      field "requestUserInput" (bool (is_some config.on_user_input_request)) (
                        field "requestElicitation" (bool (is_some config.on_elicitation_request)) (
                          field "hooks" (bool (has_hooks config.hooks)) (
                            setting config "workingDirectory" (
                              setting config "streaming" (
                                setting config "mcpServers" (
                                  field "envValueMode" (str "direct") (
                                    setting config "customAgents" (
                                      setting config "agent" (
                                        setting config "configDir" (
                                          setting config "enableConfigDiscovery" (
                                            setting config "skillDirectories" (
                                              setting config "disabledSkills" (
                                                setting config "infiniteSessions"
                                                  rest)))))))))))))))))))))))

-- The fields are the source's, in another order; the CLI reads them by their names.
unfoldable pub create_request : TraceContext → String → SessionConfig → Request
unfolding to_json_schema
create_request trace id config = record {
  method = "session.create";
  params = with_trace trace (
      field "sessionId" (str id)
        (shared_params config (field "requestPermission" (bool true) end)));
}

abbrev asks_permission : Bool → Bool
asks_permission true = false
asks_permission false = true

unfoldable pub resume_request : TraceContext → String → SessionConfig → Request
unfolding to_json_schema
resume_request trace id config = record {
  method = "session.resume";
  params = with_trace trace (
      field "sessionId" (str id) (
        shared_params config (
          field "requestPermission" (bool (asks_permission config.default_permissions))
            (setting config "disableResume" end))));
}
