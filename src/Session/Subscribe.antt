-- ===== src/Session/Subscribe.antt =====
-- `on` of session.ts, the functions that it returns to unsubscribe, and the `register...` methods.
pub mod Laws
use copilot_sdk_swift.Prelude.{ℕ, String, Bool, Option, none, some, List, [], ◌∷◌, if◌then◌else◌}
use copilot_sdk_swift.Js.JsMap
use copilot_sdk_swift.Js.JsMap.{JsMap}
use copilot_sdk_swift.Js.JsSet
use copilot_sdk_swift.Js.JsSet.{JsSet}
use copilot_sdk_swift.Session.State.{
  Session, SessionCapabilities, ToolHandler, CommandHandler, PermissionHandler, UserInputHandler,
  ElicitationHandler, SessionHooks, SectionTransformFn,
}

-- The set for an event type, made if it is not there yet.
abbrev pub with_type : String → JsMap JsSet → JsMap JsSet
with_type t m = if JsMap.has t m then m else JsMap.set t JsSet.empty m

-- A set that is not there has no listeners.
unfoldable pub set_or_empty : Option JsSet → JsSet
set_or_empty none = JsSet.empty
set_or_empty (some hs) = hs

-- `on(eventType, handler)`: the `get` behind it finds the set that was just made sure of.
unfoldable pub on_typed : String → ℕ → Session → Session
on_typed t h s =
    let m = with_type t s.typed_event_handlers in
    record s { typed_event_handlers = JsMap.set t (JsSet.add h (set_or_empty (JsMap.get t m))) m }

-- `on(handler)`
unfoldable pub on_any : ℕ → Session → Session
on_any h s = record s { event_handlers = JsSet.add h s.event_handlers }

-- What `on(eventType, handler)` returns: it looks the set up anew.
unfoldable pub off_typed : String → ℕ → Session → Session
off_typed t h s = elim (JsMap.get t s.typed_event_handlers) [
  | none ↦ s
  | some hs ↦ record s {
    typed_event_handlers = JsMap.set t (JsSet.delete h hs) s.typed_event_handlers;
  }
]

-- What `on(handler)` returns.
unfoldable pub off_any : ℕ → Session → Session
off_any h s = record s { event_handlers = JsSet.delete h s.event_handlers }

-- The listeners that an event of type `t` goes to.
unfoldable pub typed_slots : String → Session → JsSet
typed_slots t s = set_or_empty (JsMap.get t s.typed_event_handlers)

abbrev set_all {ℓ} : {V : Type ℓ} → List (String × V) → JsMap V → JsMap V
set_all [] m = m
set_all ((k, v) ∷ rest) m = set_all rest (JsMap.set k v m)

abbrev entries {ℓ} : {V : Type ℓ} → Option (List (String × V)) → List (String × V)
entries none = []
entries (some l) = l

-- `registerTools(tools)`: the map is cleared first; a tool is its name and its handler here.
unfoldable pub register_tools : Option (List (String × ToolHandler)) → Session → Session
register_tools tools s = record s { tool_handlers = set_all (entries tools) JsMap.empty }

unfoldable pub get_tool_handler : String → Session → Option ToolHandler
get_tool_handler name s = JsMap.get name s.tool_handlers

unfoldable pub register_commands : Option (List (String × CommandHandler)) → Session → Session
register_commands commands s = record s {
  command_handlers = set_all (entries commands) JsMap.empty;
}

unfoldable pub register_elicitation_handler : Option ElicitationHandler → Session → Session
register_elicitation_handler h s = record s { elicitation_handler = h }

unfoldable pub register_permission_handler : Option PermissionHandler → Session → Session
register_permission_handler h s = record s { permission_handler = h }

unfoldable pub register_user_input_handler : Option UserInputHandler → Session → Session
register_user_input_handler h s = record s { user_input_handler = h }

unfoldable pub register_hooks : Option SessionHooks → Session → Session
register_hooks h s = record s { hooks = h }

unfoldable pub register_transform_callbacks : Option (JsMap SectionTransformFn) → Session → Session
register_transform_callbacks cs s = record s { transform_callbacks = cs }

-- `capabilities ?? {}`
unfoldable pub set_capabilities : Option SessionCapabilities → Session → Session
set_capabilities none s = record s { capabilities = record { ui = none } }
set_capabilities (some c) s = record s { capabilities = c }
