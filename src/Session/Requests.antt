-- ===== src/Session/Requests.antt =====
-- The requests that session.ts makes of the CLI: `send`, `getMessages`, `disconnect`, `abort`,
-- `setModel` and `log`.
pub mod Disconnecting
use copilot_sdk_swift.Prelude.{String, Bool, true, false, Option, none, some, List, [], ◌∷◌, ◌++◌}
use copilot_sdk_swift.Js.Value.{Value, undefined, str, bool, Fields, end, field}
use copilot_sdk_swift.Js.Outcome.{Outcome, ok, throw}
use copilot_sdk_swift.Js.JsMap
use copilot_sdk_swift.Js.JsSet
use copilot_sdk_swift.Rpc.{Request, Peer, Async, pure, lift, ◌>>=◌, ◌>>◌, send_request}
use copilot_sdk_swift.Session.State.{Session}
use copilot_sdk_swift.Session.Tasks.{get_field}

-- `TraceContext`, and the provider that the user may configure (telemetry.ts).
pub record TraceContext : Type 0 where
  pub traceparent : Option String
  pub tracestate : Option String

abbrev pub no_trace : TraceContext
no_trace = record { traceparent = none; tracestate = none }

-- `getTraceContext`: `{}` without a provider, if it fails, and if it gives nothing.
unfoldable pub get_trace_context : Option (Outcome (Option TraceContext)) → TraceContext
get_trace_context none = no_trace
get_trace_context (some (throw e)) = no_trace
get_trace_context (some (ok none)) = no_trace
get_trace_context (some (ok (some c))) = c

abbrev pub optional : String → Option String → Fields → Fields
optional key none fs = fs
optional key (some v) fs = field key (str v) fs

abbrev pub with_trace : TraceContext → Fields → Fields
with_trace c fs = optional "traceparent" c.traceparent (optional "tracestate" c.tracestate fs)

-- `MessageOptions`
pub record MessageOptions : Type 0 where
  pub prompt : String
  pub attachments : Value
  pub mode : Value

unfoldable pub send_params : TraceContext → MessageOptions → Session → Request
send_params trace o s = record {
  method = "session.send";
  params = with_trace trace (
      field "sessionId" (str s.session_id) (
        field "prompt" (str o.prompt)
          (field "attachments" o.attachments (field "mode" o.mode end))));
}

abbrev by_id : String → Session → Request
by_id method s = record { method = method; params = field "sessionId" (str s.session_id) end }

abbrev pub destroy_request : Session → Request
destroy_request s = by_id "session.destroy" s

-- What `disconnect` clears once the CLI has agreed.
unfoldable pub released : Session → Session
released s = record s {
  event_handlers = JsSet.empty;
  typed_event_handlers = JsMap.empty;
  tool_handlers = JsMap.empty;
  permission_handler = none;
}

module _ (peer : Peer) where
  -- The id of the message.
  unfoldable pub send : TraceContext → MessageOptions → Session → Async Value
  unfolding send_request send_params
  send trace o s = do
    response ← send_request peer (send_params trace o s)
    lift (get_field "messageId" response)

  unfoldable pub get_messages : Session → Async Value
  unfolding send_request
  get_messages s = do
    response ← send_request peer (by_id "session.getMessages" s)
    lift (get_field "events" response)

  -- The session afterwards, how the promise settles, and the requests.
  unfoldable pub disconnect : Session → List Request → Session × Outcome (Unit {0}) × List Request
  unfolding released
  disconnect s sent =
      let sent' = sent ++ destroy_request s ∷ [] in
      elim (peer sent (destroy_request s)) [
        | ok _ ↦ (released s, ok tt, sent')
        | throw e ↦ (s, throw e, sent')
      ]

  unfoldable pub abort : Session → Async (Unit {0})
  unfolding send_request
  abort s = send_request peer (by_id "session.abort" s) >> pure tt

  -- `{ modelId: model, ...options }`; the options are spread behind the model.
  unfoldable pub set_model : String → Fields → Session → Async (Unit {0})
  unfolding send_request
  set_model model options s =
      send_request peer (record {
        method = "session.model.switchTo";
        params = field "sessionId" (str s.session_id) (field "modelId" (str model) options);
      })
      >> pure tt

  abbrev optional_flag : String → Option Bool → Fields → Fields
  optional_flag key none fs = fs
  optional_flag key (some b) fs = field key (bool b) fs

  unfoldable pub log :
      String → (level : Option String) (ephemeral : Option Bool) → Session → Async (Unit {0})
  unfolding send_request
  log message level ephemeral s =
      send_request peer (record {
        method = "session.log";
        params = field "sessionId" (str s.session_id) (
            field "message" (str message)
              (optional "level" level (optional_flag "ephemeral" ephemeral end)));
      })
      >> pure tt
