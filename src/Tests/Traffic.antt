-- ===== src/Tests/Traffic.antt =====
-- Runs of the theorems about what the CLI sends to the client.
use copilot_sdk_swift.Prelude.{String, ◌≡◌, ◌⊎◌, refl, some, []}
use copilot_sdk_swift.Js.Value.{Value, str, obj, end, field, lookup}
use copilot_sdk_swift.Js.Outcome.{ok}
use copilot_sdk_swift.Js.JsMap
use copilot_sdk_swift.Session.State.{Session, SessionEvent, session_idle, PermissionHandler}
use copilot_sdk_swift.Session.Dispatch.{Listeners}
use copilot_sdk_swift.Session.Tasks.{denied}
use copilot_sdk_swift.Session.Callbacks
use copilot_sdk_swift.Client.Incoming.{
  param, text_param, in_result, handle_session_event_notification, handle_permission_request_v2,
}
use copilot_sdk_swift.Client.Incoming.Routing.{IsRouted, handle_session_event_notification_routes}
use copilot_sdk_swift.Client.Incoming.Adapters.{permission_answer_decided}
use copilot_sdk_swift.Tests.Fixtures.{approval, busy_client}

abbrev quiet : Listeners
quiet h event = ([], ok tt)

abbrev idle_event : Value → SessionEvent
idle_event v = session_idle

abbrev notification : Value
notification = obj (field "sessionId" (str "u") (field "event" (obj end) end))

handle_session_event_notification_routes_example :
    IsRouted idle_event quiet 9 busy_client notification
      (handle_session_event_notification idle_event quiet 9 notification busy_client)
handle_session_event_notification_routes_example =
    handle_session_event_notification_routes idle_event quiet 9 busy_client notification

abbrev stray : Value
stray = obj (field "sessionId" (str "x") end)

abbrev call_params : Value
call_params =
    obj
      (field "sessionId" (str "s") (field "toolCallId" (str "c") (field "toolName" (str "t") end)))

abbrev full_result : Value
full_result = obj (field "textResultForLlm" (str "done") (field "resultType" (str "success") end))

abbrev permission_params : Value
permission_params = obj (field "sessionId" (str "s") (field "permissionRequest" (obj end) end))

permission_answer_decided_example :
    (in_result approval ≡ in_result denied)
    ⊎ ((id : String) × (s : Session) × (handler : PermissionHandler) × (w : Value) × (text_param
            "sessionId" permission_params
          ≡ some id)
        × (JsMap.get id busy_client.sessions ≡ some s)
        × (s.permission_handler ≡ some handler)
        × (handler (param "permissionRequest" permission_params) s.session_id ≡ ok w)
        × (in_result approval ≡ in_result w))
unfolding handle_permission_request_v2 Callbacks.handle_permission_request_v2 lookup JsMap.get
permission_answer_decided_example =
    permission_answer_decided permission_params (in_result approval) busy_client refl
