-- ===== src/Client/Machine.antt =====
-- A client over time: which clients a program can reach from the constructor of client.ts by calls of its
-- methods, by calls on its sessions, by notifications of the CLI and by the end of the connection. A call
-- is one step; `sendAndWait` changes its session as a subscription and its end do, which are two.
pub mod Frames
pub mod Registry
pub mod Kept
pub mod Calls
pub mod Listening
pub mod Invariant
pub mod Restart
use copilot_sdk_swift.Prelude.{ℕ, String, ◌≡◌, Option, some, List}
use copilot_sdk_swift.Js.Value.{Value}
use copilot_sdk_swift.Js.Outcome.{Outcome, ok}
use copilot_sdk_swift.Rpc.{Request, Peer}
use copilot_sdk_swift.Js.JsMap
use copilot_sdk_swift.Session.State.{
  Session, SessionEvent, SessionCapabilities, ToolHandler, CommandHandler, PermissionHandler,
  UserInputHandler, ElicitationHandler, SessionHooks, SectionTransformFn,
}
use copilot_sdk_swift.Session.Subscribe.{
  register_tools, register_commands, register_elicitation_handler, register_permission_handler,
  register_user_input_handler, register_hooks, register_transform_callbacks, set_capabilities,
}
use copilot_sdk_swift.Session.Requests.{TraceContext, disconnect}
use copilot_sdk_swift.Session.Dispatch.{Listeners, Subscription, apply_subscription}
use copilot_sdk_swift.Client.State.{Client, disconnected}
use copilot_sdk_swift.Client.Start.{StartWorld, start}
use copilot_sdk_swift.Client.Stop.{Teardown, stop, force_stop}
use copilot_sdk_swift.Client.Options.{ClientOptions, construct}
use copilot_sdk_swift.Client.SessionConfig.{SessionConfig}
use copilot_sdk_swift.Client.Sessions.{create_session, resume_session}
use copilot_sdk_swift.Client.Queries.{delete_session, list_models}
use copilot_sdk_swift.Client.Incoming.{Notified, with_session, handle_session_event_notification}
use copilot_sdk_swift.Client.Lifecycle.{
  LifecycleListeners, LifecycleSubscription, Announced, apply_lifecycle,
  handle_session_lifecycle_notification,
}

-- `onClose` and `onError` of the connection.
unfoldable pub close_connection : Client → Client
close_connection c = record c { state = disconnected }

-- The calls that change a session: `on` and what it returns, the `register...` methods,
-- `setCapabilities` and `disconnect`.
infix 40 ◌⇢◌
pub data ◌⇢◌ (s : Session) : Session → Type 0 where
  subscribes : (op : Subscription) → s ⇢ apply_subscription op s
  takes_tools : (tools : Option (List (String × ToolHandler))) → s ⇢ register_tools tools s
  takes_commands :
      (commands : Option (List (String × CommandHandler))) → s ⇢ register_commands commands s
  takes_elicitation : (h : Option ElicitationHandler) → s ⇢ register_elicitation_handler h s
  takes_permission : (h : Option PermissionHandler) → s ⇢ register_permission_handler h s
  takes_user_input : (h : Option UserInputHandler) → s ⇢ register_user_input_handler h s
  takes_hooks : (h : Option SessionHooks) → s ⇢ register_hooks h s
  takes_transform :
      (cs : Option (JsMap.JsMap SectionTransformFn)) → s ⇢ register_transform_callbacks cs s
  takes_capabilities : (cs : Option SessionCapabilities) → s ⇢ set_capabilities cs s
  disconnects : (peer : Peer) (sent : List Request) → s ⇢ (disconnect peer s sent).0

infix 40 ◌⟶◌
pub data ◌⟶◌ (c d : Client) : Type 0 where
  starts : (w : StartWorld) → d ≡ (start w c).1 → c ⟶ d
  stops : (peer : Peer) (t : Teardown) (sent : List Request) → d ≡ (stop peer t c sent).1 → c ⟶ d
  force_stops : d ≡ force_stop c → c ⟶ d
  creates :
      (peer : Peer) (w : StartWorld) (trace : Option (Outcome (Option TraceContext)))
      (random_id : String) (config : SessionConfig) (sent : List Request)
      → d ≡ (create_session peer w trace random_id config c sent).1
      → c ⟶ d
  resumes :
      (peer : Peer) (w : StartWorld) (trace : Option (Outcome (Option TraceContext))) (id : String)
      (config : SessionConfig) (sent : List Request)
      → d ≡ (resume_session peer w trace id config c sent).1
      → c ⟶ d
  deletes :
      (peer : Peer) (id : String) (sent : List Request)
      → d ≡ (delete_session peer c id sent).1
      → c ⟶ d
  lists :
      (peer : Peer) (handler : Option (Outcome (List Value))) (sent : List Request)
      → d ≡ (list_models peer handler c sent).1
      → c ⟶ d
  hears :
      (as_event : Value → SessionEvent) (listeners : Listeners) (fuel : ℕ) (notification : Value)
      (r : Notified)
      → handle_session_event_notification as_event listeners fuel notification c ≡ some r
      → d ≡ r.client
      → c ⟶ d
  hears_lifecycle :
      (listeners : LifecycleListeners) (fuel : ℕ) (notification : Value) (r : Announced)
      → handle_session_lifecycle_notification listeners fuel notification c ≡ some r
      → d ≡ r.client
      → c ⟶ d
  listens : (ops : List LifecycleSubscription) → d ≡ apply_lifecycle ops c → c ⟶ d
  uses :
      (id : String) (s t : Session)
      → JsMap.get id c.sessions ≡ some s
      → s ⇢ t
      → d ≡ with_session id t c
      → c ⟶ d
  closes : d ≡ close_connection c → c ⟶ d

pub data Reached : Client → Type 0 where
  constructed : {c : Client} (o : ClientOptions) → construct o ≡ ok c → Reached c
  followed : {c d : Client} → Reached c → c ⟶ d → Reached d
