-- ===== src/Tests/Sessions.antt =====
-- Runs of the theorems about sessions.
use copilot_sdk_swift.Prelude.{◌≡◌, refl, none, List, [], ◌∷◌, ◌++◌, All}
use copilot_sdk_swift.Js.Value.{undefined, obj, Fields, lookup}
use copilot_sdk_swift.Js.Outcome.{ok, throw}
use copilot_sdk_swift.Rpc.{Request}
use copilot_sdk_swift.Session.Tasks.{
  tools_method, permissions_method, pending, execute_tool_and_respond,
  execute_permission_and_respond,
}
use copilot_sdk_swift.Session.Tasks.Shape.{IsAnswered}
use copilot_sdk_swift.Session.Tasks.Answers.{
  IsDecision, execute_tool_and_respond-IsAnswered, execute_permission_and_respond-IsDecision,
}
use copilot_sdk_swift.Session.Ui.{can_elicit, not_supported, elicitation, confirm, select, input}
use copilot_sdk_swift.Session.Ui.Answers.{dialogs_gated}
use copilot_sdk_swift.Session.Callbacks.{handle_permission_request_v2}
use copilot_sdk_swift.Session.Callbacks.Permissions.{protocols_agree}
use copilot_sdk_swift.Tests.Fixtures.{
  accepting, lost, approval, approve, failing_tool, invocation, plain, approving,
}

execute_tool_and_respond-IsAnswered_example :
    IsAnswered tools_method "r" []
      (execute_tool_and_respond lost "s" "r" failing_tool invocation []).1
execute_tool_and_respond-IsAnswered_example =
    execute_tool_and_respond-IsAnswered lost "s" "r" [] failing_tool invocation

execute_permission_and_respond-IsDecision_example :
    (rs : List Request) × ((execute_permission_and_respond lost "s" "r" undefined approve []).1
      ≡ [] ++ rs)
    × All (IsDecision (approve undefined "s")) rs
execute_permission_and_respond-IsDecision_example =
    execute_permission_and_respond-IsDecision lost "s" "r" [] undefined approve

dialogs_gated_example :
    (elicitation accepting plain "m" undefined [] ≡ (throw not_supported, []))
    × (confirm accepting plain "m" [] ≡ (throw not_supported, []))
    × (select accepting plain "m" [] [] ≡ (throw not_supported, []))
    × (input accepting plain "m" none [] ≡ (throw not_supported, []))
unfolding can_elicit
dialogs_gated_example = dialogs_gated accepting plain [] refl "m" undefined [] none

protocols_agree_example :
    execute_permission_and_respond accepting "s" "r" undefined approve []
    ≡ (ok tt, [] ++ pending permissions_method "s" "r" "result" approval ∷ [])
unfolding handle_permission_request_v2 lookup
protocols_agree_example =
    protocols_agree accepting [] "r" undefined approval (obj Fields.end) approving approve refl refl
      refl
