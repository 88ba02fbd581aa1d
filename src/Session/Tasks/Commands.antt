-- ===== src/Session/Tasks/Commands.antt =====
-- What the CLI is told for commands and elicitations, and what the methods reject with.
use copilot_sdk_swift.Prelude.{String, ◌≡◌, refl, inl, inr, Option, none, some, List, arith, ◌+++◌}
use copilot_sdk_swift.Js.Value.{str, lookup}
use copilot_sdk_swift.Js.Outcome.{Thrown, Outcome, ok, throw, Outcome-cases, map_ok, message_of}
use copilot_sdk_swift.Rpc.{Request, Peer}
use copilot_sdk_swift.Session.State.{
  CommandContext, ElicitationContext, CommandHandler, ElicitationHandler,
}
use copilot_sdk_swift.Session.Tasks.{
  pending, commands_method, ui_method, execute_command_and_respond, handle_elicitation_request,
  command_done, cancel,
}
use copilot_sdk_swift.Session.Tasks.Shape.{
  IsAnswer, IsAnswered, respond, after-respond, answers-IsAnswered,
}

module _ (peer : Peer) (session_id request_id : String) (sent : List Request) where
  abbrev command_plan : Option CommandHandler → CommandContext → Outcome Request
  command_plan none context = throw (Thrown.error ("Unknown command: " +++ context.command_name))
  command_plan (some handler) context =
      map_ok (λ _. command_done session_id request_id) (handler context)

  abbrev command_fallback : Thrown → Request
  command_fallback e = pending commands_method session_id request_id "error" (str (message_of e))

  execute_command_and_respond-eq-respond :
      (handler : Option CommandHandler) (context : CommandContext)
      → execute_command_and_respond peer session_id request_id handler context sent
        ≡ respond peer (command_plan handler context) command_fallback sent
  unfolding execute_command_and_respond message_of
  execute_command_and_respond-eq-respond none context = refl
  execute_command_and_respond-eq-respond (some handler) context =
      elim (Outcome-cases (handler context)) [
        | inl (v, e) ↦ ground (arith, e)
        | inr (x, e) ↦ ground (arith, e)
      ]

  command_plan-IsAnswer :
      (handler : Option CommandHandler) (context : CommandContext) (r : Request)
      → command_plan handler context ≡ ok r
      → IsAnswer commands_method request_id r
  unfolding lookup
  command_plan-IsAnswer none context r h = cc
  command_plan-IsAnswer (some handler) context r h = elim (Outcome-cases (handler context)) [
    | inl (v, e) ↦ ground (arith, e, h)
    | inr (x, e) ↦ ground (arith, e, h)
  ]

  -- Every command is answered, once or twice, also one that no handler is registered for.
  pub execute_command_and_respond-IsAnswered :
      (handler : Option CommandHandler) (context : CommandContext)
      → IsAnswered commands_method request_id sent
          (execute_command_and_respond peer session_id request_id handler context sent).1
  unfolding lookup
  execute_command_and_respond-IsAnswered handler context =
      answers-IsAnswered peer sent commands_method request_id (command_plan handler context)
        command_fallback (command_plan-IsAnswer handler context) (λ e. (refl, refl)) _
        (rw execute_command_and_respond-eq-respond (after-respond peer sent _ _))

  abbrev elicitation_plan : ElicitationHandler → ElicitationContext → Outcome Request
  elicitation_plan handler context =
      map_ok (λ v. pending ui_method session_id request_id "result" v) (handler context)

  abbrev elicitation_fallback : Thrown → Request
  elicitation_fallback e = pending ui_method session_id request_id "result" cancel

  handle_elicitation_request-eq-respond :
      (handler : ElicitationHandler) (context : ElicitationContext)
      → handle_elicitation_request peer session_id (some handler) context request_id sent
        ≡ respond peer (elicitation_plan handler context) elicitation_fallback sent
  unfolding handle_elicitation_request
  handle_elicitation_request-eq-respond handler context = elim (Outcome-cases (handler context)) [
    | inl (v, e) ↦ ground (arith, e)
    | inr (x, e) ↦ ground (arith, e)
  ]

  -- Every elicitation that reaches a handler is answered, once or twice; a failing handler cancels it.
  pub handle_elicitation_request-IsAnswered :
      (handler : ElicitationHandler) (context : ElicitationContext)
      → IsAnswered ui_method request_id sent
          (handle_elicitation_request peer session_id (some handler) context request_id sent).1
  unfolding lookup
  handle_elicitation_request-IsAnswered handler context =
      answers-IsAnswered peer sent ui_method request_id (elicitation_plan handler context)
        elicitation_fallback (λ r h. ground (arith, h)) (λ e. (refl, refl)) _
        (rw handle_elicitation_request-eq-respond (after-respond peer sent _ _))
