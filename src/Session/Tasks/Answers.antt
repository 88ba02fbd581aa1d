-- ===== src/Session/Tasks/Answers.antt =====
-- What the CLI is told for each request that it broadcasts, on every path.
use mathlib.Core.List.{append-nil}
use copilot_sdk_swift.Session.Tasks.Shape.{
  IsAnswered, respond, answers, after-respond, answers-IsAnswered, answers-All,
}
use copilot_sdk_swift.Prelude.{
  Bool-cases, sym, String, ◌≡◌, ◌⊎◌, inl, inr, refl, Bool, true, false, List, [], ◌++◌, arith, All,
}
use copilot_sdk_swift.Js.Value.{Value, str, lookup}
use copilot_sdk_swift.Js.Outcome.{Thrown, Outcome, ok, throw, Outcome-cases, map_ok, message_of}
use copilot_sdk_swift.Rpc.{Request, Peer, send_request}
use copilot_sdk_swift.Session.State.{ToolInvocation, ToolHandler, PermissionHandler}
use copilot_sdk_swift.Session.Tasks.{
  tool_result, denied, pending, get_field, tools_method, permissions_method,
  execute_tool_and_respond, execute_permission_and_respond, is_no_result,
}

-- Whether a permission handler returned a result of the kind "no-result".
abbrev pub withholds : Outcome Value → Bool
withholds (ok v) = elim (get_field "kind" v) [ ok kind ↦ is_no_result kind | throw e ↦ false ]
withholds (throw e) = false

-- The decision that a request carries is the handler's own or a denial.
abbrev pub IsDecision : Outcome Value → Request → Type 0
IsDecision o r = (o ≡ ok (lookup "result" r.params)) ⊎ (lookup "result" r.params ≡ denied)

module _ (peer : Peer) (session_id request_id : String) (sent : List Request) where
  -- What is sent first for a tool call, and what if that fails; and so for the other three.
  abbrev tool_plan : ToolHandler → ToolInvocation → Outcome Request
  tool_plan handler invocation =
      map_ok (λ raw. pending tools_method session_id request_id "result" (tool_result raw))
        (handler invocation.arguments invocation)

  abbrev tool_fallback : Thrown → Request
  tool_fallback e = pending tools_method session_id request_id "error" (str (message_of e))

  execute_tool_and_respond-eq-respond :
      (handler : ToolHandler) (invocation : ToolInvocation)
      → execute_tool_and_respond peer session_id request_id handler invocation sent
        ≡ respond peer (tool_plan handler invocation) tool_fallback sent
  unfolding execute_tool_and_respond send_request
  execute_tool_and_respond-eq-respond handler invocation =
      elim (Outcome-cases (handler invocation.arguments invocation)) [
        | inl (v, e) ↦ ground (arith, e)
        | inr (x, e) ↦ ground (arith, e)
      ]

  -- Every tool call is answered, once or twice, and nothing else is sent: whatever the handler and
  -- the CLI do, the call does not hang.
  pub execute_tool_and_respond-IsAnswered :
      (handler : ToolHandler) (invocation : ToolInvocation)
      → IsAnswered tools_method request_id sent
          (execute_tool_and_respond peer session_id request_id handler invocation sent).1
  unfolding lookup
  execute_tool_and_respond-IsAnswered handler invocation =
      answers-IsAnswered peer sent tools_method request_id (tool_plan handler invocation)
        tool_fallback (λ r h. ground (arith, h)) (λ e. (refl, refl)) _
        (rw execute_tool_and_respond-eq-respond (after-respond peer sent _ _))

  abbrev permission_plan : Outcome Value → Outcome Request
  permission_plan (ok v) =
      map_ok (λ _. pending permissions_method session_id request_id "result" v) (get_field "kind" v)
  permission_plan (throw e) = throw e

  abbrev permission_fallback : Thrown → Request
  permission_fallback e = pending permissions_method session_id request_id "result" denied

  execute_permission_and_respond-eq-respond :
      (request : Value) (handler : PermissionHandler) (o : Outcome Value)
      → handler request session_id ≡ o
      → withholds o ≡ false
      → execute_permission_and_respond peer session_id request_id request handler sent
        ≡ respond peer (permission_plan o) permission_fallback sent
  unfolding execute_permission_and_respond send_request
  execute_permission_and_respond-eq-respond request handler (throw x) e w = ground (arith, e)
  execute_permission_and_respond-eq-respond request handler (ok v) e w =
      elim (Outcome-cases (get_field "kind" v)) [
        | inl (k, h) ↦ ground (arith, e, h, w)
        | inr (x, h) ↦ ground (arith, e, h, w)
      ]

  permission_plan-eq-ok :
      (o : Outcome Value) (r : Request)
      → permission_plan o ≡ ok r
      → (v : Value) × (o ≡ ok v) × (r ≡ pending permissions_method session_id request_id "result" v)
  permission_plan-eq-ok (throw x) r h = cc
  permission_plan-eq-ok (ok v) r h = elim (Outcome-cases (get_field "kind" v)) [
    | inl (k, e) ↦ (v, refl, ground (arith, e, h))
    | inr (x, e) ↦ absurd (ground (arith, e, h))
  ]

  -- A permission request is answered, once or twice, unless its handler returned "no-result".
  pub execute_permission_and_respond-IsAnswered :
      (request : Value) (handler : PermissionHandler)
      → withholds (handler request session_id) ≡ false
      → IsAnswered permissions_method request_id sent
          (execute_permission_and_respond peer session_id request_id request handler sent).1
  unfolding lookup
  execute_permission_and_respond-IsAnswered request handler w =
      answers-IsAnswered peer sent permissions_method request_id
        (permission_plan (handler request session_id)) permission_fallback
        (λ r h. let (v, _, e) = permission_plan-eq-ok _ r h in rw e (refl, refl))
        (λ e. (refl, refl)) _
        (rw
          (execute_permission_and_respond-eq-respond request handler (handler request session_id)
            refl w)
          (after-respond peer sent _ _))

  -- Where the handler returned "no-result", the method sends nothing and does not reject.
  pub execute_permission_and_respond-no_result :
      (request : Value) (handler : PermissionHandler)
      → withholds (handler request session_id) ≡ true
      → execute_permission_and_respond peer session_id request_id request handler sent
        ≡ (ok tt, sent)
  unfolding execute_permission_and_respond send_request
  execute_permission_and_respond-no_result request handler w =
      elim (Outcome-cases (handler request session_id)) [
        | inl (v, e) ↦ elim (Outcome-cases (get_field "kind" v)) [
          | inl (k, h) ↦ ground (arith, e, h, w)
          | inr (x, h) ↦ ground (arith, e, h, w)
        ]
        | inr (x, e) ↦ ground (arith, e, w)
      ]

  -- Whatever is sent for a permission request carries what the handler returned, or a denial: no
  -- failure of the handler or of the connection turns into an approval.
  pub execute_permission_and_respond-IsDecision :
      (request : Value) (handler : PermissionHandler)
      → (rs : List Request) × ((execute_permission_and_respond peer session_id request_id request
            handler sent).1
          ≡ sent ++ rs)
        × All (IsDecision (handler request session_id)) rs
  unfolding lookup
  execute_permission_and_respond-IsDecision request handler =
      elim (Bool-cases (withholds (handler request session_id))) [
        | inl w ↦ (
          [],
          rw (execute_permission_and_respond-no_result request handler w) (sym (append-nil sent)),
          tt,
        )
        | inr w ↦ (
          answers peer sent (permission_plan (handler request session_id)) permission_fallback,
          rw
              (execute_permission_and_respond-eq-respond request handler
                (handler request session_id) refl w)
              (after-respond peer sent _ _),
          answers-All peer sent (permission_plan (handler request session_id)) permission_fallback
              (λ r h. let (v, o, e) = permission_plan-eq-ok _ r h in rw (o, e) (inl refl))
              (λ e. inr refl),
        )
      ]
