-- ===== src/Rpc.antt =====
-- The JSON-RPC connection (vscode-jsonrpc, not part of the repository): a computation sends
-- requests, and the peer's answer to each is a parameter that may depend on what was sent before.

use copilot_sdk_swift.Prelude.{String, List, [], ◌∷◌, ◌++◌}
use copilot_sdk_swift.Js.Value.{Value, Fields}
use copilot_sdk_swift.Js.Outcome.{Thrown, Outcome, ok, throw}

pub record Request : Type 0 where
  pub method : String
  pub params : Fields

abbrev pub Peer : Type 0
Peer = List Request → Request → Outcome Value

-- An `async` function: how its promise settles, and the requests sent so far.
abbrev pub Async {ℓ} : Type ℓ → Type ℓ
Async A = List Request → Outcome A × List Request

abbrev pub pure {ℓ} : {A : Type ℓ} → A → Async A
pure a sent = (ok a, sent)

abbrev pub lift {ℓ} : {A : Type ℓ} → Outcome A → Async A
lift o sent = (o, sent)

abbrev pub raise {ℓ} : {A : Type ℓ} → Thrown → Async A
raise e sent = (throw e, sent)

infixl 5 ◌>>=◌ ◌>>◌
abbrev pub ◌>>=◌ {ℓ κ} : {A : Type ℓ} {B : Type κ} → Async A → (A → Async B) → Async B
◌>>=◌ m f sent = let (o, sent') = m sent in elim o [ ok a ↦ f a sent' | throw e ↦ (throw e, sent') ]

abbrev pub ◌>>◌ {ℓ κ} : {A : Type ℓ} {B : Type κ} → Async A → Async B → Async B
m >> k = m >>= λ _. k

-- `try { m } catch (e) { handler(e) }`
abbrev pub try_catch {ℓ} : {A : Type ℓ} → Async A → (Thrown → Async A) → Async A
try_catch m handler sent =
    let (o, sent') = m sent in elim o [ ok a ↦ (ok a, sent') | throw e ↦ handler e sent' ]

-- `connection.sendRequest(method, params)`
unfoldable pub send_request : Peer → Request → Async Value
send_request peer r sent = (peer sent r, sent ++ r ∷ [])
