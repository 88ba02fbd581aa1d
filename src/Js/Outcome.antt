-- ===== src/Js/Outcome.antt =====
-- How a call of the dynamic language ends: it returns (or its promise resolves), or it throws (or
-- its promise rejects).
use copilot_sdk_swift.Prelude.{String, ◌≡◌, ◌⊎◌, inl, inr, refl, Bool, true, false}
use copilot_sdk_swift.Js.Value.{Value, to_text}

-- `Error` objects by class; a JavaScript program may throw any other value too.
pub data Thrown : Type 0 where
  error : String → Thrown
  connection_error : String → Thrown
  response_error : String → Thrown
  thrown_value : Value → Thrown

pub data Outcome {ℓ} (A : Type ℓ) : Type ℓ where
  ok : A → Outcome A
  throw : Thrown → Outcome A

-- `error instanceof Error ? error.message : String(error)`
unfoldable pub message_of : Thrown → String
unfolding to_text
message_of (error m) = m
message_of (connection_error m) = m
message_of (response_error m) = m
message_of (thrown_value v) = to_text v

-- `rpcError instanceof ConnectionError || rpcError instanceof ResponseError`
abbrev pub is_rpc_error : Thrown → Bool
is_rpc_error (connection_error m) = true
is_rpc_error (response_error m) = true
is_rpc_error _ = false

infixl 5 ◌>>=◌
abbrev pub ◌>>=◌ {ℓ κ} : {A : Type ℓ} {B : Type κ} → Outcome A → (A → Outcome B) → Outcome B
ok a >>= f = f a
throw e >>= f = throw e

abbrev pub map_ok {ℓ κ} : {A : Type ℓ} {B : Type κ} → (A → B) → Outcome A → Outcome B
map_ok f (ok a) = ok (f a)
map_ok f (throw e) = throw e

pub Outcome-cases {ℓ} :
    {A : Type ℓ} (o : Outcome A) → ((a : A) × (o ≡ ok a)) ⊎ ((e : Thrown) × (o ≡ throw e))
Outcome-cases (ok a) = inl (a, refl)
Outcome-cases (throw e) = inr (e, refl)
