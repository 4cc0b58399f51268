-- ===== src/Errors.antt =====
-- errors.ts: the error classes, as values with their message, and the status each one is answered by.
use qlerify_live.Prelude.{ℕ, String, Bool, true, false}

pub data Error : Type 0 where
  domain_error auth_error unauthenticated_error not_found_error : String → Error
  no_active_workflow_error model_not_loaded_error : String → Error
  llm_error : (message code : String) (code_status : ℕ) → Error
  -- `TenantContextMissingError` of platform/tenancy/context.ts.
  tenant_context_missing_error : String → Error
  -- `AdapterNotOwnedError` of packs/ownership.ts.
  adapter_not_owned_error : String → Error
  -- Any other `throw new Error(message)`.
  other_error : String → Error

pub status : Error → ℕ
status (domain_error _) = 422
status (auth_error _) = 403
status (unauthenticated_error _) = 401
status (not_found_error _) = 404
status (no_active_workflow_error _) = 409
status (model_not_loaded_error _) = 409
status (llm_error _ _ code_status) = code_status
status (tenant_context_missing_error _) = 401
status (adapter_not_owned_error _) = 404
status (other_error _) = 500

pub is_handled_error : Error → Bool
is_handled_error (other_error _) = false
is_handled_error (tenant_context_missing_error _) = false
is_handled_error (adapter_not_owned_error _) = false
is_handled_error _ = true

-- What a call ends in: a value, or a thrown error.
pub data Result {ℓ} (A : Type ℓ) : Type ℓ where
  ok : A → Result A
  throw : Error → Result A

infixl 5 ◌>>=◌
abbrev pub ◌>>=◌ {ℓ κ} : {A : Type ℓ} {B : Type κ} → Result A → (A → Result B) → Result B
ok a >>= f = f a
throw e >>= f = throw e

-- `e.message`.
abbrev pub message : Error → String
message (domain_error s) = s
message (auth_error s) = s
message (unauthenticated_error s) = s
message (not_found_error s) = s
message (no_active_workflow_error s) = s
message (model_not_loaded_error s) = s
message (llm_error s code code_status) = s
message (tenant_context_missing_error s) = s
message (adapter_not_owned_error s) = s
message (other_error s) = s
