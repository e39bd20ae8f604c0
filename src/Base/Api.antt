-- ===== src/Base/Api.antt =====
-- What comes back from a call of `api` (api/client.ts), and how an action of a store ends.
use Prim.Native.Nat.{ℕ}
use Prim.Native.String.{String}

-- `ApiRequestError` carries the status and the server's message; any other error carries nothing
-- that a store reads.
pub data Failure : Type 0 where
  api_request_error : ℕ → String → Failure
  other_error : Failure

pub data Reply {ℓ} (A : Type ℓ) : Type ℓ where
  ok : A → Reply A
  failed : Failure → Reply A

-- `err instanceof ApiRequestError ? err.message : fallback`
abbrev pub describe : Failure → String → String
describe (api_request_error status message) fallback = message
describe other_error fallback = fallback

-- An action's promise: fulfilled, or rejected by `throw err`.
pub data Outcome {ℓ} (A : Type ℓ) : Type ℓ where
  returned : A → Outcome A
  thrown : Failure → Outcome A
