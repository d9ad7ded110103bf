-- ===== src/Idempotency.antt =====
-- The data of internal/manager/idempotency.go: the records of the mutations that clients named by
-- an idempotency key, and the identity of a request. `encoding/json`, `crypto/sha256`,
-- `encoding/hex` and `strings.TrimSpace` are not code of the repository: the identity takes the
-- canonical form of the parameters, the hash and the blank test as arguments.
pub mod Journal
mod Run
mod Request
mod AtMostOnce
mod Bounded
mod Unfinished
mod Kept
mod Replay
mod Recovery
mod LostReply
mod Tests
mod RequestTests
use kmonad_device_manager.Prelude.{
  ℕ, Bool, true, false, ◌||◌, Option, none, some, List, [], ◌∷◌, ◌++◌, Text, text, text_eq, ltb,
  ◌==◌, if◌then◌else◌, length,
}
use kmonad_device_manager.Prelude.Dict.{Dict}
use kmonad_device_manager.Domain.{Operation, ApiError}
use kmonad_device_manager.Service.{api_error}

abbrev pub idempotency_store_version : ℕ
idempotency_store_version = 1

abbrev pub max_idempotency_key_bytes : ℕ
max_idempotency_key_bytes = 128

abbrev pub max_idempotency_records : ℕ
max_idempotency_records = 128

unfoldable pub is_idempotent_mutation_method : Text → Bool
is_idempotent_mutation_method method =
    text_eq method (text "configuration.apply")
    || text_eq method (text "configuration.create")
    || text_eq method (text "configuration.update")
    || text_eq method (text "configuration.adopt")
    || text_eq method (text "configuration.set_enabled")
    || text_eq method (text "configuration.delete")

pub record IdempotencyRecord : Type 0 where
  pub fingerprint : Text
  pub operation : Operation
  pub error : Option ApiError
  pub finished : Bool

pub record IdempotencyStore : Type 0 where
  pub version : ℕ
  pub records : Dict Text IdempotencyRecord

-- The fields of `apiRequest` that an idempotent mutation reads.
pub record ApiRequest : Type 0 where
  pub method : Text
  pub params : Text
  pub idempotency_key : Text

pub data IdentityResult : Type 0 where
  identified : (key fingerprint : Text) → IdentityResult
  unidentified : ApiError → IdentityResult

module _ (is_blank : Text → Bool) (canonical : Text → Option Text) (hash : Text → Text) where
  -- `canonical` decodes the parameters and encodes them again; `hash` is the hex form of SHA-256.
  unfoldable pub idempotency_identity : ApiRequest → IdentityResult
  idempotency_identity request =
      if length request.idempotency_key == 0
        || ltb max_idempotency_key_bytes (length request.idempotency_key)
        || is_blank request.idempotency_key
      then unidentified (
          api_error (text "invalid_request")
            (text "a non-empty idempotency_key of at most 128 bytes is required"))
      else elim (canonical request.params) [
        | none ↦
            unidentified (api_error (text "invalid_request") (text "invalid mutation parameters"))
        | some params ↦
            identified (hash request.idempotency_key) (hash (request.method ++ (0 ∷ params)))
      ]
