-- ===== src/Idempotency/Replay.antt =====
-- A request of internal/manager/idempotency.go whose key has a record: it is answered from the
-- record, and its mutation is not executed.
use kmonad_device_manager.Prelude.{
  ◌≡◌, ◌≢◌, Bool, true, false, Option, some, [], Text, Text-eq, text, text_eq, text_eq_iff,
  if◌then◌else◌, arith,
}
use kmonad_device_manager.Prelude.Dict.{lookup}
use kmonad_device_manager.Service.{
  CommandResult, failed_with, succeeded_with, queued, submit_command, execute_command,
}
use kmonad_device_manager.Idempotency.{
  IdempotencyRecord, ApiRequest, identified, idempotency_identity,
}
use kmonad_device_manager.Idempotency.Journal.{
  Journal, AdmissionInputs, admit_idempotent_mutation, current_record,
}
use kmonad_device_manager.Idempotency.Run.{CommandValue}
use kmonad_device_manager.Idempotency.Request.{replayed, RequestInputs, run_idempotent_mutation}

-- The admission of a key with a record: a replay, or a conflict.
pub admit-known :
    (inputs : AdmissionInputs) (key fingerprint method : Text) (j : Journal) (r : IdempotencyRecord)
    → j.idempotency_path ≢ []
    → lookup key j.idempotency_records ≡ some r
    → admit_idempotent_mutation inputs key fingerprint method j ≡ (
      (if text_eq r.fingerprint fingerprint
          then succeeded_with (record { key = key; replay = true; entry = current_record r j })
          else failed_with
              (text "idempotency_conflict")
              (text "idempotency key was used for a different mutation")),
      j,
    )
unfolding admit_idempotent_mutation
admit-known inputs key fingerprint method j r p l =
    ground (arith, text_eq_iff j.idempotency_path [])

pub current_record-finished :
    (r : IdempotencyRecord) (j : Journal) → r.finished ≡ true → current_record r j ≡ r
unfolding current_record
current_record-finished r j f = ground arith

module _ (is_blank : Text → Bool) (canonical : Text → Option Text) (hash : Text → Text) where
  -- However its two commands are delivered, a request whose key has a record changes nothing, and
  -- its result does not depend on what the mutation would do.
  pub known_key_is_not_executed :
      (inputs : RequestInputs) (request : ApiRequest) (j : Journal) (key fingerprint : Text)
      (r : IdempotencyRecord)
      (execute execute' : Text → Journal → CommandResult CommandValue × Journal)
      → idempotency_identity is_blank canonical hash request ≡ identified key fingerprint
      → lookup key j.idempotency_records ≡ some r
      → ((run_idempotent_mutation is_blank canonical hash inputs request execute j).1 ≡ j)
        × (run_idempotent_mutation is_blank canonical hash inputs request execute j
            ≡ run_idempotent_mutation is_blank canonical hash inputs request execute' j)
  unfolding run_idempotent_mutation submit_command execute_command admit_idempotent_mutation
  known_key_is_not_executed inputs request j key fingerprint r execute execute' i l = ground arith

  -- A request that is delivered, whose key has a record of its fingerprint, gets the record's error
  -- or operation; one with another fingerprint gets `idempotency_conflict`.
  pub known_key_is_answered :
      (inputs : RequestInputs) (request : ApiRequest) (j : Journal) (key fingerprint : Text)
      (r : IdempotencyRecord) (execute : Text → Journal → CommandResult CommandValue × Journal)
      → inputs.admission_delivery ≡ queued false false
      → j.idempotency_path ≢ []
      → idempotency_identity is_blank canonical hash request ≡ identified key fingerprint
      → lookup key j.idempotency_records ≡ some r
      → run_idempotent_mutation is_blank canonical hash inputs request execute j ≡ (
        (if text_eq r.fingerprint fingerprint
            then replayed (current_record r j)
            else failed_with
                (text "idempotency_conflict")
                (text "idempotency key was used for a different mutation")),
        j,
      )
  unfolding run_idempotent_mutation submit_command execute_command
  known_key_is_answered inputs request j key fingerprint r execute d p i l =
      ground (arith, admit-known inputs.admission key fingerprint request.method j r p l)
