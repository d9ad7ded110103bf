-- ===== src/Idempotency/Request.antt =====
-- The life of one keyed request, `runIdempotentMutation` of internal/manager/idempotency.go.
use kmonad_device_manager.Prelude.{
  ℕ, Bool, Option, none, some, [], ◌∷◌, Text, Text-eq, text, if◌then◌else◌,
}
use kmonad_device_manager.Service.{CommandResult, succeeded_with, Delivery, submit_command}
use kmonad_device_manager.Idempotency.{
  IdempotencyRecord, ApiRequest, identified, unidentified, idempotency_identity,
}
use kmonad_device_manager.Idempotency.Journal.{
  Journal, WriteOutcome, AdmissionInputs, admit_idempotent_mutation,
}
use kmonad_device_manager.Idempotency.Run.{
  CommandValue, operation_response, complete_idempotent_mutation,
}

-- What `runIdempotentMutation` returns for a replay.
abbrev pub replayed : IdempotencyRecord → CommandResult CommandValue
replayed r = elim r.error [
  | some e ↦ record { result = none; error = some e }
  | none ↦ succeeded_with (operation_response ((text "operation", r.operation) ∷ []))
]

-- The inputs of a request's two commands.
pub record RequestInputs : Type 0 where
  pub admission : AdmissionInputs
  pub admission_delivery : Delivery
  pub completed_at : ℕ
  pub completion_outcome : WriteOutcome
  pub completion_delivery : Delivery

module _ (is_blank : Text → Bool) (canonical : Text → Option Text) (hash : Text → Text) where
  -- `execute` has the operation's ID, and changes the journal by whatever the manager does
  -- meanwhile for other requests. A result without an error and without an admission, at which the
  -- code's type assertion would panic, does not arise.
  unfoldable pub run_idempotent_mutation :
      RequestInputs
      → ApiRequest
      → (Text → Journal → CommandResult CommandValue × Journal)
      → Journal
      → CommandResult CommandValue × Journal
  run_idempotent_mutation inputs request execute j =
      elim (idempotency_identity is_blank canonical hash request) [
        | unidentified e ↦ (record { result = none; error = some e }, j)
        | identified key fingerprint ↦
            let admitted =
              submit_command inputs.admission_delivery
                (admit_idempotent_mutation inputs.admission key fingerprint request.method) j in
            elim admitted.0.error [
              | some e ↦ (record { result = none; error = some e }, admitted.1)
              | none ↦ elim admitted.0.result [
                | none ↦ (record { result = none; error = none }, admitted.1)
                | some entry ↦
                    if entry.replay
                    then (replayed entry.entry, admitted.1)
                    else let executed = execute entry.entry.operation.id admitted.1 in
                      submit_command inputs.completion_delivery
                        (complete_idempotent_mutation inputs.completed_at inputs.completion_outcome
                          key executed.0)
                        executed.1
              ]
            ]
      ]
