-- ===== src/Idempotency/LostReply.antt =====
-- A request of internal/manager/idempotency.go whose caller gives up after the manager admitted it:
-- `submitCommand` returns its deadline error, although the record was written.
use kmonad_device_manager.Prelude.{
  ℕ, ◌≡◌, Bool, true, false, Option, some, [], Text, Text-eq, text_eq_iff, beq_refl, sym, ap, ◌∙◌,
  arith,
}
use kmonad_device_manager.Prelude.Dict.{lookup, lookup-insert}
use kmonad_device_manager.Service.{
  CommandResult, command_deadline_result, queued, submit_command, execute_command,
}
use kmonad_device_manager.Idempotency.{ApiRequest, identified, idempotency_identity}
use kmonad_device_manager.Idempotency.Journal.{
  Journal, AdmissionInputs, admit_idempotent_mutation, admit_fresh, persist_idempotency_records,
  current_record, admitted_record, records_without, operations_without,
}
use kmonad_device_manager.Idempotency.Run.{CommandValue}
use kmonad_device_manager.Idempotency.Request.{RequestInputs, run_idempotent_mutation, replayed}
use kmonad_device_manager.Idempotency.Recovery.{IsAdmitted, admit-file}
use kmonad_device_manager.Idempotency.Replay.{known_key_is_answered}

admit-operations :
    (inputs : AdmissionInputs) (key fingerprint method : Text) (j : Journal) (evicted : Option Text)
    (id : Text)
    → IsAdmitted inputs key j evicted id
    → lookup id (admit_idempotent_mutation inputs key fingerprint method j).1.operations
      ≡ some (admitted_record id fingerprint method inputs.now).operation
unfolding admit_idempotent_mutation admit_fresh persist_idempotency_records
admit-operations inputs key fingerprint method j evicted id a = ground (
  arith,
  a.is_new,
  a.has_room,
  a.has_id,
  a.has_path,
  a.is_durable,
  text_eq_iff j.idempotency_path [],
  beq_refl id,
  lookup-insert id id (admitted_record id fingerprint method inputs.now).operation
      (operations_without evicted j.idempotency_records j.operations),
)

current_record-admitted :
    (id fingerprint method : Text) (now : ℕ) (j : Journal)
    → lookup id j.operations ≡ some (admitted_record id fingerprint method now).operation
    → current_record (admitted_record id fingerprint method now) j
      ≡ admitted_record id fingerprint method now
unfolding current_record
current_record-admitted id fingerprint method now j l = ground (arith, l)

module _ (is_blank : Text → Bool) (canonical : Text → Option Text) (hash : Text → Text) where
  -- When the reply to a written admission is lost, the caller gets the deadline error and the
  -- mutation is not executed, whatever it is; yet the key is taken: a delivered retry of the request
  -- is answered with the operation that is still running, executes nothing and changes nothing.
  pub lost_reply_strands_key :
      (inputs retry : RequestInputs) (request : ApiRequest) (j : Journal) (key fingerprint : Text)
      (evicted : Option Text) (id : Text)
      (execute : Text → Journal → CommandResult CommandValue × Journal)
      → inputs.admission_delivery ≡ queued false true
      → retry.admission_delivery ≡ queued false false
      → idempotency_identity is_blank canonical hash request ≡ identified key fingerprint
      → IsAdmitted inputs.admission key j evicted id
      → let after =
          (admit_idempotent_mutation inputs.admission key fingerprint request.method j).1 in
        (run_idempotent_mutation is_blank canonical hash inputs request execute j
          ≡ (command_deadline_result, after))
        × (run_idempotent_mutation is_blank canonical hash retry request execute after ≡ (
          replayed (admitted_record id fingerprint request.method inputs.admission.now),
          after,
        ))
  unfolding run_idempotent_mutation submit_command execute_command
  lost_reply_strands_key inputs retry request j key fingerprint evicted id execute d e i a =
      let after = (admit_idempotent_mutation inputs.admission key fingerprint request.method j).1 in
      let r = admitted_record id fingerprint request.method inputs.admission.now in
      let kept = admit-file inputs.admission key fingerprint request.method j evicted id a in
      let known =
        ap (lookup key) kept.1
        ∙ lookup-insert key key r (records_without evicted j.idempotency_records) in
      let answer =
        known_key_is_answered is_blank canonical hash retry request after key fingerprint r execute
          e (λ q. a.has_path (sym kept.2 ∙ q)) i (ground (arith, known, beq_refl key)) in
      (
        ground arith,
        ground (
          arith,
          answer,
          text_eq_iff fingerprint fingerprint,
          current_record-admitted id fingerprint request.method inputs.admission.now after
              (admit-operations inputs.admission key fingerprint request.method j evicted id a),
        ),
      )
