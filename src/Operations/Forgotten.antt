-- ===== src/Operations/Forgotten.antt =====
-- The end of an identification in internal/manager/identify.go while the journal of idempotent
-- mutations is full: `maxIdempotencyRecords` and `maxRetainedOperations` are the same number.
use kmonad_device_manager.Prelude.{
  ◌≡◌, ◌⊎◌, ◌<◌, inl, inr, refl, true, false, some, none, [], ◌∷◌, Text, Text-eq, arith, Bool-cases,
  text_eq, text_eq_iff, is_some, subst, ◌∙◌, All, length,
}
use kmonad_device_manager.Prelude.Dict.{
  Dict, lookup, insert, lookup-delete, IsDistinct, length-insert_known,
}
use kmonad_device_manager.Domain.{Operation, no_operation}
use kmonad_device_manager.Service.{succeeded_with}
use kmonad_device_manager.Idempotency.{IdempotencyRecord}
use kmonad_device_manager.Idempotency.Journal.{operation_has_record}
use kmonad_device_manager.Operations.{IdentificationSession, Sessions, published, wait_cancelled}
use kmonad_device_manager.Operations.Prune.{
  max_retained_operations, is_protected, candidates, insert_by_age, sort_by_age, drop_oldest,
  prune_operations,
}
use kmonad_device_manager.Operations.Identify.{
  EndInputs, context_canceled, act, operation_or_zero, identification_outcome, end_identification,
  finish_identification, cancel_identification_operation,
}
use kmonad_device_manager.Operations.Valid.{probed_by, IsSound, IsValid}
use kmonad_device_manager.Operations.Ended.{identification_outcome-id, waiting_operation}

-- Every operation but `id` has a record in the journal.
abbrev pub AllRecorded : Dict Text IdempotencyRecord → Text → Dict Text Operation → Type 0
AllRecorded records id operations =
    All
      (λ (e : Text × Operation).
        (text_eq e.0 id ≡ true) ⊎ (operation_has_record e.1.id records ≡ true))
      operations

module _ (records : Dict Text IdempotencyRecord) (s : Sessions) where
  recorded_candidates :
      (id : Text) (operations : Dict Text Operation)
      → lookup id operations ≡ none
      → AllRecorded records id operations
      → candidates records s operations ≡ []
  unfolding candidates lookup is_protected
  recorded_candidates id [] absent all = refl
  recorded_candidates id ((k, x) ∷ rest) absent all =
      ground (arith, recorded_candidates id rest, all.0)

  recorded_is_protected :
      (id : Text) → operation_has_record id records ≡ true → is_protected records s id ≡ true
  unfolding is_protected
  recorded_is_protected id e = ground (arith, e)

  only_candidate :
      (id : Text) (y : Operation) (operations : Dict Text Operation)
      → is_protected records s y.id ≡ false
      → is_some (lookup id operations) ≡ true
      → IsDistinct operations
      → AllRecorded records id operations
      → candidates records s (insert id y operations) ≡ y ∷ []
  unfolding candidates lookup insert
  only_candidate id y [] free known distinct all = cc
  only_candidate id y ((k, x) ∷ rest) free known distinct all = elim (Bool-cases (text_eq k id)) [
    | inl same ↦
        let e = (text_eq_iff k id).0 same in
        let absent : lookup id rest ≡ none = rw e at distinct.0 in
        ground (arith, same, recorded_candidates id rest absent all.1)
    | inr other ↦ ground (
      arith,
      other,
      all.0,
      recorded_is_protected x.id,
      only_candidate id y rest free (ground (arith, other)) distinct.1 all.1,
    )
  ]

  -- The only candidate of a map over the limit is deleted.
  only_candidate_is_pruned :
      (y : Operation)
      → max_retained_operations < length s.operations
      → candidates records s s.operations ≡ y ∷ []
      → lookup y.id (prune_operations records s).operations ≡ none
  unfolding prune_operations sort_by_age insert_by_age drop_oldest
  only_candidate_is_pruned y over only =
      ground (arith, only, lookup-delete y.id y.id s.operations, text_eq_iff y.id y.id)

-- When every other retained operation has a record in the journal, and with the session's own they
-- are more than 128, then a client that cancels the identification is answered with the empty
-- operation, and the operation is forgotten at once.
pub full_journal_forgets_identification :
    (records : Dict Text IdempotencyRecord) (inputs : EndInputs) (session : IdentificationSession)
    (s : Sessions)
    → IsValid s
    → s.identification ≡ some session
    → s.probe ≡ none
    → max_retained_operations < length s.operations
    → AllRecorded records session.operation_id s.operations
    → operation_has_record session.operation_id records ≡ false
    → let (answer, after) = cancel_identification_operation records inputs session.operation_id s in
      (answer ≡ succeeded_with no_operation) × (lookup session.operation_id after.operations ≡ none)
unfolding cancel_identification_operation finish_identification end_identification
full_journal_forgets_identification records inputs session s valid running idle over all new =
    let id = session.operation_id in
    let sound : IsSound s.operations (some id) (probed_by s.probe) = rw running at valid in
    let old = operation_or_zero (lookup id s.operations) in
    let y = identification_outcome context_canceled inputs.availability inputs.now old in
    let named : y.id ≡ id =
      (identification_outcome-id context_canceled inputs.availability inputs.now old).0
      ∙ waiting_operation s.operations id (probed_by s.probe) sound in
    let known : is_some (lookup id s.operations) ≡ true = ground (arith, sound.mine_waits) in
    let inner =
      act (published y ∷ wait_cancelled id ∷ []) (record (act (wait_cancelled id ∷ []) s) {
        operations = insert id y s.operations;
        identification = none;
      }) in
    let free : is_protected records inner y.id ≡ false =
      unfold is_protected in ground (arith, named) in
    let only = only_candidate records inner id y s.operations free known sound.distinct all in
    let many : max_retained_operations < length inner.operations =
      ground (arith, length-insert_known id y s.operations known) in
    let gone = only_candidate_is_pruned records inner y many only in
    let gone_id : lookup id (prune_operations records inner).operations ≡ none =
      subst (λ (k : Text). lookup k (prune_operations records inner).operations ≡ none) named
        gone in
    ground (arith, running, known, gone_id, text_eq_iff id id)
