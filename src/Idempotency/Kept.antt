-- ===== src/Idempotency/Kept.antt =====
-- How long the record of a mutation stays in the journal of internal/manager/idempotency.go, within one
-- process.
use kmonad_device_manager.Prelude.{
  ℕ, ◌≡◌, refl, false, some, List, [], ◌∷◌, Text, Text-eq, text_eq, Option-cases, Bool-cases, inl,
  inr, arith, ◌∙◌,
}
use kmonad_device_manager.Prelude.Dict.{lookup, lookup-insert}
use kmonad_device_manager.Service.{CommandResult}
use kmonad_device_manager.Idempotency.{IdempotencyRecord}
use kmonad_device_manager.Idempotency.Journal.{
  Journal, WriteOutcome, persist_idempotency_records, AdmissionInputs, admit_fresh,
  admit_idempotent_mutation, choose_evicted,
}
use kmonad_device_manager.Idempotency.Run.{
  CommandValue, complete_idempotent_mutation, finished_record, record_or_zero, JournalCall,
  admitting, completing, restarting, step, run,
}
use kmonad_device_manager.Idempotency.AtMostOnce.{is_evicted, evicts_now, evictions}
use kmonad_device_manager.Idempotency.Unfinished.{admit-lookup}

-- The calls of one process, any admissions and the completions of other keys.
abbrev pub AreOthers : Text → List JournalCall → Type 0
AreOthers key [] = Unit {0}
AreOthers key (admitting inputs k fingerprint method ∷ calls) = AreOthers key calls
AreOthers key (completing now outcome k result ∷ calls) =
    (text_eq k key ≡ false) × AreOthers key calls
AreOthers key (restarting path readable now outcome ∷ calls) = ⊥

admit-path :
    (inputs : AdmissionInputs) (k fingerprint method : Text) (j : Journal)
    → (admit_idempotent_mutation inputs k fingerprint method j).1.idempotency_path
      ≡ j.idempotency_path
unfolding admit_idempotent_mutation admit_fresh persist_idempotency_records
admit-path inputs k fingerprint method j = ground arith

admit-kept :
    (inputs : AdmissionInputs) (k fingerprint method : Text) (j : Journal) (key : Text)
    (r : IdempotencyRecord)
    → lookup key j.idempotency_records ≡ some r
    → evicts_now key (admitting inputs k fingerprint method) j ≡ 0
    → lookup key (admit_idempotent_mutation inputs k fingerprint method j).1.idempotency_records
      ≡ some r
unfolding admit_idempotent_mutation admit_fresh persist_idempotency_records
admit-kept inputs k fingerprint method j key r l n =
    elim (Bool-cases (is_evicted key (choose_evicted j.idempotency_records))) [
      | inr stays ↦ admit-lookup inputs k fingerprint method j key r l stays
      | inl evicted ↦ elim (Option-cases (lookup k j.idempotency_records)) [
        | inr (s, known) ↦ ground (arith, known, l)
        | inl new ↦ ground (arith, new, l, n, evicted)
      ]
    ]

complete-kept :
    (now : ℕ) (outcome : WriteOutcome) (k : Text) (result : CommandResult CommandValue)
    (j : Journal) (key : Text)
    → text_eq k key ≡ false
    → let after = (complete_idempotent_mutation now outcome k result j).1 in
      (lookup key after.idempotency_records ≡ lookup key j.idempotency_records)
      × (after.idempotency_path ≡ j.idempotency_path)
unfolding complete_idempotent_mutation persist_idempotency_records
complete-kept now outcome k result j key other = ground (
  arith,
  lookup-insert k key
      (finished_record now (record_or_zero (lookup k j.idempotency_records)) result).0
      j.idempotency_records,
)

-- Unless one of the calls evicts it, a record stays as it is.
pub run-kept :
    (key : Text) (calls : List JournalCall) (j : Journal) (r : IdempotencyRecord)
    → AreOthers key calls
    → evictions key calls j ≡ 0
    → lookup key j.idempotency_records ≡ some r
    → (lookup key (run calls j).idempotency_records ≡ some r)
      × ((run calls j).idempotency_path ≡ j.idempotency_path)
unfolding run step
run-kept key [] j r others n l = (l, refl)
run-kept key (admitting inputs k fingerprint method ∷ calls) j r others n l =
    let after = (admit_idempotent_mutation inputs k fingerprint method j).1 in
    let here : evicts_now key (admitting inputs k fingerprint method) j ≡ 0 = omega (arith, n) in
    let later : evictions key calls after ≡ 0 = omega (arith, n) in
    let kept =
      run-kept key calls after r others later
        (admit-kept inputs k fingerprint method j key r l here) in
    (kept.0, kept.1 ∙ admit-path inputs k fingerprint method j)
run-kept key (completing now outcome k result ∷ calls) j r others n l =
    let after = (complete_idempotent_mutation now outcome k result j).1 in
    let same = complete-kept now outcome k result j key others.0 in
    let later : evictions key calls after ≡ 0 = omega (arith, n) in
    let kept = run-kept key calls after r others.1 later (same.0 ∙ l) in (kept.0, kept.1 ∙ same.1)
run-kept key (restarting path readable now outcome ∷ calls) j r others n l = absurd others
