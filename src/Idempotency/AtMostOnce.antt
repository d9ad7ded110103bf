-- ===== src/Idempotency/AtMostOnce.antt =====
-- A mutation's key is admitted for execution at most once per eviction of its record, over any calls
-- on the journal of internal/manager/idempotency.go and any restarts of the manager.
use kmonad_device_manager.Prelude.{
  ℕ, ◌+◌, ◌≤◌, ◌≡◌, Bool, true, false, not, ◌||◌, ◌&&◌, Option, none, some, List, [], ◌∷◌, Text,
  Text-eq, text_eq, text_eq_iff, is_some, refl, Option-cases, inl, inr, arith,
}
use kmonad_device_manager.Prelude.Dict.{Dict, lookup, lookup-insert, lookup-delete}
use kmonad_device_manager.Service.{CommandResult}
use kmonad_device_manager.Idempotency.{IdempotencyRecord}
use kmonad_device_manager.Idempotency.Journal.{
  Journal, JournalFile, missing, malformed, stored, WriteOutcome, persist_idempotency_records,
  reaches_file, MutationAdmission, AdmissionInputs, admit_fresh, admit_idempotent_mutation,
  choose_evicted, records_without, admitted_record,
}
use kmonad_device_manager.Idempotency.Run.{
  CommandValue, complete_idempotent_mutation, finished_record, record_or_zero, recover_records,
  load_idempotency_records, open_journal, new_process, restart, JournalCall, admitting, completing,
  restarting, step, run,
}

abbrev as_count : Bool → ℕ
as_count true = 1
as_count false = 0

-- Is the mutation to be executed?
abbrev pub is_fresh : CommandResult MutationAdmission → Bool
is_fresh r = elim r.result [ none ↦ false | some admission ↦ not admission.replay ]

-- Does this call have the mutation of `key` executed?
abbrev pub executes_now : Text → JournalCall → Journal → ℕ
executes_now key (admitting inputs k fingerprint method) j =
    as_count (text_eq k key && is_fresh (admit_idempotent_mutation inputs k fingerprint method j).0)
executes_now key _ j = 0

abbrev pub is_evicted : Text → Option (Option Text) → Bool
is_evicted key (some (some k)) = text_eq k key
is_evicted key _ = false

-- Does this call take the record of `key` out of the file, to make room?
abbrev pub evicts_now : Text → JournalCall → Journal → ℕ
evicts_now key (admitting inputs k fingerprint method) j = as_count (
    reaches_file inputs.outcome
    && not (is_some (lookup k j.idempotency_records))
    && is_evicted key (choose_evicted j.idempotency_records))
evicts_now key _ j = 0

abbrev pub executions : Text → List JournalCall → Journal → ℕ
executions key [] j = 0
executions key (c ∷ calls) j = executes_now key c j + executions key calls (step c j)

abbrev pub evictions : Text → List JournalCall → Journal → ℕ
evictions key [] j = 0
evictions key (c ∷ calls) j = evicts_now key c j + evictions key calls (step c j)

abbrev in_file : Text → JournalFile → Bool
in_file key (stored store) = is_some (lookup key store.records)
in_file key _ = false

-- Is there a record of `key` in the file, and in the state of a manager that has the journal?
abbrev pub is_recorded : Text → Journal → Bool
is_recorded key j =
    in_file key j.file
    && (text_eq j.idempotency_path [] || is_some (lookup key j.idempotency_records))

is_some-recover_records :
    (key : Text) (now : ℕ) (m : Dict Text IdempotencyRecord)
    → is_some (lookup key (recover_records now m)) ≡ is_some (lookup key m)
unfolding lookup
is_some-recover_records key now [] = refl
is_some-recover_records key now ((k, r) ∷ m) = ground (arith, is_some-recover_records key now m)

without-recorded :
    (key : Text) (evicted : Option Text) (m : Dict Text IdempotencyRecord)
    → is_some (lookup key m)
      ≡ (is_evicted key (some evicted) && is_some (lookup key m))
        || is_some (lookup key (records_without evicted m))
without-recorded key none m = ground arith
without-recorded key (some k) m = ground (arith, lookup-delete k key m)

admit_fresh-recorded :
    (key : Text) (inputs : AdmissionInputs) (k fingerprint method : Text) (j : Journal)
    → lookup k j.idempotency_records ≡ none
    → text_eq j.idempotency_path [] ≡ false
    → as_count (text_eq k key && is_fresh (admit_fresh inputs k fingerprint method j).0)
        + as_count (is_recorded key j)
      ≤ as_count
          (reaches_file inputs.outcome && is_evicted key (choose_evicted j.idempotency_records))
        + as_count (is_recorded key (admit_fresh inputs k fingerprint method j).1)
unfolding admit_fresh persist_idempotency_records
admit_fresh-recorded key inputs k fingerprint method j h p =
    elim (Option-cases (choose_evicted j.idempotency_records)) [
      | inl e ↦ ground arith
      | inr (evicted, e) ↦ elim (Option-cases inputs.new_operation_id) [
        | inl n ↦ ground arith
        | inr (id, n) ↦ ground (
          arith,
          without-recorded key evicted j.idempotency_records,
          text_eq_iff k key,
          lookup-insert k key (admitted_record id fingerprint method inputs.now)
              (records_without evicted j.idempotency_records),
        )
      ]
    ]

admit-recorded :
    (key : Text) (inputs : AdmissionInputs) (k fingerprint method : Text) (j : Journal)
    → executes_now key (admitting inputs k fingerprint method) j + as_count (is_recorded key j)
      ≤ evicts_now key (admitting inputs k fingerprint method) j
        + as_count (is_recorded key (admit_idempotent_mutation inputs k fingerprint method j).1)
unfolding admit_idempotent_mutation
admit-recorded key inputs k fingerprint method j =
    ground (arith, admit_fresh-recorded key inputs k fingerprint method j)

complete-recorded :
    (key : Text) (now : ℕ) (outcome : WriteOutcome) (k : Text) (result : CommandResult CommandValue)
    (j : Journal)
    → as_count (is_recorded key j)
      ≤ as_count (is_recorded key (complete_idempotent_mutation now outcome k result j).1)
unfolding complete_idempotent_mutation persist_idempotency_records
complete-recorded key now outcome k result j = ground (
  arith,
  lookup-insert k key
      (finished_record now (record_or_zero (lookup k j.idempotency_records)) result).0
      j.idempotency_records,
)

open-recorded :
    (key path : Text) (readable : Bool) (now : ℕ) (outcome : WriteOutcome) (file : JournalFile)
    → as_count (in_file key file)
      ≤ as_count (is_recorded key (open_journal path readable now outcome (new_process file)))
unfolding open_journal load_idempotency_records persist_idempotency_records
open-recorded key path readable now outcome missing = omega arith
open-recorded key path readable now outcome malformed = omega arith
open-recorded key path readable now outcome (stored store) =
    ground (arith, is_some-recover_records key now store.records)

restart-recorded :
    (key path : Text) (readable : Bool) (now : ℕ) (outcome : WriteOutcome) (j : Journal)
    → as_count (is_recorded key j)
      ≤ as_count (is_recorded key (restart path readable now outcome j))
restart-recorded key path readable now outcome j =
    ground (arith, open-recorded key path readable now outcome j.file)

step-recorded :
    (key : Text) (c : JournalCall) (j : Journal)
    → executes_now key c j + as_count (is_recorded key j)
      ≤ evicts_now key c j + as_count (is_recorded key (step c j))
unfolding step
step-recorded key (admitting inputs k fingerprint method) j =
    admit-recorded key inputs k fingerprint method j
step-recorded key (completing now outcome k result) j =
    omega (arith, complete-recorded key now outcome k result j)
step-recorded key (restarting path readable now outcome) j =
    omega (arith, restart-recorded key path readable now outcome j)

executions-recorded :
    (key : Text) (calls : List JournalCall) (j : Journal)
    → executions key calls j + as_count (is_recorded key j)
      ≤ evictions key calls j + as_count (is_recorded key (run calls j))
unfolding run
executions-recorded key [] j = omega arith
executions-recorded key (c ∷ calls) j =
    omega (arith, step-recorded key c j, executions-recorded key calls (step c j))

-- Over any admissions, completions and restarts, and whatever their writes did, the mutation of a
-- key is executed at most once more than its record is evicted from the file.
pub executions_le_evictions :
    (key : Text) (calls : List JournalCall) (j : Journal)
    → executions key calls j ≤ evictions key calls j + 1
executions_le_evictions key calls j = ground (arith, executions-recorded key calls j)
