-- ===== src/Idempotency/Bounded.antt =====
-- The journal of internal/manager/idempotency.go keeps at most `maxIdempotencyRecords` records.
use kmonad_device_manager.Prelude.{
  ℕ, ◌≤◌, ◌<◌, ◌≡◌, Bool, true, Option, some, List, [], ◌∷◌, Text, Text-eq, text_eq_iff, is_some,
  refl, Option-cases, inl, inr, arith, length,
}
use kmonad_device_manager.Prelude.Dict.{
  Dict, lookup, length-insert_le, length-insert_known, length-delete_known,
}
use kmonad_device_manager.Service.{CommandResult}
use kmonad_device_manager.Idempotency.{IdempotencyRecord, max_idempotency_records}
use kmonad_device_manager.Idempotency.Journal.{
  Journal, JournalFile, missing, malformed, stored, WriteOutcome, persist_idempotency_records,
  AdmissionInputs, admit_fresh, admit_idempotent_mutation, oldest_finished, choose_evicted,
  records_without, admitted_record,
}
use kmonad_device_manager.Idempotency.Run.{
  CommandValue, complete_idempotent_mutation, finished_record, record_or_zero, recover_records,
  load_idempotency_records, open_journal, new_process, JournalCall, admitting, completing,
  restarting, step, run,
}

abbrev pub IsBounded : Journal → Type 0
IsBounded j = length j.idempotency_records ≤ max_idempotency_records

-- Each completion follows the admission of its key, whose record is there.
abbrev pub AreAdmitted : List JournalCall → Journal → Type 0
AreAdmitted [] j = Unit
AreAdmitted (completing now outcome key result ∷ calls) j =
    (is_some (lookup key j.idempotency_records) ≡ true)
    × AreAdmitted calls (step (completing now outcome key result) j)
AreAdmitted (c ∷ calls) j = AreAdmitted calls (step c j)

oldest_finished-known :
    (m : Dict Text IdempotencyRecord) (key : Text) (r : IdempotencyRecord)
    → oldest_finished m ≡ some (key, r)
    → is_some (lookup key m) ≡ true
unfolding oldest_finished lookup
oldest_finished-known [] key r h = cc
oldest_finished-known ((k, s) ∷ m) key r h = elim (Option-cases (oldest_finished m)) [
  | inl e ↦ ground (arith, text_eq_iff k key)
  | inr ((i, t), e) ↦ ground (arith, text_eq_iff k key, oldest_finished-known m i t)
]

-- There is room for one more after the eviction.
pub records_without-room :
    (records : Dict Text IdempotencyRecord) (evicted : Option Text)
    → length records ≤ max_idempotency_records
    → choose_evicted records ≡ some evicted
    → length (records_without evicted records) < max_idempotency_records
unfolding choose_evicted
records_without-room records evicted b h = elim (Option-cases (oldest_finished records)) [
  | inl e ↦ ground arith
  | inr ((key, r), e) ↦
      ground (arith, length-delete_known key records, oldest_finished-known records key r e)
]

admit_fresh-IsBounded :
    (inputs : AdmissionInputs) (key fingerprint method : Text) (j : Journal)
    → IsBounded j
    → IsBounded (admit_fresh inputs key fingerprint method j).1
unfolding admit_fresh persist_idempotency_records
admit_fresh-IsBounded inputs key fingerprint method j b =
    elim (Option-cases (choose_evicted j.idempotency_records)) [
      | inl e ↦ ground arith
      | inr (evicted, e) ↦ elim (Option-cases inputs.new_operation_id) [
        | inl n ↦ ground arith
        | inr (id, n) ↦ ground (
          arith,
          records_without-room j.idempotency_records evicted b e,
          length-insert_le key (admitted_record id fingerprint method inputs.now)
              (records_without evicted j.idempotency_records),
        )
      ]
    ]

length-recover_records :
    (now : ℕ) (m : Dict Text IdempotencyRecord) → length (recover_records now m) ≡ length m
length-recover_records now [] = refl
length-recover_records now ((key, r) ∷ m) = omega (arith, length-recover_records now m)

admit-IsBounded :
    (inputs : AdmissionInputs) (key fingerprint method : Text) (j : Journal)
    → IsBounded j
    → IsBounded (admit_idempotent_mutation inputs key fingerprint method j).1
unfolding admit_idempotent_mutation
admit-IsBounded inputs key fingerprint method j b =
    ground (arith, admit_fresh-IsBounded inputs key fingerprint method j b)

complete-IsBounded :
    (now : ℕ) (outcome : WriteOutcome) (key : Text) (result : CommandResult CommandValue)
    (j : Journal)
    → is_some (lookup key j.idempotency_records) ≡ true
    → IsBounded j
    → IsBounded (complete_idempotent_mutation now outcome key result j).1
unfolding complete_idempotent_mutation persist_idempotency_records
complete-IsBounded now outcome key result j k b = ground (
  arith,
  length-insert_known key
      (finished_record now (record_or_zero (lookup key j.idempotency_records)) result).0
      j.idempotency_records k,
)

open-IsBounded :
    (path : Text) (readable : Bool) (now : ℕ) (outcome : WriteOutcome) (file : JournalFile)
    → IsBounded (open_journal path readable now outcome (new_process file))
unfolding open_journal load_idempotency_records persist_idempotency_records
open-IsBounded path readable now outcome missing = omega arith
open-IsBounded path readable now outcome malformed = omega arith
open-IsBounded path readable now outcome (stored store) =
    ground (arith, length-recover_records now store.records)

-- When each completion follows the admission of its key, a journal of at most
-- `max_idempotency_records` records has no more after any calls.
pub run-IsBounded :
    (calls : List JournalCall) (j : Journal)
    → IsBounded j
    → AreAdmitted calls j
    → IsBounded (run calls j)
unfolding run step
run-IsBounded [] j b a = b
run-IsBounded (admitting inputs key fingerprint method ∷ calls) j b a =
    run-IsBounded calls (step (admitting inputs key fingerprint method) j)
      (admit-IsBounded inputs key fingerprint method j b) a
run-IsBounded (completing now outcome key result ∷ calls) j b a =
    run-IsBounded calls (step (completing now outcome key result) j)
      (complete-IsBounded now outcome key result j a.0 b) a.1
run-IsBounded (restarting path readable now outcome ∷ calls) j b a =
    run-IsBounded calls (step (restarting path readable now outcome) j)
      (open-IsBounded path readable now outcome j.file) a
