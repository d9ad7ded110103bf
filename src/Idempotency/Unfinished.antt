-- ===== src/Idempotency/Unfinished.antt =====
-- What an admission in internal/manager/idempotency.go does to the records of other mutations.
use kmonad_device_manager.Prelude.{
  ◌≤◌, ◌≡◌, true, false, none, some, [], ◌∷◌, Text, Text-eq, text_eq_iff, Option-cases, Bool-cases,
  inl, inr, arith, length,
}
use kmonad_device_manager.Prelude.Dict.{
  Dict, lookup, delete, IsDistinct, lookup-insert, lookup-delete,
}
use kmonad_device_manager.Idempotency.{IdempotencyRecord, max_idempotency_records}
use kmonad_device_manager.Idempotency.Journal.{
  Journal, persist_idempotency_records, AdmissionInputs, admit_fresh, admit_idempotent_mutation,
  oldest_finished, choose_evicted, admitted_record,
}
use kmonad_device_manager.Idempotency.AtMostOnce.{is_evicted}

-- The chosen record is one of the journal, and finished.
oldest_finished-finished :
    (m : Dict Text IdempotencyRecord) (key : Text) (r : IdempotencyRecord)
    → IsDistinct m
    → oldest_finished m ≡ some (key, r)
    → (lookup key m ≡ some r) × (r.finished ≡ true)
unfolding oldest_finished lookup
oldest_finished-finished [] key r d h = absurd cc
oldest_finished-finished ((k, s) ∷ m) key r d h = elim (Option-cases (oldest_finished m)) [
  | inl e ↦ ground (arith, text_eq_iff k key)
  | inr ((i, t), e) ↦ ground (arith, text_eq_iff k key, oldest_finished-finished m i t d.1)
]

oldest_finished-none :
    (m : Dict Text IdempotencyRecord)
    → oldest_finished m ≡ none
    → (i : Text) (s : IdempotencyRecord) → lookup i m ≡ some s
    → s.finished ≡ false
unfolding oldest_finished lookup
oldest_finished-none [] h i s l = absurd cc
oldest_finished-none ((k, t) ∷ m) h i s l = elim (Option-cases (oldest_finished m)) [
  | inl e ↦ ground (arith, oldest_finished-none m e i s)
  | inr ((n, u), e) ↦ ground arith
]

-- No finished record was updated before the chosen one.
oldest_finished-least :
    (m : Dict Text IdempotencyRecord) (key : Text) (r : IdempotencyRecord)
    → oldest_finished m ≡ some (key, r)
    → (i : Text) (s : IdempotencyRecord) → lookup i m ≡ some s
    → s.finished ≡ true
    → r.operation.updated_at ≤ s.operation.updated_at
unfolding oldest_finished lookup
oldest_finished-least [] key r h i s l f = absurd cc
oldest_finished-least ((k, t) ∷ m) key r h i s l f = elim (Option-cases (oldest_finished m)) [
  | inl e ↦ ground (arith, text_eq_iff k i, oldest_finished-none m e i s)
  | inr ((n, u), e) ↦ ground (arith, text_eq_iff k i, oldest_finished-least m n u e i s)
]

choose_evicted-finished :
    (m : Dict Text IdempotencyRecord) (key : Text) (r : IdempotencyRecord)
    → IsDistinct m
    → lookup key m ≡ some r
    → is_evicted key (choose_evicted m) ≡ true
    → (max_idempotency_records ≤ length m) × (r.finished ≡ true)
unfolding choose_evicted
choose_evicted-finished m key r d l h = elim (Option-cases (oldest_finished m)) [
  | inl e ↦ ground arith
  | inr ((k, t), e) ↦
      let same : k ≡ key = ground (arith, text_eq_iff k key) in
      let found = oldest_finished-finished m k t d e in ground arith
]

choose_evicted-least :
    (m : Dict Text IdempotencyRecord) (key : Text) (r : IdempotencyRecord)
    → IsDistinct m
    → lookup key m ≡ some r
    → is_evicted key (choose_evicted m) ≡ true
    → (i : Text) (s : IdempotencyRecord) → lookup i m ≡ some s
    → s.finished ≡ true
    → r.operation.updated_at ≤ s.operation.updated_at
unfolding choose_evicted
choose_evicted-least m key r d l h i s known f = elim (Option-cases (oldest_finished m)) [
  | inl e ↦ ground arith
  | inr ((k, t), e) ↦
      let same : k ≡ key = ground (arith, text_eq_iff k key) in
      let found = oldest_finished-finished m k t d e in
      ground (arith, oldest_finished-least m k t e i s known f)
]

pub admit-lookup :
    (inputs : AdmissionInputs) (k fingerprint method : Text) (j : Journal) (key : Text)
    (r : IdempotencyRecord)
    → lookup key j.idempotency_records ≡ some r
    → is_evicted key (choose_evicted j.idempotency_records) ≡ false
    → lookup key (admit_idempotent_mutation inputs k fingerprint method j).1.idempotency_records
      ≡ some r
unfolding admit_idempotent_mutation admit_fresh persist_idempotency_records
admit-lookup inputs k fingerprint method j key r l n =
    elim (Option-cases (choose_evicted j.idempotency_records)) [
      | inl e ↦ ground arith
      | inr (none, e) ↦ elim (Option-cases inputs.new_operation_id) [
        | inl o ↦ ground arith
        | inr (id, o) ↦ ground (
          arith,
          text_eq_iff k key,
          lookup-insert k key (admitted_record id fingerprint method inputs.now)
              j.idempotency_records,
        )
      ]
      | inr (some evicted, e) ↦ elim (Option-cases inputs.new_operation_id) [
        | inl o ↦ ground arith
        | inr (id, o) ↦ ground (
          arith,
          text_eq_iff k key,
          lookup-delete evicted key j.idempotency_records,
          lookup-insert k key (admitted_record id fingerprint method inputs.now)
              (delete evicted j.idempotency_records),
        )
      ]
    ]

-- An admission into a journal with one record for each key keeps the record of every mutation that
-- is not finished.
pub unfinished_is_kept :
    (inputs : AdmissionInputs) (k fingerprint method : Text) (j : Journal) (key : Text)
    (r : IdempotencyRecord)
    → IsDistinct j.idempotency_records
    → lookup key j.idempotency_records ≡ some r
    → r.finished ≡ false
    → lookup key (admit_idempotent_mutation inputs k fingerprint method j).1.idempotency_records
      ≡ some r
unfinished_is_kept inputs k fingerprint method j key r d l f =
    elim (Bool-cases (is_evicted key (choose_evicted j.idempotency_records))) [
      | inl e ↦ ground (arith, choose_evicted-finished j.idempotency_records key r d l e)
      | inr e ↦ admit-lookup inputs k fingerprint method j key r l e
    ]

-- An admission into a journal with one record for each key drops a record only when the journal is
-- full and the record is finished, and then no finished record was updated before it.
oldest_is_evicted :
    (inputs : AdmissionInputs) (k fingerprint method : Text) (j : Journal) (key i : Text)
    (r s : IdempotencyRecord)
    → IsDistinct j.idempotency_records
    → lookup key j.idempotency_records ≡ some r
    → lookup key (admit_idempotent_mutation inputs k fingerprint method j).1.idempotency_records
      ≡ none
    → lookup i j.idempotency_records ≡ some s
    → s.finished ≡ true
    → (max_idempotency_records ≤ length j.idempotency_records)
      × (r.finished ≡ true)
      × (r.operation.updated_at ≤ s.operation.updated_at)
oldest_is_evicted inputs k fingerprint method j key i r s d l gone known f =
    elim (Bool-cases (is_evicted key (choose_evicted j.idempotency_records))) [
      | inl e ↦
          let (full, finished) = choose_evicted-finished j.idempotency_records key r d l e in
          (full, finished, choose_evicted-least j.idempotency_records key r d l e i s known f)
      | inr e ↦ absurd (ground (arith, admit-lookup inputs k fingerprint method j key r l e))
    ]
