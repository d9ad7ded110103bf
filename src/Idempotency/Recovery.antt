-- ===== src/Idempotency/Recovery.antt =====
-- A crash between the admission of a mutation in internal/manager/idempotency.go and its outcome, and
-- a caller that gives up in between.
use kmonad_device_manager.Prelude.{
  ℕ, ◌≡◌, ◌≢◌, ◌≤◌, true, Option, none, some, List, [], ◌∷◌, Text, Text-eq, text_eq_iff, refl, sym,
  ◌∙◌, arith, length, all, beq_refl,
}
use kmonad_device_manager.Prelude.Dict.{
  Dict, lookup, insert, delete, lookup-insert, length-insert_le,
}
use kmonad_device_manager.Service.{succeeded_with}
use kmonad_device_manager.Idempotency.{IdempotencyRecord, max_idempotency_records}
use kmonad_device_manager.Idempotency.Journal.{
  Journal, stored, store_of, written, persist_idempotency_records, AdmissionInputs,
  admit_idempotent_mutation, admit_fresh, choose_evicted, admitted_record, records_without,
}
use kmonad_device_manager.Idempotency.Run.{
  is_valid_entry, recover_record, recover_records, load_idempotency_records, open_journal,
  new_process, restart, JournalCall, run,
}
use kmonad_device_manager.Idempotency.AtMostOnce.{evictions}
use kmonad_device_manager.Idempotency.Kept.{AreOthers, run-kept}
use kmonad_device_manager.Idempotency.Bounded.{IsBounded, records_without-room}
use kmonad_device_manager.Idempotency.Replay.{admit-known, current_record-finished}

-- The admission of a new key whose record is written.
pub record IsAdmitted (inputs : AdmissionInputs) (key : Text) (j : Journal) (evicted : Option Text)
    (id : Text) : Type 0 where
  pub has_path : j.idempotency_path ≢ []
  pub is_new : lookup key j.idempotency_records ≡ none
  pub has_room : choose_evicted j.idempotency_records ≡ some evicted
  pub has_id : inputs.new_operation_id ≡ some id
  pub is_durable : inputs.outcome ≡ written

abbrev pub admitted_records :
    AdmissionInputs
    → Text
    → Text
    → Text
    → Option Text
    → Text
    → Journal
    → Dict Text IdempotencyRecord
admitted_records inputs key fingerprint method evicted id j =
    insert key (admitted_record id fingerprint method inputs.now)
      (records_without evicted j.idempotency_records)

pub admit-file :
    (inputs : AdmissionInputs) (key fingerprint method : Text) (j : Journal) (evicted : Option Text)
    (id : Text)
    → IsAdmitted inputs key j evicted id
    → let after = (admit_idempotent_mutation inputs key fingerprint method j).1 in
      let records = admitted_records inputs key fingerprint method evicted id j in
      (after.file ≡ stored (store_of records))
      × (after.idempotency_records ≡ records)
      × (after.idempotency_path ≡ j.idempotency_path)
unfolding admit_idempotent_mutation admit_fresh persist_idempotency_records
admit-file inputs key fingerprint method j evicted id a = ground (
  arith,
  a.is_new,
  a.has_room,
  a.has_id,
  a.has_path,
  a.is_durable,
  text_eq_iff j.idempotency_path [],
)

all-delete :
    (key : Text) (m : Dict Text IdempotencyRecord)
    → all is_valid_entry m ≡ true
    → all is_valid_entry (delete key m) ≡ true
unfolding delete
all-delete key [] v = refl
all-delete key ((k, r) ∷ m) v = ground (arith, all-delete key m)

all-insert :
    (key : Text) (r : IdempotencyRecord) (m : Dict Text IdempotencyRecord)
    → is_valid_entry (key, r) ≡ true
    → all is_valid_entry m ≡ true
    → all is_valid_entry (insert key r m) ≡ true
unfolding insert
all-insert key r [] e v = ground arith
all-insert key r ((k, s) ∷ m) e v = ground (arith, all-insert key r m e)

lookup-recover_records :
    (key : Text) (now : ℕ) (m : Dict Text IdempotencyRecord) (r : IdempotencyRecord)
    → lookup key m ≡ some r
    → lookup key (recover_records now m) ≡ some (recover_record now r)
unfolding lookup
lookup-recover_records key now [] r l = cc
lookup-recover_records key now ((k, s) ∷ m) r l = ground (arith, lookup-recover_records key now m r)

open-stored :
    (path : Text) (now : ℕ) (records : Dict Text IdempotencyRecord)
    → path ≢ []
    → length records ≤ max_idempotency_records
    → all is_valid_entry records ≡ true
    → let opened = open_journal path true now written (new_process (stored (store_of records))) in
      (opened.idempotency_records ≡ recover_records now records) × (opened.idempotency_path ≡ path)
unfolding open_journal load_idempotency_records persist_idempotency_records
open-stored path now records p b v = ground (arith, text_eq_iff path [])

recover_record-finished :
    (now : ℕ) (r : IdempotencyRecord)
    → ((recover_record now r).finished ≡ true)
      × ((recover_record now r).fingerprint ≡ r.fingerprint)
unfolding recover_record
recover_record-finished now r = ground arith

admitted_records-valid :
    (inputs : AdmissionInputs) (key fingerprint method : Text) (j : Journal) (evicted : Option Text)
    (id : Text)
    → length key ≡ 64
    → length fingerprint ≡ 64
    → id ≢ []
    → all is_valid_entry j.idempotency_records ≡ true
    → all is_valid_entry (admitted_records inputs key fingerprint method evicted id j) ≡ true
admitted_records-valid inputs key fingerprint method j evicted id k f i v =
    all-insert key (admitted_record id fingerprint method inputs.now)
      (records_without evicted j.idempotency_records) (ground (arith, text_eq_iff id []))
      (elim evicted as (λ e. all is_valid_entry (records_without e j.idempotency_records) ≡ true) [
        | none ↦ v
        | some e ↦ all-delete e j.idempotency_records v
      ])

admitted_records-room :
    (inputs : AdmissionInputs) (key fingerprint method : Text) (j : Journal) (evicted : Option Text)
    (id : Text)
    → IsBounded j
    → choose_evicted j.idempotency_records ≡ some evicted
    → length (admitted_records inputs key fingerprint method evicted id j) ≤ max_idempotency_records
admitted_records-room inputs key fingerprint method j evicted id b c = omega (
  arith,
  records_without-room j.idempotency_records evicted b c,
  length-insert_le key (admitted_record id fingerprint method inputs.now)
      (records_without evicted j.idempotency_records),
)

-- What the manager holds for the key after it was admitted, crashed and restarted.
abbrev pub recovered_admission : Text → Text → Text → ℕ → ℕ → IdempotencyRecord
recovered_admission id fingerprint method now later =
    recover_record later (admitted_record id fingerprint method now)

restart-admitted :
    (inputs : AdmissionInputs) (key fingerprint method : Text) (j : Journal) (evicted : Option Text)
    (id : Text) (path : Text) (later : ℕ)
    → IsAdmitted inputs key j evicted id
    → IsBounded j
    → all is_valid_entry j.idempotency_records ≡ true
    → length key ≡ 64
    → length fingerprint ≡ 64
    → id ≢ []
    → path ≢ []
    → let restarted =
        restart path true later written
          (admit_idempotent_mutation inputs key fingerprint method j).1 in
      (lookup key restarted.idempotency_records
        ≡ some (recovered_admission id fingerprint method inputs.now later))
      × (restarted.idempotency_path ≡ path)
restart-admitted inputs key fingerprint method j evicted id path later a b v k f i p =
    let records = admitted_records inputs key fingerprint method evicted id j in
    let r = admitted_record id fingerprint method inputs.now in
    ground (
      arith,
      (admit-file inputs key fingerprint method j evicted id a).0,
      open-stored path later records p
          (admitted_records-room inputs key fingerprint method j evicted id b a.has_room)
          (admitted_records-valid inputs key fingerprint method j evicted id k f i v),
      lookup-recover_records key later records r,
      lookup-insert key key r (records_without evicted j.idempotency_records),
      beq_refl key,
    )

-- When the admission of a mutation was written, and the process ends without its outcome, then after
-- a restart that reads the file and writes it again, and after any further calls of that process
-- (admissions, of this key too, and completions of others) none of which evicts the key's record, a
-- request with the key and its fingerprint is not executed: it is replayed as a failed operation,
-- and the journal stays as it is.
pub crashed_mutation_is_replayed :
    (inputs next : AdmissionInputs) (key fingerprint method : Text) (j : Journal)
    (evicted : Option Text) (id : Text) (path : Text) (later : ℕ) (calls : List JournalCall)
    → IsAdmitted inputs key j evicted id
    → IsBounded j
    → all is_valid_entry j.idempotency_records ≡ true
    → length key ≡ 64
    → length fingerprint ≡ 64
    → id ≢ []
    → path ≢ []
    → AreOthers key calls
    → evictions key calls (
        restart path true later written
          (admit_idempotent_mutation inputs key fingerprint method j).1)
      ≡ 0
    → let restarted =
        restart path true later written
          (admit_idempotent_mutation inputs key fingerprint method j).1 in
      admit_idempotent_mutation next key fingerprint method (run calls restarted) ≡ (
        succeeded_with (record {
          key = key;
          replay = true;
          entry = recovered_admission id fingerprint method inputs.now later;
        }),
        run calls restarted,
      )
crashed_mutation_is_replayed inputs next key fingerprint method j evicted id path later calls a b v
      k f i p others n =
    let restarted =
      restart path true later written
        (admit_idempotent_mutation inputs key fingerprint method j).1 in
    let r = recovered_admission id fingerprint method inputs.now later in
    let begun =
      restart-admitted inputs key fingerprint method j evicted id path later a b v k f i p in
    let kept = run-kept key calls restarted r others n begun.0 in
    let after = run calls restarted in
    let has_path : after.idempotency_path ≡ path = kept.1 ∙ begun.1 in
    let e = recover_record-finished later (admitted_record id fingerprint method inputs.now) in
    ground (
      arith,
      admit-known next key fingerprint method after r (λ q. p (sym has_path ∙ q)) kept.0,
      e,
      text_eq_iff r.fingerprint fingerprint,
      current_record-finished r after e.0,
    )
