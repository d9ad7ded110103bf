-- ===== src/Idempotency/Run.antt =====
-- The outcome of a mutation and the recovery of the journal in
-- internal/manager/idempotency.go, and the journal across restarts.
use kmonad_device_manager.Prelude.{
  ℕ, Bool, true, false, not, ◌||◌, Option, none, some, List, [], ◌∷◌, ◌++◌, Text, Text-eq, text,
  text_eq, ltb, ◌==◌, if◌then◌else◌, length, all,
}
use kmonad_device_manager.Prelude.Dict.{Dict, lookup, insert}
use kmonad_device_manager.Domain.{Operation, failed, ApiError, no_operation}
use kmonad_device_manager.Service.{CommandResult, api_error, failed_with}
use kmonad_device_manager.Idempotency.{
  IdempotencyRecord, idempotency_store_version, max_idempotency_records,
}
use kmonad_device_manager.Idempotency.Journal.{
  Journal, JournalFile, missing, malformed, stored, WriteOutcome, persist_idempotency_records,
  AdmissionInputs, admit_idempotent_mutation,
}

-- What a mutation returns: the map that holds its operation, or any other value.
pub data CommandValue : Type 0 where
  operation_response : Dict Text Operation → CommandValue
  other_value : CommandValue

-- The zero value of a record that is missing.
abbrev pub no_record : IdempotencyRecord
no_record = record { fingerprint = []; operation = no_operation; error = none; finished = false }

abbrev pub record_or_zero : Option IdempotencyRecord → IdempotencyRecord
record_or_zero none = no_record
record_or_zero (some r) = r

abbrev pub response_operation : Dict Text Operation → Operation
response_operation response = elim (lookup (text "operation") response) [
  | none ↦ no_operation
  | some o ↦ o
]

-- The operation of the response, when the mutation returned the one that was admitted.
abbrev pub matching_operation : Option CommandValue → Text → Option Operation
matching_operation none id = none
matching_operation (some other_value) id = none
matching_operation (some (operation_response response)) id =
    if text_eq (response_operation response).id id then some (response_operation response) else none

abbrev pub error_or_internal : Option ApiError → ApiError
error_or_internal none =
    api_error (text "internal") (text "mutation returned an inconsistent operation")
error_or_internal (some e) = e

abbrev pub failed_operation : ℕ → ApiError → Operation → Operation
failed_operation now e o = record o {
  state = failed;
  reason_code =
      if text_eq e.code (text "stale_revision")
      then text "configuration_revision_stale"
      else text "internal";
  reason = text "mutation failed before completion: " ++ e.code;
  updated_at = now;
}

-- The record of the outcome and the result to return.
abbrev pub finished_record :
    ℕ
    → IdempotencyRecord
    → CommandResult CommandValue
    → IdempotencyRecord × CommandResult CommandValue
finished_record now r result = elim (matching_operation result.result r.operation.id) [
  | some o ↦ (record r { operation = o; error = result.error; finished = true }, result)
  | none ↦
      let e = error_or_internal result.error in
      (
        record r {
          operation = failed_operation now e r.operation;
          error = some e;
          finished = true;
        },
        record result { error = some e },
      )
]

unfoldable pub complete_idempotent_mutation :
    ℕ
    → WriteOutcome
    → Text
    → CommandResult CommandValue
    → Journal
    → CommandResult CommandValue × Journal
complete_idempotent_mutation now outcome key result j =
    let known = record_or_zero (lookup key j.idempotency_records) in
    let finished = finished_record now known result in
    let updated = insert key finished.0 j.idempotency_records in
    let persisted = persist_idempotency_records outcome updated j in
    if not persisted.0
    then (
      failed_with (text "temporary_unavailable")
          (text "mutation outcome could not be durably recorded; retry with the same key"),
      persisted.1,
    )
    else (
      finished.1,
      record persisted.1 {
        idempotency_records = updated;
        operations = insert finished.0.operation.id finished.0.operation j.operations;
      },
    )

-- The validation of one entry of the file.
abbrev pub is_valid_entry : Text × IdempotencyRecord → Bool
is_valid_entry (key, r) =
    elim (not (length key == 64) || not (length r.fingerprint == 64) || text_eq r.operation.id []) [
      | true ↦ false
      | false ↦ true
    ]

-- A mutation without an outcome is never run again: its record becomes a failed one.
unfoldable pub recover_record : ℕ → IdempotencyRecord → IdempotencyRecord
recover_record now r = if r.finished then r else record r {
  operation = record (r.operation) {
    state = failed;
    reason_code = text "internal";
    reason =
        text "manager restarted before mutation outcome was durably recorded; "
        ++ text "inspect the configuration snapshot";
    updated_at = now;
  };
  finished = true;
}

abbrev pub recover_records : ℕ → Dict Text IdempotencyRecord → Dict Text IdempotencyRecord
recover_records now [] = []
recover_records now ((key, r) ∷ m) = (key, recover_record now r) ∷ recover_records now m

abbrev pub insert_operations :
    Dict Text IdempotencyRecord → Dict Text Operation → Dict Text Operation
insert_operations [] operations = operations
insert_operations ((key, r) ∷ m) operations =
    insert_operations m (insert r.operation.id r.operation operations)

-- `loadIdempotencyRecords`, with whether it succeeded. `readable` says whether the file could be
-- read at all, within its limit of 4 MiB.
unfoldable pub load_idempotency_records : Bool → ℕ → WriteOutcome → Journal → Bool × Journal
load_idempotency_records readable now outcome j =
    let cleared = record j { idempotency_records = [] } in
    elim j.file [
      | missing ↦ (true, cleared)
      | malformed ↦ (false, cleared)
      | stored store ↦
          if not readable
            || not (store.version == idempotency_store_version)
            || ltb max_idempotency_records (length store.records)
            || not (all is_valid_entry store.records)
          then (false, cleared)
          else let validated = recover_records now store.records in
            let persisted = persist_idempotency_records outcome validated cleared in
            if not persisted.0 then (false, persisted.1) else (
              true,
              record persisted.1 {
                idempotency_records = validated;
                operations = insert_operations validated j.operations;
              },
            )
    ]

-- The part of `openManagedConfigurationStore` (internal/manager/managed_store.go) on the journal. A
-- manager whose journal does not load goes on without one.
unfoldable pub open_journal : Text → Bool → ℕ → WriteOutcome → Journal → Journal
open_journal path readable now outcome j =
    let loaded =
      load_idempotency_records readable now outcome (record j { idempotency_path = path }) in
    if loaded.0 then loaded.1 else record loaded.1 { idempotency_path = [] }

-- A new process has nothing but the file.
abbrev pub new_process : JournalFile → Journal
new_process file = record {
  idempotency_path = [];
  idempotency_records = [];
  operations = [];
  file = file;
}

abbrev pub restart : Text → Bool → ℕ → WriteOutcome → Journal → Journal
restart path readable now outcome j = open_journal path readable now outcome (new_process j.file)

-- The calls that reach the journal, in the order in which the manager takes them.
pub data JournalCall : Type 0 where
  admitting : AdmissionInputs → (key fingerprint method : Text) → JournalCall
  completing : (now : ℕ) → WriteOutcome → (key : Text) → CommandResult CommandValue → JournalCall
  restarting : (path : Text) → (readable : Bool) → (now : ℕ) → WriteOutcome → JournalCall

unfoldable pub step : JournalCall → Journal → Journal
step (restarting path readable now outcome) j = restart path readable now outcome j
step (admitting inputs key fingerprint method) j =
    (admit_idempotent_mutation inputs key fingerprint method j).1
step (completing now outcome key result) j =
    (complete_idempotent_mutation now outcome key result j).1

unfoldable pub run : List JournalCall → Journal → Journal
run [] j = j
run (c ∷ calls) j = run calls (step c j)
