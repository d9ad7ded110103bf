-- ===== src/Idempotency/Journal.antt =====
-- The operations of the journal in internal/manager/idempotency.go. The journal's file is part of
-- the state: what `writeAtomicPrivateFile` and `readFileLimited` did is an argument, and a store
-- that was written reads back as it was. The clock and the operation IDs are arguments too.
use kmonad_device_manager.Prelude.{
  ℕ, Bool, true, false, not, ◌||◌, ◌&&◌, Option, none, some, [], ◌∷◌, Text, Text-eq, text, text_eq,
  ltb, ◌==◌, if◌then◌else◌, length,
}
use kmonad_device_manager.Prelude.Dict.{Dict, lookup, insert, delete}
use kmonad_device_manager.Domain.{
  Operation, OperationKind, apply, adopt, lifecycle, running, is_running, no_operation, no_resource,
}
use kmonad_device_manager.Service.{CommandResult, failed_with, succeeded_with}
use kmonad_device_manager.Idempotency.{
  IdempotencyRecord, IdempotencyStore, idempotency_store_version, max_idempotency_records,
}

-- The file at `idempotencyPath`.
pub data JournalFile : Type 0 where
  missing malformed : JournalFile
  stored : IdempotencyStore → JournalFile

-- The fields of `manager` that the journal reads and writes, and its file.
pub record Journal : Type 0 where
  pub idempotency_path : Text
  pub idempotency_records : Dict Text IdempotencyRecord
  pub operations : Dict Text Operation
  pub file : JournalFile

-- An atomic write can fail before the rename or after it, when the directory is synchronised.
pub data WriteOutcome : Type 0 where
  written not_written written_unsynced : WriteOutcome

abbrev pub reaches_file : WriteOutcome → Bool
reaches_file not_written = false
reaches_file _ = true

abbrev pub is_written : WriteOutcome → Bool
is_written written = true
is_written _ = false

abbrev pub store_of : Dict Text IdempotencyRecord → IdempotencyStore
store_of records = record { version = idempotency_store_version; records = records }

-- Was the write reported as done, and the state after it.
unfoldable pub persist_idempotency_records :
    WriteOutcome → Dict Text IdempotencyRecord → Journal → Bool × Journal
persist_idempotency_records outcome records j =
    if text_eq j.idempotency_path [] then (false, j) else (
      is_written outcome,
      if reaches_file outcome then record j { file = stored (store_of records) } else j,
    )

abbrev pub operation_has_record : Text → Dict Text IdempotencyRecord → Bool
operation_has_record id [] = false
operation_has_record id ((key, r) ∷ m) =
    if text_eq r.operation.id id then true else operation_has_record id m

unfoldable pub operation_has_idempotency_record : Text → Journal → Bool
operation_has_idempotency_record id j = operation_has_record id j.idempotency_records

-- The order of Go strings.
abbrev pub text_lt : Text → Text → Bool
text_lt [] [] = false
text_lt [] (y ∷ ys) = true
text_lt (x ∷ xs) [] = false
text_lt (x ∷ xs) (y ∷ ys) = if x == y then text_lt xs ys else ltb x y

-- The order that `sort.Slice` is given.
abbrev pub is_older : Text × IdempotencyRecord → Text × IdempotencyRecord → Bool
is_older (i, left) (j, right) =
    if left.operation.updated_at == right.operation.updated_at
    then text_lt i j
    else ltb left.operation.updated_at right.operation.updated_at

-- `keys[0]` after the sort, the least of the finished records.
unfoldable pub oldest_finished : Dict Text IdempotencyRecord → Option (Text × IdempotencyRecord)
oldest_finished [] = none
oldest_finished ((key, r) ∷ m) =
    let rest = oldest_finished m in
    if r.finished
    then elim rest [
      | none ↦ some (key, r)
      | some least ↦ if is_older least (key, r) then some least else some (key, r)
    ]
    else rest

-- The key to evict, none when there is room, or no answer when every record is unfinished.
unfoldable pub choose_evicted : Dict Text IdempotencyRecord → Option (Option Text)
choose_evicted records =
    if ltb (length records) max_idempotency_records
    then some none
    else elim (oldest_finished records) [ none ↦ none | some (key, r) ↦ some (some key) ]

pub record MutationAdmission : Type 0 where
  pub key : Text
  pub replay : Bool
  pub entry : IdempotencyRecord

abbrev pub operation_kind : Text → OperationKind
operation_kind method =
    if text_eq method (text "configuration.adopt")
    then adopt
    else if text_eq method (text "configuration.set_enabled")
        || text_eq method (text "configuration.delete")
    then lifecycle
    else apply

-- The record of a fresh admission.
abbrev pub admitted_record : Text → Text → Text → ℕ → IdempotencyRecord
admitted_record id fingerprint method now = record {
  fingerprint = fingerprint;
  operation = record {
    id = id;
    kind = operation_kind method;
    state = running;
    resource = record { kind = no_resource; id = [] };
    started_at = now;
    updated_at = now;
    reason_code = text "operation_running";
    reason = text "mutation accepted by manager";
    validation = none;
    configuration_revision = 0;
  };
  error = none;
  finished = false;
}

-- A known record, with the operation's present progress while it runs.
unfoldable pub current_record : IdempotencyRecord → Journal → IdempotencyRecord
current_record r j = elim (lookup r.operation.id j.operations) [
  | none ↦ r
  | some current ↦
      if not r.finished && is_running current.state then record r { operation = current } else r
]

abbrev pub records_without : Option Text → Dict Text IdempotencyRecord → Dict Text IdempotencyRecord
records_without none records = records
records_without (some key) records = delete key records

-- The operation of the evicted record goes with it; the code tests for the empty key.
abbrev pub operations_without :
    Option Text → Dict Text IdempotencyRecord → Dict Text Operation → Dict Text Operation
operations_without none records operations = operations
operations_without (some []) records operations = operations
operations_without (some (x ∷ key)) records operations = elim (lookup (x ∷ key) records) [
  | none ↦ delete no_operation.id operations
  | some r ↦ delete r.operation.id operations
]

-- The inputs of an admission: the clock, the operation ID that was allocated, and the write.
pub record AdmissionInputs : Type 0 where
  pub now : ℕ
  pub new_operation_id : Option Text
  pub outcome : WriteOutcome

-- An admission of a key without a record, from the choice of the eviction on.
unfoldable pub admit_fresh :
    AdmissionInputs → Text → Text → Text → Journal → CommandResult MutationAdmission × Journal
admit_fresh inputs key fingerprint method j = elim (choose_evicted j.idempotency_records) [
  | none ↦ (failed_with (text "resource_exhausted") (text "too many pending durable mutations"), j)
  | some evicted ↦ elim inputs.new_operation_id [
    | none ↦ (failed_with (text "temporary_unavailable") (text "cannot allocate operation ID"), j)
    | some id ↦
        let r = admitted_record id fingerprint method inputs.now in
        let updated = insert key r (records_without evicted j.idempotency_records) in
        let persisted = persist_idempotency_records inputs.outcome updated j in
        if not persisted.0
        then (
          failed_with (text "temporary_unavailable") (text "cannot persist mutation admission"),
          persisted.1,
        )
        else (
          succeeded_with (record { key = key; replay = false; entry = r }),
          record persisted.1 {
            idempotency_records = updated;
            operations =
                insert id r.operation
                  (operations_without evicted j.idempotency_records j.operations);
          },
        )
  ]
]

unfoldable pub admit_idempotent_mutation :
    AdmissionInputs → Text → Text → Text → Journal → CommandResult MutationAdmission × Journal
admit_idempotent_mutation inputs key fingerprint method j =
    if text_eq j.idempotency_path []
    then (
      failed_with (text "temporary_unavailable") (text "durable mutation journal is unavailable"),
      j,
    )
    else elim (lookup key j.idempotency_records) [
      | none ↦ admit_fresh inputs key fingerprint method j
      | some r ↦
          if not (text_eq r.fingerprint fingerprint)
          then (
            failed_with (text "idempotency_conflict")
                (text "idempotency key was used for a different mutation"),
            j,
          )
          else (succeeded_with (record { key = key; replay = true; entry = current_record r j }), j)
    ]
