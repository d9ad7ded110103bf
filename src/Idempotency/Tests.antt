-- ===== src/Idempotency/Tests.antt =====
-- Runs of the journal of internal/manager/idempotency.go at concrete inputs.
use kmonad_device_manager.Prelude.{
  ℕ, zero, suc, ◌≡◌, ◌≤◌, ◌+◌, refl, true, none, some, List, [], ◌∷◌, ◌++◌, Text, Text-eq, text,
  arith,
}
use kmonad_device_manager.Prelude.Dict.{lookup, insert}
use kmonad_device_manager.Domain.{succeeded, no_operation}
use kmonad_device_manager.Service.{CommandResult, succeeded_with}
use kmonad_device_manager.Idempotency.Journal.{
  Journal, missing, written, AdmissionInputs, admit_idempotent_mutation, admit_fresh,
  choose_evicted, persist_idempotency_records, admitted_record,
}
use kmonad_device_manager.Idempotency.Run.{
  CommandValue, operation_response, complete_idempotent_mutation, recover_record, restart,
  open_journal, load_idempotency_records, JournalCall, admitting, completing, restarting, step, run,
}
use kmonad_device_manager.Idempotency.AtMostOnce.{executions, evictions, executions_le_evictions}
use kmonad_device_manager.Idempotency.Bounded.{IsBounded, run-IsBounded}
use kmonad_device_manager.Idempotency.Unfinished.{unfinished_is_kept}
use kmonad_device_manager.Idempotency.Recovery.{recovered_admission, crashed_mutation_is_replayed}

abbrev new_journal : Journal
new_journal = record {
  idempotency_path = text "idempotency.json";
  idempotency_records = [];
  operations = [];
  file = missing;
}

-- A hash of 64 bytes that keeps its input apart, at the end.
abbrev zeros : ℕ → Text
zeros zero = []
zeros (suc n) = b'0' ∷ zeros n

abbrev key_a : Text
key_a = zeros 63 ++ (b'a' ∷ [])

abbrev print_a : Text
print_a = zeros 63 ++ (b'f' ∷ [])

abbrev inputs_at : ℕ → AdmissionInputs
inputs_at now = record { now = now; new_operation_id = some (text "op-1"); outcome = written }

abbrev apply_method : Text
apply_method = text "configuration.apply"

abbrev admitted : Journal
admitted = (admit_idempotent_mutation (inputs_at 10) key_a print_a apply_method new_journal).1

abbrev done : CommandResult CommandValue
done = succeeded_with (
    operation_response
      ((text "operation", record no_operation { id = text "op-1"; state = succeeded }) ∷ []))

-- One mutation: asked for twice, completed, asked for again after a restart.
abbrev calls : List JournalCall
calls =
    admitting (inputs_at 10) key_a print_a apply_method
    ∷ admitting (inputs_at 20) key_a print_a apply_method
    ∷ completing 30 written key_a done
    ∷ restarting (text "idempotency.json") true 40 written
    ∷ admitting (inputs_at 50) key_a print_a apply_method
    ∷ []

executions_le_evictions_example :
    executions key_a calls new_journal ≤ evictions key_a calls new_journal + 1
executions_le_evictions_example = executions_le_evictions key_a calls new_journal

executed_once : executions key_a calls new_journal ≡ 1
unfolding admit_idempotent_mutation admit_fresh choose_evicted persist_idempotency_records lookup
    insert step complete_idempotent_mutation open_journal load_idempotency_records recover_record
executed_once = refl

run-IsBounded_example : IsBounded (run calls new_journal)
unfolding admit_idempotent_mutation admit_fresh choose_evicted persist_idempotency_records lookup
    insert step
run-IsBounded_example = run-IsBounded calls new_journal (omega arith) (refl, tt)

abbrev key_b : Text
key_b = zeros 63 ++ (b'b' ∷ [])

unfinished_is_kept_example :
    lookup key_a
      (admit_idempotent_mutation
        (inputs_at 20)
        key_b
        print_a
        apply_method
        admitted).1.idempotency_records
    ≡ some (admitted_record (text "op-1") print_a apply_method 10)
unfolding admit_idempotent_mutation admit_fresh choose_evicted persist_idempotency_records lookup
    insert
unfinished_is_kept_example =
    unfinished_is_kept (inputs_at 20) key_b print_a apply_method admitted key_a
      (admitted_record (text "op-1") print_a apply_method 10) (refl, tt) refl refl

-- Another mutation, and a retry, in the new process.
abbrev between_calls : List JournalCall
between_calls =
    admitting (inputs_at 44) key_b print_a apply_method
    ∷ admitting (inputs_at 46) key_a print_a apply_method
    ∷ []

crashed_mutation_is_replayed_example :
    admit_idempotent_mutation
      (inputs_at 50)
      key_a
      print_a
      apply_method
      (run between_calls (restart (text "idempotency.json") true 40 written admitted))
    ≡ (
      succeeded_with (record {
        key = key_a;
        replay = true;
        entry = recovered_admission (text "op-1") print_a apply_method 10 40;
      }),
      run between_calls (restart (text "idempotency.json") true 40 written admitted),
    )
unfolding admit_idempotent_mutation admit_fresh choose_evicted persist_idempotency_records lookup
    insert step open_journal load_idempotency_records recover_record
crashed_mutation_is_replayed_example =
    crashed_mutation_is_replayed (inputs_at 10) (inputs_at 50) key_a print_a apply_method
      new_journal none (text "op-1") (text "idempotency.json") 40 between_calls
      (record {
        has_path = λ p. cc;
        is_new = refl;
        has_room = refl;
        has_id = refl;
        is_durable = refl;
      })
      (omega arith) refl refl refl (λ p. cc) (λ p. cc) tt refl
