-- ===== src/Idempotency/RequestTests.antt =====
-- Runs of requests and of evictions of internal/manager/idempotency.go at concrete inputs.
use kmonad_device_manager.Prelude.{
  ℕ, zero, suc, ◌≡◌, ◌≤◌, refl, Bool, true, false, Option, none, some, [], ◌∷◌, ◌++◌, Text, Text-eq,
  text, text_eq_iff, arith,
}
use kmonad_device_manager.Prelude.Dict.{Dict, lookup, IsDistinct}
use kmonad_device_manager.Service.{CommandResult, failed_with, command_deadline_result, queued}
use kmonad_device_manager.Idempotency.{IdempotencyRecord, ApiRequest, idempotency_identity}
use kmonad_device_manager.Idempotency.Journal.{
  Journal, missing, written, admit_idempotent_mutation, choose_evicted, admitted_record,
}
use kmonad_device_manager.Idempotency.Run.{CommandValue}
use kmonad_device_manager.Idempotency.Request.{RequestInputs, run_idempotent_mutation, replayed}
use kmonad_device_manager.Idempotency.Replay.{known_key_is_not_executed}
use kmonad_device_manager.Idempotency.LostReply.{lost_reply_strands_key}

abbrev never_blank : Text → Bool
never_blank key = false

abbrev as_it_is : Text → Option Text
as_it_is params = some params

abbrev no_hash : Text → Text
no_hash bytes = bytes

abbrev fails : Text → Journal → CommandResult CommandValue × Journal
fails id j = (failed_with (text "temporary_unavailable") (text "no worker"), j)

abbrev forgets : Text → Journal → CommandResult CommandValue × Journal
forgets id j = (failed_with (text "internal") [], record j { operations = [] })

abbrev apply_request : ApiRequest
apply_request = record {
  method = text "configuration.apply";
  params = text "{}";
  idempotency_key = text "key";
}

abbrev print : Text
print = text "configuration.apply" ++ (0 ∷ text "{}")

abbrev request_inputs : Bool → RequestInputs
request_inputs reply_lost = record {
  admission = record { now = 10; new_operation_id = some (text "op-1"); outcome = written };
  admission_delivery = queued false reply_lost;
  completed_at = 20;
  completion_outcome = written;
  completion_delivery = queued false false;
}

abbrev journal_with : Dict Text IdempotencyRecord → Journal
journal_with records = record {
  idempotency_path = text "idempotency.json";
  idempotency_records = records;
  operations = [];
  file = missing;
}

abbrev entry_at : ℕ → IdempotencyRecord
entry_at now = record (admitted_record (text "op-1") print (text "configuration.apply") now) {
  finished = true;
}

abbrev known : Journal
known = journal_with ((text "key", entry_at 5) ∷ [])

known_key_is_not_executed_example :
    ((run_idempotent_mutation never_blank as_it_is no_hash
        (request_inputs false)
        apply_request
        fails
        known).1
      ≡ known)
    × (run_idempotent_mutation never_blank as_it_is no_hash
          (request_inputs false)
          apply_request
          fails
          known
        ≡ run_idempotent_mutation never_blank as_it_is no_hash
            (request_inputs false)
            apply_request
            forgets
            known)
unfolding idempotency_identity lookup
known_key_is_not_executed_example =
    known_key_is_not_executed never_blank as_it_is no_hash (request_inputs false) apply_request
      known (text "key") print (entry_at 5) fails forgets refl refl

abbrev after_lost : Journal
after_lost =
    (admit_idempotent_mutation (request_inputs true).admission (text "key") print
      (text "configuration.apply") (journal_with [])).1

lost_reply_strands_key_example :
    (run_idempotent_mutation never_blank as_it_is no_hash
        (request_inputs true)
        apply_request
        fails
        (journal_with [])
      ≡ (command_deadline_result, after_lost))
    × (run_idempotent_mutation never_blank as_it_is no_hash
          (request_inputs false)
          apply_request
          fails
          after_lost
        ≡ (
          replayed (admitted_record (text "op-1") print (text "configuration.apply") 10),
          after_lost,
        ))
unfolding idempotency_identity lookup choose_evicted
lost_reply_strands_key_example =
    lost_reply_strands_key never_blank as_it_is no_hash (request_inputs true) (request_inputs false)
      apply_request (journal_with []) (text "key") print none (text "op-1") fails refl refl refl
      (record {
        has_path = λ p. cc;
        is_new = refl;
        has_room = refl;
        has_id = refl;
        is_durable = refl;
      })

-- `n` finished records, under the keys of one byte below `n`, each younger than those of lower keys.
abbrev finished_below : ℕ → Dict Text IdempotencyRecord
finished_below zero = []
finished_below (suc n) = (n ∷ [], entry_at n) ∷ finished_below n

lookup-finished_below : (n i : ℕ) → n ≤ i → lookup (i ∷ []) (finished_below n) ≡ none
unfolding lookup
lookup-finished_below zero i h = refl
lookup-finished_below (suc n) i h =
    ground (arith, text_eq_iff (n ∷ []) (i ∷ []), lookup-finished_below n i)

finished_below-IsDistinct : (n : ℕ) → IsDistinct (finished_below n)
finished_below-IsDistinct zero = tt
finished_below-IsDistinct (suc n) =
    (lookup-finished_below n n (omega arith), finished_below-IsDistinct n)
