-- ===== src/Operations/Tests.antt =====
-- Runs of the sessions of internal/manager/identify.go and internal/manager/inputscan.go at concrete
-- inputs.
use kmonad_device_manager.Prelude.{
  ℕ, zero, suc, ◌≡◌, ◌⊎◌, ◌<◌, ◌≤◌, inl, inr, refl, true, some, none, List, [], ◌∷◌, Text, text,
  Text-eq, arith,
}
use kmonad_device_manager.Prelude.Dict.{Dict, lookup, IsDistinct}
use kmonad_device_manager.Domain.{Operation, no_operation, waiting, succeeded}
use kmonad_device_manager.Domain.Resources.{connected}
use kmonad_device_manager.Service.{succeeded_with}
use kmonad_device_manager.Idempotency.{IdempotencyRecord}
use kmonad_device_manager.Idempotency.Journal.{operation_has_record}
use kmonad_device_manager.Operations.{IdentificationSession, Sessions}
use kmonad_device_manager.Operations.Identify.{EndInputs, pressed, cancel_identification_operation}
use kmonad_device_manager.Operations.Retained.{AreKeyedById}
use kmonad_device_manager.Operations.Valid.{IsValid}
use kmonad_device_manager.Operations.Final.{
  SessionCall, identify_ended, identify_cancel, step, run, Stays, ended_operation-Stays,
  run-IsValid,
}
use kmonad_device_manager.Operations.Forgotten.{AllRecorded, full_journal_forgets_identification}

-- Operations that ended, the youngest first.
abbrev numbered_operation : ℕ → Operation
numbered_operation n = record no_operation { id = suc n ∷ []; state = succeeded; updated_at = n }

abbrev numbered : ℕ → Dict Text Operation
numbered zero = []
numbered (suc n) = (suc n ∷ [], numbered_operation n) ∷ numbered n

abbrev numbered_records : ℕ → Dict Text IdempotencyRecord
numbered_records zero = []
numbered_records (suc n) =
    (
      suc n ∷ [],
      record { fingerprint = []; operation = numbered_operation n; error = none; finished = true },
    )
    ∷ numbered_records n

numbered-AreKeyedById : (n : ℕ) → AreKeyedById (numbered n)
numbered-AreKeyedById zero = tt
numbered-AreKeyedById (suc n) = (refl, numbered-AreKeyedById n)

lookup-numbered : (n k : ℕ) → (n < k) ⊎ (k ≡ 0) → lookup (k ∷ []) (numbered n) ≡ none
unfolding lookup
lookup-numbered zero k h = refl
lookup-numbered (suc n) k h = ground (arith, lookup-numbered n k)

numbered-IsDistinct : (n : ℕ) → IsDistinct (numbered n)
numbered-IsDistinct zero = tt
numbered-IsDistinct (suc n) = (lookup-numbered n (suc n) (inl (omega arith)), numbered-IsDistinct n)

is_numbered_record :
    (n k : ℕ) → k < n → operation_has_record (suc k ∷ []) (numbered_records n) ≡ true
is_numbered_record zero k h = absurd (omega arith)
is_numbered_record (suc n) k h = ground (arith, is_numbered_record n k)

numbered-AllRecorded :
    (n m : ℕ) (id : Text) → m ≤ n → AllRecorded (numbered_records n) id (numbered m)
numbered-AllRecorded n zero id h = tt
numbered-AllRecorded n (suc m) id h =
    (inr (is_numbered_record n m (omega arith)), numbered-AllRecorded n m id (omega arith))

abbrev session : IdentificationSession
session = record {
  operation_id = 0 ∷ [];
  device_id = text "dev_1";
  platform_id = text "keyboard";
  node_path = text "/dev/input/event3";
}

abbrev waiting_operation : Operation
waiting_operation = record no_operation { id = 0 ∷ []; state = waiting; updated_at = 500 }

abbrev identifying : ℕ → Sessions
identifying n = record {
  operations = (0 ∷ [], waiting_operation) ∷ numbered n;
  identification = some session;
  probe = none;
  effects = [];
}

identifying-IsValid : (n : ℕ) → IsValid (identifying n)
unfolding lookup
identifying-IsValid n = record {
  keyed = (refl, numbered-AreKeyedById n);
  distinct = (lookup-numbered n 0 (inr refl), numbered-IsDistinct n);
  mine_waits = refl;
  theirs_waits = tt;
  apart = refl;
}

abbrev end_inputs : EndInputs
end_inputs = record { now = 600; availability = connected }

-- 128 mutations are in the journal, and one device is being identified.
full_journal_forgets_identification_example :
    ((cancel_identification_operation
        (numbered_records 128)
        end_inputs
        (0 ∷ [])
        (identifying 128)).0
      ≡ succeeded_with no_operation)
    × (lookup
          (0 ∷ [])
          (cancel_identification_operation
            (numbered_records 128)
            end_inputs
            (0 ∷ [])
            (identifying 128)).1.operations
        ≡ none)
full_journal_forgets_identification_example =
    full_journal_forgets_identification (numbered_records 128) end_inputs session (identifying 128)
      (identifying-IsValid 128) refl refl (omega arith)
      (inl refl, numbered-AllRecorded 128 128 (0 ∷ []) (omega arith)) refl

abbrev two_calls : List SessionCall
two_calls = identify_ended end_inputs (0 ∷ []) pressed ∷ identify_cancel end_inputs (0 ∷ []) ∷ []

run-IsValid_example : IsValid (run [] two_calls (identifying 2))
run-IsValid_example =
    run-IsValid [] two_calls (identifying 2) (tt, (tt, tt)) (identifying-IsValid 2)

ended_operation-Stays_example :
    Stays
      (2 ∷ [])
      (numbered_operation 1)
      (step [] (identify_ended end_inputs (0 ∷ []) pressed) (identifying 2))
unfolding lookup
ended_operation-Stays_example =
    ended_operation-Stays [] (identify_ended end_inputs (0 ∷ []) pressed) (identifying 2) (2 ∷ [])
      (numbered_operation 1) tt (identifying-IsValid 2) refl refl
