-- ===== src/Operations/Prune.antt =====
-- `pruneOperations` of internal/manager/identify.go.
use kmonad_device_manager.Prelude.{
  ℕ, Bool, true, not, ◌&&◌, List, [], ◌∷◌, Text, Text-eq, ltb, leb, if◌then◌else◌, length,
}
use kmonad_device_manager.Prelude.Dict.{Dict, delete}
use kmonad_device_manager.Domain.{Operation}
use kmonad_device_manager.Idempotency.{IdempotencyRecord}
use kmonad_device_manager.Idempotency.Journal.{operation_has_record}
use kmonad_device_manager.Operations.{Sessions, is_identification, is_probe}

abbrev pub max_retained_operations : ℕ
max_retained_operations = 128

-- An operation that is not to be pruned.
unfoldable pub is_protected : Dict Text IdempotencyRecord → Sessions → Text → Bool
is_protected records s id =
    if operation_has_record id records
    then true
    else not (not (is_identification s.identification id) && not (is_probe s.probe id))

unfoldable pub candidates :
    Dict Text IdempotencyRecord → Sessions → Dict Text Operation → List Operation
candidates records s [] = []
candidates records s ((id, operation) ∷ rest) =
    let more = candidates records s rest in
    if is_protected records s operation.id then more else operation ∷ more

-- `sort.Slice` by `UpdatedAt`; the order of equal times, which Go leaves open, is the map's.
unfoldable pub insert_by_age : Operation → List Operation → List Operation
insert_by_age x [] = x ∷ []
insert_by_age x (y ∷ ys) =
    let rest = insert_by_age x ys in if leb x.updated_at y.updated_at then x ∷ y ∷ ys else y ∷ rest

unfoldable pub sort_by_age : List Operation → List Operation
sort_by_age [] = []
sort_by_age (x ∷ xs) = insert_by_age x (sort_by_age xs)

-- The loop that deletes the oldest while there are too many.
unfoldable pub drop_oldest : List Operation → Dict Text Operation → Dict Text Operation
drop_oldest [] operations = operations
drop_oldest (x ∷ xs) operations =
    let rest = drop_oldest xs (delete x.id operations) in
    if ltb max_retained_operations (length operations) then rest else operations

unfoldable pub prune_operations : Dict Text IdempotencyRecord → Sessions → Sessions
prune_operations records s =
    if leb (length s.operations) max_retained_operations then s else record s {
      operations = drop_oldest (sort_by_age (candidates records s s.operations)) s.operations;
    }
