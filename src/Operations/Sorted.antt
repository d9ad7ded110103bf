-- ===== src/Operations/Sorted.antt =====
-- The order of age in which `pruneOperations` of internal/manager/identify.go deletes.
use kmonad_device_manager.Prelude.{
  ◌≤◌, true, false, List, [], ◌∷◌, Text-eq, arith, All, leb, if◌then◌else◌,
}
use kmonad_device_manager.Domain.{Operation}
use kmonad_device_manager.Operations.Prune.{insert_by_age, sort_by_age}

pub data IsIn (x : Operation) : List Operation → Type 0 where
  here : {xs : List Operation} → IsIn x (x ∷ xs)
  there : {y : Operation} {xs : List Operation} → IsIn x xs → IsIn x (y ∷ xs)

abbrev pub NoOlder : Operation → List Operation → Type 0
NoOlder x xs = All (λ (y : Operation). x.updated_at ≤ y.updated_at) xs

abbrev pub IsByAge : List Operation → Type 0
IsByAge [] = Unit {0}
IsByAge (x ∷ xs) = NoOlder x xs × IsByAge xs

NoOlder-trans :
    (x y : Operation) (ys : List Operation)
    → x.updated_at ≤ y.updated_at
    → NoOlder y ys
    → NoOlder x ys
NoOlder-trans x y [] le all = tt
NoOlder-trans x y (z ∷ zs) le all = (omega arith, NoOlder-trans x y zs le all.1)

NoOlder-insert_by_age :
    (y x : Operation) (ys : List Operation)
    → y.updated_at ≤ x.updated_at
    → NoOlder y ys
    → NoOlder y (insert_by_age x ys)
unfolding insert_by_age
NoOlder-insert_by_age y x [] le all = (le, tt)
NoOlder-insert_by_age y x (z ∷ zs) le all = ground (arith, NoOlder-insert_by_age y x zs le all.1)

insert_by_age-IsByAge :
    (x : Operation) (xs : List Operation) → IsByAge xs → IsByAge (insert_by_age x xs)
unfolding insert_by_age
insert_by_age-IsByAge x [] sorted = (tt, tt)
insert_by_age-IsByAge x (y ∷ ys) sorted =
    ground (
      arith,
      NoOlder-trans x y ys,
      NoOlder-insert_by_age y x ys,
      insert_by_age-IsByAge x ys sorted.1,
    )

pub sort_by_age-IsByAge : (xs : List Operation) → IsByAge (sort_by_age xs)
unfolding sort_by_age
sort_by_age-IsByAge [] = tt
sort_by_age-IsByAge (x ∷ xs) = insert_by_age-IsByAge x (sort_by_age xs) (sort_by_age-IsByAge xs)

-- Sorting loses nothing and adds nothing.
IsIn-insert_by_age_self : (x : Operation) (xs : List Operation) → IsIn x (insert_by_age x xs)
unfolding insert_by_age
IsIn-insert_by_age_self x [] = here
IsIn-insert_by_age_self x (y ∷ ys) =
    elim (leb x.updated_at y.updated_at)
      as (λ b. IsIn x (if b then x ∷ y ∷ ys else y ∷ insert_by_age x ys)) [
        | true ↦ here
        | false ↦ there (IsIn-insert_by_age_self x ys)
      ]

IsIn-tail :
    (z y : Operation) {xs ys : List Operation}
    → (IsIn z xs → IsIn z ys)
    → IsIn z (y ∷ xs)
    → IsIn z (y ∷ ys)
IsIn-tail z y grow here = here
IsIn-tail z y grow (there m) = there (grow m)

IsIn-insert_by_age :
    (z x : Operation) (xs : List Operation) → IsIn z xs → IsIn z (insert_by_age x xs)
unfolding insert_by_age
IsIn-insert_by_age z x [] m = elim m [ ]
IsIn-insert_by_age z x (y ∷ ys) m =
    elim (leb x.updated_at y.updated_at)
      as (λ b. IsIn z (if b then x ∷ y ∷ ys else y ∷ insert_by_age x ys)) [
        | true ↦ there m
        | false ↦ IsIn-tail z y (IsIn-insert_by_age z x ys) m
      ]

pub IsIn-sort_by_age : (z : Operation) (xs : List Operation) → IsIn z xs → IsIn z (sort_by_age xs)
unfolding sort_by_age
IsIn-sort_by_age z [] m = elim m [ ]
IsIn-sort_by_age z (x ∷ xs) here = IsIn-insert_by_age_self x (sort_by_age xs)
IsIn-sort_by_age z (x ∷ xs) (there m) =
    IsIn-insert_by_age z x (sort_by_age xs) (IsIn-sort_by_age z xs m)

All-insert_by_age :
    (P : Operation → Type 0) (x : Operation) (xs : List Operation)
    → P x
    → All P xs
    → All P (insert_by_age x xs)
unfolding insert_by_age
All-insert_by_age P x [] p all = (p, tt)
All-insert_by_age P x (y ∷ ys) p all =
    elim (leb x.updated_at y.updated_at)
      as (λ b. All P (if b then x ∷ y ∷ ys else y ∷ insert_by_age x ys)) [
        | true ↦ (p, all)
        | false ↦ (all.0, All-insert_by_age P x ys p all.1)
      ]

pub All-sort_by_age :
    (P : Operation → Type 0) (xs : List Operation) → All P xs → All P (sort_by_age xs)
unfolding sort_by_age
All-sort_by_age P [] all = tt
All-sort_by_age P (x ∷ xs) all =
    All-insert_by_age P x (sort_by_age xs) all.0 (All-sort_by_age P xs all.1)
