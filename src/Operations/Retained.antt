-- ===== src/Operations/Retained.antt =====
-- What `pruneOperations` of internal/manager/identify.go keeps.
use kmonad_device_manager.Prelude.{
  ◌≤◌, ◌<◌, ◌≡◌, inl, inr, refl, true, false, some, none, List, [], ◌∷◌, Text, Text-eq, arith, All,
  Bool-cases, Option-cases, text_eq, text_eq_iff, length, is_some, if◌then◌else◌, sym, subst, ap,
}
use kmonad_device_manager.Prelude.Dict.{Dict, lookup, delete, lookup-delete, IsDistinct}
use kmonad_device_manager.Domain.{Operation}
use kmonad_device_manager.Idempotency.{IdempotencyRecord}
use kmonad_device_manager.Operations.{Sessions}
use kmonad_device_manager.Operations.Prune.{
  max_retained_operations, is_protected, candidates, sort_by_age, drop_oldest, prune_operations,
}
use kmonad_device_manager.Operations.Sorted.{
  IsIn, here, there, NoOlder, IsByAge, sort_by_age-IsByAge, IsIn-sort_by_age, All-sort_by_age,
}

-- Each operation stands under its own ID.
abbrev pub AreKeyedById : Dict Text Operation → Type 0
AreKeyedById operations = All (λ (e : Text × Operation). e.1.id ≡ e.0) operations

pub drop_oldest-keeps :
    (xs : List Operation) (operations : Dict Text Operation) (id : Text) (a : Operation)
    → lookup id (drop_oldest xs operations) ≡ some a
    → lookup id operations ≡ some a
unfolding drop_oldest
drop_oldest-keeps [] operations id a e = e
drop_oldest-keeps (x ∷ xs) operations id a e =
    ground
      (arith, drop_oldest-keeps xs (delete x.id operations) id a, lookup-delete x.id id operations)

drop_oldest-none :
    (xs : List Operation) (operations : Dict Text Operation) (id : Text)
    → lookup id operations ≡ none
    → lookup id (drop_oldest xs operations) ≡ none
drop_oldest-none xs operations id e = elim (Option-cases (lookup id (drop_oldest xs operations))) [
  | inl gone ↦ gone
  | inr (a, kept) ↦ cc (drop_oldest-keeps xs operations id a kept)
]

-- What is over the limit at the end has lost every candidate.
drop_oldest_over_limit :
    (xs : List Operation) (operations : Dict Text Operation) (c : Operation)
    → max_retained_operations < length (drop_oldest xs operations)
    → IsIn c xs
    → lookup c.id (drop_oldest xs operations) ≡ none
unfolding drop_oldest
drop_oldest_over_limit [] operations c over m = elim m [ ]
drop_oldest_over_limit (x ∷ xs) operations c over here = ground (
  arith,
  drop_oldest-none xs (delete c.id operations) c.id,
  lookup-delete c.id c.id operations,
  text_eq_iff c.id c.id,
)
drop_oldest_over_limit (x ∷ xs) operations c over (there m) =
    let later = λ (o : max_retained_operations < length (drop_oldest xs (delete x.id operations))).
      drop_oldest_over_limit xs (delete x.id operations) c o m in
    ground (arith, later)

drop_oldest-other :
    (xs : List Operation) (operations : Dict Text Operation) (id : Text)
    → All (λ (c : Operation). text_eq c.id id ≡ false) xs
    → lookup id (drop_oldest xs operations) ≡ lookup id operations
unfolding drop_oldest
drop_oldest-other [] operations id others = refl
drop_oldest-other (x ∷ xs) operations id others = ground (
  arith,
  drop_oldest-other xs (delete x.id operations) id others.1,
  lookup-delete x.id id operations,
)

NoOlder-IsIn :
    (x b : Operation) (xs : List Operation) → NoOlder x xs → IsIn b xs → x.updated_at ≤ b.updated_at
NoOlder-IsIn x b [] all m = elim m [ ]
NoOlder-IsIn x b (y ∷ ys) all here = all.0
NoOlder-IsIn x b (y ∷ ys) all (there m) = NoOlder-IsIn x b ys all.1 m

-- What is dropped is no younger than a candidate that is kept.
drop_oldest_by_age :
    (xs : List Operation) (operations whole : Dict Text Operation) (id : Text) (a b : Operation)
    → IsByAge xs
    → All (λ (c : Operation). lookup c.id whole ≡ some c) xs
    → lookup id whole ≡ some a
    → is_some (lookup id operations) ≡ true
    → lookup id (drop_oldest xs operations) ≡ none
    → IsIn b xs
    → is_some (lookup b.id (drop_oldest xs operations)) ≡ true
    → a.updated_at ≤ b.updated_at
unfolding drop_oldest
drop_oldest_by_age [] operations whole id a b sorted at known present gone m kept = elim m [ ]
drop_oldest_by_age (x ∷ xs) operations whole id a b sorted at known present gone here kept =
    ground (
      arith,
      drop_oldest-none xs (delete b.id operations) b.id,
      lookup-delete b.id b.id operations,
      text_eq_iff b.id b.id,
    )
drop_oldest_by_age (x ∷ xs) operations whole id a b sorted at known present gone (there m) kept =
    let rest = delete x.id operations in
    let later =
      λ (p : is_some (lookup id rest) ≡ true) (g : lookup id (drop_oldest xs rest) ≡ none)
          (k : is_some (lookup b.id (drop_oldest xs rest)) ≡ true).
        drop_oldest_by_age xs rest whole id a b sorted.1 at.1 known p g m k in
    elim (Bool-cases (text_eq x.id id)) [
      | inl same ↦ ground (arith, text_eq_iff x.id id, at.0, NoOlder-IsIn x b xs sorted.0 m)
      | inr other ↦ ground (arith, later, lookup-delete x.id id operations)
    ]

pub keyed_id :
    (operations : Dict Text Operation) (id : Text) (a : Operation)
    → AreKeyedById operations
    → lookup id operations ≡ some a
    → a.id ≡ id
unfolding lookup
keyed_id [] id a keyed at = cc
keyed_id ((k, x) ∷ rest) id a keyed at =
    ground (arith, keyed_id rest id a keyed.1, text_eq_iff k id)

known_later :
    (k : Text) (x : Operation) (rest : Dict Text Operation) (xs : List Operation)
    → lookup k rest ≡ none
    → All (λ (c : Operation). lookup c.id rest ≡ some c) xs
    → All (λ (c : Operation). lookup c.id ((k, x) ∷ rest) ≡ some c) xs
unfolding lookup
known_later k x rest [] new all = tt
known_later k x rest (c ∷ cs) new all =
    (ground (arith, text_eq_iff k c.id), known_later k x rest cs new all.1)

module _ (records : Dict Text IdempotencyRecord) (s : Sessions) where
  candidates-unprotected :
      (operations : Dict Text Operation)
      → All
          (λ (c : Operation). is_protected records s c.id ≡ false)
          (candidates records s operations)
  unfolding candidates
  candidates-unprotected [] = tt
  candidates-unprotected ((id, operation) ∷ rest) = ground (arith, candidates-unprotected rest)

  differ :
      (id : Text) (xs : List Operation)
      → is_protected records s id ≡ true
      → All (λ (c : Operation). is_protected records s c.id ≡ false) xs
      → All (λ (c : Operation). text_eq c.id id ≡ false) xs
  differ id [] held all = tt
  differ id (c ∷ cs) held all = (
    elim (Bool-cases (text_eq c.id id)) [
      | inl same ↦ let e = (text_eq_iff c.id id).0 same in cc (ap (is_protected records s) e)
      | inr other ↦ other
    ],
    differ id cs held all.1,
  )

  IsIn-candidates :
      (operations : Dict Text Operation) (id : Text) (c : Operation)
      → AreKeyedById operations
      → lookup id operations ≡ some c
      → is_protected records s id ≡ false
      → IsIn c (candidates records s operations)
  unfolding candidates lookup
  IsIn-candidates [] id c keyed at free = cc
  IsIn-candidates ((k, x) ∷ rest) id c keyed at free =
      let more = candidates records s rest in
      elim (Bool-cases (text_eq k id)) [
        | inl same ↦
            let found : x ≡ c = ground arith in
            let named : c.id ≡ id = ground (arith, text_eq_iff k id) in
            let first : candidates records s ((k, x) ∷ rest) ≡ c ∷ more = ground (arith, named) in
            subst (IsIn c) (sym first) here
        | inr other ↦
            let m = IsIn-candidates rest id c keyed.1 (ground (arith, other)) free in
            elim (Bool-cases (is_protected records s x.id)) [
              | inl kept ↦
                  let same : candidates records s ((k, x) ∷ rest) ≡ more = ground (arith, kept) in
                  subst (IsIn c) (sym same) m
              | inr free_too ↦
                  let first : candidates records s ((k, x) ∷ rest) ≡ x ∷ more =
                    ground (arith, free_too) in
                  subst (IsIn c) (sym first) (there m)
            ]
      ]

  candidates-known :
      (operations : Dict Text Operation)
      → AreKeyedById operations
      → IsDistinct operations
      → All (λ (c : Operation). lookup c.id operations ≡ some c) (candidates records s operations)
  unfolding candidates lookup
  candidates-known [] keyed distinct = tt
  candidates-known ((k, x) ∷ rest) keyed distinct =
      let more = candidates records s rest in
      let later = known_later k x rest more distinct.0 (candidates-known rest keyed.1 distinct.1) in
      elim (is_protected records s x.id)
        as (λ b.
          All (λ (c : Operation). lookup c.id ((k, x) ∷ rest) ≡ some c)
            (if b then more else x ∷ more)) [
              | true ↦ later
              | false ↦ (ground (arith, text_eq_iff k x.id), later)
            ]

  -- An operation with an idempotency record, or of a running session, is never pruned.
  pub prune_keeps_protected :
      (id : Text)
      → is_protected records s id ≡ true
      → lookup id (prune_operations records s).operations ≡ lookup id s.operations
  unfolding prune_operations
  prune_keeps_protected id held =
      let others =
        differ id (candidates records s s.operations) held (candidates-unprotected s.operations) in
      let sorted =
        All-sort_by_age (λ (c : Operation). text_eq c.id id ≡ false)
          (candidates records s s.operations) others in
      ground (
        arith,
        drop_oldest-other (sort_by_age (candidates records s s.operations)) s.operations id sorted,
      )

  -- When more than 128 operations are left, all that are left are protected: the bound is exceeded
  -- only by operations that may not be pruned.
  pub prune_bounds :
      (id : Text) (a : Operation)
      → AreKeyedById s.operations
      → max_retained_operations < length (prune_operations records s).operations
      → lookup id (prune_operations records s).operations ≡ some a
      → is_protected records s id ≡ true
  unfolding prune_operations
  prune_bounds id a keyed over kept =
      let all = candidates records s s.operations in
      let sorted = sort_by_age all in
      let after = drop_oldest sorted s.operations in
      let over_limit : max_retained_operations < length after = ground arith in
      let left : lookup id after ≡ some a = ground arith in
      let before = drop_oldest-keeps sorted s.operations id a left in
      elim (Bool-cases (is_protected records s id)) [
        | inl held ↦ held
        | inr free ↦
            let m = IsIn-sort_by_age a all (IsIn-candidates s.operations id a keyed before free) in
            let named = keyed_id s.operations id a keyed before in
            cc (drop_oldest_over_limit sorted s.operations a over_limit m, named, left)
      ]

  -- An operation is pruned only if no unprotected operation that is kept was updated before it.
  prune_oldest_first :
      (id other : Text) (a b : Operation)
      → AreKeyedById s.operations
      → IsDistinct s.operations
      → lookup id s.operations ≡ some a
      → lookup id (prune_operations records s).operations ≡ none
      → lookup other (prune_operations records s).operations ≡ some b
      → is_protected records s other ≡ false
      → a.updated_at ≤ b.updated_at
  unfolding prune_operations
  prune_oldest_first id other a b keyed distinct known gone kept free =
      let all = candidates records s s.operations in
      let sorted = sort_by_age all in
      let after = drop_oldest sorted s.operations in
      let dropped : lookup id after ≡ none = ground arith in
      let left : lookup other after ≡ some b = ground arith in
      let before = drop_oldest-keeps sorted s.operations other b left in
      let named = keyed_id s.operations other b keyed before in
      drop_oldest_by_age sorted s.operations s.operations id a b (sort_by_age-IsByAge all)
        (All-sort_by_age (λ (c : Operation). lookup c.id s.operations ≡ some c) all
          (candidates-known s.operations keyed distinct))
        known (ground arith) dropped
        (IsIn-sort_by_age b all (IsIn-candidates s.operations other b keyed before free))
        (ground (arith, named))
