-- ===== src/Operations/Ascending.antt =====
-- `kmonadV1KeysFor` of internal/manager/inputscan.go: the order of the keys, and which they are.
use kmonad_device_manager.Prelude.{
  ℕ, ◌≡◌, refl, ◌∙◌, Bool, true, false, not, ◌||◌, ◌&&◌, Option, none, some, List, [], ◌∷◌, Text,
  text_eq, text_eq_iff, Text-eq, nat_eq, arith, Option-cases, inl, inr,
}
use kmonad_device_manager.Prelude.Dict.{lookup}
use kmonad_device_manager.Idempotency.Journal.{text_lt}
use kmonad_device_manager.Operations.Vocabulary.{kmonad_v1_tokens}
use kmonad_device_manager.Operations.Scan.{
  is_token_in, new_keys, insert_key, sort_keys, kmonad_v1_keys_for,
}

abbrev pub IsAscending : List Text → Type 0
IsAscending [] = Unit {0}
IsAscending (x ∷ []) = Unit {0}
IsAscending (x ∷ y ∷ ys) = (text_lt x y ≡ true) × IsAscending (y ∷ ys)

abbrev is_token : Text → Option Text → Bool
is_token t none = false
is_token t (some token) = text_eq token t

-- Whether one of the codes has the token.
abbrev pub is_reported : Text → List ℕ → Bool
is_reported t [] = false
is_reported t (code ∷ codes) = is_token t (lookup code kmonad_v1_tokens) || is_reported t codes

abbrev are_distinct : List Text → Bool
are_distinct [] = true
are_distinct (x ∷ xs) = not (is_token_in x xs) && are_distinct xs

text_lt_total : (x t : Text) → text_lt x t ≡ false → text_eq x t ≡ false → text_lt t x ≡ true
text_lt_total [] [] e d = cc
text_lt_total [] (b ∷ bs) e d = cc
text_lt_total (a ∷ as') [] e d = refl
text_lt_total (a ∷ as') (b ∷ bs) e d = ground (arith, text_lt_total as' bs)

insert_key-IsAscending :
    (t : Text) (xs : List Text)
    → is_token_in t xs ≡ false
    → IsAscending xs
    → IsAscending (insert_key t xs)
unfolding insert_key
insert_key-IsAscending t [] new p = tt
insert_key-IsAscending t (x ∷ []) new p = ground (arith, text_lt_total x t)
insert_key-IsAscending t (x ∷ y ∷ ys) new p =
    ground (arith, text_lt_total x t, insert_key-IsAscending t (y ∷ ys))

is_token_in-insert_key :
    (s t : Text) (xs : List Text) → is_token_in s (insert_key t xs) ≡ is_token_in s (t ∷ xs)
unfolding insert_key
is_token_in-insert_key s t [] = refl
is_token_in-insert_key s t (x ∷ xs) = ground (arith, is_token_in-insert_key s t xs)

is_token_in-sort_keys :
    (s : Text) (xs : List Text) → is_token_in s (sort_keys xs) ≡ is_token_in s xs
unfolding sort_keys
is_token_in-sort_keys s [] = refl
is_token_in-sort_keys s (x ∷ xs) =
    ground (arith, is_token_in-insert_key s x (sort_keys xs), is_token_in-sort_keys s xs)

sort_keys-IsAscending : (xs : List Text) → are_distinct xs ≡ true → IsAscending (sort_keys xs)
unfolding sort_keys
sort_keys-IsAscending [] d = tt
sort_keys-IsAscending (x ∷ xs) d = ground (
  arith,
  insert_key-IsAscending x (sort_keys xs),
  is_token_in-sort_keys x xs,
  sort_keys-IsAscending xs,
)

is_token_in-new_keys :
    (t : Text) (seen : List Text) (codes : List ℕ)
    → is_token_in t (new_keys seen codes) ≡ (not (is_token_in t seen) && is_reported t codes)
unfolding new_keys
is_token_in-new_keys t seen [] = ground (arith)
is_token_in-new_keys t seen (code ∷ codes) = elim (Option-cases (lookup code kmonad_v1_tokens)) [
  | inl unknown ↦ ground (arith, unknown, is_token_in-new_keys t seen codes)
  | inr (token, known) ↦ ground (
    arith,
    known,
    is_token_in-new_keys t seen codes,
    is_token_in-new_keys t (token ∷ seen) codes,
    text_eq_iff token t,
  )
]

are_distinct-new_keys :
    (seen : List Text) (codes : List ℕ) → are_distinct (new_keys seen codes) ≡ true
unfolding new_keys
are_distinct-new_keys seen [] = refl
are_distinct-new_keys seen (code ∷ codes) = elim (Option-cases (lookup code kmonad_v1_tokens)) [
  | inl unknown ↦ ground (arith, unknown, are_distinct-new_keys seen codes)
  | inr (token, known) ↦ ground (
    arith,
    known,
    are_distinct-new_keys seen codes,
    are_distinct-new_keys (token ∷ seen) codes,
    is_token_in-new_keys token (token ∷ seen) codes,
    text_eq_iff token token,
  )
]

pub kmonad_v1_keys_for-IsAscending :
    (codes : List ℕ)
    → IsAscending (kmonad_v1_keys_for codes)
      × ((t : Text) → is_token_in t (kmonad_v1_keys_for codes) ≡ is_reported t codes)
unfolding kmonad_v1_keys_for
kmonad_v1_keys_for-IsAscending codes = (
  sort_keys-IsAscending (new_keys [] codes) (are_distinct-new_keys [] codes),
  λ (t : Text). is_token_in-sort_keys t (new_keys [] codes) ∙ is_token_in-new_keys t [] codes,
)
