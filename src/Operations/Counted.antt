-- ===== src/Operations/Counted.antt =====
-- The keys that `input.scan` of internal/manager/inputscan.go reports, and the codes that it counts.
use kmonad_device_manager.Prelude.{
  ℕ, ◌+◌, ◌≡◌, refl, none, some, List, [], ◌∷◌, Text, text_eq, text_eq_iff, Text-eq, nat_eq, ◌==◌,
  if◌then◌else◌, length, arith, Option-cases, inl, inr,
}
use kmonad_device_manager.Prelude.Dict.{lookup}
use kmonad_device_manager.Operations.Vocabulary.{kmonad_v1_tokens}
use kmonad_device_manager.Operations.Scan.{
  is_token_in, is_code_in, new_keys, insert_key, sort_keys, kmonad_v1_keys_for, count_unmapped,
}
use kmonad_device_manager.Operations.Ascending.{
  IsAscending, is_reported, kmonad_v1_keys_for-IsAscending,
}
use kmonad_device_manager.Operations.Inverse.{kmonad_v1_token_code_iff}

-- The codes without the ones that came before.
abbrev pub new_codes : List ℕ → List ℕ → List ℕ
new_codes seen [] = []
new_codes seen (code ∷ codes) =
    let more = new_codes (code ∷ seen) codes in
    let rest = new_codes seen codes in if is_code_in code seen then rest else code ∷ more

-- The tokens seen are those of the codes seen.
abbrev AreTokensOf : List Text → List ℕ → Type 0
AreTokensOf tokens codes =
    (code : ℕ) (t : Text)
    → lookup code kmonad_v1_tokens ≡ some t
    → is_token_in t tokens ≡ is_code_in code codes

one_code :
    (a b : ℕ) (s t : Text)
    → lookup a kmonad_v1_tokens ≡ some s
    → lookup b kmonad_v1_tokens ≡ some t
    → text_eq s t ≡ (a == b)
one_code a b s t p q =
    let known = (kmonad_v1_token_code_iff a s).0 p in
    let other = (kmonad_v1_token_code_iff b t).0 q in ground (arith, known, other, text_eq_iff s t)

seen_token-AreTokensOf :
    (tokens : List Text) (codes : List ℕ) (code : ℕ) (token : Text)
    → lookup code kmonad_v1_tokens ≡ some token
    → AreTokensOf tokens codes
    → AreTokensOf (token ∷ tokens) (code ∷ codes)
seen_token-AreTokensOf tokens codes code token known same b t other =
    rw (one_code code b token t known other, same b t other) refl

seen_unmapped-AreTokensOf :
    (tokens : List Text) (codes : List ℕ) (code : ℕ)
    → lookup code kmonad_v1_tokens ≡ none
    → AreTokensOf tokens codes
    → AreTokensOf tokens (code ∷ codes)
seen_unmapped-AreTokensOf tokens codes code unknown same b t other = ground (arith, same b t other)

length-new_keys :
    (tokens : List Text) (seen codes : List ℕ)
    → AreTokensOf tokens seen
    → length (new_keys tokens codes) + count_unmapped seen codes ≡ length (new_codes seen codes)
unfolding new_keys count_unmapped
length-new_keys tokens seen [] same = refl
length-new_keys tokens seen (code ∷ codes) same =
    elim (Option-cases (lookup code kmonad_v1_tokens)) [
      | inl unknown ↦ ground (
        arith,
        unknown,
        length-new_keys tokens seen codes same,
        length-new_keys tokens (code ∷ seen) codes
            (seen_unmapped-AreTokensOf tokens seen code unknown same),
      )
      | inr (token, known) ↦ ground (
        arith,
        known,
        same code token known,
        length-new_keys tokens seen codes same,
        length-new_keys (token ∷ tokens) (code ∷ seen) codes
            (seen_token-AreTokensOf tokens seen code token known same),
      )
    ]

length-insert_key : (t : Text) (xs : List Text) → length (insert_key t xs) ≡ length xs + 1
unfolding insert_key
length-insert_key t [] = refl
length-insert_key t (x ∷ xs) = ground (arith, length-insert_key t xs)

length-sort_keys : (xs : List Text) → length (sort_keys xs) ≡ length xs
unfolding sort_keys
length-sort_keys [] = refl
length-sort_keys (x ∷ xs) = omega (arith, length-sort_keys xs, length-insert_key x (sort_keys xs))

scan_counts_every_code :
    (codes : List ℕ)
    → length (kmonad_v1_keys_for codes) + count_unmapped [] codes ≡ length (new_codes [] codes)
unfolding kmonad_v1_keys_for
scan_counts_every_code codes = omega (
  arith,
  length-sort_keys (new_keys [] codes),
  length-new_keys [] [] codes
      (λ (code : ℕ) (t : Text) (known : lookup code kmonad_v1_tokens ≡ some t). refl),
)

-- A scan reports strictly ascending keys, so none is repeated; they are exactly the tokens of the
-- codes that the device reports; and every code is accounted for: the codes, each taken once, are as
-- many as the keys and the unmapped codes together.
pub scan_is_exact :
    (codes : List ℕ)
    → IsAscending (kmonad_v1_keys_for codes)
      × ((t : Text) → is_token_in t (kmonad_v1_keys_for codes) ≡ is_reported t codes)
      × (length (kmonad_v1_keys_for codes) + count_unmapped [] codes ≡ length (new_codes [] codes))
scan_is_exact codes =
    let keys = kmonad_v1_keys_for-IsAscending codes in
    (keys.0, keys.1, scan_counts_every_code codes)
