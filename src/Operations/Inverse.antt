-- ===== src/Operations/Inverse.antt =====
-- The vocabulary of internal/manager/inputscan.go and its inverse.
use kmonad_device_manager.Prelude.{
  ℕ, ◌≡◌, ◌↔◌, refl, Bool, true, false, not, ◌||◌, ◌&&◌, some, [], ◌∷◌, Text, text_eq, text_eq_iff,
  Text-eq, nat_eq, is_some, arith,
}
use kmonad_device_manager.Prelude.Dict.{Dict, lookup, lookup-insert}
use kmonad_device_manager.Operations.Vocabulary.{kmonad_v1_tokens}
use kmonad_device_manager.Operations.Scan.{reverse_tokens, kmonad_v1_token_code}

abbrev is_named : Text → Dict ℕ Text → Bool
is_named t [] = false
is_named t ((code, token) ∷ rest) = text_eq token t || is_named t rest

-- No code and no token occurs twice.
abbrev is_one_to_one : Dict ℕ Text → Bool
is_one_to_one [] = true
is_one_to_one ((code, token) ∷ rest) =
    not (is_some (lookup code rest)) && (not (is_named token rest) && is_one_to_one rest)

lookup-is_named :
    (code : ℕ) (t : Text) (m : Dict ℕ Text) → lookup code m ≡ some t → is_named t m ≡ true
unfolding lookup
lookup-is_named code t [] e = cc
lookup-is_named code t ((c, token) ∷ rest) e =
    ground (arith, lookup-is_named code t rest, text_eq_iff token t)

lookup-reverse_tokens :
    (code : ℕ) (t : Text) (m : Dict ℕ Text)
    → is_one_to_one m ≡ true
    → lookup code m ≡ some t
    → lookup t (reverse_tokens m) ≡ some code
unfolding lookup reverse_tokens
lookup-reverse_tokens code t [] unique e = cc
lookup-reverse_tokens code t ((c, token) ∷ rest) unique e = ground (
  arith,
  lookup-insert token t c (reverse_tokens rest),
  lookup-is_named code t rest,
  lookup-reverse_tokens code t rest,
  text_eq_iff token t,
)

reverse_tokens-lookup :
    (code : ℕ) (t : Text) (m : Dict ℕ Text)
    → is_one_to_one m ≡ true
    → lookup t (reverse_tokens m) ≡ some code
    → lookup code m ≡ some t
unfolding lookup reverse_tokens
reverse_tokens-lookup code t [] unique e = cc
reverse_tokens-lookup code t ((c, token) ∷ rest) unique e = ground (
  arith,
  lookup-insert token t c (reverse_tokens rest),
  reverse_tokens-lookup code t rest,
  text_eq_iff token t,
)

kmonad_v1_tokens-is_one_to_one : is_one_to_one kmonad_v1_tokens ≡ true
unfolding kmonad_v1_tokens lookup
kmonad_v1_tokens-is_one_to_one = refl

-- A token of the vocabulary resolves to the code that it stands for, and to no other: a key code has
-- a token exactly when that token resolves to it.
pub kmonad_v1_token_code_iff :
    (code : ℕ) (token : Text)
    → (lookup code kmonad_v1_tokens ≡ some token) ↔ (kmonad_v1_token_code token ≡ some code)
unfolding kmonad_v1_token_code
kmonad_v1_token_code_iff code token = (
  lookup-reverse_tokens code token kmonad_v1_tokens kmonad_v1_tokens-is_one_to_one,
  reverse_tokens-lookup code token kmonad_v1_tokens kmonad_v1_tokens-is_one_to_one,
)
