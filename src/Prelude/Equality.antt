-- ===== src/Prelude/Equality.antt =====
-- Keys that a map can compare, and Go strings as lists of bytes.
use Prim.Native.Nat.{ℕ}
use Prim.Native.Char.{code}
use Prim.Native.String.{String}
use mathlib.Core.Path.{◌≡◌, refl}
use mathlib.Core.Logic.{◌↔◌}
use mathlib.Core.Bool.{Bool, true, false}
use mathlib.Core.List.{List, [], ◌∷◌}
use native.Mathlib.Omega.{arith}
use kmonad_device_manager.Prelude.Tests.{if◌then◌else◌, ◌==◌, ==_iff}

pub record Eq {ℓ} (A : Type ℓ) : Type ℓ where
  pub beq : A → A → Bool
  pub beq_iff : (a b : A) → (beq a b ≡ true) ↔ (a ≡ b)

-- A Go string is a sequence of bytes.
abbrev pub Text : Type 0
Text = List ℕ

-- The code points of a literal: its bytes, since it is ASCII.
abbrev pub text : String → Text
text String.[] = []
text (String.◌∷◌ c s) = code c ∷ text s

abbrev pub text_eq : Text → Text → Bool
text_eq [] [] = true
text_eq [] (y ∷ ys) = false
text_eq (x ∷ xs) [] = false
text_eq (x ∷ xs) (y ∷ ys) = if x == y then text_eq xs ys else false

text_eq_sound : (a b : Text) → text_eq a b ≡ true → a ≡ b
text_eq_sound [] [] h = refl
text_eq_sound [] (y ∷ ys) h = cc
text_eq_sound (x ∷ xs) [] h = cc
text_eq_sound (x ∷ xs) (y ∷ ys) h = ground (arith, text_eq_sound xs ys)

text_eq_refl : (a : Text) → text_eq a a ≡ true
text_eq_refl [] = refl
text_eq_refl (x ∷ xs) = rw ((==_iff x x).1 refl) (text_eq_refl xs)

pub text_eq_iff : (a b : Text) → (text_eq a b ≡ true) ↔ (a ≡ b)
text_eq_iff a b = (text_eq_sound a b, λ p. rw (← p) (text_eq_refl a))

pub beq_refl {ℓ} : {K : Type ℓ} ⦃e : Eq K⦄ (k : K) → e.beq k k ≡ true
beq_refl ⦃e⦄ k = (e.beq_iff k k).1 refl

instance abbrev pub nat_eq : Eq ℕ
nat_eq = record { beq = ◌==◌; beq_iff = ==_iff }

instance abbrev pub Text-eq : Eq Text
Text-eq = record { beq = text_eq; beq_iff = text_eq_iff }
