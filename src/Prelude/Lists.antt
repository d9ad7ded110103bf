-- ===== src/Prelude/Lists.antt =====
-- Lists with native lengths.
use Prim.Native.Nat.{ℕ, zero, suc, ◌+◌, ◌-◌, ◌≤◌, ◌<◌}
use mathlib.Core.Path.{◌≡◌, refl, sym, ap, ◌∙◌}
use mathlib.Core.Bool.{Bool, true, false}
use mathlib.Core.Option.{Option, none, some}
use mathlib.Core.List.{List, [], ◌∷◌, ◌++◌}
use native.Mathlib.Omega.{arith}
use kmonad_device_manager.Prelude.Tests.{if◌then◌else◌}

module _ {ℓ} {A : Type ℓ} where
  abbrev pub length : List A → ℕ
  length [] = 0
  length (x ∷ xs) = suc (length xs)

  abbrev pub get_elem? : List A → ℕ → Option A
  get_elem? [] i = none
  get_elem? (x ∷ xs) zero = some x
  get_elem? (x ∷ xs) (suc i) = get_elem? xs i

  -- A write out of bounds changes nothing.
  abbrev pub set : List A → ℕ → A → List A
  set [] i v = []
  set (x ∷ xs) zero v = v ∷ xs
  set (x ∷ xs) (suc i) v = x ∷ set xs i v

  abbrev pub drop : ℕ → List A → List A
  drop zero xs = xs
  drop (suc n) [] = []
  drop (suc n) (x ∷ xs) = drop n xs

  abbrev pub take : ℕ → List A → List A
  take zero xs = []
  take (suc n) [] = []
  take (suc n) (x ∷ xs) = x ∷ take n xs

  -- The last `n` elements, or all of a shorter list.
  abbrev pub take_last : ℕ → List A → List A
  take_last n xs = drop (length xs - n) xs

  abbrev pub keep : (A → Bool) → List A → List A
  keep p [] = []
  keep p (x ∷ xs) = let rest = keep p xs in if p x then x ∷ rest else rest

  abbrev pub all : (A → Bool) → List A → Bool
  all p [] = true
  all p (x ∷ xs) = if p x then all p xs else false

  pub all-cons :
      (p : A → Bool) (x : A) (xs : List A)
      → all p (x ∷ xs) ≡ true
      → (p x ≡ true) × (all p xs ≡ true)
  all-cons p x xs h = ground arith

  pub length-append : (xs ys : List A) → length (xs ++ ys) ≡ length xs + length ys
  length-append [] ys = omega arith
  length-append (x ∷ xs) ys = omega (arith, length-append xs ys)

  pub length-set : (xs : List A) (i : ℕ) (v : A) → length (set xs i v) ≡ length xs
  length-set [] i v = refl
  length-set (x ∷ xs) zero v = refl
  length-set (x ∷ xs) (suc i) v = ap suc (length-set xs i v)

  pub length-drop : (n : ℕ) (xs : List A) → length (drop n xs) ≡ length xs - n
  length-drop zero xs = omega arith
  length-drop (suc n) [] = omega arith
  length-drop (suc n) (x ∷ xs) = omega (arith, length-drop n xs)

  pub drop-append : (n : ℕ) (xs ys : List A) → n ≤ length xs → drop n (xs ++ ys) ≡ drop n xs ++ ys
  drop-append zero xs ys h = refl
  drop-append (suc n) [] ys h = absurd (omega arith)
  drop-append (suc n) (x ∷ xs) ys h = drop-append n xs ys (omega arith)

  pub drop_all : (n : ℕ) (xs : List A) → length xs ≤ n → drop n xs ≡ []
  drop_all zero [] h = refl
  drop_all zero (x ∷ xs) h = absurd (omega arith)
  drop_all (suc n) [] h = refl
  drop_all (suc n) (x ∷ xs) h = drop_all n xs (omega arith)

  pub drop_one-drop : (n : ℕ) (xs : List A) → drop 1 (drop n xs) ≡ drop (suc n) xs
  drop_one-drop zero xs = refl
  drop_one-drop (suc n) [] = refl
  drop_one-drop (suc n) (x ∷ xs) = drop_one-drop n xs

  pub drop-drop : (m n : ℕ) (xs : List A) → drop m (drop n xs) ≡ drop (n + m) xs
  drop-drop m zero xs = ap (λ k. drop k xs) (omega arith)
  drop-drop zero (suc n) [] = sym (drop_all (suc n + 0) [] (omega arith))
  drop-drop (suc m) (suc n) [] = sym (drop_all (suc n + suc m) [] (omega arith))
  drop-drop m (suc n) (x ∷ xs) =
      drop-drop m n xs
      ∙ ap (λ k. drop k (x ∷ xs)) (let e : suc (n + m) ≡ suc n + m = omega arith in e)

  pub take_last_short : (n : ℕ) (xs : List A) → length xs ≤ n → take_last n xs ≡ xs
  take_last_short n xs h = let e : length xs - n ≡ 0 = omega arith in rw e

  pub length-take_last : (n : ℕ) (xs : List A) → n ≤ length xs → length (take_last n xs) ≡ n
  length-take_last n xs h = omega (arith, length-drop (length xs - n) xs)

  -- A full window moves by one element.
  pub take_last-append_full :
      (n : ℕ) (xs : List A) (x : A)
      → 0 < n
      → n ≤ length xs
      → take_last n (xs ++ (x ∷ [])) ≡ drop 1 (take_last n xs) ++ (x ∷ [])
  take_last-append_full n xs x p h =
      ap (λ k. drop k (xs ++ (x ∷ []))) shift
      ∙ drop-append (suc (length xs - n)) xs (x ∷ []) (omega arith)
      ∙ ap (λ ys. ys ++ (x ∷ [])) (sym (drop_one-drop (length xs - n) xs))
    where
      shift : length (xs ++ (x ∷ [])) - n ≡ suc (length xs - n)
      shift = omega (arith, length-append xs (x ∷ []))

  pub take_last-append_room :
      (n : ℕ) (xs : List A) (x : A)
      → length xs < n
      → take_last n (xs ++ (x ∷ [])) ≡ take_last n xs ++ (x ∷ [])
  take_last-append_room n xs x h =
      rw (take_last_short n xs (omega arith))
        (take_last_short n (xs ++ (x ∷ [])) (omega (arith, length-append xs (x ∷ []))))

abbrev pub All {ℓ κ} : {A : Type ℓ} → (A → Type κ) → List A → Type κ
All P [] = Unit
All P (x ∷ xs) = P x × All P xs
