-- ===== src/Prelude/Dict.antt =====
-- A Go map as an association list. `insert` replaces the entry of a known key and puts a new key
-- last; the order in which Go ranges over a map is unspecified, and no theorem rests on it.
use Prim.Native.Nat.{◌+◌, ◌≤◌}
use mathlib.Core.Path.{◌≡◌, refl}
use mathlib.Core.Bool.{true}
use mathlib.Core.Option.{Option, none, some}
use mathlib.Core.List.{List, [], ◌∷◌, ◌++◌}
use native.Mathlib.Omega.{arith}
use kmonad_device_manager.Prelude.Tests.{if◌then◌else◌, is_some}
use kmonad_device_manager.Prelude.Lists.{length}
use kmonad_device_manager.Prelude.Equality.{Eq}

abbrev pub Dict {ℓ κ} : Type ℓ → Type κ → Type (ℓ ⊔ κ)
Dict K V = List (K × V)

module _ {ℓ κ} {K : Type ℓ} {V : Type κ} ⦃e : Eq K⦄ where
  unfoldable pub lookup : K → Dict K V → Option V
  lookup k [] = none
  lookup k ((j, v) ∷ m) = if e.beq j k then some v else lookup k m

  unfoldable pub insert : K → V → Dict K V → Dict K V
  insert k v [] = (k, v) ∷ []
  insert k v ((j, w) ∷ m) = if e.beq j k then (k, v) ∷ m else (j, w) ∷ insert k v m

  unfoldable pub delete : K → Dict K V → Dict K V
  delete k [] = []
  delete k ((j, w) ∷ m) = let rest = delete k m in if e.beq j k then rest else (j, w) ∷ rest

  pub lookup-insert :
      (k j : K) (v : V) (m : Dict K V)
      → lookup j (insert k v m) ≡ (if e.beq k j then some v else lookup j m)
  unfolding lookup insert
  lookup-insert k j v [] = refl
  lookup-insert k j v ((i, w) ∷ m) =
      ground (arith, e.beq_iff k j, e.beq_iff i k, e.beq_iff i j, lookup-insert k j v m)

  pub lookup-delete :
      (k j : K) (m : Dict K V) → lookup j (delete k m) ≡ (if e.beq k j then none else lookup j m)
  unfolding lookup delete
  lookup-delete k j [] = ground arith
  lookup-delete k j ((i, w) ∷ m) =
      ground (arith, e.beq_iff k j, e.beq_iff i k, e.beq_iff i j, lookup-delete k j m)

  pub length-insert_le : (k : K) (v : V) (m : Dict K V) → length (insert k v m) ≤ length m + 1
  unfolding insert
  length-insert_le k v [] = omega arith
  length-insert_le k v ((j, w) ∷ m) = ground (arith, length-insert_le k v m)

  pub length-insert_known :
      (k : K) (v : V) (m : Dict K V)
      → is_some (lookup k m) ≡ true
      → length (insert k v m) ≡ length m
  unfolding insert lookup
  length-insert_known k v [] h = cc
  length-insert_known k v ((j, w) ∷ m) h = ground (arith, length-insert_known k v m)

  pub length-delete_le : (k : K) (m : Dict K V) → length (delete k m) ≤ length m
  unfolding delete
  length-delete_le k [] = omega arith
  length-delete_le k ((j, w) ∷ m) = ground (arith, length-delete_le k m)

  pub length-delete_known :
      (k : K) (m : Dict K V) → is_some (lookup k m) ≡ true → length (delete k m) + 1 ≤ length m
  unfolding delete lookup
  length-delete_known k [] h = cc
  length-delete_known k ((j, w) ∷ m) h =
      ground (arith, length-delete_known k m, length-delete_le k m)

  -- No key has two entries, as in a Go map.
  abbrev pub IsDistinct : Dict K V → Type κ
  IsDistinct [] = Unit
  IsDistinct ((k, v) ∷ m) = (lookup k m ≡ none) × IsDistinct m

  pub insert-IsDistinct : (k : K) (v : V) (m : Dict K V) → IsDistinct m → IsDistinct (insert k v m)
  unfolding insert lookup
  insert-IsDistinct k v [] d = (refl, tt)
  insert-IsDistinct k v ((j, w) ∷ m) d =
      ground
        (arith, insert-IsDistinct k v m d.1, lookup-insert k j v m, e.beq_iff j k, e.beq_iff k j)

  pub delete-IsDistinct : (k : K) (m : Dict K V) → IsDistinct m → IsDistinct (delete k m)
  unfolding delete
  delete-IsDistinct k [] d = tt
  delete-IsDistinct k ((j, w) ∷ m) d =
      ground (arith, delete-IsDistinct k m d.1, lookup-delete k j m)

  pub lookup-append :
      (k : K) (m n : Dict K V)
      → lookup k (m ++ n) ≡ (if is_some (lookup k m) then lookup k m else lookup k n)
  unfolding lookup
  lookup-append k [] n = refl
  lookup-append k ((j, v) ∷ m) n = ground (arith, lookup-append k m n)
