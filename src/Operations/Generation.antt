-- ===== src/Operations/Generation.antt =====
-- `trackInputScanGeneration` of internal/manager/inputscan.go over a sequence of scans of several
-- devices.
use kmonad_device_manager.Prelude.{
  ℕ, ◌+◌, ◌^◌, ◌≡◌, ◌<◌, refl, none, some, List, [], ◌∷◌, Text, text_eq, text_eq_iff, Text-eq,
  if◌then◌else◌, length, arith, Bool-cases, inl, inr,
}
use kmonad_device_manager.Prelude.Dict.{lookup, lookup-insert}
use kmonad_device_manager.Operations.Scan.{
  Generations, generation_of, next_generation, track_input_scan_generation,
}

-- Scans of a device, each with the identity of its node, from the first to the last.
unfoldable pub track_all : List (Text × Text) → Generations → Generations
track_all [] g = g
track_all ((device_id, platform_id) ∷ scans) g =
    track_all scans (track_input_scan_generation device_id platform_id g).1

-- The nodes of one device.
abbrev pub nodes_of : Text → List (Text × Text) → List Text
nodes_of id [] = []
nodes_of id ((device_id, platform_id) ∷ scans) =
    let rest = nodes_of id scans in if text_eq device_id id then platform_id ∷ rest else rest

-- How often a node differs from the one before it.
abbrev pub changes_from : Text → List Text → ℕ
changes_from x [] = 0
changes_from x (y ∷ ys) = (if text_eq x y then 0 else 1) + changes_from y ys

abbrev pub generation_by : List Text → ℕ
generation_by [] = 0
generation_by (x ∷ xs) = 1 + changes_from x xs

abbrev pub no_generations : Generations
no_generations = record { basis = []; generation = [] }

abbrev generation_at : Text → Text → Generations → ℕ
generation_at id p g =
    next_generation (generation_of (lookup id g.generation)) (lookup id g.basis) p

track-basis :
    (id other p : Text) (g : Generations)
    → lookup id (track_input_scan_generation other p g).1.basis
      ≡ (if text_eq other id then some p else lookup id g.basis)
unfolding track_input_scan_generation
track-basis id other p g = lookup-insert other id p g.basis

track-generation :
    (id other p : Text) (g : Generations)
    → lookup id (track_input_scan_generation other p g).1.generation
      ≡ (if text_eq other id then some (generation_at other p g) else lookup id g.generation)
unfolding track_input_scan_generation
track-generation id other p g = lookup-insert other id (generation_at other p g) g.generation

generation_at-known :
    (id p : Text) (g : Generations) (x : Text) (n : ℕ)
    → lookup id g.basis ≡ some x
    → lookup id g.generation ≡ some n
    → 0 < n
    → n + 1 < 2 ^ 64
    → generation_at id p g ≡ n + (if text_eq x p then 0 else 1)
generation_at-known id p g x n basis generation positive small =
    ground (arith, basis, generation, positive, small)

track_all-known :
    (id : Text) (scans : List (Text × Text)) (g : Generations) (x : Text) (n : ℕ)
    → lookup id g.basis ≡ some x
    → lookup id g.generation ≡ some n
    → 0 < n
    → n + length scans < 2 ^ 64
    → lookup id (track_all scans g).generation ≡ some (n + changes_from x (nodes_of id scans))
unfolding track_all
track_all-known id [] g x n basis generation positive small = ground (arith, generation)
track_all-known id ((other, p) ∷ scans) g x n basis generation positive small =
    let after = (track_input_scan_generation other p g).1 in
    elim (Bool-cases (text_eq other id)) [
      | inl own ↦ ground (
        arith,
        own,
        text_eq_iff other id,
        basis,
        generation,
        track-basis id other p g,
        track-generation id other p g,
        generation_at-known id p g x n basis generation positive,
        track_all-known id scans after p (n + (if text_eq x p then 0 else 1)),
      )
      | inr differ ↦ ground (
        arith,
        differ,
        basis,
        generation,
        track-basis id other p g,
        track-generation id other p g,
        track_all-known id scans after x n,
      )
    ]

track_all-new :
    (id : Text) (scans : List (Text × Text)) (g : Generations)
    → lookup id g.generation ≡ none
    → length scans < 2 ^ 63
    → generation_of (lookup id (track_all scans g).generation) ≡ generation_by (nodes_of id scans)
unfolding track_all
track_all-new id [] g new small = ground (arith, new)
track_all-new id ((other, p) ∷ scans) g new small =
    let after = (track_input_scan_generation other p g).1 in
    elim (Bool-cases (text_eq other id)) [
      | inl own ↦ ground (
        arith,
        own,
        text_eq_iff other id,
        new,
        track-basis id other p g,
        track-generation id other p g,
        track_all-known id scans after p 1,
      )
      | inr differ ↦
          ground (arith, differ, new, track-generation id other p g, track_all-new id scans after)
    ]

-- Fewer than 2 ^ 63 scans give a device no generation if it was not scanned, and else one more than
-- the number of times that it was seen under another node than the time before: the scans of
-- other devices between do not matter.
pub generation_counts_changes :
    (id : Text) (scans : List (Text × Text))
    → length scans < 2 ^ 63
    → generation_of (lookup id (track_all scans no_generations).generation)
      ≡ generation_by (nodes_of id scans)
unfolding lookup
generation_counts_changes id scans small = track_all-new id scans no_generations refl small
