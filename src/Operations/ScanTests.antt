-- ===== src/Operations/ScanTests.antt =====
-- Runs of the vocabulary and of `input.scan` of internal/manager/inputscan.go at concrete inputs.
use kmonad_device_manager.Prelude.{
  ℕ, ◌+◌, ◌≡◌, ◌↔◌, refl, some, List, [], ◌∷◌, Text, text, Text-eq, nat_eq, length, arith,
}
use kmonad_device_manager.Prelude.Dict.{lookup}
use kmonad_device_manager.Operations.Vocabulary.{kmonad_v1_tokens}
use kmonad_device_manager.Operations.Scan.{
  kmonad_v1_token_code, is_token_in, new_keys, insert_key, sort_keys, kmonad_v1_keys_for,
  count_unmapped, generation_of,
}
use kmonad_device_manager.Operations.Inverse.{kmonad_v1_token_code_iff}
use kmonad_device_manager.Operations.Counted.{new_codes, scan_is_exact}
use kmonad_device_manager.Operations.Ascending.{IsAscending, is_reported}
use kmonad_device_manager.Operations.Generation.{
  track_all, nodes_of, generation_by, no_generations, generation_counts_changes,
}

kmonad_v1_token_code_iff_example :
    (lookup 28 kmonad_v1_tokens ≡ some (text "ret")) ↔ (kmonad_v1_token_code (text "ret") ≡ some 28)
kmonad_v1_token_code_iff_example = kmonad_v1_token_code_iff 28 (text "ret")

-- q, an unknown code, a and q again.
abbrev reported : List ℕ
reported = 16 ∷ 240 ∷ 30 ∷ 16 ∷ []

keys_in_order : kmonad_v1_keys_for reported ≡ text "a" ∷ text "q" ∷ []
unfolding kmonad_v1_keys_for sort_keys insert_key new_keys kmonad_v1_tokens lookup
keys_in_order = refl

scan_is_exact_example :
    IsAscending (kmonad_v1_keys_for reported)
    × ((t : Text) → is_token_in t (kmonad_v1_keys_for reported) ≡ is_reported t reported)
    × (length (kmonad_v1_keys_for reported) + count_unmapped [] reported
        ≡ length (new_codes [] reported))
scan_is_exact_example = scan_is_exact reported

-- A keyboard that is plugged in again, and another one between.
abbrev scans : List (Text × Text)
scans =
    (text "k", text "event3")
    ∷ (text "other", text "event5")
    ∷ (text "k", text "event7")
    ∷ (text "k", text "event7")
    ∷ []

generation_counts_changes_example :
    generation_of (lookup (text "k") (track_all scans no_generations).generation)
    ≡ generation_by (nodes_of (text "k") scans)
generation_counts_changes_example = generation_counts_changes (text "k") scans (omega arith)

second_generation : generation_by (nodes_of (text "k") scans) ≡ 2
second_generation = refl
