-- ===== src/Operations/Scan.antt =====
-- `input.scan` of internal/manager/inputscan.go: the inverse of the vocabulary, the keys of a device,
-- and the generation of its node. `hash` is the digest of `inputScanDigest`. A map that serves as a
-- set is the list of what was put in.
use kmonad_device_manager.Prelude.{
  ℕ, ◌+◌, ◌^◌, ◌%◌, Bool, false, not, ◌||◌, Option, none, some, List, [], ◌∷◌, ◌++◌, Text, text,
  Text-eq, nat_eq, text_eq, ◌==◌, if◌then◌else◌, is_some,
}
use kmonad_device_manager.Prelude.Dict.{Dict, lookup, insert}
use kmonad_device_manager.Service.{
  CommandResult, failed_with, succeeded_with, command_deadline_result,
}
use kmonad_device_manager.Idempotency.Journal.{text_lt}
use kmonad_device_manager.Operations.Target.{Discovery, target_of, no_target, input_device_target}
use kmonad_device_manager.Operations.Identify.{with_error}
use kmonad_device_manager.Operations.Vocabulary.{kmonad_v1_tokens}

-- The order in which Go ranges over a map is unspecified; here a token that has two codes gets
-- the first.
unfoldable pub reverse_tokens : Dict ℕ Text → Dict Text ℕ
reverse_tokens [] = []
reverse_tokens ((code, token) ∷ rest) = insert token code (reverse_tokens rest)

unfoldable pub kmonad_v1_token_code : Text → Option ℕ
kmonad_v1_token_code token = lookup token (reverse_tokens kmonad_v1_tokens)

abbrev pub is_token_in : Text → List Text → Bool
is_token_in t [] = false
is_token_in t (x ∷ xs) = text_eq x t || is_token_in t xs

abbrev pub is_code_in : ℕ → List ℕ → Bool
is_code_in c [] = false
is_code_in c (x ∷ xs) = x == c || is_code_in c xs

-- The loop of `kmonadV1KeysFor`; the tokens that were seen are given.
unfoldable pub new_keys : List Text → List ℕ → List Text
new_keys seen [] = []
new_keys seen (code ∷ codes) = elim (lookup code kmonad_v1_tokens) [
  | none ↦ new_keys seen codes
  | some token ↦
      if is_token_in token seen then new_keys seen codes else token ∷ new_keys (token ∷ seen) codes
]

-- `sort.Strings`
unfoldable pub insert_key : Text → List Text → List Text
insert_key t [] = t ∷ []
insert_key t (x ∷ xs) = if text_lt x t then x ∷ insert_key t xs else t ∷ x ∷ xs

unfoldable pub sort_keys : List Text → List Text
sort_keys [] = []
sort_keys (t ∷ ts) = insert_key t (sort_keys ts)

unfoldable pub kmonad_v1_keys_for : List ℕ → List Text
kmonad_v1_keys_for codes = sort_keys (new_keys [] codes)

-- The loop of `inputScan` that counts; the codes that were seen are given.
unfoldable pub count_unmapped : List ℕ → List ℕ → ℕ
count_unmapped seen [] = 0
count_unmapped seen (code ∷ codes) =
    let more = count_unmapped (code ∷ seen) codes in
    let rest = count_unmapped seen codes in
    if is_code_in code seen
    then rest
    else if is_some (lookup code kmonad_v1_tokens)
    then more
    else more + 1

-- `strings.Join` with line feeds.
abbrev pub join_lines : List Text → Text
join_lines [] = []
join_lines (x ∷ []) = x
join_lines (x ∷ y ∷ ys) = x ++ (b'\n' ∷ join_lines (y ∷ ys))

unfoldable pub input_scan_digest : (Text → Text) → List Text → Text
input_scan_digest hash keys = text "sha256:" ++ hash (text "kmonad-v1" ++ (0 ∷ join_lines keys))

-- The maps `inputScanBasis` and `inputScanGeneration`.
pub record Generations : Type 0 where
  pub basis : Dict Text Text
  pub generation : Dict Text ℕ

abbrev pub generation_of : Option ℕ → ℕ
generation_of none = 0
generation_of (some n) = n

abbrev pub is_changed : Option Text → Text → Bool
is_changed none platform_id = false
is_changed (some basis) platform_id = not (text_eq basis platform_id)

-- The counter is an int64 as a bit pattern.
abbrev pub next_generation : ℕ → Option Text → Text → ℕ
next_generation generation basis platform_id =
    if generation == 0
    then 1
    else if is_changed basis platform_id
    then (generation + 1) % 2 ^ 64
    else generation

unfoldable pub track_input_scan_generation : Text → Text → Generations → ℕ × Generations
track_input_scan_generation device_id platform_id g =
    let generation =
      next_generation (generation_of (lookup device_id g.generation)) (lookup device_id g.basis)
        platform_id in
    (
      generation,
      record {
        basis = insert device_id platform_id g.basis;
        generation = insert device_id generation g.generation;
      },
    )

pub record InputScan : Type 0 where
  pub device_id : Text
  pub token_namespace : Text
  pub keys : List Text
  pub unmapped_count : ℕ
  pub generation : ℕ
  pub digest : Text
  pub observed_at : ℕ

-- What the context, the registry and the host say; `capabilities` of a node is `none` when they
-- cannot be read.
pub record ScanInputs : Type 0 where
  pub is_expired : Bool
  pub discovery : Discovery
  pub capabilities : Text → Option (List ℕ)
  pub now : ℕ

abbrev pub scan_codes :
    (Text → Text)
    → ScanInputs
    → Text
    → Text
    → List ℕ
    → Generations
    → CommandResult InputScan × Generations
scan_codes hash inputs device_id platform_id codes g =
    let keys = kmonad_v1_keys_for codes in
    let (generation, after) = track_input_scan_generation device_id platform_id g in
    (
      succeeded_with (record {
        device_id = device_id;
        token_namespace = text "kmonad-v1";
        keys = keys;
        unmapped_count = count_unmapped [] codes;
        generation = generation;
        digest = input_scan_digest hash keys;
        observed_at = inputs.now;
      }),
      after,
    )

unfoldable pub input_scan :
    (Text → Text) → ScanInputs → Text → Generations → CommandResult InputScan × Generations
input_scan hash inputs device_id g =
    if inputs.is_expired
    then (command_deadline_result, g)
    else elim (input_device_target inputs.discovery device_id) [
      | no_target e ↦ (with_error e, g)
      | target_of target platform_id ↦ elim (inputs.capabilities target.node_path) [
        | none ↦ (
          failed_with (text "temporary_unavailable")
              (text "device input capabilities are unavailable"),
          g,
        )
        | some codes ↦ scan_codes hash inputs device_id platform_id codes g
      ]
    ]
