-- ===== src/Location/Forms.antt =====
-- `parseBehaviorForms` and `newBehaviorSourceMap` of internal/manager/validation_location.go: the forms of
-- a submitted behavior with their spans, and the spans of its assignments to keys. A place in the
-- text is an offset with the bytes from there on. The recursion takes fuel: `out_of_fuel` has no
-- counterpart in the code.
use kmonad_device_manager.Prelude.{
  ℕ, zero, suc, ◌+◌, ◌*◌, Bool, true, false, not, ◌||◌, Option, none, some, List, [], ◌∷◌, ◌++◌,
  Text, text, text_eq, ◌==◌, if◌then◌else◌, length,
}
use kmonad_device_manager.Location.{is_valid_utf8}
use kmonad_device_manager.Location.Diagnostics.{ByteSpan, BehaviorSourceMap}

mutual
  pub data BehaviorForm : Type 0 where
    form : (start stop : ℕ) → (atom : Text) → BehaviorForms → BehaviorForm

  pub data BehaviorForms : Type 0 where
    nil : BehaviorForms
    cons : BehaviorForm → BehaviorForms → BehaviorForms

pub data Parsed (A : Type 0) : Type 0 where
  parsed : A → (offset : ℕ) → (rest : Text) → Parsed A
  failed out_of_fuel : Parsed A

abbrev pub bind : {A B : Type 0} → Parsed A → (A → ℕ → Text → Parsed B) → Parsed B
bind (parsed a offset rest) k = k a offset rest
bind failed k = failed
bind out_of_fuel k = out_of_fuel

abbrev pub is_behavior_space : ℕ → Bool
is_behavior_space c = c == b' ' || (c == b'\t' || (c == b'\r' || c == b'\n'))

abbrev pub is_behavior_delimiter : ℕ → Bool
is_behavior_delimiter c = c == b'(' || (c == b')' || (c == b';' || is_behavior_space c))

-- The flag says that a comment is being skipped.
unfoldable pub skip_behavior_space : Bool → ℕ → Text → ℕ × Text
skip_behavior_space comment offset [] = (offset, [])
skip_behavior_space true offset (c ∷ cs) = skip_behavior_space (not (c == b'\n')) (offset + 1) cs
skip_behavior_space false offset (c ∷ cs) =
    let more = skip_behavior_space (c == b';') (offset + 1) cs in
    if is_behavior_space c || c == b';' then more else (offset, c ∷ cs)

-- Behind the quote that closes a string; the flag says that a backslash came before.
unfoldable pub skip_string : Bool → ℕ → Text → Option (ℕ × Text)
skip_string escaped offset [] = none
skip_string true offset (c ∷ cs) = skip_string false (offset + 1) cs
skip_string false offset (c ∷ cs) =
    let more = skip_string (c == b'\\') (offset + 1) cs in
    if c == b'"' then some (offset + 1, cs) else more

-- The bytes up to a delimiter.
unfoldable pub skip_atom : ℕ → Text → Text × ℕ × Text
skip_atom offset [] = ([], offset, [])
skip_atom offset (c ∷ cs) =
    let (atom, behind, rest) = skip_atom (offset + 1) cs in
    if is_behavior_delimiter c then ([], offset, c ∷ cs) else (c ∷ atom, behind, rest)

abbrev pub string_form : ℕ → Option (ℕ × Text) → Parsed BehaviorForm
string_form start none = failed
string_form start (some (behind, rest)) = parsed (form start behind [] nil) behind rest

abbrev pub atom_form : ℕ → ℕ → Text → Parsed BehaviorForm
atom_form start c cs =
    let (atom, behind, rest) = skip_atom (start + 1) cs in
    if is_behavior_delimiter c
    then failed
    else parsed (form start behind (c ∷ atom) nil) behind rest

abbrev pub list_form : ℕ → Parsed BehaviorForms → Parsed BehaviorForm
list_form start r = bind r λ (children : BehaviorForms) (behind : ℕ) (rest : Text).
    parsed (form start behind [] children) behind rest

abbrev pub prepend : BehaviorForm → Parsed BehaviorForms → Parsed BehaviorForms
prepend x r =
    bind r λ (xs : BehaviorForms) (behind : ℕ) (rest : Text). parsed (cons x xs) behind rest

unfoldable mutual
  pub parse_behavior_form : ℕ → ℕ → Text → Parsed BehaviorForm
  parse_behavior_form zero offset rest = out_of_fuel
  parse_behavior_form (suc f) offset [] = failed
  parse_behavior_form (suc f) offset (c ∷ cs) =
      let children = list_form offset (parse_children f (offset + 1) cs) in
      if c == b'('
      then children
      else if c == b')'
      then failed
      else if c == b'"'
      then string_form offset (skip_string false (offset + 1) cs)
      else atom_form offset c cs

  -- The loop over the children, and the parenthesis that closes the form.
  pub parse_children : ℕ → ℕ → Text → Parsed BehaviorForms
  parse_children zero offset rest = out_of_fuel
  parse_children (suc f) offset rest =
      let place = skip_behavior_space false offset rest in parse_child f place.0 place.1

  pub parse_child : ℕ → ℕ → Text → Parsed BehaviorForms
  parse_child zero offset rest = out_of_fuel
  parse_child (suc f) offset [] = failed
  parse_child (suc f) offset (c ∷ cs) =
      let more =
        bind (parse_behavior_form f offset (c ∷ cs))
          λ (x : BehaviorForm) (behind : ℕ) (rest : Text).
            prepend x (parse_children f behind rest) in
      if c == b')' then parsed nil (offset + 1) cs else more

-- The loop of `parseBehaviorForms`.
unfoldable mutual
  pub parse_forms : ℕ → ℕ → Text → Parsed BehaviorForms
  parse_forms zero offset rest = out_of_fuel
  parse_forms (suc f) offset rest =
      let place = skip_behavior_space false offset rest in parse_next f place.0 place.1

  pub parse_next : ℕ → ℕ → Text → Parsed BehaviorForms
  parse_next zero offset rest = out_of_fuel
  parse_next (suc f) offset [] = parsed nil offset []
  parse_next (suc f) offset (c ∷ cs) =
      bind (parse_behavior_form f offset (c ∷ cs))
        λ (x : BehaviorForm) (behind : ℕ) (rest : Text). prepend x (parse_forms f behind rest)

-- Three units for each byte are enough.
abbrev pub enough : Text → ℕ
enough behavior = 3 * length behavior + 3

unfoldable pub parse_behavior_forms : Text → Parsed BehaviorForms
parse_behavior_forms behavior = parse_forms (enough behavior) 0 behavior

-- The spans of the forms.
abbrev pub spans : BehaviorForms → List ByteSpan
spans nil = []
spans (cons (form start stop atom children) xs) = (record { start = start; stop = stop }) ∷ spans xs

-- The children of a `deflayer` behind its name.
abbrev pub layer_spans : BehaviorForms → List ByteSpan
layer_spans (cons (form _ _ word _) (cons name (cons x xs))) =
    if text_eq word (text "deflayer") then spans (cons x xs) else []
layer_spans _ = []

abbrev pub assignment_spans : BehaviorForms → List ByteSpan
assignment_spans nil = []
assignment_spans (cons (form start stop atom children) xs) =
    let rest = assignment_spans xs in if text_eq atom [] then layer_spans children ++ rest else rest

abbrev pub no_source_map : BehaviorSourceMap
no_source_map = record { behavior = []; candidate_start = 0; assignments = [] }

-- `none` stands for the end of fuel.
abbrev pub source_map_of : Text → ℕ → Parsed BehaviorForms → Option BehaviorSourceMap
source_map_of behavior candidate_start (parsed xs offset rest) = some (record {
  behavior = behavior;
  candidate_start = candidate_start;
  assignments = assignment_spans xs;
})
source_map_of behavior candidate_start failed = some no_source_map
source_map_of behavior candidate_start out_of_fuel = none

unfoldable pub new_behavior_source_map : Text → ℕ → Option BehaviorSourceMap
new_behavior_source_map behavior candidate_start =
    if not (is_valid_utf8 behavior)
    then some no_source_map
    else source_map_of behavior candidate_start (parse_behavior_forms behavior)
