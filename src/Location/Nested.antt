-- ===== src/Location/Nested.antt =====
-- The parser of internal/manager/validation_location.go always ends, and the spans of the forms are
-- nested and in order.
use kmonad_device_manager.Prelude.{
  ℕ, zero, suc, ◌+◌, ◌*◌, ◌≡◌, ◌≤◌, ◌<◌, inl, inr, Bool, true, false, not, some, [], ◌∷◌, Text,
  ◌==◌, length, arith, Bool-cases, Option-cases,
}
use kmonad_device_manager.Location.Forms.{
  BehaviorForm, form, BehaviorForms, nil, cons, Parsed, parsed, failed, out_of_fuel, bind,
  is_behavior_delimiter, skip_behavior_space, skip_string, skip_atom, string_form, atom_form,
  list_form, prepend, parse_behavior_form, parse_children, parse_child, parse_forms, parse_next,
  enough, parse_behavior_forms,
}

-- The forms lie between the two offsets, one behind the other, no span is empty, and the children
-- of a form lie within its span.
abbrev pub AreWithin : ℕ → BehaviorForms → ℕ → Type 0
AreWithin low nil high = low ≤ high
AreWithin low (cons (form start stop atom children) xs) high =
    (low ≤ start) × (start < stop) × AreWithin start children stop × AreWithin stop xs high

-- Between two places of one text no byte is lost.
abbrev Moves : ℕ → Text → ℕ → Text → Type 0
Moves offset rest offset' rest' =
    (offset ≤ offset') × (offset' + length rest' ≡ offset + length rest)

abbrev FormPost : ℕ → Text → Parsed BehaviorForm → Type 0
FormPost offset rest (parsed (form start stop atom children) offset' rest') =
    (start ≡ offset)
    × (stop ≡ offset')
    × (offset < offset')
    × AreWithin start children stop
    × (offset' + length rest' ≡ offset + length rest)
FormPost offset rest failed = Unit {0}
FormPost offset rest out_of_fuel = ⊥

abbrev FormsPost : ℕ → Text → Parsed BehaviorForms → Type 0
FormsPost offset rest (parsed xs offset' rest') =
    AreWithin offset xs offset'
    × (offset ≤ offset')
    × (offset' + length rest' ≡ offset + length rest)
FormsPost offset rest failed = Unit {0}
FormsPost offset rest out_of_fuel = ⊥

skip_behavior_space-Moves :
    (comment : Bool) (offset : ℕ) (rest : Text)
    → let place = skip_behavior_space comment offset rest in Moves offset rest place.0 place.1
unfolding skip_behavior_space
skip_behavior_space-Moves comment offset [] = omega arith
skip_behavior_space-Moves true offset (c ∷ cs) =
    omega (arith, skip_behavior_space-Moves (not (c == b'\n')) (offset + 1) cs)
skip_behavior_space-Moves false offset (c ∷ cs) =
    ground (arith, skip_behavior_space-Moves (c == b';') (offset + 1) cs)

skip_atom-Moves :
    (offset : ℕ) (rest : Text)
    → let found = skip_atom offset rest in Moves offset rest found.1 found.2
unfolding skip_atom
skip_atom-Moves offset [] = omega arith
skip_atom-Moves offset (c ∷ cs) = ground (arith, skip_atom-Moves (offset + 1) cs)

skip_string-Moves :
    (escaped : Bool) (offset : ℕ) (rest : Text) (behind : ℕ) (left : Text)
    → skip_string escaped offset rest ≡ some (behind, left)
    → (offset < behind) × (behind + length left ≡ offset + length rest)
unfolding skip_string
skip_string-Moves escaped offset [] behind left e = cc
skip_string-Moves true offset (c ∷ cs) behind left e =
    omega (arith, skip_string-Moves false (offset + 1) cs behind left e)
skip_string-Moves false offset (c ∷ cs) behind left e =
    ground (arith, skip_string-Moves (c == b'\\') (offset + 1) cs behind left)

string_form-FormPost :
    (offset c : ℕ) (cs : Text)
    → FormPost offset (c ∷ cs) (string_form offset (skip_string false (offset + 1) cs))
string_form-FormPost offset c cs = elim (Option-cases (skip_string false (offset + 1) cs)) [
  | inl e ↦ ground (arith, e)
  | inr (v, e) ↦ ground (arith, skip_string-Moves false (offset + 1) cs v.0 v.1 e)
]

atom_form-FormPost : (offset c : ℕ) (cs : Text) → FormPost offset (c ∷ cs) (atom_form offset c cs)
atom_form-FormPost offset c cs = elim (Bool-cases (is_behavior_delimiter c)) [
  | inl e ↦ ground (arith, e)
  | inr e ↦ ground (arith, skip_atom-Moves (offset + 1) cs)
]

list_form-FormPost :
    (offset c : ℕ) (cs : Text) (r : Parsed BehaviorForms)
    → FormsPost (offset + 1) cs r
    → FormPost offset (c ∷ cs) (list_form offset r)
list_form-FormPost offset c cs (parsed xs offset' rest') p = ground (arith, p)
list_form-FormPost offset c cs failed p = tt
list_form-FormPost offset c cs out_of_fuel p = p

prepend-FormsPost :
    (x : BehaviorForm) (offset offset' : ℕ) (rest rest' : Text) (r : Parsed BehaviorForms)
    → FormPost offset rest (parsed x offset' rest')
    → FormsPost offset' rest' r
    → FormsPost offset rest (prepend x r)
prepend-FormsPost (form start stop atom children) offset offset' rest rest' (parsed xs behind left)
      p q =
    ground (arith, p, q)
prepend-FormsPost x offset offset' rest rest' failed p q = tt
prepend-FormsPost x offset offset' rest rest' out_of_fuel p q = q

-- A form, and then what is behind it.
followed-FormsPost :
    (offset : ℕ) (rest : Text) (r : Parsed BehaviorForm) (next : ℕ → Text → Parsed BehaviorForms)
    → FormPost offset rest r
    → ((offset' : ℕ) (rest' : Text)
        → length rest' < length rest
        → FormsPost offset' rest' (next offset' rest'))
    → FormsPost offset rest
        (bind r λ (x : BehaviorForm) (behind : ℕ) (left : Text). prepend x (next behind left))
followed-FormsPost offset rest (parsed (form start stop atom children) offset' rest') next p
      follows =
    prepend-FormsPost (form start stop atom children) offset offset' rest rest' (next offset' rest')
      p (follows offset' rest' (omega (arith, p)))
followed-FormsPost offset rest failed next p follows = tt
followed-FormsPost offset rest out_of_fuel next p follows = p

-- White space in front of forms.
skipped-FormsPost :
    (offset offset' : ℕ) (rest rest' : Text) (r : Parsed BehaviorForms)
    → Moves offset rest offset' rest'
    → FormsPost offset' rest' r
    → FormsPost offset rest r
skipped-FormsPost offset offset' rest rest' (parsed nil behind left) m p = omega (arith, m, p)
skipped-FormsPost offset offset' rest rest'
      (parsed (cons (form start stop atom children) xs) behind left) m p =
    ground (arith, m, p)
skipped-FormsPost offset offset' rest rest' failed m p = tt
skipped-FormsPost offset offset' rest rest' out_of_fuel m p = p

mutual
  unfolding parse_behavior_form parse_children parse_child

  parse_behavior_form-FormPost :
      (f offset : ℕ) (rest : Text)
      → 3 * length rest + 1 ≤ f
      → FormPost offset rest (parse_behavior_form f offset rest)
  parse_behavior_form-FormPost zero offset rest h = absurd (omega (arith, h))
  parse_behavior_form-FormPost (suc f) offset [] h = tt
  parse_behavior_form-FormPost (suc f) offset (c ∷ cs) h = ground (
    arith,
    list_form-FormPost offset c cs (parse_children f (offset + 1) cs)
        (parse_children-FormsPost f (offset + 1) cs (omega (arith, h))),
    string_form-FormPost offset c cs,
    atom_form-FormPost offset c cs,
  )

  parse_children-FormsPost :
      (f offset : ℕ) (rest : Text)
      → 3 * length rest + 3 ≤ f
      → FormsPost offset rest (parse_children f offset rest)
  parse_children-FormsPost zero offset rest h = absurd (omega (arith, h))
  parse_children-FormsPost (suc f) offset rest h =
      let place = skip_behavior_space false offset rest in
      let m : Moves offset rest place.0 place.1 = skip_behavior_space-Moves false offset rest in
      skipped-FormsPost offset place.0 rest place.1 (parse_child f place.0 place.1) m
        (parse_child-FormsPost f place.0 place.1 (omega (arith, h, m)))

  parse_child-FormsPost :
      (f offset : ℕ) (rest : Text)
      → 3 * length rest + 2 ≤ f
      → FormsPost offset rest (parse_child f offset rest)
  parse_child-FormsPost zero offset rest h = absurd (omega (arith, h))
  parse_child-FormsPost (suc f) offset [] h = tt
  parse_child-FormsPost (suc f) offset (c ∷ cs) h =
      let more : FormsPost offset (c ∷ cs) _ =
        followed-FormsPost offset (c ∷ cs) (parse_behavior_form f offset (c ∷ cs))
          (parse_children f) (parse_behavior_form-FormPost f offset (c ∷ cs) (omega (arith, h)))
          (λ (offset' : ℕ) (rest' : Text) (shorter : length rest' < length (c ∷ cs)).
            parse_children-FormsPost f offset' rest' (omega (arith, h, shorter))) in
      ground (arith, more)

mutual
  unfolding parse_forms parse_next

  parse_forms-FormsPost :
      (f offset : ℕ) (rest : Text)
      → 3 * length rest + 3 ≤ f
      → FormsPost offset rest (parse_forms f offset rest)
  parse_forms-FormsPost zero offset rest h = absurd (omega (arith, h))
  parse_forms-FormsPost (suc f) offset rest h =
      let place = skip_behavior_space false offset rest in
      let m : Moves offset rest place.0 place.1 = skip_behavior_space-Moves false offset rest in
      skipped-FormsPost offset place.0 rest place.1 (parse_next f place.0 place.1) m
        (parse_next-FormsPost f place.0 place.1 (omega (arith, h, m)))

  parse_next-FormsPost :
      (f offset : ℕ) (rest : Text)
      → 3 * length rest + 2 ≤ f
      → FormsPost offset rest (parse_next f offset rest)
  parse_next-FormsPost zero offset rest h = absurd (omega (arith, h))
  parse_next-FormsPost (suc f) offset [] h = ground (arith)
  parse_next-FormsPost (suc f) offset (c ∷ cs) h =
      followed-FormsPost offset (c ∷ cs) (parse_behavior_form f offset (c ∷ cs)) (parse_forms f)
        (parse_behavior_form-FormPost f offset (c ∷ cs) (omega (arith, h)))
        (λ (offset' : ℕ) (rest' : Text) (shorter : length rest' < length (c ∷ cs)).
          parse_forms-FormsPost f offset' rest' (omega (arith, h, shorter)))

AreWithin-weaken :
    (low : ℕ) (xs : BehaviorForms) (high high' : ℕ)
    → high ≤ high'
    → AreWithin low xs high
    → AreWithin low xs high'
AreWithin-weaken low nil high high' m p = omega (arith, m, p)
AreWithin-weaken low (cons (form start stop atom children) xs) high high' m p =
    (p.0, p.1, p.2, AreWithin-weaken stop xs high high' m p.3)

abbrev pub IsWithin : ℕ → Parsed BehaviorForms → Type 0
IsWithin high (parsed xs offset rest) = AreWithin 0 xs high
IsWithin high failed = Unit {0}
IsWithin high out_of_fuel = ⊥

FormsPost-IsWithin :
    (behavior : Text) (r : Parsed BehaviorForms)
    → FormsPost 0 behavior r
    → IsWithin (length behavior) r
FormsPost-IsWithin behavior (parsed xs offset rest) p =
    AreWithin-weaken 0 xs offset (length behavior) (omega (arith, p)) p.0
FormsPost-IsWithin behavior failed p = tt
FormsPost-IsWithin behavior out_of_fuel p = p

-- For every text, the parser of forms ends within its fuel; it refuses the text, or the forms lie
-- within the text one behind the other, no span is empty, and the children of a form lie within the
-- span of the form in the same way, at every depth.
pub parse_behavior_forms-IsWithin :
    (behavior : Text) → IsWithin (length behavior) (parse_behavior_forms behavior)
unfolding parse_behavior_forms
parse_behavior_forms-IsWithin behavior =
    FormsPost-IsWithin behavior (parse_forms (enough behavior) 0 behavior)
      (parse_forms-FormsPost (enough behavior) 0 behavior (omega arith))
