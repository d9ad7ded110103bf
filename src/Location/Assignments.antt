-- ===== src/Location/Assignments.antt =====
-- The assignments that `newBehaviorSourceMap` of internal/manager/validation_location.go finds: their
-- spans in the submitted text.
use kmonad_device_manager.Prelude.{
  ℕ, ◌≤◌, ◌<◌, Bool, true, false, not, Option, none, some, List, [], ◌∷◌, ◌++◌, Text, text, text_eq,
  if◌then◌else◌, length, arith,
}
use kmonad_device_manager.Location.{is_valid_utf8}
use kmonad_device_manager.Location.Diagnostics.{ByteSpan, BehaviorSourceMap}
use kmonad_device_manager.Location.Forms.{
  form, BehaviorForms, nil, cons, Parsed, parsed, failed, out_of_fuel, parse_behavior_forms, spans,
  layer_spans, assignment_spans, no_source_map, source_map_of, new_behavior_source_map,
}
use kmonad_device_manager.Location.Nested.{AreWithin, IsWithin, parse_behavior_forms-IsWithin}

-- The spans lie between the two offsets, one behind the other, and none is empty.
abbrev pub AreInOrder : ℕ → List ByteSpan → ℕ → Type 0
AreInOrder low [] high = low ≤ high
AreInOrder low (x ∷ xs) high = (low ≤ x.start) × (x.start < x.stop) × AreInOrder x.stop xs high

AreInOrder-earlier :
    (low low' : ℕ) (xs : List ByteSpan) (high : ℕ)
    → low ≤ low'
    → AreInOrder low' xs high
    → AreInOrder low xs high
AreInOrder-earlier low low' [] high m p = omega (arith, m, p)
AreInOrder-earlier low low' (x ∷ xs) high m p = (omega (arith, m, p.0), p.1, p.2)

AreInOrder-++ :
    (low : ℕ) (xs ys : List ByteSpan) (middle high : ℕ)
    → AreInOrder low xs middle
    → AreInOrder middle ys high
    → AreInOrder low (xs ++ ys) high
AreInOrder-++ low [] ys middle high p q = AreInOrder-earlier low middle ys high p q
AreInOrder-++ low (x ∷ xs) ys middle high p q =
    (p.0, p.1, AreInOrder-++ x.stop xs ys middle high p.2 q)

spans-AreInOrder :
    (low : ℕ) (xs : BehaviorForms) (high : ℕ)
    → AreWithin low xs high
    → AreInOrder low (spans xs) high
spans-AreInOrder low nil high p = p
spans-AreInOrder low (cons (form start stop atom children) xs) high p =
    (p.0, p.1, spans-AreInOrder stop xs high p.3)

AreWithin-le : (low : ℕ) (xs : BehaviorForms) (high : ℕ) → AreWithin low xs high → low ≤ high
AreWithin-le low nil high p = p
AreWithin-le low (cons (form start stop atom children) xs) high p =
    omega (arith, p.0, p.1, AreWithin-le stop xs high p.3)

AreInOrder-either :
    (b : Bool) (low : ℕ) (xs ys : List ByteSpan) (high : ℕ)
    → AreInOrder low xs high
    → AreInOrder low ys high
    → AreInOrder low (if b then xs else ys) high
AreInOrder-either true low xs ys high p q = p
AreInOrder-either false low xs ys high p q = q

layer_spans-AreInOrder :
    (low : ℕ) (xs : BehaviorForms) (high : ℕ)
    → AreWithin low xs high
    → AreInOrder low (layer_spans xs) high
layer_spans-AreInOrder low nil high p = p
layer_spans-AreInOrder low (cons (form start stop word children) nil) high p =
    AreWithin-le low (cons (form start stop word children) nil) high p
layer_spans-AreInOrder low
      (cons (form start stop word children) (cons (form start' stop' word' children') nil)) high p =
    AreWithin-le low
      (cons (form start stop word children) (cons (form start' stop' word' children') nil)) high p
layer_spans-AreInOrder low
      (cons (form start stop word children) (cons (form start' stop' word' children') (cons x xs)))
      high p =
    let found : AreInOrder low (spans (cons x xs)) high =
      AreInOrder-earlier low stop' (spans (cons x xs)) high (omega (arith, p.0, p.1, p.3.0, p.3.1))
        (spans-AreInOrder stop' (cons x xs) high p.3.3) in
    AreInOrder-either (text_eq word (text "deflayer")) low (spans (cons x xs)) [] high found (
      AreWithin-le low
        (cons (form start stop word children)
          (cons (form start' stop' word' children') (cons x xs)))
        high p)

assignment_spans-AreInOrder :
    (low : ℕ) (xs : BehaviorForms) (high : ℕ)
    → AreWithin low xs high
    → AreInOrder low (assignment_spans xs) high
assignment_spans-AreInOrder low nil high p = p
assignment_spans-AreInOrder low (cons (form start stop atom children) xs) high p =
    let later : AreInOrder stop (assignment_spans xs) high =
      assignment_spans-AreInOrder stop xs high p.3 in
    let own : AreInOrder start (layer_spans children) stop =
      layer_spans-AreInOrder start children stop p.2 in
    AreInOrder-either (text_eq atom []) low (layer_spans children ++ assignment_spans xs)
      (assignment_spans xs) high
      (AreInOrder-earlier low start (layer_spans children ++ assignment_spans xs) high p.0
        (AreInOrder-++ start (layer_spans children) (assignment_spans xs) stop high own later))
      (AreInOrder-earlier low stop (assignment_spans xs) high (omega (arith, p.0, p.1)) later)

abbrev pub HasOrderedAssignments : Text → Option BehaviorSourceMap → Type 0
HasOrderedAssignments behavior none = ⊥
HasOrderedAssignments behavior (some m) = AreInOrder 0 m.assignments (length behavior)

source_map_of-HasOrderedAssignments :
    (behavior : Text) (candidate_start : ℕ) (r : Parsed BehaviorForms)
    → IsWithin (length behavior) r
    → HasOrderedAssignments behavior (source_map_of behavior candidate_start r)
source_map_of-HasOrderedAssignments behavior candidate_start (parsed xs offset rest) p =
    assignment_spans-AreInOrder 0 xs (length behavior) p
source_map_of-HasOrderedAssignments behavior candidate_start failed p = omega arith
source_map_of-HasOrderedAssignments behavior candidate_start out_of_fuel p = p

found-HasOrderedAssignments :
    (valid : Bool) (behavior : Text) (found : Option BehaviorSourceMap)
    → HasOrderedAssignments behavior found
    → HasOrderedAssignments behavior (if not valid then some no_source_map else found)
found-HasOrderedAssignments true behavior found p = p
found-HasOrderedAssignments false behavior found p = omega arith

-- For every submitted behavior, valid or not, a source map is found, and the spans of its assignments
-- lie within the behavior, in order, none of them empty and no two with a byte in common.
pub new_behavior_source_map-HasOrderedAssignments :
    (behavior : Text) (candidate_start : ℕ)
    → HasOrderedAssignments behavior (new_behavior_source_map behavior candidate_start)
unfolding new_behavior_source_map
new_behavior_source_map-HasOrderedAssignments behavior candidate_start =
    found-HasOrderedAssignments (is_valid_utf8 behavior) behavior
      (source_map_of behavior candidate_start (parse_behavior_forms behavior))
      (source_map_of-HasOrderedAssignments behavior candidate_start (parse_behavior_forms behavior)
        (parse_behavior_forms-IsWithin behavior))
