-- ===== src/Location/Diagnostics.antt =====
-- `candidateDiagnosticLocation` of internal/manager/validation_location.go: a range that the validator
-- reports for the candidate, as a range of the submitted behavior. The spans of the assignments are
-- data of the source map. Without assignments the loop finds none, as the first test of the code says.
use kmonad_device_manager.Prelude.{
  ℕ, ◌+◌, ◌-◌, ◌≤◌, ◌<◌, ◌≡◌, ◌≢◌, true, not, ◌||◌, ◌&&◌, Option, none, some, List, [], ◌∷◌, Text,
  text, ltb, leb, ◌==◌, if◌then◌else◌, arith, Option-cases, Bool-cases, inl, inr, refl, ◌⊎◌, subst,
}
use kmonad_device_manager.Domain.{DiagnosticLocation}
use kmonad_device_manager.Location.{line_column_offset, offset_line_column, next_rune_offset}

pub record ByteSpan : Type 0 where
  pub start : ℕ
  pub stop : ℕ

pub record BehaviorSourceMap : Type 0 where
  pub behavior : Text
  pub candidate_start : ℕ
  pub assignments : List ByteSpan

pub record ValidatorRange : Type 0 where
  pub start_line : ℕ
  pub start_column : ℕ
  pub end_line : ℕ
  pub end_column : ℕ

abbrev pub submitted_behavior_scope : Text
submitted_behavior_scope = text "submitted_behavior"

abbrev pub location_of : Text → ℕ → ℕ → DiagnosticLocation
location_of behavior source_start source_end =
    let from_ = offset_line_column behavior source_start in
    let to = offset_line_column behavior source_end in
    record {
      scope = submitted_behavior_scope;
      start_line = from_.0;
      start_column = from_.1;
      end_line = to.0;
      end_column = to.1;
    }

-- The loop over the assignments.
unfoldable pub locate : Text → ℕ → ℕ → List ByteSpan → Option DiagnosticLocation
locate behavior source_start source_end [] = none
locate behavior source_start source_end (span ∷ spans) =
    let rest = locate behavior source_start source_end spans in
    if leb span.start source_start && leb source_end span.stop
    then some (location_of behavior source_start source_end)
    else rest

-- The end of the range: of a single position, the next rune's.
unfoldable pub end_position : Text → ValidatorRange → ℕ → Option (ℕ × ℕ)
end_position candidate diagnostic start =
    let next = next_rune_offset candidate start in
    if not (diagnostic.end_line == 0)
    then some (diagnostic.end_line, diagnostic.end_column)
    else if not next.1
    then none
    else some (offset_line_column candidate next.0)

unfoldable pub candidate_diagnostic_location :
    BehaviorSourceMap → Text → ValidatorRange → Option DiagnosticLocation
candidate_diagnostic_location m candidate diagnostic =
    let start = line_column_offset candidate diagnostic.start_line diagnostic.start_column in
    if not start.1 then none else elim (end_position candidate diagnostic start.0) [
      | none ↦ none
      | some position ↦
          let stop = line_column_offset candidate position.0 position.1 in
          if not stop.1 || leb stop.0 start.0 || ltb start.0 m.candidate_start
          then none
          else locate m.behavior (start.0 - m.candidate_start) (stop.0 - m.candidate_start)
              m.assignments
    ]

-- The span is one of these.
abbrev pub IsSpan : ByteSpan → List ByteSpan → Type 0
IsSpan span [] = ⊥
IsSpan span (s ∷ spans) = (span ≡ s) ⊎ IsSpan span spans

locate-IsSpan :
    (behavior : Text) (source_start source_end : ℕ) (spans : List ByteSpan)
    (location : DiagnosticLocation)
    → locate behavior source_start source_end spans ≡ some location
    → (location ≡ location_of behavior source_start source_end)
      × ((span : ByteSpan) × IsSpan span spans
          × (span.start ≤ source_start)
          × (source_end ≤ span.stop))
unfolding locate
locate-IsSpan behavior source_start source_end [] location h = absurd cc
locate-IsSpan behavior source_start source_end (s ∷ spans) location h =
    elim (Bool-cases (leb s.start source_start && leb source_end s.stop)) [
      | inl inside ↦
          (ground (arith, inside), (s, inl refl, ground (arith, inside), ground (arith, inside)))
      | inr outside ↦
          let (e, (span, member, low, high)) =
            locate-IsSpan behavior source_start source_end spans location
              (ground (arith, outside)) in
          (e, (span, inr member, low, high))
    ]

-- The offset where a range ends: that of its end position, or, when it has none, that of the
-- position of the rune behind its start.
abbrev pub EndsAt : Text → ValidatorRange → (start stop : ℕ) → Type 0
EndsAt candidate diagnostic start stop =
    ((diagnostic.end_line ≢ 0)
      × (line_column_offset candidate diagnostic.end_line diagnostic.end_column ≡ (stop, true)))
    ⊎ ((diagnostic.end_line ≡ 0)
        × ((next : ℕ) × (next_rune_offset candidate start ≡ (next, true))
            × (let position = offset_line_column candidate next in
                line_column_offset candidate position.0 position.1 ≡ (stop, true))))

end_position-EndsAt :
    (candidate : Text) (diagnostic : ValidatorRange) (start : ℕ) (position : ℕ × ℕ)
    → end_position candidate diagnostic start ≡ some position
    → (line_column_offset candidate position.0 position.1).1 ≡ true
    → EndsAt candidate diagnostic start (line_column_offset candidate position.0 position.1).0
unfolding end_position
end_position-EndsAt candidate diagnostic start position known valid =
    let stop = line_column_offset candidate position.0 position.1 in
    let next = next_rune_offset candidate start in
    elim (Bool-cases (diagnostic.end_line == 0)) [
      | inl single ↦
          let is_next : position ≡ offset_line_column candidate next.0 = ground (arith, single) in
          let found : next.1 ≡ true = ground (arith, single) in
          inr (
            ground (arith, single),
            (
              next.0,
              ground (arith, found),
              subst (λ (q : ℕ × ℕ). line_column_offset candidate q.0 q.1 ≡ (stop.0, true)) is_next
                  (ground (arith, valid)),
            ),
          )
      | inr ranged ↦
          let is_end : position ≡ (diagnostic.end_line, diagnostic.end_column) =
            ground (arith, ranged) in
          inl (
            ground (arith, ranged),
            subst (λ (q : ℕ × ℕ). line_column_offset candidate q.0 q.1 ≡ (stop.0, true)) is_end
                (ground (arith, valid)),
          )
    ]

-- A location is given only for a range whose start and end are found in the candidate behind the
-- manager's own text, that is not empty, and that lies in one assignment of the submitted
-- behavior; the location is then the lines and columns of these two offsets in the behavior. A range
-- without an end is that of the one rune at its start.
pub candidate_diagnostic_location_lem :
    (m : BehaviorSourceMap) (candidate : Text) (diagnostic : ValidatorRange)
    (location : DiagnosticLocation)
    → candidate_diagnostic_location m candidate diagnostic ≡ some location
    → (start : ℕ) × (stop : ℕ) × (line_column_offset candidate diagnostic.start_line
          diagnostic.start_column
        ≡ (m.candidate_start + start, true))
      × EndsAt candidate diagnostic (m.candidate_start + start) (m.candidate_start + stop)
      × (start < stop)
      × (location ≡ location_of m.behavior start stop)
      × ((span : ByteSpan) × IsSpan span m.assignments × (span.start ≤ start) × (stop ≤ span.stop))
unfolding candidate_diagnostic_location
candidate_diagnostic_location_lem m candidate diagnostic location h =
    let start = line_column_offset candidate diagnostic.start_line diagnostic.start_column in
    elim (Option-cases (end_position candidate diagnostic start.0)) [
      | inl unknown ↦ absurd (ground (arith, unknown))
      | inr (position, known) ↦
          let stop = line_column_offset candidate position.0 position.1 in
          let (e, found) =
            locate-IsSpan m.behavior (start.0 - m.candidate_start) (stop.0 - m.candidate_start)
              m.assignments location (ground (arith, known)) in
          (
            start.0 - m.candidate_start,
            stop.0 - m.candidate_start,
            ground (arith, known),
            (let from_ : start.0 ≡ m.candidate_start + (start.0 - m.candidate_start) =
                  ground (arith, known) in
                let to : stop.0 ≡ m.candidate_start + (stop.0 - m.candidate_start) =
                  ground (arith, known) in
                subst
                  (λ (k : ℕ).
                    EndsAt candidate diagnostic (m.candidate_start + (start.0 - m.candidate_start))
                      k)
                  to
                  (subst (λ (k : ℕ). EndsAt candidate diagnostic k stop.0) from_
                    (end_position-EndsAt candidate diagnostic start.0 position known
                      (ground (arith, known))))),
            ground (arith, known),
            e,
            found,
          )
    ]
