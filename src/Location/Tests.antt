-- ===== src/Location/Tests.antt =====
-- Runs of the positions of internal/manager/validation_location.go at concrete inputs.
use kmonad_device_manager.Prelude.{
  some, ℕ, ◌+◌, ◌≤◌, ◌<◌, ◌≡◌, refl, true, Text, text, [], ◌∷◌, ◌++◌, length,
}
use kmonad_device_manager.Location.{
  valid_size, rune_tail, valid_from, find_offset, line_column_offset, find_position,
  offset_line_column, next_rune_offset,
}
use kmonad_device_manager.Location.RoundTrip.{offset_line_column-line_column_offset}
use kmonad_device_manager.Location.Diagnostics.{
  ByteSpan, BehaviorSourceMap, ValidatorRange, location_of, locate, end_position,
  candidate_diagnostic_location, IsSpan, EndsAt, candidate_diagnostic_location_lem,
}
use kmonad_device_manager.Location.Forms.{
  parse_behavior_form, parse_children, parse_child, parse_forms, parse_next, skip_behavior_space,
  skip_string, skip_atom, parse_behavior_forms, new_behavior_source_map,
}
use kmonad_device_manager.Location.Nested.{IsWithin, parse_behavior_forms-IsWithin}
use kmonad_device_manager.Location.Assignments.{
  HasOrderedAssignments, new_behavior_source_map-HasOrderedAssignments,
}

-- Two lines, the second with a rune of two bytes.
abbrev two_lines : Text
two_lines = text "(a)" ++ (b'\n' ∷ 195 ∷ 169 ∷ b'x' ∷ [])

-- The rune behind it is the second of its line, and the seventh byte of the text.
second_line_found : line_column_offset two_lines 2 2 ≡ (6, true)
unfolding line_column_offset find_offset rune_tail valid_size valid_from
second_line_found = refl

offset_line_column-line_column_offset_example :
    (offset_line_column two_lines (line_column_offset two_lines 2 2).0 ≡ (2, 2))
    × ((line_column_offset two_lines 2 2).0 ≤ length two_lines)
unfolding line_column_offset find_offset rune_tail valid_size valid_from
offset_line_column-line_column_offset_example =
    offset_line_column-line_column_offset two_lines 2 2 refl

abbrev source_map : BehaviorSourceMap
source_map = record {
  behavior = text "abc";
  candidate_start = 4;
  assignments = record { start = 0; stop = 1 } ∷ record { start = 2; stop = 3 } ∷ [];
}

abbrev one_rune : ValidatorRange
one_rune = record { start_line = 2; start_column = 3; end_line = 0; end_column = 0 }

abbrev candidate : Text
candidate = text "xyz" ++ (b'\n' ∷ text "abc")

candidate_diagnostic_location_lem_example :
    (start : ℕ) × (stop : ℕ) × (line_column_offset candidate 2 3 ≡ (4 + start, true))
    × EndsAt candidate one_rune (4 + start) (4 + stop)
    × (start < stop)
    × (location_of (text "abc") 2 3 ≡ location_of (text "abc") start stop)
    × ((span : ByteSpan) × IsSpan span source_map.assignments
        × (span.start ≤ start)
        × (stop ≤ span.stop))
unfolding candidate_diagnostic_location end_position locate next_rune_offset line_column_offset
    find_offset offset_line_column find_position rune_tail valid_size valid_from
candidate_diagnostic_location_lem_example =
    candidate_diagnostic_location_lem source_map candidate one_rune (location_of (text "abc") 2 3)
      refl

-- A comment, a layer of two assignments, and another form.
abbrev behavior : Text
behavior = text ";;\n(deflayer l a (tap b)) (x \"y\")"

parse_behavior_forms-IsWithin_example : IsWithin (length behavior) (parse_behavior_forms behavior)
parse_behavior_forms-IsWithin_example = parse_behavior_forms-IsWithin behavior

new_behavior_source_map-HasOrderedAssignments_example :
    HasOrderedAssignments behavior (new_behavior_source_map behavior 4)
new_behavior_source_map-HasOrderedAssignments_example =
    new_behavior_source_map-HasOrderedAssignments behavior 4

two_assignments_found :
    new_behavior_source_map behavior 4
    ≡ some (record {
      behavior = behavior;
      candidate_start = 4;
      assignments = record { start = 15; stop = 16 } ∷ record { start = 17; stop = 24 } ∷ [];
    })
unfolding new_behavior_source_map parse_behavior_forms parse_behavior_form parse_children
    parse_child parse_forms parse_next skip_behavior_space skip_string skip_atom rune_tail
    valid_size valid_from
two_assignments_found = refl
