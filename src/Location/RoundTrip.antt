-- ===== src/Location/RoundTrip.antt =====
-- A position of internal/manager/validation_location.go that is found at an offset is the position of
-- that offset.
use kmonad_device_manager.Prelude.{
  ℕ, zero, suc, ◌+◌, ◌≤◌, ◌≡◌, true, [], ◌∷◌, Text, arith, ==_iff, length,
}
use kmonad_device_manager.Location.{
  rune_tail, next_line, next_column, find_offset, line_column_offset, find_position,
  offset_line_column,
}

find_offset_bounds :
    (line column skip : ℕ) (bytes : Text) (l c offset : ℕ)
    → (offset ≤ (find_offset line column skip bytes l c offset).0)
      × ((find_offset line column skip bytes l c offset).0 ≤ offset + length bytes)
unfolding find_offset
find_offset_bounds line column skip [] l c offset = (omega arith, omega arith)
find_offset_bounds line column (suc skip) (b ∷ bytes) l c offset =
    ground (arith, find_offset_bounds line column skip bytes l c (offset + 1))
find_offset_bounds line column zero (b ∷ bytes) l c offset = ground (
  arith,
  find_offset_bounds line column (rune_tail (b ∷ bytes)) bytes (next_line b l) (next_column b c)
      (offset + 1),
)

find_position-find_offset :
    (line column skip : ℕ) (bytes : Text) (l c offset : ℕ)
    → (find_offset line column skip bytes l c offset).1 ≡ true
    → find_position (find_offset line column skip bytes l c offset).0 skip bytes l c offset
      ≡ (line, column)
unfolding find_offset find_position
find_position-find_offset line column skip [] l c offset h =
    ground (arith, ==_iff l line, ==_iff c column)
find_position-find_offset line column (suc skip) (b ∷ bytes) l c offset h =
    find_position-find_offset line column skip bytes l c (offset + 1) h
find_position-find_offset line column zero (b ∷ bytes) l c offset h = ground (
  arith,
  ==_iff l line,
  ==_iff c column,
  find_position-find_offset line column (rune_tail (b ∷ bytes)) bytes (next_line b l)
      (next_column b c) (offset + 1),
  find_offset_bounds line column (rune_tail (b ∷ bytes)) bytes (next_line b l) (next_column b c)
      (offset + 1),
)

-- When a line and column are found in some text, the offset that is found lies in the text or at its
-- end, and its line and column are those.
pub offset_line_column-line_column_offset :
    (bytes : Text) (line column : ℕ)
    → (line_column_offset bytes line column).1 ≡ true
    → (offset_line_column bytes (line_column_offset bytes line column).0 ≡ (line, column))
      × ((line_column_offset bytes line column).0 ≤ length bytes)
unfolding line_column_offset offset_line_column
offset_line_column-line_column_offset bytes line column h = ground (
  arith,
  find_position-find_offset line column 0 bytes 1 1 0,
  find_offset_bounds line column 0 bytes 1 1 0,
)
