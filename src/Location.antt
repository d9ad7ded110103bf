-- ===== src/Location.antt =====
-- Positions in submitted text, of internal/manager/validation_location.go: offsets of bytes against
-- lines and columns of runes. `unicode/utf8` is modelled as documented: an encoding that is not
-- valid is an error of one byte. A loop over the offsets of the bytes is recursion on the bytes, with
-- the number of bytes that the present rune still has.
mod RoundTrip
mod Diagnostics
mod Forms
mod Nested
mod Assignments
mod Tests
use kmonad_device_manager.Prelude.{
  ℕ, zero, suc, ◌+◌, ◌-◌, Bool, true, false, not, ◌&&◌, ◌||◌, Option, none, some, List, [], ◌∷◌,
  Text, ltb, leb, ◌==◌, if◌then◌else◌, drop, length,
}

abbrev pub is_between : ℕ → ℕ → ℕ → Bool
is_between low high c = leb low c && leb c high

abbrev pub is_continuation : ℕ → Bool
is_continuation c = is_between 128 191 c

-- The bounds of the second byte behind a first one.
abbrev pub is_second : ℕ → ℕ → Bool
is_second first c =
    if first == 224
    then is_between 160 191 c
    else if first == 237
    then is_between 128 159 c
    else if first == 240
    then is_between 144 191 c
    else if first == 244
    then is_between 128 143 c
    else is_continuation c

-- The size of the valid encoding that the bytes begin with.
unfoldable pub valid_size : Text → Option ℕ
valid_size [] = none
valid_size (a ∷ []) = if ltb a 128 then some 1 else none
valid_size (a ∷ b ∷ []) =
    if ltb a 128 then some 1 else if is_between 194 223 a && is_continuation b then some 2 else none
valid_size (a ∷ b ∷ c ∷ []) =
    if ltb a 128
    then some 1
    else if is_between 194 223 a && is_continuation b
    then some 2
    else if is_between 224 239 a && is_second a b && is_continuation c
    then some 3
    else none
valid_size (a ∷ b ∷ c ∷ d ∷ rest) =
    if ltb a 128
    then some 1
    else if is_between 194 223 a && is_continuation b
    then some 2
    else if is_between 224 239 a && is_second a b && is_continuation c
    then some 3
    else if is_between 240 244 a && is_second a b && is_continuation c && is_continuation d
    then some 4
    else none

-- The bytes that `utf8.DecodeRune` leaves of the first rune behind its first byte.
unfoldable pub rune_tail : Text → ℕ
rune_tail bytes = elim (valid_size bytes) [ none ↦ 0 | some size ↦ size - 1 ]

-- `utf8.Valid`, with the number of bytes of the present rune that are left.
unfoldable pub valid_from : ℕ → Text → Bool
valid_from skip [] = true
valid_from (suc skip) (c ∷ bytes) = valid_from skip bytes
valid_from zero (c ∷ bytes) = elim (valid_size (c ∷ bytes)) [
  | none ↦ false
  | some size ↦ valid_from (size - 1) bytes
]

abbrev pub is_valid_utf8 : Text → Bool
is_valid_utf8 bytes = valid_from 0 bytes

-- The line and column behind a rune with this first byte.
abbrev pub next_line : ℕ → ℕ → ℕ
next_line c line = if c == b'\n' then line + 1 else line

abbrev pub next_column : ℕ → ℕ → ℕ
next_column c column = if c == b'\n' then 1 else column + 1

-- The loop of `lineColumnOffset`.
unfoldable pub find_offset : (line column : ℕ) → ℕ → Text → (l c offset : ℕ) → ℕ × Bool
find_offset line column skip [] l c offset = (offset, l == line && c == column)
find_offset line column (suc skip) (b ∷ bytes) l c offset =
    find_offset line column skip bytes l c (offset + 1)
find_offset line column zero (b ∷ bytes) l c offset =
    let rest =
      find_offset line column (rune_tail (b ∷ bytes)) bytes (next_line b l) (next_column b c)
        (offset + 1) in
    if l == line && c == column then (offset, true) else rest

unfoldable pub line_column_offset : Text → ℕ → ℕ → ℕ × Bool
line_column_offset bytes line column =
    if not (is_valid_utf8 bytes) || ltb line 1 || ltb column 1
    then (0, false)
    else find_offset line column 0 bytes 1 1 0

-- The loop of `offsetLineColumn`. At the end of the bytes the code would not stop, for a target
-- behind it; its callers have none.
unfoldable pub find_position : ℕ → ℕ → Text → (l c offset : ℕ) → ℕ × ℕ
find_position target skip [] l c offset = (l, c)
find_position target (suc skip) (b ∷ bytes) l c offset =
    find_position target skip bytes l c (offset + 1)
find_position target zero (b ∷ bytes) l c offset =
    let rest =
      find_position target (rune_tail (b ∷ bytes)) bytes (next_line b l) (next_column b c)
        (offset + 1) in
    if leb target offset then (l, c) else rest

unfoldable pub offset_line_column : Text → ℕ → ℕ × ℕ
offset_line_column bytes target = find_position target 0 bytes 1 1 0

unfoldable pub next_rune_offset : Text → ℕ → ℕ × Bool
next_rune_offset bytes offset =
    if leb (length bytes) offset || not (is_valid_utf8 bytes)
    then (0, false)
    else (offset + 1 + rune_tail (drop offset bytes), true)
