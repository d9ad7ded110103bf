-- ===== src/Broker/Frames/RoundTrip.antt =====
-- Reading a frame of internal/platform/broker_wire.go: what is read, and that framing is undone.
use kmonad_device_manager.Prelude.{
  ℕ, zero, suc, ◌+◌, ◌≤◌, ◌<◌, ◌≡◌, ◌⊎◌, inl, inr, refl, ap, sym, ◌∙◌, Bool-cases, true, [], ◌∷◌,
  ◌++◌, Text, none, arith, length, length-append, ◌==◌, ==_iff, all-cons, not, append_assoc,
}
use kmonad_device_manager.Broker.Frames.{
  Slice, read_slice, trim_suffix, privileged_broker_frame_limit, ok, nonempty_frame, frame_of_slice,
  read_broker_frame, no_newline,
}

-- A line with its delimiter inside the buffer is read whole, and nothing behind it.
read_slice_line :
    (size : ℕ) (line rest : Text)
    → no_newline line ≡ true
    → length line < size
    → read_slice size (line ++ (b'\n' ∷ rest))
      ≡ record { line = line ++ (b'\n' ∷ []); rest = rest; failure = none }
unfolding read_slice
read_slice_line zero line rest n h = absurd (omega arith)
read_slice_line (suc size) [] rest n h = refl
read_slice_line (suc size) (c ∷ line) rest n h =
    ground (arith, all-cons (λ d. not (d == b'\n')) c line, read_slice_line size line rest)

-- A line that was read is a line of the stream, ends with the only newline in it, and fits.
read_slice_sound :
    (size : ℕ) (bytes : Text)
    → (read_slice size bytes).failure ≡ none
    → (line : Text) × ((read_slice size bytes).line ≡ line ++ (b'\n' ∷ []))
      × (bytes ≡ line ++ (b'\n' ∷ (read_slice size bytes).rest))
      × (no_newline line ≡ true)
      × (length line < size)
unfolding read_slice
read_slice_sound zero bytes h = absurd cc
read_slice_sound (suc size) [] h = absurd cc
read_slice_sound (suc size) (c ∷ bytes) h = elim (Bool-cases (c == b'\n')) [
  | inl newline ↦ ([], ground arith, ground arith, refl, omega arith)
  | inr other ↦
      let (line, read, split, clean, short) = read_slice_sound size bytes (ground arith) in
      (c ∷ line, ground arith, ground arith, ground arith, omega arith)
]

trim_suffix-append : (c : ℕ) (xs : Text) → trim_suffix c (xs ++ (c ∷ [])) ≡ xs
unfolding trim_suffix
trim_suffix-append c [] = rw ((==_iff c c).1 refl)
trim_suffix-append c (x ∷ []) = rw ((==_iff c c).1 refl)
trim_suffix-append c (x ∷ y ∷ r) = ap (λ t. x ∷ t) (trim_suffix-append c (y ∷ r))

trim_suffix-cases :
    (c : ℕ) (xs : Text) → (trim_suffix c xs ≡ xs) ⊎ (xs ≡ trim_suffix c xs ++ (c ∷ []))
unfolding trim_suffix
trim_suffix-cases c [] = inl refl
trim_suffix-cases c (x ∷ []) = elim (Bool-cases (x == c)) [
  | inl same ↦ inr (ground arith)
  | inr other ↦ inl (ground arith)
]
trim_suffix-cases c (x ∷ y ∷ r) = elim (trim_suffix-cases c (y ∷ r)) [
  | inl same ↦ inl (ap (λ t. x ∷ t) same)
  | inr cut ↦ inr (ap (λ t. x ∷ t) cut)
]

no_newline-prefix : (xs ys : Text) → no_newline (xs ++ ys) ≡ true → no_newline xs ≡ true
no_newline-prefix [] ys h = refl
no_newline-prefix (x ∷ xs) ys h = ground (arith, no_newline-prefix xs ys)

frame_of_line :
    (limit : ℕ) (line rest : Text)
    → length line ≤ limit
    → frame_of_slice limit (record { line = line ++ (b'\n' ∷ []); rest = rest; failure = none })
      ≡ nonempty_frame (trim_suffix b'\r' line)
unfolding frame_of_slice
frame_of_line limit line rest h =
    rw trim_suffix-append (ground (arith, length-append line (b'\n' ∷ [])))

nonempty_frame-pos : (frame : Text) → 0 < length frame → nonempty_frame frame ≡ ok frame
nonempty_frame-pos [] h = absurd (omega arith)
nonempty_frame-pos (c ∷ frame) h = refl

abbrev pub EndsLine : Text → Text → Text → Type 0
EndsLine bytes frame rest =
    (bytes ≡ frame ++ (b'\n' ∷ rest)) ⊎ (bytes ≡ frame ++ (b'\r' ∷ b'\n' ∷ rest))

read_lf :
    (limit : ℕ) (frame rest : Text)
    → no_newline frame ≡ true
    → 0 < length frame
    → trim_suffix b'\r' frame ≡ frame
    → length frame ≤ limit
    → (frame_of_slice limit (read_slice (limit + 1) (frame ++ (b'\n' ∷ rest))) ≡ ok frame)
      × ((read_slice (limit + 1) (frame ++ (b'\n' ∷ rest))).rest ≡ rest)
read_lf limit frame rest clean filled plain fits =
    rw
      (
        read_slice_line (limit + 1) frame rest clean (omega arith),
        frame_of_line limit frame rest fits,
        plain,
        nonempty_frame-pos frame filled,
      )
      (refl, refl)

-- A non-empty frame within the limit, without a newline and without a final carriage return, is
-- read back from its line, and the reader is left at the next byte.
pub read_broker_frame_line :
    (frame rest : Text)
    → no_newline frame ≡ true
    → 0 < length frame
    → trim_suffix b'\r' frame ≡ frame
    → length frame ≤ privileged_broker_frame_limit
    → read_broker_frame (frame ++ (b'\n' ∷ rest)) ≡ (ok frame, rest)
unfolding read_broker_frame
read_broker_frame_line frame rest clean filled plain fits =
    let (read, left) = read_lf privileged_broker_frame_limit frame rest clean filled plain fits in
    cc

ok_of_no_failure :
    (limit : ℕ) (s : Slice) (frame : Text) → frame_of_slice limit s ≡ ok frame → s.failure ≡ none
unfolding frame_of_slice
ok_of_no_failure limit s frame h = ground arith

nonempty_frame_sound :
    (t frame : Text) → nonempty_frame t ≡ ok frame → (t ≡ frame) × (0 < length frame)
nonempty_frame_sound [] frame h = absurd cc
nonempty_frame_sound (c ∷ t) frame h = ground arith

frame_of_clean_slice :
    (limit : ℕ) (s : Slice) (line : Text)
    → s.failure ≡ none
    → s.line ≡ line ++ (b'\n' ∷ [])
    → length line ≤ limit
    → frame_of_slice limit s ≡ nonempty_frame (trim_suffix b'\r' line)
frame_of_clean_slice limit s line f l h =
    ap (frame_of_slice limit) (λ i. record { line = l i; rest = s.rest; failure = f i })
    ∙ frame_of_line limit line s.rest h

trimmed :
    (limit : ℕ) (line frame rest bytes : Text)
    → trim_suffix b'\r' line ≡ frame
    → bytes ≡ line ++ (b'\n' ∷ rest)
    → no_newline line ≡ true
    → length line ≤ limit
    → (length frame ≤ limit) × (no_newline frame ≡ true) × EndsLine bytes frame rest
trimmed limit line frame rest bytes t split clean short = elim (trim_suffix-cases b'\r' line) [
  | inl same ↦
      let e : line ≡ frame = sym same ∙ t in (rw (← e) short, rw (← e) clean, inl (rw (← e) split))
  | inr cut ↦
      let e : line ≡ frame ++ (b'\r' ∷ []) = cut ∙ ap (λ u. u ++ (b'\r' ∷ [])) t in
      (
        omega (arith, ap length e, length-append frame (b'\r' ∷ [])),
        no_newline-prefix frame (b'\r' ∷ []) (rw (← e) clean),
        inr (
            split
            ∙ ap (λ u. u ++ (b'\n' ∷ rest)) e
            ∙ append_assoc frame (b'\r' ∷ []) (b'\n' ∷ rest)),
      )
]

read_sound :
    (limit : ℕ) (bytes frame : Text)
    → frame_of_slice limit (read_slice (limit + 1) bytes) ≡ ok frame
    → (0 < length frame)
      × (length frame ≤ limit)
      × (no_newline frame ≡ true)
      × EndsLine bytes frame (read_slice (limit + 1) bytes).rest
read_sound limit bytes frame h =
    let s = read_slice (limit + 1) bytes in
    let none_failed = ok_of_no_failure limit s frame h in
    let (line, read, split, clean, short) = read_slice_sound (limit + 1) bytes none_failed in
    let (t, filled) =
      nonempty_frame_sound (trim_suffix b'\r' line) frame
        (sym (frame_of_clean_slice limit s line none_failed read (omega arith)) ∙ h) in
    let (fits, no_nl, form) = trimmed limit line frame s.rest bytes t split clean (omega arith) in
    (filled, fits, no_nl, form)

-- A frame that was read is not empty, is within the limit and has no newline, and the stream was
-- that frame, a line feed or a carriage return and a line feed, and what is left to read.
read_broker_frame_sound :
    (bytes frame rest : Text)
    → read_broker_frame bytes ≡ (ok frame, rest)
    → (0 < length frame)
      × (length frame ≤ privileged_broker_frame_limit)
      × (no_newline frame ≡ true)
      × EndsLine bytes frame rest
unfolding read_broker_frame
read_broker_frame_sound bytes frame rest h =
    rw (← ap (λ r. r.1) h) (read_sound privileged_broker_frame_limit bytes frame (ap (λ r. r.0) h))
