-- ===== src/Supervisor/Output.antt =====
-- `limitedOutputBuffer` of internal/manager/supervisor.go: what a dry run prints, up to a limit.
use kmonad_device_manager.Prelude.{
  ℕ, zero, suc, append-nil, ◌-◌, ◌≤◌, ◌≡◌, refl, ap, ap₂, sym, ◌∙◌, List, [], ◌∷◌, ◌++◌, Text,
  append_assoc, arith, ltb, if◌then◌else◌, length, take,
}

pub record LimitedOutputBuffer : Type 0 where
  pub buffered : Text
  pub limit : ℕ

-- `Write`: the number that it reports, and the buffer.
unfoldable pub write : Text → LimitedOutputBuffer → ℕ × LimitedOutputBuffer
write bytes buffer =
    if ltb (length buffer.buffered) buffer.limit
    then (
      length bytes,
      record buffer {
        buffered =
            buffer.buffered
            ++ take
                (if ltb (length bytes) (buffer.limit - length buffer.buffered)
                  then length bytes
                  else buffer.limit - length buffer.buffered)
                bytes;
      },
    )
    else (length bytes, buffer)

abbrev pub write_all : List Text → LimitedOutputBuffer → LimitedOutputBuffer
write_all [] buffer = buffer
write_all (bytes ∷ rest) buffer = write_all rest (write bytes buffer).1

abbrev pub concat : List Text → Text
concat [] = []
concat (bytes ∷ rest) = bytes ++ concat rest

take_all : (n : ℕ) (xs : Text) → length xs ≤ n → take n xs ≡ xs
take_all zero [] h = refl
take_all zero (x ∷ xs) h = absurd (omega arith)
take_all (suc n) [] h = refl
take_all (suc n) (x ∷ xs) h = ap (λ ys. x ∷ ys) (take_all n xs (omega arith))

take-append :
    (n : ℕ) (xs ys : Text) → length xs ≤ n → take n (xs ++ ys) ≡ xs ++ take (n - length xs) ys
take-append n [] ys h = ap (λ k. take k ys) (omega arith)
take-append zero (x ∷ xs) ys h = absurd (omega arith)
take-append (suc n) (x ∷ xs) ys h =
    ap (λ zs. x ∷ zs) (take-append n xs ys (omega arith))
    ∙ ap (λ k. x ∷ (xs ++ take k ys))
        (let e : n - length xs ≡ suc n - length (x ∷ xs) = omega arith in e)

take-take_append : (n : ℕ) (xs ys : Text) → take n (take n xs ++ ys) ≡ take n (xs ++ ys)
take-take_append zero xs ys = refl
take-take_append (suc n) [] ys = refl
take-take_append (suc n) (x ∷ xs) ys = ap (λ zs. x ∷ zs) (take-take_append n xs ys)

length-take_le : (n : ℕ) (xs : Text) → length (take n xs) ≤ n
length-take_le zero xs = omega arith
length-take_le (suc n) [] = omega arith
length-take_le (suc n) (x ∷ xs) = omega (arith, length-take_le n xs)

take_nothing : (n : ℕ) (xs : Text) → n ≡ 0 → take n xs ≡ []
take_nothing zero xs h = refl
take_nothing (suc n) xs h = absurd (omega arith)

write-buffered :
    (bytes : Text) (buffer : LimitedOutputBuffer)
    → length buffer.buffered ≤ buffer.limit
    → ((write bytes buffer).1.buffered ≡ take buffer.limit (buffer.buffered ++ bytes))
      × ((write bytes buffer).1.limit ≡ buffer.limit)
unfolding write
write-buffered bytes buffer h =
    let room = buffer.limit - length buffer.buffered in
    ground (
      arith,
      take-append buffer.limit buffer.buffered bytes h,
      take_all room bytes,
      take_all (length bytes) bytes,
      take_nothing room bytes,
      append-nil buffer.buffered,
    )

-- Whatever the pieces in which a dry run prints its output, the buffer holds the first bytes of the
-- whole output, up to its limit.
pub write_all-buffered :
    (chunks : List Text) (buffer : LimitedOutputBuffer)
    → length buffer.buffered ≤ buffer.limit
    → (write_all chunks buffer).buffered ≡ take buffer.limit (buffer.buffered ++ concat chunks)
write_all-buffered [] buffer h =
    sym (
      ap (take buffer.limit) (append-nil buffer.buffered) ∙ take_all buffer.limit buffer.buffered h)
write_all-buffered (bytes ∷ rest) buffer h =
    let (written, limit) = write-buffered bytes buffer h in
    let after = (write bytes buffer).1 in
    let short = length-take_le buffer.limit (buffer.buffered ++ bytes) in
    write_all-buffered rest after (ground (arith, written, limit, short))
    ∙ ap₂ (λ n xs. take n (xs ++ concat rest)) limit written
    ∙ take-take_append buffer.limit (buffer.buffered ++ bytes) (concat rest)
    ∙ ap (take buffer.limit) (append_assoc buffer.buffered bytes (concat rest))
