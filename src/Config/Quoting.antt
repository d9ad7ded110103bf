-- ===== src/Config/Quoting.antt =====
-- What internal/manager/state.go and internal/platform/linux.go rely on of `strconv.Quote` and
-- `strconv.Unquote`, and a pair of functions that does it.
use kmonad_device_manager.Prelude.{
  ℕ, ◌≡◌, refl, Bool, true, false, Option, none, some, [], ◌∷◌, ◌++◌, Text, ◌==◌, if◌then◌else◌,
  arith,
}

-- The bytes between the quotes: no quote that is not escaped, and no backslash at the end. The flag
-- says that a backslash came before.
abbrev pub is_body : Bool → Text → Bool
is_body true [] = false
is_body false [] = true
is_body true (c ∷ cs) = is_body false cs
is_body false (c ∷ cs) =
    let escaped = is_body true cs in
    let rest = is_body false cs in if c == b'\\' then escaped else if c == b'"' then false else rest

-- `quote v` is `body v` between quotes, and `unquote` undoes it.
pub record Quoting : Type 0 where
  pub body : Text → Text
  pub unquote : Text → Option Text
  pub body_ends : (v : Text) → is_body false (body v) ≡ true
  pub unquote-quote : (v : Text) → unquote (b'"' ∷ (body v ++ b'"' ∷ [])) ≡ some v

abbrev pub quote : Quoting → Text → Text
quote q v = b'"' ∷ (q.body v ++ b'"' ∷ [])

-- Quotes and backslashes are escaped; all other bytes stand for themselves.
abbrev pub plain_body : Text → Text
plain_body [] = []
plain_body (c ∷ cs) =
    let rest = plain_body cs in
    if c == b'\\' then c ∷ c ∷ rest else if c == b'"' then b'\\' ∷ c ∷ rest else c ∷ rest

abbrev add_byte : ℕ → Option Text → Option Text
add_byte c none = none
add_byte c (some v) = some (c ∷ v)

-- Up to the quote that closes the string, which is the last byte.
unfoldable pub plain_value : Bool → Text → Option Text
plain_value escaped [] = none
plain_value true (c ∷ cs) = add_byte c (plain_value false cs)
plain_value false (c ∷ cs) =
    let after = plain_value true cs in
    let rest = plain_value false cs in
    if c == b'\\'
    then after
    else if c == b'"'
    then (elim cs [ [] ↦ some [] | _ ∷ _ ↦ none ])
    else add_byte c rest

unfoldable pub plain_unquote : Text → Option Text
plain_unquote [] = none
plain_unquote (c ∷ cs) = if c == b'"' then plain_value false cs else none

pub is_body-plain_body : (v : Text) → is_body false (plain_body v) ≡ true
is_body-plain_body [] = refl
is_body-plain_body (c ∷ cs) = ground (arith, is_body-plain_body cs)

plain_value-plain_body : (v : Text) → plain_value false (plain_body v ++ b'"' ∷ []) ≡ some v
unfolding plain_value
plain_value-plain_body [] = refl
plain_value-plain_body (c ∷ cs) = ground (arith, plain_value-plain_body cs)

pub plain_unquote-quote : (v : Text) → plain_unquote (b'"' ∷ (plain_body v ++ b'"' ∷ [])) ≡ some v
unfolding plain_unquote
plain_unquote-quote v = plain_value-plain_body v

abbrev pub plain_quoting : Quoting
plain_quoting = record {
  body = plain_body;
  unquote = plain_unquote;
  body_ends = is_body-plain_body;
  unquote-quote = plain_unquote-quote;
}
