-- ===== src/Config.antt =====
-- The text of configurations: `tokenizeConfig` and `deviceFileFromData` of internal/manager/state.go.
-- `strconv.Unquote` is not code of the repository: it is the argument `unquote`. A loop over the
-- offsets of the bytes is recursion on the bytes, with the state of the inner loops as a mode.
mod Quoting
mod Read
mod Limit
mod Render
mod RoundTrip
mod Adopt
mod Adopted
mod Tests
use kmonad_device_manager.Prelude.{
  ℕ, Bool, true, false, ◌&&◌, ◌||◌, Option, none, some, List, [], ◌∷◌, ◌++◌, Text, text, text_eq,
  ◌==◌, if◌then◌else◌,
}

-- The kinds '(' and ')', 's' and 'q'.
pub data ConfigToken : Type 0 where
  open_paren close_paren : ConfigToken
  symbol quoted : (value : Text) → ConfigToken

pub data Tokenized : Type 0 where
  tokens : List ConfigToken → Tokenized
  invalid_string unterminated_string : Tokenized

abbrev pub cons_token : ConfigToken → Tokenized → Tokenized
cons_token t (tokens ts) = tokens (t ∷ ts)
cons_token t invalid_string = invalid_string
cons_token t unterminated_string = unterminated_string

-- Between tokens, in a comment, or in a symbol or a string of which these bytes were read, the
-- quote that opens the string included; `in_escape` is behind a backslash in a string.
pub data LexMode : Type 0 where
  between in_comment : LexMode
  in_symbol in_string in_escape : (taken : Text) → LexMode

abbrev pub is_space : ℕ → Bool
is_space c = c == b' ' || (c == b'\t' || (c == b'\r' || c == b'\n'))

-- The bytes of "();\t\r\n ".
abbrev pub is_delimiter : ℕ → Bool
is_delimiter c = c == b'(' || (c == b')' || (c == b';' || is_space c))

-- The outer switch; `next` is the rest of the text from a mode on.
abbrev pub start_byte : (LexMode → Tokenized) → ℕ → Tokenized
start_byte next c =
    if c == b';'
    then next in_comment
    else if is_space c
    then next between
    else if c == b'('
    then cons_token open_paren (next between)
    else if c == b')'
    then cons_token close_paren (next between)
    else if c == b'"'
    then next (in_string (c ∷ []))
    else next (in_symbol (c ∷ []))

abbrev pub string_token : Option Text → Tokenized → Tokenized
string_token none rest = invalid_string
string_token (some value) rest = cons_token (quoted value) rest

module _ (unquote : Text → Option Text) where
  abbrev pub lex_byte : (LexMode → Tokenized) → LexMode → ℕ → Tokenized
  lex_byte next between c = start_byte next c
  lex_byte next in_comment c = if c == b'\n' then next between else next in_comment
  lex_byte next (in_symbol taken) c =
      if is_delimiter c
      then cons_token (symbol taken) (start_byte next c)
      else next (in_symbol (taken ++ c ∷ []))
  lex_byte next (in_string taken) c =
      if c == b'\\'
      then next (in_escape (taken ++ c ∷ []))
      else if c == b'"'
      then string_token (unquote (taken ++ c ∷ [])) (next between)
      else next (in_string (taken ++ c ∷ []))
  lex_byte next (in_escape taken) c = next (in_string (taken ++ c ∷ []))

  abbrev pub lex_end : LexMode → Tokenized
  lex_end between = tokens []
  lex_end in_comment = tokens []
  lex_end (in_symbol taken) = tokens (symbol taken ∷ [])
  lex_end (in_string taken) = unterminated_string
  lex_end (in_escape taken) = unterminated_string

  unfoldable pub lex : LexMode → Text → Tokenized
  lex mode [] = lex_end mode
  lex mode (c ∷ cs) = lex_byte (λ (m : LexMode). lex m cs) mode c

  unfoldable pub tokenize_config : Text → Tokenized
  tokenize_config source = lex between source

-- `input ( device-file "..."`, at the head of the tokens.
abbrev pub input_device : List ConfigToken → Option Text
input_device (symbol a ∷ open_paren ∷ symbol b ∷ quoted path ∷ rest) =
    if text_eq a (text "input") && text_eq b (text "device-file") then some path else none
input_device _ = none

-- The loop of `deviceFileFromData`; no device is the empty path.
unfoldable pub find_device : List ConfigToken → Text
find_device [] = []
find_device (t ∷ ts) = elim (input_device (t ∷ ts)) [ some path ↦ path | none ↦ find_device ts ]

pub data DeviceFile : Type 0 where
  device_file : (path : Text) → DeviceFile
  bad_text : DeviceFile

abbrev pub device_of_tokens : Tokenized → DeviceFile
device_of_tokens (tokens ts) = device_file (find_device ts)
device_of_tokens invalid_string = bad_text
device_of_tokens unterminated_string = bad_text

unfoldable pub device_file_from_data : (Text → Option Text) → Text → DeviceFile
device_file_from_data unquote source = device_of_tokens (tokenize_config unquote source)
