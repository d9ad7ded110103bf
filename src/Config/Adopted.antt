-- ===== src/Config/Adopted.antt =====
-- What an adoption in internal/manager/adopt.go takes from the text, and what it leaves.
use kmonad_device_manager.Prelude.{
  ℕ, zero, suc, ◌+◌, ◌-◌, ◌≤◌, ◌<◌, ◌≡◌, ◌⊎◌, ◌∙◌, inl, inr, refl, sym, ap, Bool, true, false,
  Option, some, List, [], ◌∷◌, ◌++◌, Text, text, text_eq, text_eq_iff, arith, take, drop, drop-drop,
  Bool-cases, Option-cases, if◌then◌else◌, ◌==◌,
}
use kmonad_device_manager.Config.{
  ConfigToken, open_paren, close_paren, symbol, quoted, Tokenized, tokens, invalid_string,
  unterminated_string, tokenize_config, find_device, input_device, device_file, bad_text,
  device_of_tokens, device_file_from_data,
}
use kmonad_device_manager.Config.Render.{contains_manager_owned_configuration, has_manager_token}
use kmonad_device_manager.Config.Adopt.{
  ScanMode, in_code, in_quotes, behind_backslash, in_remark, scan, s_expression_end, canonical_path,
  ManagedConfigurationModel, adopted, check_form, adopt_form, managed_model_from_external,
  index_from,
}

-- The tokens of the only form that is adopted.
abbrev pub canonical_tokens : Text → List ConfigToken
canonical_tokens path =
    open_paren
    ∷ symbol (text "defcfg")
    ∷ symbol (text "input")
    ∷ open_paren
    ∷ symbol (text "device-file")
    ∷ quoted path
    ∷ close_paren
    ∷ close_paren
    ∷ []

canonical_path-tokens :
    (ts : List ConfigToken) (path : Text)
    → canonical_path ts ≡ some path
    → ts ≡ canonical_tokens path
unfolding canonical_path
canonical_path-tokens
      (open_paren
        ∷ symbol a
        ∷ symbol b
        ∷ open_paren
        ∷ symbol c
        ∷ quoted p
        ∷ close_paren
        ∷ close_paren
        ∷ [])
      path e =
    ground (
      arith,
      text_eq_iff a (text "defcfg"),
      text_eq_iff b (text "input"),
      text_eq_iff c (text "device-file"),
    )
canonical_path-tokens _ path e = cc

-- The end lies behind the start, by the bytes that were scanned.
scan-lt :
    (mode : ScanMode) (opened closed offset end : ℕ) (bytes : Text)
    → scan mode opened closed offset bytes ≡ some end
    → offset < end
unfolding scan
scan-lt mode opened closed offset end [] e = cc
scan-lt in_quotes opened closed offset end (c ∷ cs) e = omega (
  arith,
  scan-lt (if c == b'\\' then behind_backslash else if c == b'"' then in_code else in_quotes) opened
      closed (offset + 1) end cs e,
)
scan-lt behind_backslash opened closed offset end (c ∷ cs) e =
    omega (arith, scan-lt in_quotes opened closed (offset + 1) end cs e)
scan-lt in_remark opened closed offset end (c ∷ cs) e =
    omega (
      arith,
      scan-lt (if c == b'\n' then in_code else in_remark) opened closed (offset + 1) end cs e,
    )
scan-lt in_code opened closed offset end (c ∷ cs) e =
    let mode = if c == b'"' then in_quotes else if c == b';' then in_remark else in_code in
    ground (
      arith,
      scan-lt mode (if c == b'(' then opened + 1 else opened)
          (if c == b')' then closed + 1 else closed) (offset + 1) end cs,
    )

take-drop : (n : ℕ) (xs : Text) → take n xs ++ drop n xs ≡ xs
take-drop zero xs = refl
take-drop (suc n) [] = refl
take-drop (suc n) (x ∷ xs) = ap (◌∷◌ x) (take-drop n xs)

-- The text before a form, the form and the text behind it.
split_at :
    (start end : ℕ) (content : Text)
    → start ≤ end
    → content ≡ take start content ++ (take (end - start) (drop start content) ++ drop end content)
split_at start end content le =
    let whole = take-drop start content in
    let rest = take-drop (end - start) (drop start content) in
    let later = drop-drop (end - start) start content in
    let sum : start + (end - start) ≡ end = omega arith in
    let later_end : drop (end - start) (drop start content) ≡ drop end content =
      later ∙ ap (λ (k : ℕ). drop k content) sum in
    sym whole
    ∙ ap (◌++◌ (take start content))
        (sym rest ∙ ap (◌++◌ (take (end - start) (drop start content))) later_end)

-- What is adopted: the text is a form between two other texts; the form has the tokens of
-- `(defcfg input (device-file "path"))` and no other; the behavior is the two other texts, one behind
-- the other, but for white space at its ends; it has no word that the manager owns, and names no
-- device itself, if it can be read.
pub record IsAdoption (unquote : Text → Option Text) (is_blank : Text → Bool) (content : Text)
    (m : ManagedConfigurationModel) : Type 0 where
  pub before : Text
  pub form : Text
  pub after : Text
  pub path : Text
  pub left : Text
  pub right : Text
  pub splits : content ≡ before ++ (form ++ after)
  pub is_canonical : tokenize_config unquote form ≡ tokens (canonical_tokens path)
  pub is_rest : before ++ after ≡ left ++ (m.behavior ++ right)
  pub left_is_blank : is_blank left ≡ true
  pub right_is_blank : is_blank right ≡ true
  pub is_free : contains_manager_owned_configuration unquote m.behavior ≡ false
  pub names_no_device :
      (device_file_from_data unquote m.behavior ≡ device_file [])
      ⊎ (device_file_from_data unquote m.behavior ≡ bad_text)

-- What `strings.TrimSpace` documents: it takes white space off both ends.
abbrev pub Trims : (Text → Bool) → Text → Text → Type 0
Trims is_blank t trimmed =
    (left : Text) × (right : Text) × (is_blank left ≡ true)
    × (is_blank right ≡ true)
    × (t ≡ left ++ (trimmed ++ right))

input_device-named :
    (ts : List ConfigToken) (path : Text)
    → input_device ts ≡ some path
    → has_manager_token ts ≡ true
unfolding has_manager_token
input_device-named (symbol a ∷ open_paren ∷ symbol b ∷ quoted p ∷ rest) path e =
    ground (arith, e, text_eq_iff b (text "device-file"))
input_device-named _ path e = cc

-- Without the word `device-file` no device is named.
find_device-free : (ts : List ConfigToken) → has_manager_token ts ≡ false → find_device ts ≡ []
unfolding find_device has_manager_token
find_device-free [] free = refl
find_device-free (t ∷ ts) free = elim (Option-cases (input_device (t ∷ ts))) [
  | inl other ↦ ground (arith, other, free, find_device-free ts)
  | inr (path, named) ↦ absurd (ground (arith, input_device-named (t ∷ ts) path named, free))
]

tokens-free :
    (unquote : Text → Option Text) (behavior : Text) (t : Tokenized)
    → tokenize_config unquote behavior ≡ t
    → contains_manager_owned_configuration unquote behavior ≡ false
    → (device_of_tokens t ≡ device_file []) ⊎ (device_of_tokens t ≡ bad_text)
unfolding contains_manager_owned_configuration
tokens-free unquote behavior (tokens ts) e free =
    inl (ap device_file (find_device-free ts (ground (arith, e, free))))
tokens-free unquote behavior invalid_string e free = inr refl
tokens-free unquote behavior unterminated_string e free = inr refl

free-device :
    (unquote : Text → Option Text) (behavior : Text)
    → contains_manager_owned_configuration unquote behavior ≡ false
    → (device_file_from_data unquote behavior ≡ device_file [])
      ⊎ (device_file_from_data unquote behavior ≡ bad_text)
unfolding device_file_from_data
free-device unquote behavior free =
    tokens-free unquote behavior (tokenize_config unquote behavior) refl free

s_expression_end-lt :
    (content : Text) (start end : ℕ) → s_expression_end content start ≡ some end → start < end
unfolding s_expression_end
s_expression_end-lt content start end e = scan-lt in_code 0 0 start end (drop start content) e

module _ (unquote : Text → Option Text) (trim : Text → Text) where
  check_form_sound :
      (device_id before after : Text) (t : Tokenized) (m : ManagedConfigurationModel)
      → check_form unquote trim device_id before after t ≡ adopted m
      → (path : Text) × (t ≡ tokens (canonical_tokens path))
        × (m.behavior ≡ trim (before ++ after))
        × (m.device_id ≡ device_id)
        × (contains_manager_owned_configuration unquote m.behavior ≡ false)
  check_form_sound device_id before after invalid_string m e = cc
  check_form_sound device_id before after unterminated_string m e = cc
  check_form_sound device_id before after (tokens ts) m e =
      elim (Option-cases (canonical_path ts)) [
        | inl other ↦ ground (arith, other)
        | inr (path, yes_path) ↦
            elim (Bool-cases
              (contains_manager_owned_configuration unquote (trim (before ++ after)))) [
                | inl owned ↦ ground (arith, yes_path, owned)
                | inr free ↦
                    let e' : record { device_id = device_id; behavior = trim (before ++ after) }
                        ≡ m =
                      ground (arith, yes_path, free) in
                    (
                      path,
                      ap tokens (canonical_path-tokens ts path yes_path),
                      ground arith,
                      ground arith,
                      ground (arith, free),
                    )
              ]
      ]

  adopt_form-IsAdoption :
      (is_blank : Text → Bool) (content device_id : Text) (start : ℕ)
      (m : ManagedConfigurationModel)
      → ((t : Text) → Trims is_blank t (trim t))
      → adopt_form unquote trim content device_id start ≡ adopted m
      → (m.device_id ≡ device_id) × IsAdoption unquote is_blank content m
  unfolding adopt_form
  adopt_form-IsAdoption is_blank content device_id start m trims e =
      elim (Option-cases (s_expression_end content start)) [
        | inl open_form ↦ absurd (ground (arith, open_form))
        | inr (end, closed_form) ↦
            let form = take (end - start) (drop start content) in
            let before = take start content in
            let after = drop end content in
            let (path, canonical, rest, device, free) =
              check_form_sound device_id before after (tokenize_config unquote form) m
                (ground (arith, closed_form)) in
            let far : start < end = s_expression_end-lt content start end closed_form in
            let (left, right, left_blank, right_blank, trimmed) = trims (before ++ after) in
            (
              device,
              record {
                before = before;
                form = form;
                after = after;
                path = path;
                left = left;
                right = right;
                splits = split_at start end content (omega arith);
                is_canonical = canonical;
                is_rest = trimmed ∙ ap (λ (t : Text). left ++ (t ++ right)) (sym rest);
                left_is_blank = left_blank;
                right_is_blank = right_blank;
                is_free = free;
                names_no_device = free-device unquote m.behavior free;
              },
            )
      ]

  -- Under the documented behavior of `strings.TrimSpace`: a text is adopted only with the device ID
  -- that was asked for, and only if it is a form with exactly the tokens of
  -- `(defcfg input (device-file "path"))`, so without any option, between two other texts. The
  -- behavior is exactly these two, one directly behind the other, save white space at the ends; it
  -- has no word that the manager owns, and if it can be read, it names no device.
  pub managed_model-IsAdoption :
      (is_blank : Text → Bool) (content device_id : Text) (m : ManagedConfigurationModel)
      → ((t : Text) → Trims is_blank t (trim t))
      → managed_model_from_external unquote trim content device_id ≡ adopted m
      → (m.device_id ≡ device_id) × IsAdoption unquote is_blank content m
  unfolding managed_model_from_external
  managed_model-IsAdoption is_blank content device_id m trims e =
      elim (Bool-cases (text_eq device_id [])) [
        | inl empty ↦ absurd (ground (arith, empty))
        | inr named ↦ elim (Option-cases (index_from 0 (text "(defcfg") content)) [
          | inl absent ↦ absurd (ground (arith, named, absent))
          | inr (start, found) ↦
              adopt_form-IsAdoption is_blank content device_id start m trims
                (ground (arith, named, found))
        ]
      ]
