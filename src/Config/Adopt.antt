-- ===== src/Config/Adopt.antt =====
-- The adoption of a hand-written configuration in internal/manager/adopt.go: `sExpressionEnd`,
-- `canonicalInputDefcfg` and `managedModelFromExternal`. `strings.TrimSpace` is the argument `trim`.
use kmonad_device_manager.Prelude.{
  ℕ, ◌+◌, ◌-◌, ◌&&◌, Option, none, some, List, [], ◌∷◌, ◌++◌, Text, text, text_eq, ◌==◌,
  if◌then◌else◌, take, drop,
}
use kmonad_device_manager.Config.{
  ConfigToken, open_paren, close_paren, symbol, quoted, Tokenized, tokens, tokenize_config,
}
use kmonad_device_manager.Config.Render.{starts_with, contains_manager_owned_configuration}

-- `bytes.Index`, from an offset on.
unfoldable pub index_from : ℕ → Text → Text → Option ℕ
index_from offset part [] = if starts_with part [] then some offset else none
index_from offset part (c ∷ cs) =
    let later = index_from (offset + 1) part cs in
    if starts_with part (c ∷ cs) then some offset else later

pub data ScanMode : Type 0 where
  in_code in_quotes behind_backslash in_remark : ScanMode

-- The loop of `sExpressionEnd`: `depth` is the number of opened forms less that of closed ones.
unfoldable pub scan : ScanMode → (opened closed offset : ℕ) → Text → Option ℕ
scan mode opened closed offset [] = none
scan in_quotes opened closed offset (c ∷ cs) =
    scan (if c == b'\\' then behind_backslash else if c == b'"' then in_code else in_quotes) opened
      closed (offset + 1) cs
scan behind_backslash opened closed offset (c ∷ cs) = scan in_quotes opened closed (offset + 1) cs
scan in_remark opened closed offset (c ∷ cs) =
    scan (if c == b'\n' then in_code else in_remark) opened closed (offset + 1) cs
scan in_code opened closed offset (c ∷ cs) =
    let more =
      scan (if c == b'"' then in_quotes else if c == b';' then in_remark else in_code)
        (if c == b'(' then opened + 1 else opened) (if c == b')' then closed + 1 else closed)
        (offset + 1) cs in
    if c == b')' && opened == closed + 1 then some (offset + 1) else more

unfoldable pub s_expression_end : Text → ℕ → Option ℕ
s_expression_end content start = scan in_code 0 0 start (drop start content)

-- The path of a form `(defcfg input (device-file "..."))`.
unfoldable pub canonical_path : List ConfigToken → Option Text
canonical_path
      (open_paren
        ∷ symbol a
        ∷ symbol b
        ∷ open_paren
        ∷ symbol c
        ∷ quoted path
        ∷ close_paren
        ∷ close_paren
        ∷ []) =
    if text_eq a (text "defcfg") && (text_eq b (text "input") && text_eq c (text "device-file"))
    then some path
    else none
canonical_path _ = none

pub record ManagedConfigurationModel : Type 0 where
  pub device_id : Text
  pub behavior : Text

pub data Adoption : Type 0 where
  adopted : ManagedConfigurationModel → Adoption
  refused : (reason : Text) → Adoption

abbrev pub lossy_form : Adoption
lossy_form =
    refused (text "external configuration defcfg has options that cannot be adopted losslessly")

module _ (unquote : Text → Option Text) (trim : Text → Text) where
  abbrev pub check_behavior : Text → Text → Adoption
  check_behavior device_id behavior =
      if contains_manager_owned_configuration unquote behavior
      then refused (
          text
            "external configuration contains additional manager-owned configuration that cannot be adopted losslessly")
      else adopted (record { device_id = device_id; behavior = behavior })

  abbrev pub check_form : Text → Text → Text → Tokenized → Adoption
  check_form device_id before after (tokens ts) = elim (canonical_path ts) [
    | none ↦ lossy_form
    | some path ↦ check_behavior device_id (trim (before ++ after))
  ]
  check_form device_id before after _ = lossy_form

  unfoldable pub adopt_form : Text → Text → ℕ → Adoption
  adopt_form content device_id start = elim (s_expression_end content start) [
    | none ↦ refused (text "external configuration has an unterminated defcfg form")
    | some end ↦
        let form = take (end - start) (drop start content) in
        check_form device_id (take start content) (drop end content) (tokenize_config unquote form)
  ]

  unfoldable pub managed_model_from_external : Text → Text → Adoption
  managed_model_from_external content device_id =
      if text_eq device_id []
      then refused (text "external configuration device is unavailable or not representable")
      else elim (index_from 0 (text "(defcfg") content) [
        | none ↦ refused (text "external configuration has no representable defcfg input form")
        | some start ↦ adopt_form content device_id start
      ]
