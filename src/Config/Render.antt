-- ===== src/Config/Render.antt =====
-- The text that is rendered for a managed configuration: `RenderKMonadInput` and
-- `RenderKMonadDefcfg` of internal/platform/linux.go, and `containsManagerOwnedConfiguration` and the
-- end of `renderManagedConfigurationWithSourceMap` of internal/manager/render.go.
use kmonad_device_manager.Prelude.{
  Bool, true, false, ◌||◌, Option, none, some, List, [], ◌∷◌, ◌++◌, Text, text, text_eq, ◌==◌,
  if◌then◌else◌,
}
use kmonad_device_manager.Config.{
  ConfigToken, symbol, tokens, invalid_string, unterminated_string, tokenize_config,
}

module _ (quote : Text → Text) where
  abbrev pub input_form : Text → Text
  input_form path = text "input (device-file " ++ (quote path ++ text ")")

  -- `none` is an error: the device is not connected.
  unfoldable pub render_kmonad_input : Bool → Text → Option Text
  render_kmonad_input is_connected path = if is_connected then some (input_form path) else none

  abbrev pub defcfg_form : Text → Text → Text
  defcfg_form input output_name =
      text "(defcfg\n  "
      ++ (input ++ (text "\n  output (uinput-sink " ++ (quote output_name ++ text ")\n)")))

  unfoldable pub render_kmonad_defcfg : (Text → Bool) → Bool → Text → Text → Option Text
  render_kmonad_defcfg is_blank is_connected input_path output_name =
      elim (render_kmonad_input is_connected input_path) [
        | none ↦ none
        | some input ↦ if is_blank output_name then none else some (defcfg_form input output_name)
      ]

-- The complete configuration: the form, and the behavior if there is one.
unfoldable pub rendered_content : Text → Text → Text
rendered_content defcfg behavior =
    if text_eq behavior []
    then defcfg ++ text "\n"
    else defcfg ++ (text "\n" ++ (behavior ++ text "\n"))

abbrev pub is_manager_word : Text → Bool
is_manager_word value =
    text_eq value (text "defcfg")
    || (text_eq value (text "device-file") || text_eq value (text "uinput-sink"))

abbrev pub is_manager_token : ConfigToken → Bool
is_manager_token (symbol value) = is_manager_word value
is_manager_token _ = false

unfoldable pub has_manager_token : List ConfigToken → Bool
has_manager_token [] = false
has_manager_token (t ∷ ts) = if is_manager_token t then true else has_manager_token ts

-- `strings.Contains`
abbrev pub starts_with : Text → Text → Bool
starts_with [] bytes = true
starts_with (x ∷ xs) [] = false
starts_with (x ∷ xs) (y ∷ ys) = if x == y then starts_with xs ys else false

unfoldable pub contains : Text → Text → Bool
contains part [] = starts_with part []
contains part (c ∷ cs) = if starts_with part (c ∷ cs) then true else contains part cs

-- The test of a behavior that has no tokens.
unfoldable pub mentions_manager_word : Text → Bool
mentions_manager_word behavior =
    contains (text "(defcfg") behavior
    || (contains (text "device-file") behavior || contains (text "uinput-sink") behavior)

unfoldable pub contains_manager_owned_configuration : (Text → Option Text) → Text → Bool
contains_manager_owned_configuration unquote behavior = elim (tokenize_config unquote behavior) [
  | tokens ts ↦ has_manager_token ts
  | invalid_string ↦ mentions_manager_word behavior
  | unterminated_string ↦ mentions_manager_word behavior
]
