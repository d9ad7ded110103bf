-- ===== src/Config/Tests.antt =====
-- Runs of the reading, rendering and adoption of configurations at concrete inputs.
use kmonad_device_manager.Prelude.{
  ◌≤◌, ◌≡◌, refl, sym, append-nil, text_eq, Bool, true, false, none, some, [], ◌∷◌, Text, text,
  arith, length,
}
use kmonad_device_manager.Config.{
  tokens, symbol, close_paren, quoted, lex, tokenize_config, find_device, device_file,
  device_file_from_data, unterminated_string,
}
use kmonad_device_manager.Config.Quoting.{plain_quoting, plain_unquote, plain_value}
use kmonad_device_manager.Config.Render.{
  render_kmonad_input, render_kmonad_defcfg, rendered_content, has_manager_token,
  contains_manager_owned_configuration,
}
use kmonad_device_manager.Config.RoundTrip.{rendered_device, rendered_device_is_read}
use kmonad_device_manager.Config.Read.{OpenFile, read_file_limited, read_config_data}
use kmonad_device_manager.Config.Limit.{read_config_data_sound}
use kmonad_device_manager.Config.Adopt.{
  ManagedConfigurationModel, adopted, index_from, scan, s_expression_end, canonical_path,
  adopt_form, managed_model_from_external,
}
use kmonad_device_manager.Config.Adopted.{IsAdoption, Trims, managed_model-IsAdoption}

abbrev no_blank : Text → Bool
no_blank name = false

abbrev rendered : Text
rendered = text "(defcfg\n  input (device-file \"/dev/k\")\n  output (uinput-sink \"out\")\n)"

rendered_device_is_read_example :
    device_file_from_data plain_unquote (rendered_content rendered (text "(defsrc a)"))
    ≡ rendered_device (text "/dev/k") (tokenize_config plain_unquote (text "(defsrc a)"))
unfolding render_kmonad_defcfg render_kmonad_input
rendered_device_is_read_example =
    rendered_device_is_read plain_quoting no_blank true (text "/dev/k") (text "out") rendered
      (text "(defsrc a)") refl

tokens_of_comment :
    tokenize_config plain_unquote (text "a ; (b\n \"c;d\")")
    ≡ tokens (symbol (text "a") ∷ quoted (text "c;d") ∷ close_paren ∷ [])
unfolding tokenize_config lex plain_unquote plain_value
tokens_of_comment = refl

open_string : tokenize_config plain_unquote (text "\"a\\\"") ≡ unterminated_string
unfolding tokenize_config lex
open_string = refl

abbrev small_file : OpenFile
small_file = record { size = none; bytes = some (text "(defsrc a)") }

abbrev first_byte : Text → Text
first_byte [] = []
first_byte (c ∷ cs) = c ∷ []

read_config_data_sound_example :
    (some (text "1") ≡ some (text "1"))
    × (small_file.bytes ≡ some (text "(defsrc a)"))
    × (length (text "(defsrc a)") ≤ 10)
    × (text "(" ≡ first_byte (text "(defsrc a)"))
    × (device_file_from_data plain_unquote (text "(defsrc a)") ≡ device_file [])
unfolding read_config_data read_file_limited device_file_from_data tokenize_config lex find_device
read_config_data_sound_example =
    read_config_data_sound plain_unquote first_byte 10 (some (text "1")) (some (text "1"))
      small_file [] (text "(") (text "(defsrc a)") (omega arith) refl

abbrev written : Text
written = text ";; mine\n(defcfg input (device-file \"/dev/k\"))\n(defsrc a)"

abbrev same_text : Text → Text
same_text t = t

abbrev adopted_model : ManagedConfigurationModel
adopted_model = record { device_id = text "dev_1"; behavior = text ";; mine\n\n(defsrc a)" }

abbrev is_nothing : Text → Bool
is_nothing t = text_eq t []

-- Nothing to take off: a text without white space at its ends.
same_text-Trims : (t : Text) → Trims is_nothing t (same_text t)
same_text-Trims t = ([], [], refl, refl, sym (append-nil t))

managed_model-IsAdoption_example :
    (adopted_model.device_id ≡ text "dev_1")
    × IsAdoption plain_unquote is_nothing written adopted_model
unfolding managed_model_from_external index_from adopt_form s_expression_end scan tokenize_config
    lex plain_unquote plain_value canonical_path contains_manager_owned_configuration
    has_manager_token
managed_model-IsAdoption_example =
    managed_model-IsAdoption plain_unquote same_text is_nothing written (text "dev_1") adopted_model
      same_text-Trims refl

-- The comment in the form is not kept, and the symbols around the form become one.
comment_is_lost :
    managed_model_from_external plain_unquote same_text
      (text "x(defcfg ; my note\n input (device-file \"/dev/k\"))y")
      (text "dev_1")
    ≡ adopted (record { device_id = text "dev_1"; behavior = text "xy" })
unfolding managed_model_from_external index_from adopt_form s_expression_end scan tokenize_config
    lex plain_unquote plain_value canonical_path contains_manager_owned_configuration
    has_manager_token
comment_is_lost = refl
