-- ===== src/Config/RoundTrip.antt =====
-- What internal/manager/state.go reads in the text that internal/platform/linux.go renders.
use mathlib.Core.Path.{fun_ext}
use kmonad_device_manager.Prelude.{
  ◌≡◌, ◌∙◌, refl, inl, inr, subst, text_eq_iff, ap, Bool, true, false, Option, some, [], ◌∷◌, ◌++◌,
  Text, text, text_eq, ◌==◌, arith, append_assoc, Bool-cases,
}
use kmonad_device_manager.Config.{
  open_paren, close_paren, symbol, quoted, Tokenized, tokens, invalid_string, unterminated_string,
  cons_token, string_token, LexMode, between, in_comment, in_symbol, in_string, in_escape, lex,
  tokenize_config, find_device, DeviceFile, device_file, bad_text, lex_byte, device_of_tokens,
  device_file_from_data,
}
use kmonad_device_manager.Config.Quoting.{is_body, Quoting, quote}
use kmonad_device_manager.Config.Render.{
  render_kmonad_input, render_kmonad_defcfg, rendered_content, input_form, defcfg_form,
}

abbrev mode_of : Bool → Text → LexMode
mode_of true taken = in_escape taken
mode_of false taken = in_string taken

lex_string :
    (unquote : Text → Option Text) (escaped : Bool) (body taken rest : Text)
    → is_body escaped body ≡ true
    → lex unquote (mode_of escaped taken) (body ++ b'"' ∷ rest)
      ≡ string_token (unquote (taken ++ (body ++ b'"' ∷ []))) (lex unquote between rest)
unfolding lex
lex_string unquote true [] taken rest ends = cc
lex_string unquote false [] taken rest ends = refl
lex_string unquote true (c ∷ cs) taken rest ends =
    rw (append_assoc taken (c ∷ []) (cs ++ b'"' ∷ [])) at
      (lex_string unquote false cs (taken ++ c ∷ []) rest ends)
lex_string unquote false (c ∷ cs) taken rest ends = elim (Bool-cases (c == b'\\')) [
  | inl backslash ↦
      let more : is_body true cs ≡ true = ground (arith, backslash) in
      let later =
        rw (append_assoc taken (c ∷ []) (cs ++ b'"' ∷ [])) at
          (lex_string unquote true cs (taken ++ c ∷ []) rest more) in
      rw backslash later
  | inr plain ↦ elim (Bool-cases (c == b'"')) [
    | inl closing ↦ ground (arith, plain, closing)
    | inr other ↦
        let more : is_body false cs ≡ true = ground (arith, plain, other) in
        let later =
          rw (append_assoc taken (c ∷ []) (cs ++ b'"' ∷ [])) at
            (lex_string unquote false cs (taken ++ c ∷ []) rest more) in
        rw (plain, other) later
  ]
]

-- A quoted text is read as one token.
lex-quote :
    (q : Quoting) (v rest : Text)
    → lex q.unquote between (quote q v ++ rest) ≡ cons_token (quoted v) (lex q.unquote between rest)
unfolding lex
lex-quote q v rest =
    let whole = lex_string q.unquote false (q.body v) (b'"' ∷ []) rest (q.body_ends v) in
    rw (append_assoc (q.body v) (b'"' ∷ []) rest) (
      whole
      ∙ ap (λ (o : Option Text). string_token o (lex q.unquote between rest)) (q.unquote-quote v))

flat :
    (a i p c b n d rest : Text)
    → (a ++ ((i ++ (p ++ c)) ++ (b ++ (n ++ d)))) ++ rest
      ≡ a ++ (i ++ (p ++ (c ++ (b ++ (n ++ (d ++ rest))))))
flat a i p c b n d rest = simp append_assoc

-- The tokens before the path, between the path and the name, and behind the name.
abbrev opening : Tokenized → Tokenized
opening r = cons_token open_paren (
    cons_token (symbol (text "defcfg")) (
      cons_token (symbol (text "input"))
        (cons_token open_paren (cons_token (symbol (text "device-file")) r))))

abbrev output : Tokenized → Tokenized
output r = cons_token close_paren (
    cons_token (symbol (text "output"))
      (cons_token open_paren (cons_token (symbol (text "uinput-sink")) r)))

abbrev closing : Tokenized → Tokenized
closing r = cons_token close_paren (cons_token close_paren r)

lex-opening :
    (unquote : Text → Option Text) (rest : Text)
    → lex unquote between (text "(defcfg\n  " ++ (text "input (device-file " ++ rest))
      ≡ opening (lex unquote between rest)
unfolding lex
lex-opening unquote rest = refl

lex-output :
    (unquote : Text → Option Text) (rest : Text)
    → lex unquote between (text ")" ++ (text "\n  output (uinput-sink " ++ rest))
      ≡ output (lex unquote between rest)
unfolding lex
lex-output unquote rest = refl

lex-closing :
    (unquote : Text → Option Text) (rest : Text)
    → lex unquote between (text ")\n)" ++ rest) ≡ closing (lex unquote between rest)
unfolding lex
lex-closing unquote rest = refl

lex-defcfg_form :
    (q : Quoting) (path name rest : Text)
    → lex q.unquote between (defcfg_form (quote q) (input_form (quote q) path) name ++ rest)
      ≡ opening (
          cons_token
            (quoted path)
            (output (cons_token (quoted name) (closing (lex q.unquote between rest)))))
lex-defcfg_form q path name rest =
    let u = q.unquote in
    let behind = text ")\n)" ++ rest in
    let after_path = text ")" ++ (text "\n  output (uinput-sink " ++ (quote q name ++ behind)) in
    ap (lex u between) (
      flat (text "(defcfg\n  ") (text "input (device-file ") (quote q path) (text ")")
        (text "\n  output (uinput-sink ") (quote q name) (text ")\n)") rest)
    ∙ lex-opening u (quote q path ++ after_path)
    ∙ ap opening (
        lex-quote q path after_path
        ∙ ap (cons_token (quoted path)) (
            lex-output u (quote q name ++ behind)
            ∙ ap output
                (lex-quote q name behind ∙ ap (cons_token (quoted name)) (lex-closing u rest))))

lex-newline :
    (unquote : Text → Option Text) (behavior : Text) (mode : LexMode)
    → lex unquote mode (behavior ++ text "\n") ≡ lex unquote mode behavior
unfolding lex
lex-newline unquote [] between = refl
lex-newline unquote [] in_comment = refl
lex-newline unquote [] (in_symbol taken) = refl
lex-newline unquote [] (in_string taken) = refl
lex-newline unquote [] (in_escape taken) = refl
lex-newline unquote (c ∷ cs) mode =
    ap (λ (next : LexMode → Tokenized). lex_byte unquote next mode c)
      (fun_ext (λ (m : LexMode). lex-newline unquote cs m))

-- The device of a rendered configuration, by the tokens of its behavior.
abbrev pub rendered_device : Text → Tokenized → DeviceFile
rendered_device path (tokens ts) = device_file path
rendered_device path invalid_string = bad_text
rendered_device path unterminated_string = bad_text

first_device :
    (path name : Text) (rest : Tokenized)
    → device_of_tokens
        (opening (cons_token (quoted path) (output (cons_token (quoted name) (closing rest)))))
      ≡ rendered_device path rest
unfolding find_device
first_device path name (tokens ts) = refl
first_device path name invalid_string = refl
first_device path name unterminated_string = refl

device-defcfg_form :
    (q : Quoting) (path name rest : Text)
    → device_file_from_data q.unquote
        (defcfg_form (quote q) (input_form (quote q) path) name ++ rest)
      ≡ rendered_device path (lex q.unquote between rest)
unfolding device_file_from_data tokenize_config
device-defcfg_form q path name rest =
    ap device_of_tokens (lex-defcfg_form q path name rest)
    ∙ first_device path name (lex q.unquote between rest)

rendered_form :
    (quote : Text → Text) (is_blank : Text → Bool) (is_connected : Bool) (path name defcfg : Text)
    → render_kmonad_defcfg quote is_blank is_connected path name ≡ some defcfg
    → defcfg_form quote (input_form quote path) name ≡ defcfg
unfolding render_kmonad_defcfg render_kmonad_input
rendered_form quote is_blank is_connected path name defcfg rendered = ground arith

lex-framed :
    (unquote : Text → Option Text) (behavior : Text)
    → lex unquote between (text "\n" ++ (behavior ++ text "\n")) ≡ lex unquote between behavior
unfolding lex
lex-framed unquote behavior = lex-newline unquote behavior between

device-rendered_content :
    (q : Quoting) (path name behavior : Text)
    → device_file_from_data q.unquote
        (rendered_content (defcfg_form (quote q) (input_form (quote q) path) name) behavior)
      ≡ rendered_device path (tokenize_config q.unquote behavior)
unfolding rendered_content tokenize_config lex
device-rendered_content q path name behavior = elim (Bool-cases (text_eq behavior [])) [
  | inl empty ↦
      let e = (text_eq_iff behavior []).0 empty in
      rw (empty, e) (device-defcfg_form q path name (text "\n"))
  | inr written ↦ rw written (
      device-defcfg_form q path name (text "\n" ++ (behavior ++ text "\n"))
      ∙ ap (rendered_device path) (lex-framed q.unquote behavior))
]

-- The device that the supervisor reads in the text of a managed configuration is the node that the
-- text was rendered for, whatever the path, the name of the output and the behavior; a behavior
-- with a string that is not closed or not valid makes the whole text unreadable.
pub rendered_device_is_read :
    (q : Quoting) (is_blank : Text → Bool) (is_connected : Bool) (path name defcfg behavior : Text)
    → render_kmonad_defcfg (quote q) is_blank is_connected path name ≡ some defcfg
    → device_file_from_data q.unquote (rendered_content defcfg behavior)
      ≡ rendered_device path (tokenize_config q.unquote behavior)
rendered_device_is_read q is_blank is_connected path name defcfg behavior rendered =
    let form = rendered_form (quote q) is_blank is_connected path name defcfg rendered in
    subst
      (λ (d : Text).
        device_file_from_data q.unquote (rendered_content d behavior)
        ≡ rendered_device path (tokenize_config q.unquote behavior))
      form (device-rendered_content q path name behavior)
