-- ===== src/Operations/Vocabulary.antt =====
-- The vocabulary kmonad-v1 of internal/manager/inputscan.go: `kmonadV1Tokens`, from key codes to the
-- names of keys in KMonad.
use kmonad_device_manager.Prelude.{ℕ, [], ◌∷◌, Text, text, Text-eq, nat_eq}
use kmonad_device_manager.Prelude.Dict.{Dict}
use kmonad_device_manager.Operations.Keys.{
  Key, key_code, key_esc, key_1, key_2, key_3, key_4, key_5, key_6, key_7, key_8, key_9, key_0,
  key_minus, key_equal, key_backspace, key_tab, key_q, key_w, key_e, key_r, key_t, key_y, key_u,
  key_i, key_o, key_p, key_left_brace, key_right_brace, key_enter, key_left_ctrl, key_a, key_s,
  key_d, key_f, key_g, key_h, key_j, key_k, key_l, key_semicolon, key_apostrophe, key_grave,
  key_left_shift, key_backslash, key_z, key_x, key_c, key_v, key_b, key_n, key_m, key_comma,
  key_dot, key_slash, key_right_shift, key_kp_asterisk, key_left_alt, key_space, key_caps_lock,
  key_f1, key_f2, key_f3, key_f4, key_f5, key_f6, key_f7, key_f8, key_f9, key_f10, key_num_lock,
  key_scroll_lock, key_kp7, key_kp8, key_kp9, key_kp_minus, key_kp4, key_kp5, key_kp6, key_kp_plus,
  key_kp1, key_kp2, key_kp3, key_kp0, key_kp_dot, key_102_nd, key_f11, key_f12, key_kp_enter,
  key_right_ctrl, key_kp_slash, key_sys_rq, key_right_alt, key_home, key_up, key_page_up, key_left,
  key_right, key_end, key_down, key_page_down, key_insert, key_delete, key_mute, key_volume_down,
  key_volume_up, key_pause, key_left_meta, key_right_meta, key_compose, key_menu, key_prog1,
  key_prog2, key_www, key_mail, key_next_song, key_play_pause, key_previous_song, key_stop_cd,
  key_rewind, key_home_page, key_refresh, key_f13, key_f14, key_f15, key_f16, key_f17, key_f18,
  key_f19, key_f20, key_f21, key_f22, key_f23, key_f24, key_prog3, key_prog4, key_fast_forward,
  key_search, key_brightness_down, key_brightness_up, key_mic_mute,
}

abbrev named : Key → Text → ℕ × Text
named key token = (key_code key, token)

unfoldable pub kmonad_v1_tokens : Dict ℕ Text
kmonad_v1_tokens =
    named key_esc (text "esc")
    ∷ named key_1 (text "1")
    ∷ named key_2 (text "2")
    ∷ named key_3 (text "3")
    ∷ named key_4 (text "4")
    ∷ named key_5 (text "5")
    ∷ named key_6 (text "6")
    ∷ named key_7 (text "7")
    ∷ named key_8 (text "8")
    ∷ named key_9 (text "9")
    ∷ named key_0 (text "0")
    ∷ named key_minus (text "-")
    ∷ named key_equal (text "=")
    ∷ named key_backspace (text "bspc")
    ∷ named key_tab (text "tab")
    ∷ named key_q (text "q")
    ∷ named key_w (text "w")
    ∷ named key_e (text "e")
    ∷ named key_r (text "r")
    ∷ named key_t (text "t")
    ∷ named key_y (text "y")
    ∷ named key_u (text "u")
    ∷ named key_i (text "i")
    ∷ named key_o (text "o")
    ∷ named key_p (text "p")
    ∷ named key_left_brace (text "[")
    ∷ named key_right_brace (text "]")
    ∷ named key_enter (text "ret")
    ∷ named key_left_ctrl (text "lctl")
    ∷ named key_a (text "a")
    ∷ named key_s (text "s")
    ∷ named key_d (text "d")
    ∷ named key_f (text "f")
    ∷ named key_g (text "g")
    ∷ named key_h (text "h")
    ∷ named key_j (text "j")
    ∷ named key_k (text "k")
    ∷ named key_l (text "l")
    ∷ named key_semicolon (text ";")
    ∷ named key_apostrophe (text "'")
    ∷ named key_grave (text "grv")
    ∷ named key_left_shift (text "lsft")
    ∷ named key_backslash (text "\\")
    ∷ named key_z (text "z")
    ∷ named key_x (text "x")
    ∷ named key_c (text "c")
    ∷ named key_v (text "v")
    ∷ named key_b (text "b")
    ∷ named key_n (text "n")
    ∷ named key_m (text "m")
    ∷ named key_comma (text ",")
    ∷ named key_dot (text ".")
    ∷ named key_slash (text "/")
    ∷ named key_right_shift (text "rsft")
    ∷ named key_kp_asterisk (text "kpasterisk")
    ∷ named key_left_alt (text "lalt")
    ∷ named key_space (text "spc")
    ∷ named key_caps_lock (text "caps")
    ∷ named key_f1 (text "f1")
    ∷ named key_f2 (text "f2")
    ∷ named key_f3 (text "f3")
    ∷ named key_f4 (text "f4")
    ∷ named key_f5 (text "f5")
    ∷ named key_f6 (text "f6")
    ∷ named key_f7 (text "f7")
    ∷ named key_f8 (text "f8")
    ∷ named key_f9 (text "f9")
    ∷ named key_f10 (text "f10")
    ∷ named key_num_lock (text "numlock")
    ∷ named key_scroll_lock (text "scrolllock")
    ∷ named key_kp7 (text "kp7")
    ∷ named key_kp8 (text "kp8")
    ∷ named key_kp9 (text "kp9")
    ∷ named key_kp_minus (text "kpminus")
    ∷ named key_kp4 (text "kp4")
    ∷ named key_kp5 (text "kp5")
    ∷ named key_kp6 (text "kp6")
    ∷ named key_kp_plus (text "kpplus")
    ∷ named key_kp1 (text "kp1")
    ∷ named key_kp2 (text "kp2")
    ∷ named key_kp3 (text "kp3")
    ∷ named key_kp0 (text "kp0")
    ∷ named key_kp_dot (text "kpdot")
    ∷ named key_102_nd (text "102nd")
    ∷ named key_f11 (text "f11")
    ∷ named key_f12 (text "f12")
    ∷ named key_kp_enter (text "kpenter")
    ∷ named key_right_ctrl (text "rctl")
    ∷ named key_kp_slash (text "kpslash")
    ∷ named key_sys_rq (text "sysrq")
    ∷ named key_right_alt (text "ralt")
    ∷ named key_home (text "home")
    ∷ named key_up (text "up")
    ∷ named key_page_up (text "pgup")
    ∷ named key_left (text "left")
    ∷ named key_right (text "right")
    ∷ named key_end (text "end")
    ∷ named key_down (text "down")
    ∷ named key_page_down (text "pgdn")
    ∷ named key_insert (text "ins")
    ∷ named key_delete (text "del")
    ∷ named key_mute (text "mute")
    ∷ named key_volume_down (text "volumedown")
    ∷ named key_volume_up (text "volumeup")
    ∷ named key_pause (text "pause")
    ∷ named key_left_meta (text "lmet")
    ∷ named key_right_meta (text "rmet")
    ∷ named key_compose (text "compose")
    ∷ named key_menu (text "menu")
    ∷ named key_prog1 (text "prog1")
    ∷ named key_prog2 (text "prog2")
    ∷ named key_www (text "www")
    ∷ named key_mail (text "mail")
    ∷ named key_next_song (text "nextsong")
    ∷ named key_play_pause (text "playpause")
    ∷ named key_previous_song (text "previoussong")
    ∷ named key_stop_cd (text "stopcd")
    ∷ named key_rewind (text "rewind")
    ∷ named key_home_page (text "homepage")
    ∷ named key_refresh (text "refresh")
    ∷ named key_f13 (text "f13")
    ∷ named key_f14 (text "f14")
    ∷ named key_f15 (text "f15")
    ∷ named key_f16 (text "f16")
    ∷ named key_f17 (text "f17")
    ∷ named key_f18 (text "f18")
    ∷ named key_f19 (text "f19")
    ∷ named key_f20 (text "f20")
    ∷ named key_f21 (text "f21")
    ∷ named key_f22 (text "f22")
    ∷ named key_f23 (text "f23")
    ∷ named key_f24 (text "f24")
    ∷ named key_prog3 (text "prog3")
    ∷ named key_prog4 (text "prog4")
    ∷ named key_fast_forward (text "fastforward")
    ∷ named key_search (text "search")
    ∷ named key_brightness_down (text "brightnessdown")
    ∷ named key_brightness_up (text "brightnessup")
    ∷ named key_mic_mute (text "micmute")
    ∷ []
