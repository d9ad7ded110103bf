-- ===== src/Operations/Keys.antt =====
-- The key codes of internal/platform/keycodes.go, those of the Linux input event codes.
use kmonad_device_manager.Prelude.{ℕ}

pub data Key : Type 0 where
  key_esc key_1 key_2 key_3 key_4 key_5 key_6 key_7 key_8 key_9 key_0 key_minus key_equal : Key
  key_backspace key_tab key_q key_w key_e key_r key_t key_y key_u key_i key_o key_p : Key
  key_left_brace key_right_brace key_enter key_left_ctrl key_a key_s key_d key_f key_g : Key
  key_h key_j key_k key_l key_semicolon key_apostrophe key_grave key_left_shift : Key
  key_backslash key_z key_x key_c key_v key_b key_n key_m key_comma key_dot key_slash : Key
  key_right_shift key_kp_asterisk key_left_alt key_space key_caps_lock key_f1 key_f2 key_f3 : Key
  key_f4 key_f5 key_f6 key_f7 key_f8 key_f9 key_f10 key_num_lock key_scroll_lock key_kp7 : Key
  key_kp8 key_kp9 key_kp_minus key_kp4 key_kp5 key_kp6 key_kp_plus key_kp1 key_kp2 key_kp3 : Key
  key_kp0 key_kp_dot key_102_nd key_f11 key_f12 key_kp_enter key_right_ctrl key_kp_slash : Key
  key_sys_rq key_right_alt key_home key_up key_page_up key_left key_right key_end key_down : Key
  key_page_down key_insert key_delete key_mute key_volume_down key_volume_up key_pause : Key
  key_left_meta key_right_meta key_compose key_menu key_prog1 key_prog2 key_www key_mail : Key
  key_next_song key_play_pause key_previous_song key_stop_cd key_rewind key_home_page : Key
  key_refresh key_f13 key_f14 key_f15 key_f16 key_f17 key_f18 key_f19 key_f20 key_f21 : Key
  key_f22 key_f23 key_f24 key_prog3 key_prog4 key_fast_forward key_search : Key
  key_brightness_down key_brightness_up key_mic_mute : Key

-- The value of the constant.
abbrev pub key_code : Key → ℕ
key_code key_esc = 1
key_code key_1 = 2
key_code key_2 = 3
key_code key_3 = 4
key_code key_4 = 5
key_code key_5 = 6
key_code key_6 = 7
key_code key_7 = 8
key_code key_8 = 9
key_code key_9 = 10
key_code key_0 = 11
key_code key_minus = 12
key_code key_equal = 13
key_code key_backspace = 14
key_code key_tab = 15
key_code key_q = 16
key_code key_w = 17
key_code key_e = 18
key_code key_r = 19
key_code key_t = 20
key_code key_y = 21
key_code key_u = 22
key_code key_i = 23
key_code key_o = 24
key_code key_p = 25
key_code key_left_brace = 26
key_code key_right_brace = 27
key_code key_enter = 28
key_code key_left_ctrl = 29
key_code key_a = 30
key_code key_s = 31
key_code key_d = 32
key_code key_f = 33
key_code key_g = 34
key_code key_h = 35
key_code key_j = 36
key_code key_k = 37
key_code key_l = 38
key_code key_semicolon = 39
key_code key_apostrophe = 40
key_code key_grave = 41
key_code key_left_shift = 42
key_code key_backslash = 43
key_code key_z = 44
key_code key_x = 45
key_code key_c = 46
key_code key_v = 47
key_code key_b = 48
key_code key_n = 49
key_code key_m = 50
key_code key_comma = 51
key_code key_dot = 52
key_code key_slash = 53
key_code key_right_shift = 54
key_code key_kp_asterisk = 55
key_code key_left_alt = 56
key_code key_space = 57
key_code key_caps_lock = 58
key_code key_f1 = 59
key_code key_f2 = 60
key_code key_f3 = 61
key_code key_f4 = 62
key_code key_f5 = 63
key_code key_f6 = 64
key_code key_f7 = 65
key_code key_f8 = 66
key_code key_f9 = 67
key_code key_f10 = 68
key_code key_num_lock = 69
key_code key_scroll_lock = 70
key_code key_kp7 = 71
key_code key_kp8 = 72
key_code key_kp9 = 73
key_code key_kp_minus = 74
key_code key_kp4 = 75
key_code key_kp5 = 76
key_code key_kp6 = 77
key_code key_kp_plus = 78
key_code key_kp1 = 79
key_code key_kp2 = 80
key_code key_kp3 = 81
key_code key_kp0 = 82
key_code key_kp_dot = 83
key_code key_102_nd = 86
key_code key_f11 = 87
key_code key_f12 = 88
key_code key_kp_enter = 96
key_code key_right_ctrl = 97
key_code key_kp_slash = 98
key_code key_sys_rq = 99
key_code key_right_alt = 100
key_code key_home = 102
key_code key_up = 103
key_code key_page_up = 104
key_code key_left = 105
key_code key_right = 106
key_code key_end = 107
key_code key_down = 108
key_code key_page_down = 109
key_code key_insert = 110
key_code key_delete = 111
key_code key_mute = 113
key_code key_volume_down = 114
key_code key_volume_up = 115
key_code key_pause = 119
key_code key_left_meta = 125
key_code key_right_meta = 126
key_code key_compose = 127
key_code key_menu = 139
key_code key_prog1 = 148
key_code key_prog2 = 149
key_code key_www = 150
key_code key_mail = 155
key_code key_next_song = 163
key_code key_play_pause = 164
key_code key_previous_song = 165
key_code key_stop_cd = 166
key_code key_rewind = 168
key_code key_home_page = 172
key_code key_refresh = 173
key_code key_f13 = 183
key_code key_f14 = 184
key_code key_f15 = 185
key_code key_f16 = 186
key_code key_f17 = 187
key_code key_f18 = 188
key_code key_f19 = 189
key_code key_f20 = 190
key_code key_f21 = 191
key_code key_f22 = 192
key_code key_f23 = 193
key_code key_f24 = 194
key_code key_prog3 = 202
key_code key_prog4 = 203
key_code key_fast_forward = 208
key_code key_search = 217
key_code key_brightness_down = 224
key_code key_brightness_up = 225
key_code key_mic_mute = 248
