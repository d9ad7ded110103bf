-- ===== src/Config/Limit.antt =====
-- The limit of `readFileLimited` in internal/manager/state.go, and what `readConfigDataWithLimit` says
-- of the file.
use kmonad_device_manager.Prelude.{
  ℕ, zero, suc, ◌+◌, ◌≤◌, ◌<◌, ◌≡◌, ◌⊎◌, inl, inr, refl, Option, some, [], ◌∷◌, Text, text_eq_iff,
  arith, take, length, Option-cases, ap,
}
use kmonad_device_manager.Config.{DeviceFile, device_file, bad_text, device_file_from_data}
use kmonad_device_manager.Config.Read.{
  OpenFile, FileRead, file_data, max_int64, read_limited, read_file_limited, config_data,
  read_config_data, config_of_read,
}

length-take : (n : ℕ) (xs : Text) → length (take n xs) ≤ n
length-take zero xs = omega arith
length-take (suc n) [] = omega arith
length-take (suc n) (x ∷ xs) = omega (arith, length-take n xs)

-- A prefix that is shorter than it may be is the whole.
take_short : (n : ℕ) (xs : Text) → length (take n xs) < n → take n xs ≡ xs
take_short zero xs h = absurd (omega arith)
take_short (suc n) [] h = refl
take_short (suc n) (x ∷ xs) h = ap (◌∷◌ x) (take_short n xs (omega arith))

read_limited_whole :
    (max_bytes : ℕ) (bytes result : Text)
    → max_bytes < max_int64
    → read_limited max_bytes (some bytes) ≡ file_data result
    → (result ≡ bytes) × (length bytes ≤ max_bytes)
read_limited_whole max_bytes bytes result small e =
    let limit = max_bytes + 1 in
    let fits : length (take limit bytes) ≤ max_bytes = ground arith in
    let whole = take_short limit bytes (omega arith) in
    (ground (arith, whole), ground (arith, ap length whole))

-- What is read is the whole file as it is then, and within the limit: no file is cut off, whatever
-- size was reported.
read_file_limited_whole :
    (max_bytes : ℕ) (file : OpenFile) (result : Text)
    → max_bytes < max_int64
    → read_file_limited max_bytes (some file) ≡ file_data result
    → (file.bytes ≡ some result) × (length result ≤ max_bytes)
unfolding read_file_limited
read_file_limited_whole max_bytes file result small e = elim (Option-cases file.bytes) [
  | inl unread ↦ ground (arith, unread)
  | inr (bytes, present) ↦ ground (arith, present, read_limited_whole max_bytes bytes result small)
]

DeviceFile-cases : (d : DeviceFile) → (d ≡ bad_text) ⊎ ((path : Text) × (d ≡ device_file path))
DeviceFile-cases bad_text = inl refl
DeviceFile-cases (device_file path) = inr (path, refl)

config_of_read_sound :
    (unquote : Text → Option Text) (hash : Text → Text) (mark : Text) (after : Option Text)
    (f : FileRead) (device signature bytes : Text)
    → config_of_read unquote hash mark after f ≡ config_data device signature bytes
    → (f ≡ file_data bytes)
      × (after ≡ some mark)
      × (signature ≡ hash bytes)
      × (device_file_from_data unquote bytes ≡ device_file device)
config_of_read_sound unquote hash mark after (file_data x) device signature bytes e =
    elim (DeviceFile-cases (device_file_from_data unquote x)) [
      | inl bad ↦ ground (arith, bad)
      | inr (path, good) ↦ elim (Option-cases after) [
        | inl gone ↦ ground (arith, gone)
        | inr (later, known) ↦ ground (arith, good, known, text_eq_iff mark later)
      ]
    ]
config_of_read_sound unquote hash mark after _ device signature bytes e = cc

-- A configuration that is read has the same signature before and after; its data is the whole
-- file, its digest and its device are those of that data.
pub read_config_data_sound :
    (unquote : Text → Option Text) (hash : Text → Text) (max_bytes : ℕ) (before after : Option Text)
    (file : OpenFile) (device signature bytes : Text)
    → max_bytes < max_int64
    → read_config_data unquote hash max_bytes before (some file) after
      ≡ config_data device signature bytes
    → (before ≡ after)
      × (file.bytes ≡ some bytes)
      × (length bytes ≤ max_bytes)
      × (signature ≡ hash bytes)
      × (device_file_from_data unquote bytes ≡ device_file device)
unfolding read_config_data
read_config_data_sound unquote hash max_bytes before after file device signature bytes small e =
    elim (Option-cases before) [
      | inl gone ↦ ground (arith, gone)
      | inr (mark, known) ↦ ground (
        arith,
        known,
        config_of_read_sound unquote hash mark after (read_file_limited max_bytes (some file))
            device signature bytes,
        read_file_limited_whole max_bytes file bytes small,
      )
    ]
