-- ===== src/Config/Read.antt =====
-- Reading a configuration file in internal/manager/state.go: `readFileLimited`,
-- `readConfigDataWithLimit`, `removeConfigSnapshot`, `restoreBackoff` and `configuredDeviceAvailability`. What
-- the file system and the host answer is an argument.
use kmonad_device_manager.Prelude.{
  ℕ, ◌+◌, ◌-◌, ◌^◌, Bool, true, false, not, ◌&&◌, ◌||◌, Option, none, some, List, [], ◌∷◌, Text,
  text, text_eq, Text-eq, ltb, ◌==◌, if◌then◌else◌, take, length,
}
use kmonad_device_manager.Prelude.Dict.{Dict, insert}
use kmonad_device_manager.Domain.{ReasonCode}
use kmonad_device_manager.Domain.Resources.{
  DeviceAvailability, connected, disconnected, inaccessible, unsupported,
}
use kmonad_device_manager.Supervisor.{ConfigState, phase_failed, new_config_state}
use kmonad_device_manager.Config.{DeviceFile, device_file, bad_text, device_file_from_data}
use kmonad_device_manager.Config.Render.{starts_with}

-- An opened file: the size that `Stat` reports (`none` is an error), and the bytes that are there when
-- it is read (`none` is an error).
pub record OpenFile : Type 0 where
  pub size : Option ℕ
  pub bytes : Option Text

pub data FileRead : Type 0 where
  file_data : (bytes : Text) → FileRead
  bad_limit open_failed read_failed over_limit : FileRead

abbrev pub max_int64 : ℕ
max_int64 = 2 ^ 63 - 1

abbrev pub is_larger : Option ℕ → ℕ → Bool
is_larger none max_bytes = false
is_larger (some size) max_bytes = ltb max_bytes size

abbrev pub read_limit : ℕ → ℕ
read_limit max_bytes = if ltb max_bytes max_int64 then max_bytes + 1 else max_bytes

-- `io.ReadAll` of `io.LimitReader`, and the check behind it.
abbrev pub read_limited : ℕ → Option Text → FileRead
read_limited max_bytes none = read_failed
read_limited max_bytes (some bytes) =
    let taken = take (read_limit max_bytes) bytes in
    if ltb max_bytes (length taken) then over_limit else file_data taken

-- `maxBytes` is an int64 that is not negative; `none` is a file that cannot be opened.
unfoldable pub read_file_limited : ℕ → Option OpenFile → FileRead
read_file_limited max_bytes opened = if max_bytes == 0 then bad_limit else elim opened [
  | none ↦ open_failed
  | some file ↦
      if is_larger file.size max_bytes then over_limit else read_limited max_bytes file.bytes
]

-- The outcome of `readConfigDataWithLimit`.
pub data ConfigRead : Type 0 where
  config_data : (device signature bytes : Text) → ConfigRead
  no_signature config_changed bad_config : ConfigRead
  no_data : FileRead → ConfigRead

module _ (unquote : Text → Option Text) (hash : Text → Text) where
  abbrev pub config_of_data : Text → DeviceFile → ConfigRead
  config_of_data bytes (device_file path) = config_data path (hash bytes) bytes
  config_of_data bytes bad_text = bad_config

  abbrev pub check_signature : Text → Option Text → Text → ConfigRead
  check_signature before none bytes = no_signature
  check_signature before (some after) bytes =
      if not (text_eq before after)
      then config_changed
      else config_of_data bytes (device_file_from_data unquote bytes)

  abbrev pub config_of_read : Text → Option Text → FileRead → ConfigRead
  config_of_read before after (file_data bytes) = check_signature before after bytes
  config_of_read before after failure = no_data failure

  -- The signature of the file before and after the read; `none` is an error.
  unfoldable pub read_config_data : ℕ → Option Text → Option OpenFile → Option Text → ConfigRead
  read_config_data max_bytes before opened after = elim before [
    | none ↦ no_signature
    | some signature ↦ config_of_read signature after (read_file_limited max_bytes opened)
  ]

abbrev pub config_snapshot_prefix : Text
config_snapshot_prefix = text ".kmonad-device-manager-snapshot-"

-- What `os.Remove` says.
pub data Removal : Type 0 where
  removed missing removal_failed : Removal

abbrev pub is_removed : Removal → Bool
is_removed removed = true
is_removed missing = true
is_removed removal_failed = false

-- Whether there is an error, and whether `os.Remove` was called; `base` is `filepath.Base`.
unfoldable pub remove_config_snapshot : (Text → Text) → (Text → Removal) → Text → Bool × Bool
remove_config_snapshot base remove path =
    if text_eq path [] || not (starts_with config_snapshot_prefix (base path))
    then (false, false)
    else (not (is_removed (remove path)), true)

-- The fields of an entry of the status file that are restored, and its name.
pub record StatusConfig : Type 0 where
  pub name : Text
  pub failures : ℕ
  pub retry_after : ℕ
  pub failure_reason : Text
  pub last_known_good_signature : Text

abbrev pub is_blank_entry : StatusConfig → Bool
is_blank_entry item =
    item.failures == 0
    && (item.retry_after == 0
        && (text_eq item.failure_reason [] && text_eq item.last_known_good_signature []))

abbrev pub restored_state : StatusConfig → ConfigState
restored_state item = record new_config_state {
  phase = phase_failed;
  failures = item.failures;
  retry_after = item.retry_after;
  failure_reason = item.failure_reason;
  last_known_good_signature = item.last_known_good_signature;
}

-- `join` is `filepath.Join` with the configuration directory.
unfoldable pub restore_entries :
    (Text → Text) → List StatusConfig → Dict Text ConfigState → Dict Text ConfigState
restore_entries join [] states = states
restore_entries join (item ∷ items) states =
    restore_entries join items
      (if is_blank_entry item then states else insert (join item.name) (restored_state item) states)

-- `none` is a status file that is missing or cannot be read.
unfoldable pub restore_backoff :
    (Text → Text) → Option (List StatusConfig) → Dict Text ConfigState → Dict Text ConfigState
restore_backoff join status states = elim status [
  | none ↦ states
  | some items ↦ restore_entries join items states
]

unfoldable pub configured_device_availability :
    DeviceAvailability → DeviceAvailability × ReasonCode × Text
configured_device_availability inaccessible =
    (inaccessible, text "device_inaccessible", text "input device is inaccessible")
configured_device_availability unsupported =
    (unsupported, text "device_unsupported", text "input path is not a supported character device")
configured_device_availability disconnected =
    (disconnected, text "device_disconnected", text "input device is disconnected")
configured_device_availability _ =
    (connected, text "device_connected", text "input device is connected and accessible")
