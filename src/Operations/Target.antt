-- ===== src/Operations/Target.antt =====
-- `inputDeviceTarget` of internal/manager/inputscan.go, which `startIdentification` of
-- internal/manager/identify.go repeats: from a public device ID to the node that is observed. What
-- the registry, the discovery and the host know is an argument.
use kmonad_device_manager.Prelude.{
  ℕ, ◌*◌, ◌%◌, ◌^◌, Bool, true, false, not, ◌||◌, Option, none, some, List, [], ◌∷◌, Text, text,
  Text-eq, text_eq, ltb, leb, ◌==◌, if◌then◌else◌,
}
use kmonad_device_manager.Prelude.Dict.{Dict, lookup}
use kmonad_device_manager.Domain.{ApiError}
use kmonad_device_manager.Domain.Resources.{
  Device, DeviceRole, input_role, manager_output, DeviceAvailability, connected,
}
use kmonad_device_manager.Service.{api_error}

pub record DiscoveredKeyboard : Type 0 where
  pub device : Device
  pub node_path : Text

-- The registry after its refresh, the discovered keyboards (`none` is an error), and the identity
-- of a node (`none` is an error).
pub record Discovery : Type 0 where
  pub devices : Dict Text Device
  pub discovered : Option (List DiscoveredKeyboard)
  pub device_id : Text → Option Text

pub data Target : Type 0 where
  target_of : DiscoveredKeyboard → (platform_id : Text) → Target
  no_target : ApiError → Target

abbrev pub is_manager_output : DeviceRole → Bool
is_manager_output input_role = false
is_manager_output manager_output = true

abbrev pub is_output_device : Option Device → Bool
is_output_device none = false
is_output_device (some device) = is_manager_output device.role

abbrev pub is_connected : DeviceAvailability → Bool
is_connected connected = true
is_connected _ = false

unfoldable pub find_keyboard : Text → List DiscoveredKeyboard → Option DiscoveredKeyboard
find_keyboard id [] = none
find_keyboard id (k ∷ ks) = if text_eq k.device.id id then some k else find_keyboard id ks

unfoldable pub check_target : Discovery → DiscoveredKeyboard → Target
check_target d target =
    if not (is_connected target.device.availability)
    then no_target
        (api_error (text "temporary_unavailable") (text "device is not connected and accessible"))
    else elim (d.device_id target.node_path) [
      | none ↦
          no_target
            (api_error (text "temporary_unavailable") (text "device is no longer available"))
      | some platform_id ↦ target_of target platform_id
    ]

unfoldable pub input_device_target : Discovery → Text → Target
input_device_target d id =
    if text_eq id []
    then no_target (api_error (text "invalid_request") (text "device_id is required"))
    else if is_output_device (lookup id d.devices)
    then no_target (
        api_error (text "device_not_configurable")
          (text "device is a manager-owned virtual output"))
    else elim d.discovered [
      | none ↦
          no_target
            (api_error (text "temporary_unavailable") (text "keyboard discovery is unavailable"))
      | some keyboards ↦ elim (find_keyboard id keyboards) [
        | none ↦ no_target (api_error (text "not_found") (text "device does not exist"))
        | some target ↦ check_target d target
      ]
    ]

abbrev pub millisecond : ℕ
millisecond = 10 ^ 6

abbrev pub default_timeout : ℕ
default_timeout = 15000 * millisecond

abbrev pub min_timeout : ℕ
min_timeout = 1000 * millisecond

abbrev pub max_timeout : ℕ
max_timeout = 30000 * millisecond

-- `TimeoutMS` is an int64 as a bit pattern, and so is the duration: the product wraps, and a pattern
-- from 2 ^ 63 on is negative. `none` is a refusal.
unfoldable pub session_timeout : ℕ → Option ℕ
session_timeout timeout_ms =
    let timeout = if timeout_ms == 0 then default_timeout else timeout_ms * millisecond % 2 ^ 64 in
    if leb (2 ^ 63) timeout || (ltb timeout min_timeout || ltb max_timeout timeout)
    then none
    else some timeout
