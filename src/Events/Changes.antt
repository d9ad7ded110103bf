-- ===== src/Events/Changes.antt =====
-- `publishStateChangesBetween` and `publishOperationChange` of internal/manager/events.go: the events
-- that a change of the public state gives. `reflect.DeepEqual` is a parameter for each type. The
-- clock gives the time of each event that is published.
use kmonad_device_manager.Prelude.{
  ℕ, ◌+◌, Bool, true, false, not, ◌||◌, Option, none, some, List, [], ◌∷◌, ◌++◌, Text, Text-eq,
  text, text_eq, ◌==◌, if◌then◌else◌, is_some,
}
use kmonad_device_manager.Prelude.Dict.{Dict, lookup}
use kmonad_device_manager.Domain.{
  Operation, operation_rejected, rolled_back, Diagnostic, ResourceKind,
}
use kmonad_device_manager.Domain.Resources.{
  Device, Configuration, RuntimeState, PublicState, same_ownership,
}
use kmonad_device_manager.Events.{
  EventLog, EventType, device_added, device_availability_changed, configuration_changed,
  configuration_runtime_changed, configuration_rejected, configuration_rolled_back,
  operation_changed, diagnostic_changed, ResourceRef, device, configuration, diagnostic, ReasonCode,
}
use kmonad_device_manager.Events.Publish.{publish_event}

-- One call of `publishEvent`, with no data.
pub record Announcement : Type 0 where
  pub event_type : EventType
  pub resource : ResourceRef
  pub reason_code : ReasonCode

abbrev pub announce : EventType → ResourceRef → ReasonCode → Announcement
announce event_type resource reason_code = record {
  event_type = event_type;
  resource = resource;
  reason_code = reason_code;
}

abbrev pub refer : ResourceKind → Text → ResourceRef
refer kind id = record { kind = kind; id = id }

abbrev pub is_configuration : ResourceKind → Bool
is_configuration configuration = true
is_configuration _ = false

abbrev pub outcome_events : Operation → List Announcement
outcome_events operation = elim operation.state [
  | operation_rejected ↦
      announce configuration_rejected operation.resource operation.reason_code ∷ []
  | rolled_back ↦ announce configuration_rolled_back operation.resource operation.reason_code ∷ []
  | _ ↦ []
]

unfoldable pub operation_change : Operation → List Announcement
operation_change operation =
    announce operation_changed operation.resource operation.reason_code
    ∷ (if is_configuration operation.resource.kind then outcome_events operation else [])

-- The entries that are gone from `after`.
abbrev pub removed {ℓ κ} :
    {V : Type ℓ} {W : Type κ}
    → (Text → Announcement)
    → Dict Text W
    → Dict Text V
    → List Announcement
removed gone after [] = []
removed gone after ((id, v) ∷ before) =
    let rest = removed gone after before in
    if is_some (lookup id after) then rest else gone id ∷ rest

-- The announcements of each entry, given what the key had before.
abbrev pub changes {ℓ} :
    {V : Type ℓ}
    → (Text → Option V → V → List Announcement)
    → Dict Text V
    → Dict Text V
    → List Announcement
changes each before [] = []
changes each before ((id, v) ∷ after) = each id (lookup id before) v ++ changes each before after

abbrev same_enabled : Bool → Bool → Bool
same_enabled true b = b
same_enabled false b = not b

module _ (same_device : Device → Device → Bool) (same_runtime : RuntimeState → RuntimeState → Bool)
    (same_operation : Operation → Operation → Bool)
    (same_diagnostic : Diagnostic → Diagnostic → Bool) where
  abbrev pub device_change : Text → Option Device → Device → List Announcement
  device_change id none d = announce device_added (refer device id) d.reason_code ∷ []
  device_change id (some previous) d =
      if same_device previous d
      then []
      else announce device_availability_changed (refer device id) d.reason_code ∷ []

  -- The fields whose change is announced.
  abbrev pub is_changed : Configuration → Configuration → Bool
  is_changed previous c =
      not (text_eq previous.name c.name)
      || not (same_ownership previous.ownership c.ownership)
      || not (same_enabled previous.enabled c.enabled)
      || not (text_eq previous.device_id c.device_id)
      || not (previous.desired_revision == c.desired_revision)
      || not (previous.active_revision == c.active_revision)
      || not (previous.content_revision == c.content_revision)

  abbrev pub configuration_event : Text → Announcement
  configuration_event id =
      announce configuration_changed (refer configuration id) (text "configuration_discovered")

  abbrev pub runtime_event : Text → Configuration → Announcement
  runtime_event id c =
      announce configuration_runtime_changed (refer configuration id) c.runtime.reason_code

  abbrev pub configuration_change : Text → Option Configuration → Configuration → List Announcement
  configuration_change id none c = configuration_event id ∷ runtime_event id c ∷ []
  configuration_change id (some previous) c =
      (if is_changed previous c then configuration_event id ∷ [] else [])
      ++ (if same_runtime previous.runtime c.runtime then [] else runtime_event id c ∷ [])

  abbrev pub known_operation_change : Text → Option Operation → Operation → List Announcement
  known_operation_change id none o = operation_change o
  known_operation_change id (some previous) o =
      if same_operation previous o then [] else operation_change o

  abbrev pub diagnostic_change : Text → Option Diagnostic → Diagnostic → List Announcement
  diagnostic_change id none d = announce diagnostic_changed (refer diagnostic id) d.reason_code ∷ []
  diagnostic_change id (some previous) d =
      if same_diagnostic previous d
      then []
      else announce diagnostic_changed (refer diagnostic id) d.reason_code ∷ []

  unfoldable pub state_changes : PublicState → PublicState → List Announcement
  state_changes before after =
      changes device_change before.devices after.devices
      ++ changes configuration_change before.configurations after.configurations
      ++ removed
          (λ id. announce configuration_changed (refer configuration id) (text "runtime_stopped"))
          after.configurations before.configurations
      ++ changes known_operation_change before.operations after.operations
      ++ changes diagnostic_change before.diagnostics after.diagnostics
      ++ removed
          (λ id. announce diagnostic_changed (refer diagnostic id) (text "diagnostic_resolved"))
          after.diagnostics before.diagnostics

unfoldable pub publish_all : (ℕ → ℕ) → ℕ → List Announcement → EventLog → EventLog
publish_all clock n [] log = log
publish_all clock n (a ∷ rest) log =
    publish_all clock (n + 1) rest
      (publish_event (clock n) a.event_type a.resource a.reason_code [] log)

module _ (same_device : Device → Device → Bool) (same_runtime : RuntimeState → RuntimeState → Bool)
    (same_operation : Operation → Operation → Bool)
    (same_diagnostic : Diagnostic → Diagnostic → Bool) where
  unfoldable pub publish_state_changes_between :
      (ℕ → ℕ) → PublicState → PublicState → EventLog → EventLog
  publish_state_changes_between clock before after log =
      publish_all clock 0
        (state_changes same_device same_runtime same_operation same_diagnostic before after) log

unfoldable pub publish_operation_change : (ℕ → ℕ) → Operation → EventLog → EventLog
publish_operation_change clock operation log = publish_all clock 0 (operation_change operation) log
