-- ===== src/Events/ChangeTests.antt =====
-- Changes of the public state of internal/manager/events.go at concrete inputs.
use kmonad_device_manager.Prelude.{
  ◌≡◌, refl, Bool, false, [], ◌∷◌, Text-eq, text, text_eq, beq_refl,
}
use kmonad_device_manager.Prelude.Dict.{lookup}
use kmonad_device_manager.Domain.{Operation, apply, running, Diagnostic, no_operation}
use kmonad_device_manager.Domain.Resources.{
  Device, RuntimeState, PublicState, connected, input_role, serial_identity,
}
use kmonad_device_manager.Events.{configuration}
use kmonad_device_manager.Events.Publish.{new_event_log}
use kmonad_device_manager.Events.Changes.{publish_state_changes_between}
use kmonad_device_manager.Events.Silent.{unchanged_state_is_silent}

-- Comparisons by reason, which are enough for these states.
abbrev same_device : Device → Device → Bool
same_device a b = text_eq a.reason b.reason

abbrev same_runtime : RuntimeState → RuntimeState → Bool
same_runtime a b = text_eq a.reason b.reason

abbrev same_operation : Operation → Operation → Bool
same_operation a b = text_eq a.reason b.reason

abbrev same_diagnostic : Diagnostic → Diagnostic → Bool
same_diagnostic a b = text_eq a.summary b.summary

abbrev keyboard : Device
keyboard = record {
  id = text "keyboard";
  display_name = text "Keyboard";
  role = input_role;
  vendor = [];
  product = [];
  serial = [];
  availability = connected;
  identity_stability = serial_identity;
  configured_by = [];
  runtime_conflict = false;
  reason_code = text "device_connected";
  reason = text "device is connected";
}

abbrev applying : Operation
applying = record no_operation {
  id = text "op-1";
  kind = apply;
  state = running;
  resource = record { kind = configuration; id = text "layout" };
  reason_code = text "operation_running";
  reason = text "validating";
}

abbrev state_with : Operation → PublicState
state_with o = record {
  devices = (text "keyboard", keyboard) ∷ [];
  configurations = [];
  operations = (text "op-1", o) ∷ [];
  diagnostics = [];
}

unchanged_state_is_silent_example :
    publish_state_changes_between same_device same_runtime same_operation same_diagnostic
      (λ n. n)
      (state_with applying)
      (state_with applying)
      new_event_log
    ≡ new_event_log
unfolding lookup
unchanged_state_is_silent_example =
    unchanged_state_is_silent same_device same_runtime same_operation same_diagnostic (λ n. n)
      (state_with applying) new_event_log (λ d. beq_refl d.reason) (λ r. beq_refl r.reason)
      (λ o. beq_refl o.reason) (λ d. beq_refl d.summary) (refl, tt) tt (refl, tt) tt
