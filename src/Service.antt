-- ===== src/Service.antt =====
-- The mailbox of internal/manager/commands.go, through which every asynchronous request reaches
-- the manager's state, and the phases of a configuration in internal/manager/service.go.
use kmonad_device_manager.Prelude.{Bool, true, false, Option, none, some, Text, text, if◌then◌else◌}
use kmonad_device_manager.Domain.{ApiError}

-- `commandResult`: either field may be nil.
pub record CommandResult {ℓ} (A : Type ℓ) : Type ℓ where
  pub result : Option A
  pub error : Option ApiError

abbrev pub api_error : Text → Text → ApiError
api_error code message = record { code = code; message = message }

abbrev pub failed_with {ℓ} : {A : Type ℓ} → Text → Text → CommandResult A
failed_with code message = record { result = none; error = some (api_error code message) }

abbrev pub succeeded_with {ℓ} : {A : Type ℓ} → A → CommandResult A
succeeded_with a = record { result = some a; error = none }

abbrev pub command_queue_full_result {ℓ} : {A : Type ℓ} → CommandResult A
command_queue_full_result =
    failed_with (text "resource_exhausted") (text "manager command queue is full")

abbrev pub command_deadline_result {ℓ} : {A : Type ℓ} → CommandResult A
command_deadline_result =
    failed_with (text "deadline_exceeded")
      (text "request deadline expired before the manager could process it")

-- What the channels and the context did to one command: its context was done before it was sent,
-- the queue was full, or it was queued. A queued command starts with its context done or not, and
-- its caller takes the reply or sees the context done first.
pub data Delivery : Type 0 where
  expired_before queue_full : Delivery
  queued : (expired_at_start reply_lost : Bool) → Delivery

-- `executeCommand`, with the body of the command as a function of the state.
unfoldable pub execute_command {ℓ κ} :
    {A : Type ℓ} {S : Type κ} → Bool → (S → CommandResult A × S) → S → CommandResult A × S
execute_command true execute s = (command_deadline_result, s)
execute_command false execute s = execute s

unfoldable pub submit_command {ℓ κ} :
    {A : Type ℓ} {S : Type κ} → Delivery → (S → CommandResult A × S) → S → CommandResult A × S
submit_command expired_before execute s = (command_deadline_result, s)
submit_command queue_full execute s = (command_queue_full_result, s)
submit_command (queued expired_at_start reply_lost) execute s =
    let executed = execute_command expired_at_start execute s in
    if reply_lost then (command_deadline_result, executed.1) else executed
