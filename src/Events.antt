-- ===== src/Events.antt =====
-- The event log of internal/manager/events.go: a ring of retained events, a bounded queue for each
-- subscriber, and the counters of published events.
-- The reconciliation owner runs one call at a time. `time.Now()` is an argument. The log line that
-- `recordPublicEvent` may write is not modelled.
pub mod Publish
pub mod Subscriptions
pub mod Changes
pub mod Silent
pub mod Announced
pub mod Ring
pub mod Logs
pub mod Retained
pub mod Replay
pub mod Deliver
pub mod Stream
pub mod Client
pub mod Session
mod Tests
mod ChangeTests
use kmonad_device_manager.Prelude.{
  ℕ, zero, suc, ◌+◌, ◌-◌, ◌%◌, ◌^◌, Bool, true, false, ◌&&◌, ◌||◌, Option, none, some, List, [],
  ◌∷◌, ◌++◌, Text, text, nat_eq, ltb, ◌==◌, if◌then◌else◌, length, get_elem?, set, keep, is_some,
}
use kmonad_device_manager.Prelude.Dict.{Dict, lookup, insert, delete}
pub use kmonad_device_manager.Domain.{
  ResourceKind, manager, device, configuration, operation, diagnostic, ResourceRef, EventType,
  device_added, device_availability_changed, configuration_changed, configuration_runtime_changed,
  configuration_rejected, configuration_rolled_back, operation_changed, diagnostic_changed,
  manager_resync_required, ReasonCode, Event,
}

-- The two channels of a subscriber, oldest message first.
pub record EventSubscriber : Type 0 where
  pub events : List Event
  pub resync : List Event

-- `detached` holds the channels of subscribers that the manager has dropped: a client still reads
-- from them.
pub record EventLog : Type 0 where
  pub events : List Event
  pub event_start : ℕ
  pub next_event_id : ℕ
  pub state_revision : ℕ
  pub public_state_revision : ℕ
  pub next_subscriber_id : ℕ
  pub event_subscribers : Dict ℕ EventSubscriber
  pub detached : Dict ℕ EventSubscriber
  pub public_events : List ℕ

abbrev pub max_retained_events : ℕ
max_retained_events = 1024

abbrev pub event_subscriber_buffer : ℕ
event_subscriber_buffer = 1024

-- uint64 addition of one
abbrev pub next_u64 : ℕ → ℕ
next_u64 n = (n + 1) % 2 ^ 64
