-- ===== src/Events/Publish.antt =====
-- `publishEvent` of internal/manager/events.go and what it calls, with `advanceStateRevision` of
-- internal/manager/snapshot.go.
use kmonad_device_manager.Prelude.{
  ℕ, zero, suc, ◌+◌, ◌%◌, List, [], ◌∷◌, ◌++◌, Text, text, nat_eq, ltb, if◌then◌else◌, length, set,
}
use kmonad_device_manager.Prelude.Dict.{Dict}
use kmonad_device_manager.Events.{
  Event, EventSubscriber, EventLog, EventType, device_added, device_availability_changed,
  configuration_changed, configuration_runtime_changed, configuration_rejected,
  configuration_rolled_back, operation_changed, diagnostic_changed, manager_resync_required,
  ResourceRef, manager, ReasonCode, max_retained_events, event_subscriber_buffer, next_u64,
}

unfoldable pub new_event_log : EventLog
new_event_log = record {
  events = [];
  event_start = 0;
  next_event_id = 0;
  state_revision = 0;
  public_state_revision = 0;
  next_subscriber_id = 0;
  event_subscribers = [];
  detached = [];
  public_events = 0 ∷ 0 ∷ 0 ∷ 0 ∷ 0 ∷ 0 ∷ 0 ∷ 0 ∷ 0 ∷ [];
}

abbrev pub metric_index : EventType → ℕ
metric_index device_added = 0
metric_index device_availability_changed = 1
metric_index configuration_changed = 2
metric_index configuration_runtime_changed = 3
metric_index configuration_rejected = 4
metric_index configuration_rolled_back = 5
metric_index operation_changed = 6
metric_index diagnostic_changed = 7
metric_index manager_resync_required = 8

-- `m.publicEvents[index].Add(1)`
unfoldable pub add_one : List ℕ → ℕ → List ℕ
add_one [] i = []
add_one (n ∷ ns) zero = next_u64 n ∷ ns
add_one (n ∷ ns) (suc i) = n ∷ add_one ns i

unfoldable pub record_public_event : Event → List ℕ → List ℕ
record_public_event event counts = add_one counts (metric_index event.event_type)

unfoldable pub advance_state_revision : EventLog → EventLog
advance_state_revision log = record log {
  state_revision = next_u64 log.state_revision;
  public_state_revision = next_u64 log.state_revision;
}

unfoldable pub resync_required_event : ℕ → EventLog → Event
resync_required_event now log = record {
  event_id = log.next_event_id;
  state_revision = log.state_revision;
  time = now;
  event_type = manager_resync_required;
  resource = record { kind = manager; id = text "manager" };
  reason_code = text "manager_resync_required";
  payload = (text "remediation", text "fetch snapshot.get and resubscribe") ∷ [];
}

-- The ring with one more event: a full one loses its oldest.
unfoldable pub retain : Event → EventLog → EventLog
retain event log =
    if ltb (length log.events) max_retained_events
    then record log { events = log.events ++ (event ∷ []) }
    else record log {
      events = set log.events log.event_start event;
      event_start = (log.event_start + 1) % max_retained_events;
    }

-- A send on a channel that is not waited for: a full channel takes nothing.
abbrev pub offer : ℕ → Event → List Event → List Event
offer capacity event queue = if ltb (length queue) capacity then queue ++ (event ∷ []) else queue

-- The loop over the subscribers: those that took the event, and those that are dropped.
unfoldable pub deliver :
    Event → Event → Dict ℕ EventSubscriber → Dict ℕ EventSubscriber × Dict ℕ EventSubscriber
deliver event resync [] = ([], [])
deliver event resync ((id, s) ∷ rest) =
    let (kept, dropped) = deliver event resync rest in
    if ltb (length s.events) event_subscriber_buffer
    then ((id, record s { events = s.events ++ (event ∷ []) }) ∷ kept, dropped)
    else (kept, (id, record s { resync = offer 1 resync s.resync }) ∷ dropped)

-- `resyncRequiredEvent` counts one event for each subscriber that is dropped.
unfoldable pub count_resyncs : Dict ℕ EventSubscriber → Event → List ℕ → List ℕ
count_resyncs [] resync counts = counts
count_resyncs (dropped ∷ rest) resync counts =
    count_resyncs rest resync (record_public_event resync counts)

-- The event that `publishEvent` makes.
unfoldable pub make_event :
    ℕ → EventType → ResourceRef → ReasonCode → List (Text × Text) → EventLog → Event
make_event now event_type resource reason_code payload log = record {
  event_id = next_u64 log.next_event_id;
  state_revision = next_u64 log.state_revision;
  time = now;
  event_type = event_type;
  resource = resource;
  reason_code = reason_code;
  payload = payload;
}

-- `publishEvent` behind the making of the event.
unfoldable pub publish : ℕ → Event → EventLog → EventLog
unfolding advance_state_revision
publish now event log =
    let numbered = record (advance_state_revision log) {
      next_event_id = next_u64 log.next_event_id;
    } in
    let retained = retain event numbered in
    let resync = resync_required_event now numbered in
    let (kept, dropped) = deliver event resync log.event_subscribers in
    record retained {
      event_subscribers = kept;
      detached = dropped ++ log.detached;
      public_events = count_resyncs dropped resync (record_public_event event log.public_events);
    }

unfoldable pub publish_event :
    ℕ → EventType → ResourceRef → ReasonCode → List (Text × Text) → EventLog → EventLog
publish_event now event_type resource reason_code payload log =
    publish now (make_event now event_type resource reason_code payload log) log
