-- ===== src/Events/Subscriptions.antt =====
-- Reading and leaving the event log of internal/manager/events.go, and the calls on it in sequence.
use kmonad_device_manager.Prelude.{
  ℕ, zero, suc, ◌+◌, ◌-◌, ◌%◌, Bool, true, false, ◌&&◌, ◌||◌, Option, none, some, List, [], ◌∷◌,
  Text, nat_eq, ltb, if◌then◌else◌, length, get_elem?, keep, is_some, drop, take,
}
use kmonad_device_manager.Prelude.Dict.{lookup, insert, delete}
use kmonad_device_manager.Events.{
  Event, EventSubscriber, EventLog, EventType, ResourceRef, ReasonCode, next_u64,
}
use kmonad_device_manager.Events.Publish.{record_public_event, resync_required_event, publish_event}

-- The loop of `retainedEvents`, for `count` more indices from `index` on. An index is taken modulo
-- the length, so no read is out of range.
unfoldable pub retained_from : List Event → ℕ → ℕ → ℕ → List Event
retained_from events start index zero = []
retained_from events start index (suc count) =
    let rest = retained_from events start (index + 1) count in
    elim (get_elem? events ((start + index) % length events)) [ none ↦ rest | some e ↦ e ∷ rest ]

unfoldable pub retained_events : EventLog → List Event
retained_events log = retained_from log.events log.event_start 0 (length log.events)

pub record EventsSubscribeParams : Type 0 where
  pub after_event_id : Option ℕ
  pub force_resync : Bool

pub record EventSubscription : Type 0 where
  pub id : ℕ
  pub state_revision : ℕ
  pub latest_event_id : ℕ
  pub replay : List Event
  pub resync_needed : Bool
  pub resync_event : Option Event

abbrev pub after_of : Option ℕ → ℕ → ℕ
after_of none latest = latest
after_of (some after) latest = after

unfoldable pub oldest_event_id : EventLog → ℕ
oldest_event_id log = elim (get_elem? log.events log.event_start) [ none ↦ 0 | some e ↦ e.event_id ]

unfoldable pub needs_resync : EventsSubscribeParams → EventLog → Bool
needs_resync params log =
    let after = after_of params.after_event_id log.next_event_id in
    let oldest = oldest_event_id log in
    params.force_resync
    || (is_some params.after_event_id && ltb log.next_event_id after)
    || (ltb 0 oldest && ltb after (oldest - 1))

unfoldable pub subscribe_events :
    ℕ → EventsSubscribeParams → EventLog → EventSubscription × EventLog
subscribe_events now params log =
    let after = after_of params.after_event_id log.next_event_id in
    let resync = resync_required_event now log in
    let id = next_u64 log.next_subscriber_id in
    if needs_resync params log
    then (
      record {
        id = 0;
        state_revision = log.state_revision;
        latest_event_id = log.next_event_id;
        replay = [];
        resync_needed = true;
        resync_event = some resync;
      },
      record log { public_events = record_public_event resync log.public_events },
    )
    else (
      record {
        id = id;
        state_revision = log.state_revision;
        latest_event_id = log.next_event_id;
        replay = keep (λ e. ltb after e.event_id) (retained_events log);
        resync_needed = false;
        resync_event = none;
      },
      record log {
        next_subscriber_id = id;
        event_subscribers = insert id (record { events = []; resync = [] }) log.event_subscribers;
      },
    )

-- The channel of the subscriber stays with its client.
unfoldable pub unsubscribe_events : ℕ → EventLog → EventLog
unsubscribe_events id log = elim (lookup id log.event_subscribers) [
  | none ↦ log
  | some s ↦ record log {
    event_subscribers = delete id log.event_subscribers;
    detached = (id, s) ∷ log.detached;
  }
]

-- The client of a subscriber takes the oldest event of its queue. It reads the same channel before
-- and after the manager drops the subscriber.
unfoldable pub take_event : EventSubscriber → EventSubscriber
take_event s = record s { events = drop 1 s.events }

unfoldable pub receive_event : ℕ → EventLog → EventLog
unfolding take_event
receive_event id log = elim (lookup id log.event_subscribers) [
  | some s ↦ record log { event_subscribers = insert id (take_event s) log.event_subscribers }
  | none ↦ elim (lookup id log.detached) [
    | some s ↦ record log { detached = insert id (take_event s) log.detached }
    | none ↦ log
  ]
]

-- What the client takes: one event, or none from an empty channel.
unfoldable pub next_event : ℕ → EventLog → List Event
next_event id log = elim (lookup id log.event_subscribers) [
  | some s ↦ take 1 s.events
  | none ↦ elim (lookup id log.detached) [ some s ↦ take 1 s.events | none ↦ [] ]
]

-- The calls of the reconciliation owner, and the reads of clients.
pub data LogCall : Type 0 where
  publishing : ℕ → EventType → ResourceRef → ReasonCode → List (Text × Text) → LogCall
  subscribing : ℕ → EventsSubscribeParams → LogCall
  unsubscribing : ℕ → LogCall
  receiving : ℕ → LogCall

unfoldable pub step : LogCall → EventLog → EventLog
step (publishing now event_type resource reason_code payload) log =
    publish_event now event_type resource reason_code payload log
step (subscribing now params) log = (subscribe_events now params log).1
step (unsubscribing id) log = unsubscribe_events id log
step (receiving id) log = receive_event id log

unfoldable pub run : List LogCall → EventLog → EventLog
run [] log = log
run (c ∷ calls) log = run calls (step c log)
