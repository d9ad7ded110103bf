-- ===== src/Events/Client.antt =====
-- What one call of internal/manager/events.go does to the stream of one client.
use kmonad_device_manager.Prelude.{
  ℕ, ◌+◌, ◌^◌, ◌≤◌, ◌<◌, ◌≡◌, refl, ap, sym, subst, ◌∙◌, Bool, true, false, Bool-cases, inl, inr,
  List, [], ◌∷◌, ◌++◌, append_assoc, append-nil, Option-cases, nat_eq, ==_iff, ◌==◌, if◌then◌else◌,
  arith, length, drop, take,
}
use kmonad_device_manager.Prelude.Dict.{
  lookup, lookup-insert, lookup-delete, IsDistinct, insert-IsDistinct, delete-IsDistinct,
}
use kmonad_device_manager.Events.{Event, EventLog, next_u64}
use kmonad_device_manager.Events.Publish.{publish_event, make_event}
use kmonad_device_manager.Events.Subscriptions.{
  EventsSubscribeParams, subscribe_events, unsubscribe_events, receive_event, next_event,
  take_event, LogCall, publishing, subscribing, unsubscribing, receiving, step,
}
use kmonad_device_manager.Events.Retained.{published_by}
use kmonad_device_manager.Events.Deliver.{deliver-IsDistinct}
use kmonad_device_manager.Events.Stream.{
  Follows, publish-subscribers, publish-Streams, publish-WasDropped,
}

take_one-drop_one : (xs : List Event) → take 1 xs ++ drop 1 xs ≡ xs
take_one-drop_one [] = refl
take_one-drop_one (x ∷ xs) = refl

take_again : (taken xs : List Event) → (taken ++ take 1 xs) ++ drop 1 xs ≡ taken ++ xs
take_again taken xs =
    append_assoc taken (take 1 xs) (drop 1 xs) ∙ ap (λ t. taken ++ t) (take_one-drop_one xs)

-- What the client of `id` takes in a call.
abbrev pub taken_by : ℕ → LogCall → EventLog → List Event
taken_by id (receiving j) log = if j == id then next_event id log else []
taken_by id _ log = []

abbrev pub takings : ℕ → List LogCall → EventLog → List Event
takings id [] log = []
takings id (c ∷ calls) log = taken_by id c log ++ takings id calls (step c log)

-- The client does not end its own subscription.
abbrev pub spares : ℕ → LogCall → Bool
spares id (unsubscribing j) = if j == id then false else true
spares id _ = true

-- The subscriber map has one entry for each id, and `id` was given out before.
pub record IsShared (id : ℕ) (log : EventLog) : Type 0 where
  pub unique : IsDistinct log.event_subscribers
  pub given : id ≤ log.next_subscriber_id

module _ (id base : ℕ) (taken published : List Event) (log : EventLog) where
  receive_self :
      Follows id base taken published log
      → Follows id base (taken ++ next_event id log) published (receive_event id log)
  unfolding receive_event next_event take_event
  receive_self (inl (s, found, seen)) = inl (
    record s { events = drop 1 s.events },
    ground (arith, lookup-insert id id (take_event s) log.event_subscribers, ==_iff id id),
    ground (arith, take_again taken s.events),
  )
  receive_self (inr (s, missing, gone, left, told, some_missing, seen)) = inr (
    record s { events = drop 1 s.events },
    missing,
    ground arith,
    ground (arith, lookup-insert id id (take_event s) log.detached, ==_iff id id),
    told,
    some_missing,
    ground (arith, take_again taken s.events),
  )

  receive_other :
      (j : ℕ)
      → j == id ≡ false
      → (lookup id (receive_event j log).event_subscribers ≡ lookup id log.event_subscribers)
        × (lookup id (receive_event j log).detached ≡ lookup id log.detached)
        × ((receive_event j log).next_subscriber_id ≡ log.next_subscriber_id)
  unfolding receive_event
  receive_other j other = elim (Option-cases (lookup j log.event_subscribers)) [
    | inl absent ↦ elim (Option-cases (lookup j log.detached)) [
      | inl gone ↦ ground (arith, absent, gone)
      | inr (t, left) ↦ ground (arith, absent, left, lookup-insert j id (take_event t) log.detached)
    ]
    | inr (t, here) ↦ ground (arith, here, lookup-insert j id (take_event t) log.event_subscribers)
  ]

  unsubscribe_other :
      (j : ℕ)
      → j == id ≡ false
      → (lookup id (unsubscribe_events j log).event_subscribers ≡ lookup id log.event_subscribers)
        × (lookup id (unsubscribe_events j log).detached ≡ lookup id log.detached)
  unfolding unsubscribe_events lookup
  unsubscribe_other j other = ground (arith, lookup-delete j id log.event_subscribers)

  subscribe_other :
      (now : ℕ) (params : EventsSubscribeParams)
      → id ≤ log.next_subscriber_id
      → log.next_subscriber_id + 1 < 2 ^ 64
      → (lookup id (subscribe_events now params log).1.event_subscribers
          ≡ lookup id log.event_subscribers)
        × (lookup id (subscribe_events now params log).1.detached ≡ lookup id log.detached)
  unfolding subscribe_events
  subscribe_other now params given small = ground (
    arith,
    lookup-insert (next_u64 log.next_subscriber_id) id (record { events = []; resync = [] })
        log.event_subscribers,
    ==_iff (next_u64 log.next_subscriber_id) id,
  )

same_channels :
    (id base : ℕ) (taken published : List Event) (log after : EventLog)
    → lookup id after.event_subscribers ≡ lookup id log.event_subscribers
    → lookup id after.detached ≡ lookup id log.detached
    → Follows id base taken published log
    → Follows id base (taken ++ []) (published ++ []) after
same_channels id base taken published log after registered detached f =
    rw (append-nil, append-nil)
      (elim f [
        | inl (s, found, seen) ↦ inl (s, registered ∙ found, seen)
        | inr (s, missing, gone, left, told, some_missing, seen) ↦
            inr (s, missing, registered ∙ gone, detached ∙ left, told, some_missing, seen)
      ])

pub step-IsShared :
    (id : ℕ) (c : LogCall) (log : EventLog)
    → log.next_subscriber_id + 1 < 2 ^ 64
    → IsShared id log
    → IsShared id (step c log)
unfolding step publish_event subscribe_events unsubscribe_events receive_event
step-IsShared id (publishing now event_type resource reason_code payload) log small w =
    let event = make_event now event_type resource reason_code payload log in
    let (subscribers, detached, ids) = publish-subscribers now event log in
    record {
      unique = rw subscribers (deliver-IsDistinct event _ log.event_subscribers w.unique);
      given = rw ids w.given;
    }
step-IsShared id (subscribing now params) log small w = record {
  unique = ground (
    arith,
    insert-IsDistinct (next_u64 log.next_subscriber_id) (record { events = []; resync = [] })
        log.event_subscribers w.unique,
    w.unique,
  );
  given = ground arith;
}
step-IsShared id (unsubscribing j) log small w = record {
  unique = ground (arith, delete-IsDistinct j log.event_subscribers w.unique, w.unique);
  given = ground arith;
}
step-IsShared id (receiving j) log small w = elim (Option-cases (lookup j log.event_subscribers)) [
  | inl absent ↦ record { unique = ground (arith, w.unique); given = ground arith }
  | inr (s, here) ↦ record {
    unique = ground (arith, insert-IsDistinct j (take_event s) log.event_subscribers w.unique);
    given = ground arith;
  }
]

pub step-ids :
    (c : LogCall) (log : EventLog) → (step c log).next_subscriber_id ≤ log.next_subscriber_id + 1
unfolding step publish_event subscribe_events unsubscribe_events receive_event
step-ids (publishing now event_type resource reason_code payload) log = omega (
  arith,
  (publish-subscribers now (make_event now event_type resource reason_code payload log) log).2,
)
step-ids (subscribing now params) log = ground arith
step-ids (unsubscribing j) log = ground arith
step-ids (receiving j) log = ground arith

pub step-Follows :
    (id base : ℕ) (taken published : List Event) (c : LogCall) (log : EventLog)
    → log.next_subscriber_id + 1 < 2 ^ 64
    → base ≤ length published
    → IsShared id log
    → spares id c ≡ true
    → Follows id base taken published log
    → Follows id base (taken ++ taken_by id c log) (published ++ published_by c log) (step c log)
unfolding step publish_event
step-Follows id base taken published (publishing now event_type resource reason_code payload) log
      small begun w spared f =
    rw append-nil (elim f [
      | inl streams ↦ publish-Streams now _ log id base taken published w.unique begun streams
      | inr dropped ↦
          inr (publish-WasDropped now _ log id base taken published w.unique begun dropped)
    ])
step-Follows id base taken published (subscribing now params) log small begun w spared f =
    let (registered, detached) =
      subscribe_other id base taken published log now params w.given small in
    same_channels id base taken published log (subscribe_events now params log).1 registered
      detached f
step-Follows id base taken published (unsubscribing j) log small begun w spared f =
    let (registered, detached) = unsubscribe_other id base taken published log j (ground arith) in
    same_channels id base taken published log (unsubscribe_events j log) registered detached f
step-Follows id base taken published (receiving j) log small begun w spared f =
    elim (Bool-cases (j == id)) [
      | inl same ↦
          rw (same, append-nil)
            (subst
              (λ k. Follows id base (taken ++ next_event id log) published (receive_event k log))
              (sym ((==_iff j id).0 same)) (receive_self id base taken published log f))
      | inr other ↦
          let (registered, detached, ids) = receive_other id base taken published log j other in
          rw other
            (same_channels id base taken published log (receive_event j log) registered detached f)
    ]
