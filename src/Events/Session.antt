-- ===== src/Events/Session.antt =====
-- Over any calls of internal/manager/events.go, a client that reads its channel misses no event
-- unless it is told to resynchronise.
use kmonad_device_manager.Prelude.{
  ℕ, ◌+◌, ◌^◌, ◌≤◌, ◌<◌, ◌≡◌, refl, sym, true, false, inl, List, [], ◌∷◌, ◌++◌, append_assoc,
  append-nil, nat_eq, arith, all, all-cons, drop_all, length, drop, length-append,
}
use kmonad_device_manager.Prelude.Dict.{IsDistinct, insert-IsDistinct}
use kmonad_device_manager.Events.{Event, EventLog, next_u64}
use kmonad_device_manager.Events.Subscriptions.{
  EventsSubscribeParams, after_of, subscribe_events, LogCall, step, run,
}
use kmonad_device_manager.Events.Retained.{published_by, publications}
use kmonad_device_manager.Events.Publish.{new_event_log}
use kmonad_device_manager.Events.Logs.{new-Logs}
use kmonad_device_manager.Events.Retained.{run-Logs}
use kmonad_device_manager.Events.Replay.{subscribe_replays}
use kmonad_device_manager.Events.Stream.{Follows}
use kmonad_device_manager.Events.Client.{
  taken_by, takings, spares, IsShared, step-IsShared, step-ids, step-Follows,
}

run-Follows :
    (id base : ℕ) (taken published : List Event) (calls : List LogCall) (log : EventLog)
    → log.next_subscriber_id + length calls < 2 ^ 64
    → base ≤ length published
    → IsShared id log
    → all (spares id) calls ≡ true
    → Follows id base taken published log
    → Follows id base
        (taken ++ takings id calls log)
        (published ++ publications calls log)
        (run calls log)
unfolding run
run-Follows id base taken published [] log small begun w spared f =
    rw (append-nil taken, append-nil published) f
run-Follows id base taken published (c ∷ calls) log small begun w spared f =
    let (spared_now, spared_later) = all-cons (spares id) c calls spared in
    rw
      (
        ← append_assoc taken (taken_by id c log) (takings id calls (step c log)),
        ← append_assoc published (published_by c log) (publications calls (step c log)),
      )
      (run-Follows id base (taken ++ taken_by id c log) (published ++ published_by c log) calls
        (step c log) (omega (arith, step-ids c log))
        (omega (arith, length-append published (published_by c log)))
        (step-IsShared id c log (omega arith) w) spared_later
        (step-Follows id base taken published c log (omega arith) begun w spared_now f))

run-IsShared :
    (id : ℕ) (calls : List LogCall) (log : EventLog)
    → log.next_subscriber_id + length calls < 2 ^ 64
    → IsShared id log
    → IsShared id (run calls log)
      × ((run calls log).next_subscriber_id ≤ log.next_subscriber_id + length calls)
unfolding run
run-IsShared id [] log small w = (w, omega arith)
run-IsShared id (c ∷ calls) log small w =
    let (later, ids) =
      run-IsShared id calls (step c log) (omega (arith, step-ids c log))
        (step-IsShared id c log (omega arith) w) in
    (later, omega (arith, ids, step-ids c log))

new_ids : new_event_log.next_subscriber_id ≡ 0
unfolding new_event_log
new_ids = refl

subscribed_ids :
    (now : ℕ) (params : EventsSubscribeParams) (log : EventLog)
    → (subscribe_events now params log).1.next_subscriber_id ≤ log.next_subscriber_id + 1
unfolding subscribe_events
subscribed_ids now params log = ground arith

new-IsShared : IsShared 0 new_event_log
unfolding new_event_log
new-IsShared = record { unique = tt; given = omega arith }

subscribed-IsShared :
    (now : ℕ) (params : EventsSubscribeParams) (log : EventLog)
    → log.next_subscriber_id + 1 < 2 ^ 64
    → IsDistinct log.event_subscribers
    → (subscribe_events now params log).0.resync_needed ≡ false
    → IsShared (subscribe_events now params log).0.id (subscribe_events now params log).1
unfolding subscribe_events
subscribed-IsShared now params log small unique accepted = record {
  unique = ground (
    arith,
    insert-IsDistinct (next_u64 log.next_subscriber_id) (record { events = []; resync = [] })
        log.event_subscribers unique,
  );
  given = ground arith;
}

-- A client that joins a log with any history, and reads its channel while any other calls are made,
-- gets the replay of the events behind its cursor; after that, as long as it is registered, what it
-- has taken and what waits in its channel are exactly the events published since it joined, in
-- order; and if it was dropped, what it has and finds are the first of those events with no gap,
-- and the order to resynchronise waits for it.
pub client_misses_nothing :
    (before calls : List LogCall) (now : ℕ) (params : EventsSubscribeParams)
    → length before + length calls + 2 < 2 ^ 64
    → (subscribe_events now params (run before new_event_log)).0.resync_needed ≡ false
    → all (spares (subscribe_events now params (run before new_event_log)).0.id) calls ≡ true
    → let log = run before new_event_log in
      let published = publications before new_event_log in
      let (subscription, joined) = subscribe_events now params log in
      (subscription.replay ≡ drop (after_of params.after_event_id log.next_event_id) published)
      × Follows subscription.id
          (length published)
          (takings subscription.id calls joined)
          (published ++ publications calls joined)
          (run calls joined)
client_misses_nothing before calls now params small accepted spared =
    let log = run before new_event_log in
    let published = publications before new_event_log in
    let l = run-Logs before new_event_log [] (omega arith) new-Logs in
    let (shared, ids) = run-IsShared 0 before new_event_log (omega (arith, new_ids)) new-IsShared in
    let (replay, registered, latest) = subscribe_replays published log l now params accepted in
    (
      replay,
      run-Follows (subscribe_events now params log).0.id (length published) [] published calls
          (subscribe_events now params log).1
          (omega (arith, new_ids, ids, subscribed_ids now params log)) (omega arith)
          (subscribed-IsShared now params log (omega (arith, new_ids, ids)) shared.unique accepted)
          spared
          (inl (
            record { events = []; resync = [] },
            registered,
            sym (drop_all (length published) published (omega arith)),
          )),
    )
