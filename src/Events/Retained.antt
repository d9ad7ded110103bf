-- ===== src/Events/Retained.antt =====
-- What internal/manager/events.go retains is the end of what it has published.
use native.Mathlib.Decide.{dec_lt}
use kmonad_device_manager.Prelude.{
  ℕ, ◌+◌, ◌^◌, ◌≤◌, ◌<◌, ◌≡◌, refl, sym, ◌∙◌, List, [], ◌∷◌, ◌++◌, arith, length, take_last,
  append-nil, append_assoc, length-append,
}
use kmonad_device_manager.Events.{Event, EventLog, max_retained_events, next_u64}
use kmonad_device_manager.Events.Publish.{new_event_log, retain, make_event, publish, publish_event}
use kmonad_device_manager.Events.Subscriptions.{
  retained_from, retained_events, LogCall, publishing, subscribing, unsubscribing, receiving, step,
  run, subscribe_events, unsubscribe_events, receive_event,
}
use kmonad_device_manager.Events.Ring.{length-rotate, retained_rotate}
use kmonad_device_manager.Events.Logs.{
  Numbered, Numbered-append, Logs, new-Logs, retain-view, retain-shape,
}

-- The event that a call publishes, if it publishes one.
abbrev pub published_by : LogCall → EventLog → List Event
published_by (publishing now event_type resource reason_code payload) log =
    make_event now event_type resource reason_code payload log ∷ []
published_by _ log = []

abbrev pub publications : List LogCall → EventLog → List Event
publications [] log = []
publications (c ∷ calls) log = published_by c log ++ publications calls (step c log)

start-le :
    (start n : ℕ)
    → (n < max_retained_events → start ≡ 0)
    → start < max_retained_events
    → n ≤ max_retained_events
    → start ≤ n
start-le start n filling start_in bounded = elim (dec_lt n max_retained_events) [
  | yes room ↦ omega (arith, filling room)
  | no full ↦ omega arith
]

pub start-lt :
    (start n : ℕ)
    → (n < max_retained_events → start ≡ 0)
    → start < max_retained_events
    → 0 < n
    → start < n
start-lt start n filling start_in some_events = elim (dec_lt n max_retained_events) [
  | yes room ↦ omega (arith, filling room)
  | no full ↦ omega arith
]

publish-ring :
    (now : ℕ) (event : Event) (log : EventLog)
    → ((publish now event log).events ≡ (retain event log).events)
      × ((publish now event log).event_start ≡ (retain event log).event_start)
      × ((publish now event log).next_event_id ≡ next_u64 log.next_event_id)
unfolding publish retain
publish-ring now event log = ground arith

publish-Logs :
    (now : ℕ) (event : Event) (log : EventLog) (published : List Event)
    → event.event_id ≡ next_u64 log.next_event_id
    → length published + 1 < 2 ^ 64
    → Logs published log
    → Logs (published ++ (event ∷ [])) (publish now event log)
publish-Logs now event log published numbered small l =
    let (events, start, latest) = publish-ring now event log in
    let (filling, start_in, bounded) = retain-shape event log published l in
    let view = retain-view event log published l in
    record {
      latest = omega (arith, l.latest, length-append published (event ∷ []));
      numbered = Numbered-append 0 published event l.numbered (omega (arith, l.latest));
      view = rw (events, start) view;
      filling = rw (events, start) filling;
      start_in = rw start start_in;
      bounded = rw events bounded;
      size = rw (events, ← view) (length-rotate _ _ (start-le _ _ filling start_in bounded));
    }

step-ring :
    (c : LogCall) (log : EventLog)
    → published_by c log ≡ []
    → ((step c log).events ≡ log.events)
      × ((step c log).event_start ≡ log.event_start)
      × ((step c log).next_event_id ≡ log.next_event_id)
unfolding step subscribe_events unsubscribe_events receive_event
step-ring (publishing now event_type resource reason_code payload) log h = absurd cc
step-ring (subscribing now params) log h = ground arith
step-ring (unsubscribing id) log h = ground arith
step-ring (receiving id) log h = ground arith

quiet-Logs :
    (log after : EventLog) (published : List Event)
    → (after.events ≡ log.events)
      × (after.event_start ≡ log.event_start)
      × (after.next_event_id ≡ log.next_event_id)
    → Logs published log
    → Logs (published ++ []) after
quiet-Logs log after published (events, start, latest) l = rw append-nil (record {
  latest = rw latest l.latest;
  numbered = l.numbered;
  view = rw (events, start) l.view;
  filling = rw (events, start) l.filling;
  start_in = rw start l.start_in;
  bounded = rw events l.bounded;
  size = rw events l.size;
})

step-Logs :
    (c : LogCall) (log : EventLog) (published : List Event)
    → length published + 1 < 2 ^ 64
    → Logs published log
    → Logs (published ++ published_by c log) (step c log)
step-Logs (publishing now event_type resource reason_code payload) log published small l =
    unfold step publish_event in
    publish-Logs now (make_event now event_type resource reason_code payload log) log published
      (unfold make_event in refl) small l
step-Logs (subscribing now params) log published small l =
    quiet-Logs log _ published (step-ring (subscribing now params) log refl) l
step-Logs (unsubscribing id) log published small l =
    quiet-Logs log _ published (step-ring (unsubscribing id) log refl) l
step-Logs (receiving id) log published small l =
    quiet-Logs log _ published (step-ring (receiving id) log refl) l

length-published_by : (c : LogCall) (log : EventLog) → length (published_by c log) ≤ 1
length-published_by (publishing now event_type resource reason_code payload) log = omega arith
length-published_by _ log = omega arith

pub run-Logs :
    (calls : List LogCall) (log : EventLog) (published : List Event)
    → length published + length calls < 2 ^ 64
    → Logs published log
    → Logs (published ++ publications calls log) (run calls log)
unfolding run
run-Logs [] log published small l = rw append-nil l
run-Logs (c ∷ calls) log published small l = rw (← append_assoc) (
    run-Logs calls (step c log) (published ++ published_by c log)
      (omega (arith, length-append published (published_by c log), length-published_by c log))
      (step-Logs c log published (omega arith) l))

pub nil_of_length {ℓ} : {A : Type ℓ} (xs : List A) → length xs ≡ 0 → xs ≡ []
nil_of_length [] h = refl
nil_of_length (x ∷ xs) h = absurd (omega arith)

pub Logs-retained :
    (published : List Event) (log : EventLog)
    → Logs published log
    → retained_events log ≡ take_last max_retained_events published
unfolding retained_events retained_from
Logs-retained published log l = elim (dec_lt 0 (length log.events)) [
  | yes some_events ↦
      retained_rotate log.events log.event_start
        (start-lt log.event_start (length log.events) l.filling l.start_in some_events)
      ∙ l.view
  | no no_events ↦
      let empty : length log.events ≡ 0 = omega arith in
      rw empty (sym (nil_of_length (take_last max_retained_events published) (l.size ∙ empty)))
]

-- After any calls on a new log, fewer than 2 ^ 64 of them, what is retained is exactly the last 1024
-- events that were published, oldest first, and the published events are numbered from 1 on with
-- no gap.
pub retained_events-run :
    (calls : List LogCall)
    → length calls < 2 ^ 64
    → (retained_events (run calls new_event_log)
        ≡ take_last max_retained_events (publications calls new_event_log))
      × Numbered 0 (publications calls new_event_log)
      × ((run calls new_event_log).next_event_id ≡ length (publications calls new_event_log))
retained_events-run calls small =
    let l = run-Logs calls new_event_log [] (omega arith) new-Logs in
    (Logs-retained _ _ l, l.numbered, l.latest)
