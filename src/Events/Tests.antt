-- ===== src/Events/Tests.antt =====
-- Runs of the event log of internal/manager/events.go at concrete inputs.
use kmonad_device_manager.Prelude.{
  ℕ, ◌≡◌, refl, false, some, List, [], ◌∷◌, ◌++◌, nat_eq, text, length, take_last, drop, arith,
}
use kmonad_device_manager.Events.{
  EventLog, configuration, configuration_changed, max_retained_events,
}
use kmonad_device_manager.Events.Publish.{
  new_event_log, advance_state_revision, retain, deliver, publish, publish_event, make_event,
}
use kmonad_device_manager.Events.Subscriptions.{
  retained_events, EventsSubscribeParams, after_of, oldest_event_id, needs_resync, subscribe_events,
  LogCall, publishing, receiving, step, run,
}
use kmonad_device_manager.Events.Logs.{Numbered, Logs, new-Logs}
use kmonad_device_manager.Events.Retained.{run-Logs, publications, retained_events-run}
use kmonad_device_manager.Events.Stream.{Follows}
use kmonad_device_manager.Events.Client.{takings}
use kmonad_device_manager.Events.Session.{client_misses_nothing}

abbrev changed : ℕ → LogCall
changed now =
    publishing now configuration_changed (record { kind = configuration; id = text "keyboard" })
      (text "configuration_changed") []

abbrev three_events : List LogCall
three_events = changed 10 ∷ changed 20 ∷ changed 30 ∷ []

abbrev three_log : EventLog
three_log = run three_events new_event_log

abbrev after_first : EventsSubscribeParams
after_first = record { after_event_id = some 1; force_resync = false }

retained_events-run_example :
    (retained_events three_log
      ≡ take_last max_retained_events (publications three_events new_event_log))
    × Numbered 0 (publications three_events new_event_log)
    × (three_log.next_event_id ≡ length (publications three_events new_event_log))
retained_events-run_example = retained_events-run three_events (omega arith)

three_logged : Logs (publications three_events new_event_log) three_log
three_logged = run-Logs three_events new_event_log [] (omega arith) new-Logs

-- The client of the subscriber that joins next reads one of the two events that follow.
abbrev later : List LogCall
later = changed 50 ∷ receiving 1 ∷ changed 60 ∷ []

client_misses_nothing_example :
    ((subscribe_events 40 after_first three_log).0.replay
      ≡ drop (after_of (some 1) three_log.next_event_id) (publications three_events new_event_log))
    × Follows
        (subscribe_events 40 after_first three_log).0.id
        (length (publications three_events new_event_log))
        (takings
          (subscribe_events 40 after_first three_log).0.id
          later
          (subscribe_events 40 after_first three_log).1)
        (publications three_events new_event_log
          ++ publications later (subscribe_events 40 after_first three_log).1)
        (run later (subscribe_events 40 after_first three_log).1)
unfolding run step publish_event publish make_event advance_state_revision retain deliver
    new_event_log subscribe_events needs_resync oldest_event_id
client_misses_nothing_example =
    client_misses_nothing three_events later 40 after_first (omega arith) refl refl
