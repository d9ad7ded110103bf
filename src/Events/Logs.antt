-- ===== src/Events/Logs.antt =====
-- The ring of internal/manager/events.go against the list of all the events that were published.
use native.Mathlib.Decide.{dec_lt}
use kmonad_device_manager.Prelude.{
  ℕ, ◌+◌, ◌%◌, ◌≤◌, ◌<◌, ◌≡◌, refl, ap, List, [], ◌∷◌, ◌++◌, arith, length, set, take_last,
  append-nil, length-append, length-set, length-take_last, take_last_short, take_last-append_full,
  take_last-append_room,
}
use kmonad_device_manager.Events.{Event, EventLog, max_retained_events}
use kmonad_device_manager.Events.Publish.{new_event_log, retain}
use kmonad_device_manager.Events.Ring.{rotate, rotate-set}

-- Events numbered one after the other, the first of them behind `n`.
abbrev pub Numbered : ℕ → List Event → Type 0
Numbered n [] = Unit
Numbered n (e ∷ es) = (e.event_id ≡ n + 1) × Numbered (n + 1) es

-- The log has published the events `published`, in this order, since it was new.
pub record Logs (published : List Event) (log : EventLog) : Type 0 where
  pub latest : log.next_event_id ≡ length published
  pub numbered : Numbered 0 published
  pub view : rotate log.event_start log.events ≡ take_last max_retained_events published
  pub filling : length log.events < max_retained_events → log.event_start ≡ 0
  pub start_in : log.event_start < max_retained_events
  pub bounded : length log.events ≤ max_retained_events
  pub size : length (take_last max_retained_events published) ≡ length log.events

pub Numbered-append :
    (n : ℕ) (es : List Event) (e : Event)
    → Numbered n es
    → e.event_id ≡ n + length es + 1
    → Numbered n (es ++ (e ∷ []))
Numbered-append n [] e h last = (omega arith, tt)
Numbered-append n (x ∷ es) e h last = (h.0, Numbered-append (n + 1) es e h.1 (omega arith))

pub new-Logs : Logs [] new_event_log
unfolding new_event_log
new-Logs = record {
  latest = refl;
  numbered = tt;
  view = refl;
  filling = λ h. refl;
  start_in = omega arith;
  bounded = omega arith;
  size = refl;
}

module _ (event : Event) (log : EventLog) (published : List Event) (l : Logs published log) where
  open l use {view, filling, start_in, bounded, size}

  short_history : length log.events < max_retained_events → length published < max_retained_events
  short_history room = elim (dec_lt (length published) max_retained_events) [
    | yes short ↦ short
    | no long ↦ omega (arith, length-take_last max_retained_events published (omega arith))
  ]

  long_history : length log.events ≡ max_retained_events → max_retained_events ≤ length published
  long_history full = elim (dec_lt (length published) max_retained_events) [
    | yes short ↦
        omega (arith, ap length (take_last_short max_retained_events published (omega arith)))
    | no long ↦ omega arith
  ]

  retain_room :
      length log.events < max_retained_events
      → retain event log ≡ record log { events = log.events ++ (event ∷ []) }
  unfolding retain
  retain_room room = ground arith

  retain_full :
      length log.events ≡ max_retained_events
      → retain event log ≡ record log {
        events = set log.events log.event_start event;
        event_start = (log.event_start + 1) % max_retained_events;
      }
  unfolding retain
  retain_full full = ground arith

  pub retain-view :
      rotate (retain event log).event_start (retain event log).events
      ≡ take_last max_retained_events (published ++ (event ∷ []))
  retain-view = elim (dec_lt (length log.events) max_retained_events) [
    | yes room ↦
        rw
          (
            retain_room room,
            take_last-append_room max_retained_events published event (short_history room),
          )
          (rw (← view, filling room, append-nil, append-nil))
    | no full ↦
        let whole : length log.events ≡ max_retained_events = omega arith in
        rw
          (
            retain_full whole,
            take_last-append_full max_retained_events published event (omega arith)
                (long_history whole),
          )
          (rw (← view, ← whole) (rotate-set log.event_start log.events event (omega arith)))
  ]

  pub retain-shape :
      (length (retain event log).events < max_retained_events → (retain event log).event_start ≡ 0)
      × ((retain event log).event_start < max_retained_events)
      × (length (retain event log).events ≤ max_retained_events)
  unfolding retain
  retain-shape = ground (
    arith,
    filling,
    length-append log.events (event ∷ []),
    length-set log.events log.event_start event,
  )
