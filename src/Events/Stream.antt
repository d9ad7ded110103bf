-- ===== src/Events/Stream.antt =====
-- A client of internal/manager/events.go that reads its channel misses no event unless it is told to
-- resynchronise.
use native.Mathlib.Decide.{dec_lt}
use kmonad_device_manager.Prelude.{
  ℕ, ◌≤◌, ◌≡◌, ◌≢◌, ◌⊎◌, refl, ap, sym, ◌∙◌, inl, inr, List, [], ◌∷◌, ◌++◌, append_assoc, none,
  some, nat_eq, arith, length, drop, drop-append,
}
use kmonad_device_manager.Prelude.Dict.{lookup, lookup-append, IsDistinct}
use kmonad_device_manager.Events.{
  Event, EventSubscriber, EventLog, event_subscriber_buffer, next_u64,
}
use kmonad_device_manager.Events.Publish.{deliver, offer, publish, resync_required_event, retain}
use kmonad_device_manager.Events.Deliver.{
  pushed, resynced, deliver-absent, deliver-room, deliver-full,
}

-- The subscriber `id` is registered, and its client has taken, or finds in the channel, every event
-- published behind the first `base`.
abbrev pub Streams : ℕ → ℕ → List Event → List Event → EventLog → Type 0
Streams id base taken published log =
    (s : EventSubscriber) × (lookup id log.event_subscribers ≡ some s)
    × (taken ++ s.events ≡ drop base published)

-- The subscriber `id` was dropped: its client finds the order to resynchronise, and events without
-- a gap up to the one that did not fit.
abbrev pub WasDropped : ℕ → ℕ → List Event → List Event → EventLog → Type 0
WasDropped id base taken published log =
    (s : EventSubscriber) × (missing : List Event) × (lookup id log.event_subscribers ≡ none)
    × (lookup id log.detached ≡ some s)
    × (s.resync ≢ [])
    × (missing ≢ [])
    × ((taken ++ s.events) ++ missing ≡ drop base published)

abbrev pub Follows : ℕ → ℕ → List Event → List Event → EventLog → Type 0
Follows id base taken published log =
    Streams id base taken published log ⊎ WasDropped id base taken published log

offer_one : (e : Event) (queue : List Event) → offer 1 e queue ≢ []
offer_one e [] h = cc
offer_one e (x ∷ queue) h = ground arith

one_more :
    (base : ℕ) (xs ys published : List Event) (e : Event)
    → base ≤ length published
    → xs ++ ys ≡ drop base published
    → xs ++ (ys ++ (e ∷ [])) ≡ drop base (published ++ (e ∷ []))
one_more base xs ys published e h p =
    sym (append_assoc xs ys (e ∷ []))
    ∙ ap (λ t. t ++ (e ∷ [])) p
    ∙ sym (drop-append base published (e ∷ []) h)

append-ne-nil : (xs : List Event) (e : Event) → xs ++ (e ∷ []) ≢ []
append-ne-nil [] e h = cc
append-ne-nil (x ∷ xs) e h = cc

pub publish-subscribers :
    (now : ℕ) (event : Event) (log : EventLog)
    → let resync = resync_required_event now (record log {
      next_event_id = next_u64 log.next_event_id;
      state_revision = next_u64 log.state_revision;
      public_state_revision = next_u64 log.state_revision;
    }) in
      ((publish now event log).event_subscribers ≡ (deliver event resync log.event_subscribers).0)
      × ((publish now event log).detached
          ≡ (deliver event resync log.event_subscribers).1 ++ log.detached)
      × ((publish now event log).next_subscriber_id ≡ log.next_subscriber_id)
unfolding publish retain
publish-subscribers now event log = (refl, refl, ground arith)

module _ (now : ℕ) (event : Event) (log : EventLog) (id base : ℕ) (taken published : List Event)
    (unique : IsDistinct log.event_subscribers) (begun : base ≤ length published) where
  abbrev resync : Event
  resync = resync_required_event now (record log {
    next_event_id = next_u64 log.next_event_id;
    state_revision = next_u64 log.state_revision;
    public_state_revision = next_u64 log.state_revision;
  })

  pub publish-Streams :
      Streams id base taken published log
      → Follows id base taken (published ++ (event ∷ [])) (publish now event log)
  publish-Streams (s, found, seen) =
      let (subscribers, detached, ids) = publish-subscribers now event log in
      elim (dec_lt (length s.events) event_subscriber_buffer) [
        | yes room ↦ inl (
          pushed event s,
          rw subscribers (deliver-room event resync id log.event_subscribers s unique found room),
          one_more base taken s.events published event begun seen,
        )
        | no full ↦
            let (gone, left) =
              deliver-full event resync id log.event_subscribers s unique found (omega arith) in
            inr (
              resynced resync s,
              event ∷ [],
              rw subscribers gone,
              rw (detached, lookup-append, left),
              offer_one resync s.resync,
              (λ h. cc),
              append_assoc taken s.events (event ∷ [])
                  ∙ one_more base taken s.events published event begun seen,
            )
      ]

  pub publish-WasDropped :
      WasDropped id base taken published log
      → WasDropped id base taken (published ++ (event ∷ [])) (publish now event log)
  publish-WasDropped (s, missing, gone, left, told, some_missing, seen) =
      let (subscribers, detached, ids) = publish-subscribers now event log in
      let (still_gone, not_here) = deliver-absent event resync id log.event_subscribers gone in
      (
        s,
        missing ++ (event ∷ []),
        rw subscribers still_gone,
        rw (detached, lookup-append, not_here) left,
        told,
        append-ne-nil missing event,
        one_more base (taken ++ s.events) missing published event begun seen,
      )
