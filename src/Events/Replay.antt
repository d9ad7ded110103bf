-- ===== src/Events/Replay.antt =====
-- What a client that joins the log of internal/manager/events.go is given: every event that it has
-- not seen, or the order to resynchronise.
use native.Mathlib.Decide.{dec_lt}
use mathlib.Core.Bool.{false≢true}
use kmonad_device_manager.Prelude.{
  ℕ, zero, suc, ◌+◌, ◌-◌, ◌≤◌, ◌<◌, ◌≡◌, ◌⊎◌, ◌↔◌, ap, sym, subst, ◌∙◌, true, false, inr, List, [],
  ◌∷◌, some, nat_eq, beq_refl, ltb, is_some, arith, length, drop, take, keep, drop_all, ◌++◌,
  length-drop, drop-drop,
}
use kmonad_device_manager.Prelude.Dict.{lookup, lookup-insert}
use kmonad_device_manager.Events.{Event, EventLog, max_retained_events, next_u64}
use kmonad_device_manager.Events.Subscriptions.{
  EventsSubscribeParams, after_of, oldest_event_id, needs_resync, retained_events, subscribe_events,
}
use kmonad_device_manager.Events.Ring.{get_elem?-drop}
use kmonad_device_manager.Events.Logs.{Numbered, Logs}
use kmonad_device_manager.Events.Retained.{Logs-retained, start-lt, nil_of_length}

Numbered-drop :
    (k n : ℕ) (es : List Event) → k ≤ length es → Numbered n es → Numbered (n + k) (drop k es)
Numbered-drop zero n es h w = subst (λ m. Numbered m es) (omega arith) w
Numbered-drop (suc k) n [] h w = absurd (omega arith)
Numbered-drop (suc k) n (e ∷ es) h w =
    subst (λ m. Numbered m (drop k es)) (let q : n + 1 + k ≡ n + suc k = omega arith in q)
      (Numbered-drop k (n + 1) es (omega arith) w.1)

-- To keep the events numbered above `after` is to drop the ones before.
keep-Numbered :
    (after n : ℕ) (es : List Event)
    → Numbered n es
    → keep (λ e. ltb after e.event_id) es ≡ drop (after - n) es
keep-Numbered after n [] w = sym (drop_all (after - n) [] (omega arith))
keep-Numbered after n (e ∷ es) w = elim (dec_lt n after) [
  | yes seen ↦
      let fewer : after - n ≡ suc (after - (n + 1)) = omega arith in
      rw fewer (ground (arith, keep-Numbered after (n + 1) es w.1))
  | no unseen ↦
      let all_left : after - n ≡ 0 = omega arith in
      let rest_left : after - (n + 1) ≡ 0 = omega arith in
      rw all_left (
        ground (
          arith,
          subst (λ k. keep (λ x. ltb after x.event_id) es ≡ drop k es) rest_left
              (keep-Numbered after (n + 1) es w.1),
        ))
]

module _ (published : List Event) (log : EventLog) (l : Logs published log) where
  ring_size : length log.events ≡ length published - (length published - max_retained_events)
  ring_size = sym l.size ∙ length-drop (length published - max_retained_events) published

  oldest_empty : length published ≡ 0 → oldest_event_id log ≡ 0
  unfolding oldest_event_id
  oldest_empty h = ground (arith, nil_of_length log.events (omega (arith, ring_size)))

  first_of_ring :
      (x : Event) (rest : List Event)
      → drop log.event_start log.events ≡ x ∷ rest
      → x.event_id ≡ length published - max_retained_events + 1
  first_of_ring x rest cut =
      let k = length published - max_retained_events in
      let w = Numbered-drop k 0 published (omega arith) l.numbered in
      let joined : x ∷ (rest ++ take log.event_start log.events) ≡ drop k published =
        ap (λ t. t ++ take log.event_start log.events) (sym cut) ∙ l.view in
      omega (arith, (subst (Numbered (0 + k)) (sym joined) w).0)

  oldest_lem :
      0 < length published → oldest_event_id log ≡ length published - max_retained_events + 1
  unfolding oldest_event_id
  oldest_lem h =
      let inside =
        start-lt log.event_start (length log.events) l.filling l.start_in
          (omega (arith, ring_size)) in
      let (x, read, cut) = get_elem?-drop log.event_start log.events inside in
      ground (arith, read, first_of_ring x (drop (suc log.event_start) log.events) cut)

  -- When a subscription is refused: by demand of the caller, for a cursor from the future, or for
  -- one behind what is retained.
  abbrev pub MustResync : EventsSubscribeParams → Type 0
  MustResync params =
      (params.force_resync ≡ true)
      ⊎ ((is_some params.after_event_id ≡ true)
          × (length published < after_of params.after_event_id log.next_event_id))
      ⊎ (after_of params.after_event_id log.next_event_id + max_retained_events < length published)

  needs_resync_iff :
      (params : EventsSubscribeParams) → (needs_resync params log ≡ true) ↔ MustResync params
  unfolding needs_resync
  needs_resync_iff params = elim (dec_lt 0 (length published)) [
    | yes some_published ↦ (
      λ h. ground (arith, oldest_lem some_published, l.latest),
      λ h. ground (arith, oldest_lem some_published, l.latest),
    )
    | no none_published ↦ (
      λ h. ground (arith, oldest_empty (omega arith), l.latest),
      λ h. ground (arith, oldest_empty (omega arith), l.latest),
    )
  ]

  needs_resync-false :
      (params : EventsSubscribeParams)
      → needs_resync params log ≡ false
      → length published ≤ after_of params.after_event_id log.next_event_id + max_retained_events
  needs_resync-false params h =
      elim (dec_lt (after_of params.after_event_id log.next_event_id + max_retained_events)
        (length published)) [
          | yes behind ↦
              absurd (false≢true (sym h ∙ (needs_resync_iff params).1 (inr (inr behind))))
          | no near ↦ omega arith
        ]

  -- A subscription asks for a resynchronisation exactly when the caller forces it, names an event
  -- that is not yet published, or has missed events that are no longer retained.
  resync_needed_iff :
      (now : ℕ) (params : EventsSubscribeParams)
      → ((subscribe_events now params log).0.resync_needed ≡ true) ↔ MustResync params
  unfolding subscribe_events
  resync_needed_iff now params = (
    λ h. (needs_resync_iff params).0 (ground arith),
    λ h. ground (arith, (needs_resync_iff params).1 h),
  )

  kept_events :
      (after : ℕ)
      → length published ≤ after + max_retained_events
      → keep (λ e. ltb after e.event_id) (retained_events log) ≡ drop after published
  kept_events after near =
      let k = length published - max_retained_events in
      let w = Numbered-drop k 0 published (omega arith) l.numbered in
      ap (keep (λ e. ltb after e.event_id)) (Logs-retained published log l)
      ∙ keep-Numbered after (0 + k) (drop k published) w
      ∙ drop-drop (after - (0 + k)) k published
      ∙ ap (λ n. drop n published) (omega arith)

  -- An accepted subscription replays exactly the events published after the cursor, in order, and
  -- registers a subscriber with empty channels under the id that it returns.
  pub subscribe_replays :
      (now : ℕ) (params : EventsSubscribeParams)
      → (subscribe_events now params log).0.resync_needed ≡ false
      → let (subscription, after) = subscribe_events now params log in
        (subscription.replay ≡ drop (after_of params.after_event_id log.next_event_id) published)
        × (lookup subscription.id after.event_subscribers
            ≡ some (record { events = []; resync = [] }))
        × (subscription.latest_event_id ≡ length published)
  unfolding subscribe_events
  subscribe_replays now params h = ground (
    arith,
    l.latest,
    needs_resync-false params,
    kept_events (after_of params.after_event_id log.next_event_id),
    lookup-insert (next_u64 log.next_subscriber_id) (next_u64 log.next_subscriber_id)
        (record { events = []; resync = [] }) log.event_subscribers,
    beq_refl (next_u64 log.next_subscriber_id),
  )
