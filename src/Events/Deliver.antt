-- ===== src/Events/Deliver.antt =====
-- What the delivery of an event of internal/manager/events.go does to one subscriber.
use kmonad_device_manager.Prelude.{
  ℕ, ◌≤◌, ◌<◌, ◌≡◌, refl, [], ◌∷◌, ◌++◌, none, some, nat_eq, ==_iff, arith, length,
}
use kmonad_device_manager.Prelude.Dict.{Dict, lookup, IsDistinct}
use kmonad_device_manager.Events.{Event, EventSubscriber, event_subscriber_buffer}
use kmonad_device_manager.Events.Publish.{deliver, offer}

abbrev pub pushed : Event → EventSubscriber → EventSubscriber
pushed event s = record s { events = s.events ++ (event ∷ []) }

abbrev pub resynced : Event → EventSubscriber → EventSubscriber
resynced resync s = record s { resync = offer 1 resync s.resync }

module _ (event resync : Event) (id : ℕ) where
  pub deliver-absent :
      (m : Dict ℕ EventSubscriber)
      → lookup id m ≡ none
      → (lookup id (deliver event resync m).0 ≡ none)
        × (lookup id (deliver event resync m).1 ≡ none)
  unfolding deliver lookup
  deliver-absent [] h = (refl, refl)
  deliver-absent ((j, s) ∷ m) h = ground (arith, deliver-absent m)

  pub deliver-room :
      (m : Dict ℕ EventSubscriber) (s : EventSubscriber)
      → IsDistinct m
      → lookup id m ≡ some s
      → length s.events < event_subscriber_buffer
      → lookup id (deliver event resync m).0 ≡ some (pushed event s)
  unfolding deliver lookup
  deliver-room [] s d h room = absurd cc
  deliver-room ((j, t) ∷ m) s d h room = ground (arith, deliver-room m s d.1)

  pub deliver-full :
      (m : Dict ℕ EventSubscriber) (s : EventSubscriber)
      → IsDistinct m
      → lookup id m ≡ some s
      → event_subscriber_buffer ≤ length s.events
      → (lookup id (deliver event resync m).0 ≡ none)
        × (lookup id (deliver event resync m).1 ≡ some (resynced resync s))
  unfolding deliver lookup
  deliver-full [] s d h full = absurd cc
  deliver-full ((j, t) ∷ m) s d h full =
      ground (arith, deliver-full m s d.1, deliver-absent m, ==_iff j id)

pub deliver-IsDistinct :
    (event resync : Event) (m : Dict ℕ EventSubscriber)
    → IsDistinct m
    → IsDistinct (deliver event resync m).0
unfolding deliver
deliver-IsDistinct event resync [] d = tt
deliver-IsDistinct event resync ((j, t) ∷ m) d =
    ground (arith, deliver-IsDistinct event resync m d.1, deliver-absent event resync j m)
