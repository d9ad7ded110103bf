-- ===== src/Events/Silent.antt =====
-- A public state that has not changed publishes nothing, in internal/manager/events.go.
use kmonad_device_manager.Prelude.{
  ℕ, ◌≡◌, refl, ap, ap₂, ◌∙◌, Bool, true, Option, none, some, List, [], ◌∷◌, ◌++◌, Text, Text-eq,
  text, text_eq_iff, arith, beq_refl,
}
use kmonad_device_manager.Prelude.Dict.{Dict, lookup, IsDistinct}
use kmonad_device_manager.Domain.{Operation, Diagnostic}
use kmonad_device_manager.Domain.Resources.{
  Device, Configuration, RuntimeState, PublicState, same_ownership, ConfigurationOwnership, managed,
  external,
}
use kmonad_device_manager.Events.{
  EventLog, configuration_changed, diagnostic_changed, diagnostic, configuration,
}
use kmonad_device_manager.Events.Changes.{
  Announcement, announce, removed, changes, device_change, configuration_change,
  known_operation_change, diagnostic_change, state_changes, publish_all,
  publish_state_changes_between, refer,
}

-- Each entry is the one that its key finds in `m`.
abbrev AreFound {ℓ} : {V : Type ℓ} → Dict Text V → Dict Text V → Type ℓ
AreFound m [] = Unit
AreFound m ((k, v) ∷ entries) = (lookup k m ≡ some v) × AreFound m entries

AreFound-cons {ℓ} :
    {V : Type ℓ} (k : Text) (w : V) (m entries : Dict Text V)
    → lookup k m ≡ none
    → AreFound m entries
    → AreFound ((k, w) ∷ m) entries
unfolding lookup
AreFound-cons k w m [] fresh found = tt
AreFound-cons k w m ((i, v) ∷ entries) fresh found =
    (ground (arith, found.0, text_eq_iff k i, fresh), AreFound-cons k w m entries fresh found.1)

IsDistinct-AreFound {ℓ} : {V : Type ℓ} (m : Dict Text V) → IsDistinct m → AreFound m m
unfolding lookup
IsDistinct-AreFound [] d = tt
IsDistinct-AreFound ((k, w) ∷ m) d =
    (ground (arith, beq_refl k), AreFound-cons k w m m d.0 (IsDistinct-AreFound m d.1))

changes-AreFound {ℓ} :
    {V : Type ℓ} (each : Text → Option V → V → List Announcement) (m entries : Dict Text V)
    → ((id : Text) (v : V) → each id (some v) v ≡ [])
    → AreFound m entries
    → changes each m entries ≡ []
changes-AreFound each m [] same found = refl
changes-AreFound each m ((k, v) ∷ entries) same found =
    ap₂ (λ xs ys. xs ++ ys) (ap (λ o. each k o v) found.0 ∙ same k v)
      (changes-AreFound each m entries same found.1)

removed-AreFound {ℓ} :
    {V : Type ℓ} (gone : Text → Announcement) (m entries : Dict Text V)
    → AreFound m entries
    → removed gone m entries ≡ []
removed-AreFound gone m [] found = refl
removed-AreFound gone m ((k, v) ∷ entries) found =
    ground (arith, found.0, removed-AreFound gone m entries found.1)

same_ownership_refl : (o : ConfigurationOwnership) → same_ownership o o ≡ true
same_ownership_refl managed = refl
same_ownership_refl external = refl

configuration_change-same :
    (same_device : Device → Device → Bool) (same_runtime : RuntimeState → RuntimeState → Bool)
    (same_operation : Operation → Operation → Bool)
    (same_diagnostic : Diagnostic → Diagnostic → Bool)
    → ((r : RuntimeState) → same_runtime r r ≡ true)
    → (id : Text) (c : Configuration)
    → configuration_change same_device same_runtime same_operation same_diagnostic id (some c) c
      ≡ []
configuration_change-same same_device same_runtime same_operation same_diagnostic r id c =
    ground
      (arith, beq_refl c.name, beq_refl c.device_id, same_ownership_refl c.ownership, r c.runtime)

module _ (same_device : Device → Device → Bool) (same_runtime : RuntimeState → RuntimeState → Bool)
    (same_operation : Operation → Operation → Bool)
    (same_diagnostic : Diagnostic → Diagnostic → Bool) where
  no_changes :
      (s : PublicState)
      → ((d : Device) → same_device d d ≡ true)
      → ((r : RuntimeState) → same_runtime r r ≡ true)
      → ((o : Operation) → same_operation o o ≡ true)
      → ((d : Diagnostic) → same_diagnostic d d ≡ true)
      → IsDistinct s.devices
      → IsDistinct s.configurations
      → IsDistinct s.operations
      → IsDistinct s.diagnostics
      → state_changes same_device same_runtime same_operation same_diagnostic s s ≡ []
  unfolding state_changes
  no_changes s d r o g ds cs os gs =
      let found = IsDistinct-AreFound s.configurations cs in
      let known = IsDistinct-AreFound s.diagnostics gs in
      rw
        (
          changes-AreFound (device_change same_device same_runtime same_operation same_diagnostic)
              s.devices s.devices (λ id v. ground (arith, d v)) (IsDistinct-AreFound s.devices ds),
          changes-AreFound
              (configuration_change same_device same_runtime same_operation same_diagnostic)
              s.configurations s.configurations
              (configuration_change-same same_device same_runtime same_operation same_diagnostic r)
              found,
          removed-AreFound
              (λ id.
                announce configuration_changed (refer configuration id) (text "runtime_stopped"))
              s.configurations s.configurations found,
          changes-AreFound
              (known_operation_change same_device same_runtime same_operation same_diagnostic)
              s.operations s.operations (λ id v. ground (arith, o v))
              (IsDistinct-AreFound s.operations os),
          changes-AreFound
              (diagnostic_change same_device same_runtime same_operation same_diagnostic)
              s.diagnostics s.diagnostics (λ id v. ground (arith, g v)) known,
          removed-AreFound
              (λ id. announce diagnostic_changed (refer diagnostic id) (text "diagnostic_resolved"))
              s.diagnostics s.diagnostics known,
        )
        refl

  -- When what `reflect.DeepEqual` is told to compare is the same, a state that has not changed
  -- publishes nothing: the log stays as it is, with its revision and its cursor.
  pub unchanged_state_is_silent :
      (clock : ℕ → ℕ) (s : PublicState) (log : EventLog)
      → ((d : Device) → same_device d d ≡ true)
      → ((r : RuntimeState) → same_runtime r r ≡ true)
      → ((o : Operation) → same_operation o o ≡ true)
      → ((d : Diagnostic) → same_diagnostic d d ≡ true)
      → IsDistinct s.devices
      → IsDistinct s.configurations
      → IsDistinct s.operations
      → IsDistinct s.diagnostics
      → publish_state_changes_between same_device same_runtime same_operation same_diagnostic clock
          s s log
        ≡ log
  unfolding publish_state_changes_between state_changes publish_all
  unchanged_state_is_silent clock s log d r o g devices configurations operations diagnostics =
      rw (no_changes s d r o g devices configurations operations diagnostics) refl
