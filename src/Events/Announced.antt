-- ===== src/Events/Announced.antt =====
-- Which changes of the public state internal/manager/events.go announces.
use kmonad_device_manager.Prelude.{
  ◌≡◌, ◌⊎◌, refl, sym, subst, Bool, true, false, Option, none, some, List, [], ◌∷◌, ◌++◌, Text,
  Text-eq, text, text_eq, text_eq_iff, arith, Bool-cases, inl, inr,
}
use kmonad_device_manager.Prelude.Dict.{Dict, lookup}
use kmonad_device_manager.Domain.{Operation, operation_rejected, Diagnostic}
use kmonad_device_manager.Domain.Resources.{Device, RuntimeState, PublicState}
use kmonad_device_manager.Events.{
  operation_changed, configuration_changed, diagnostic_changed, diagnostic, configuration_rejected,
  configuration,
}
use kmonad_device_manager.Events.Changes.{
  Announcement, announce, operation_change, removed, changes, device_change, configuration_change,
  known_operation_change, diagnostic_change, state_changes, is_configuration, refer,
}

-- One of the announcements.
abbrev pub IsAnnounced : Announcement → List Announcement → Type 0
IsAnnounced a [] = ⊥
IsAnnounced a (b ∷ rest) = (a ≡ b) ⊎ IsAnnounced a rest

IsAnnounced-left :
    (a : Announcement) (xs ys : List Announcement) → IsAnnounced a xs → IsAnnounced a (xs ++ ys)
IsAnnounced-left a [] ys i = absurd i
IsAnnounced-left a (x ∷ xs) ys (inl e) = inl e
IsAnnounced-left a (x ∷ xs) ys (inr i) = inr (IsAnnounced-left a xs ys i)

IsAnnounced-right :
    (a : Announcement) (xs ys : List Announcement) → IsAnnounced a ys → IsAnnounced a (xs ++ ys)
IsAnnounced-right a [] ys i = i
IsAnnounced-right a (x ∷ xs) ys i = inr (IsAnnounced-right a xs ys i)

IsAnnounced-changes {ℓ} :
    {V : Type ℓ} (each : Text → Option V → V → List Announcement) (before after : Dict Text V)
    (id : Text) (v : V) (a : Announcement)
    → lookup id after ≡ some v
    → IsAnnounced a (each id (lookup id before) v)
    → IsAnnounced a (changes each before after)
unfolding lookup
IsAnnounced-changes each before [] id v a l i = absurd cc
IsAnnounced-changes each before ((k, w) ∷ after) id v a l i = elim (Bool-cases (text_eq k id)) [
  | inl same ↦
      let key : k ≡ id = ground (arith, text_eq_iff k id) in
      let value : w ≡ v = ground (arith, same) in
      IsAnnounced-left a (each k (lookup k before) w) (changes each before after) (
        subst (λ x. IsAnnounced a (each x (lookup x before) w)) (sym key)
          (subst (λ y. IsAnnounced a (each id (lookup id before) y)) (sym value) i))
  | inr other ↦
      IsAnnounced-right a (each k (lookup k before) w) (changes each before after)
        (IsAnnounced-changes each before after id v a (ground (arith, other)) i)
]

module _ (same_device : Device → Device → Bool) (same_runtime : RuntimeState → RuntimeState → Bool)
    (same_operation : Operation → Operation → Bool)
    (same_diagnostic : Diagnostic → Diagnostic → Bool) where
  -- Was the operation known as it is?
  abbrev pub is_same_operation : Option Operation → Operation → Bool
  is_same_operation none o = false
  is_same_operation (some previous) o = same_operation previous o

  rejected_operation :
      (before after : PublicState) (id : Text) (o : Operation) (a : Announcement)
      → lookup id after.operations ≡ some o
      → is_same_operation (lookup id before.operations) o ≡ false
      → IsAnnounced a (operation_change o)
      → IsAnnounced a
          (state_changes same_device same_runtime same_operation same_diagnostic before after)
  unfolding state_changes
  rejected_operation before after id o a l changed i =
      let each = known_operation_change same_device same_runtime same_operation same_diagnostic in
      let now : operation_change o ≡ each id (lookup id before.operations) o =
        each_changed id (lookup id before.operations) o changed in
      let ds =
        changes (device_change same_device same_runtime same_operation same_diagnostic)
          before.devices after.devices in
      let cs =
        changes (configuration_change same_device same_runtime same_operation same_diagnostic)
          before.configurations after.configurations in
      let gone_cs =
        removed
          (λ id. announce configuration_changed (refer configuration id) (text "runtime_stopped"))
          after.configurations before.configurations in
      let os = changes each before.operations after.operations in
      let gs =
        changes (diagnostic_change same_device same_runtime same_operation same_diagnostic)
          before.diagnostics after.diagnostics in
      let gone_gs =
        removed
          (λ id. announce diagnostic_changed (refer diagnostic id) (text "diagnostic_resolved"))
          after.diagnostics before.diagnostics in
      let member =
        IsAnnounced-changes each before.operations after.operations id o a l
          (subst (IsAnnounced a) now i) in
      IsAnnounced-left a (((ds ++ cs) ++ gone_cs) ++ os ++ gs) gone_gs (
        IsAnnounced-left a ((ds ++ cs) ++ gone_cs ++ os) gs
          (IsAnnounced-right a ((ds ++ cs) ++ gone_cs) os member))
    where
      each_changed :
          (id : Text) (p : Option Operation) (o : Operation)
          → is_same_operation p o ≡ false
          → operation_change o
            ≡ known_operation_change same_device same_runtime same_operation same_diagnostic id p o
      each_changed id none o h = refl
      each_changed id (some p) o h = ground (arith, h)

  -- An operation on a configuration that is new or has changed and is rejected is announced as
  -- changed, and its configuration as rejected.
  rejection_is_published :
      (before after : PublicState) (id : Text) (o : Operation)
      → lookup id after.operations ≡ some o
      → is_same_operation (lookup id before.operations) o ≡ false
      → o.state ≡ operation_rejected
      → is_configuration o.resource.kind ≡ true
      → IsAnnounced
          (announce operation_changed o.resource o.reason_code)
          (state_changes same_device same_runtime same_operation same_diagnostic before after)
        × IsAnnounced
            (announce configuration_rejected o.resource o.reason_code)
            (state_changes same_device same_runtime same_operation same_diagnostic before after)
  unfolding operation_change
  rejection_is_published before after id o l changed rejected kind =
      let both : announce operation_changed o.resource o.reason_code
            ∷ announce configuration_rejected o.resource o.reason_code
            ∷ []
          ≡ operation_change o =
        ground (arith, rejected, kind) in
      (
        rejected_operation before after id o (announce operation_changed o.resource o.reason_code) l
            changed
            (subst (IsAnnounced (announce operation_changed o.resource o.reason_code)) both
              (inl refl)),
        rejected_operation before after id o
            (announce configuration_rejected o.resource o.reason_code) l changed
            (subst (IsAnnounced (announce configuration_rejected o.resource o.reason_code)) both
              (inr (inl refl))),
      )
