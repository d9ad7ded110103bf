-- ===== src/Broker/Ids.antt =====
-- The NUL byte that joins two identifiers in a key of internal/platform/broker.go separates them.
use kmonad_device_manager.Prelude.{
  ℕ, ◌<◌, ◌≡◌, refl, ◌≢◌, true, false, [], ◌∷◌, ◌++◌, Text, Text-eq, text_eq, text_eq_iff,
  Bool-cases, inl, inr, all, all-cons, arith,
}
use kmonad_device_manager.Broker.{is_broker_id_byte, valid_broker_id, grant_key}

is_broker_id_byte-pos : (c : ℕ) → is_broker_id_byte c ≡ true → 0 < c
is_broker_id_byte-pos c h = ground arith

pub valid-all : (u : Text) → valid_broker_id u ≡ true → all is_broker_id_byte u ≡ true
unfolding valid_broker_id
valid-all u h = ground arith

-- Two keys are equal only if their parts are.
key-injective :
    (u v s t : Text)
    → all is_broker_id_byte u ≡ true
    → all is_broker_id_byte v ≡ true
    → u ++ (0 ∷ s) ≡ v ++ (0 ∷ t)
    → (u ≡ v) × (s ≡ t)
key-injective [] [] s t hu hv p = (refl, cc)
key-injective [] (y ∷ v) s t hu hv p =
    ground (arith, is_broker_id_byte-pos y, all-cons is_broker_id_byte y v)
key-injective (x ∷ u) [] s t hu hv p =
    ground (arith, is_broker_id_byte-pos x, all-cons is_broker_id_byte x u)
key-injective (x ∷ u) (y ∷ v) s t hu hv p =
    ground
      (arith, all-cons is_broker_id_byte x u, all-cons is_broker_id_byte y v, key-injective u v s t)

pub grant_key-injective :
    (u v s t : Text)
    → valid_broker_id u ≡ true
    → valid_broker_id v ≡ true
    → grant_key u s ≡ grant_key v t
    → (u ≡ v) × (s ≡ t)
grant_key-injective u v s t hu hv p = key-injective u v s t (valid-all u hu) (valid-all v hv) p

-- The keys of different valid users are different.
pub key_of_other_user :
    (u v s t : Text)
    → valid_broker_id u ≡ true
    → valid_broker_id v ≡ true
    → u ≢ v
    → text_eq (grant_key u s) (grant_key v t) ≡ false
key_of_other_user u v s t hu hv n = elim (Bool-cases (text_eq (grant_key u s) (grant_key v t))) [
  | inl same ↦ absurd (n (grant_key-injective u v s t hu hv ((text_eq_iff _ _).0 same)).0)
  | inr other ↦ other
]
