-- ===== src/Events/Ring.antt =====
-- A ring of internal/manager/events.go read from its start, as a list.
use native.Mathlib.Nat.{mod-eq_of_lt}
use native.Mathlib.Decide.{dec_lt}
use kmonad_device_manager.Prelude.{
  ℕ, zero, suc, ◌+◌, ◌-◌, ◌%◌, ◌≤◌, ◌<◌, ◌≡◌, ◌⊎◌, inl, inr, refl, ap, sym, ap₂, ◌∙◌, List, [], ◌∷◌,
  ◌++◌, some, arith, length, get_elem?, set, drop, take, append-nil, append_assoc, length-append,
  length-drop, drop_all,
}
use kmonad_device_manager.Events.{Event}
use kmonad_device_manager.Events.Subscriptions.{retained_from}

module _ {ℓ} {A : Type ℓ} where
  -- From `start` to the end, then from the beginning.
  abbrev pub rotate : ℕ → List A → List A
  rotate start xs = drop start xs ++ take start xs

  pub get_elem?-drop :
      (i : ℕ) (xs : List A)
      → i < length xs
      → (x : A) × (get_elem? xs i ≡ some x) × (drop i xs ≡ x ∷ drop (suc i) xs)
  get_elem?-drop i [] h = absurd (omega arith)
  get_elem?-drop zero (x ∷ xs) h = (x, refl, refl)
  get_elem?-drop (suc i) (x ∷ xs) h = get_elem?-drop i xs (omega arith)

  set-split :
      (i : ℕ) (xs : List A) (v : A)
      → i < length xs
      → set xs i v ≡ take i xs ++ (v ∷ drop (suc i) xs)
  set-split i [] v h = absurd (omega arith)
  set-split zero (x ∷ xs) v h = refl
  set-split (suc i) (x ∷ xs) v h = ap (λ t. x ∷ t) (set-split i xs v (omega arith))

  length-take : (i : ℕ) (xs : List A) → i ≤ length xs → length (take i xs) ≡ i
  length-take zero xs h = refl
  length-take (suc i) [] h = absurd (omega arith)
  length-take (suc i) (x ∷ xs) h = ap suc (length-take i xs (omega arith))

  take_all : (n : ℕ) (xs : List A) → length xs ≤ n → take n xs ≡ xs
  take_all zero [] h = refl
  take_all zero (x ∷ xs) h = absurd (omega arith)
  take_all (suc n) [] h = refl
  take_all (suc n) (x ∷ xs) h = ap (λ t. x ∷ t) (take_all n xs (omega arith))

  pub length-rotate : (n : ℕ) (xs : List A) → n ≤ length xs → length (rotate n xs) ≡ length xs
  length-rotate n xs h =
      omega (arith, length-append (drop n xs) (take n xs), length-drop n xs, length-take n xs h)

  drop_past : (ys zs : List A) (v : A) → drop (suc (length ys)) (ys ++ (v ∷ zs)) ≡ zs
  drop_past [] zs v = refl
  drop_past (y ∷ ys) zs v = drop_past ys zs v

  take_past : (ys zs : List A) (v : A) → take (suc (length ys)) (ys ++ (v ∷ zs)) ≡ ys ++ (v ∷ [])
  take_past [] zs v = refl
  take_past (y ∷ ys) zs v = ap (λ t. y ∷ t) (take_past ys zs v)

  rotate_past :
      (n : ℕ) (ys zs : List A) (v : A)
      → length ys ≡ n
      → rotate (suc n) (ys ++ (v ∷ zs)) ≡ zs ++ (ys ++ (v ∷ []))
  rotate_past n ys zs v h = rw (← h, drop_past, take_past)

  rotate-set_inside :
      (start : ℕ) (xs : List A) (v : A)
      → start + 1 < length xs
      → rotate (start + 1) (set xs start v) ≡ drop 1 (rotate start xs) ++ (v ∷ [])
  rotate-set_inside start xs v h =
      let (x, read, cut) = get_elem?-drop start xs (omega arith) in
      let e : start + 1 ≡ suc start = omega arith in
      rw (e, cut, set-split start xs v (omega arith))
        (rotate_past start (take start xs) (drop (suc start) xs) v
            (length-take start xs (omega arith))
          ∙ sym (append_assoc (drop (suc start) xs) (take start xs) (v ∷ [])))

  rotate-set_last :
      (start : ℕ) (xs : List A) (v : A)
      → start + 1 ≡ length xs
      → rotate 0 (set xs start v) ≡ drop 1 (rotate start xs) ++ (v ∷ [])
  rotate-set_last start xs v h =
      let (x, read, cut) = get_elem?-drop start xs (omega arith) in
      rw
        (cut, append-nil, set-split start xs v (omega arith), drop_all (suc start) xs (omega arith))

  -- A write at the start of a full ring replaces its oldest element by a newest.
  pub rotate-set :
      (start : ℕ) (xs : List A) (v : A)
      → start < length xs
      → rotate ((start + 1) % length xs) (set xs start v) ≡ drop 1 (rotate start xs) ++ (v ∷ [])
  rotate-set start xs v h = elim (dec_lt (start + 1) (length xs)) [
    | yes inside ↦ rw (mod-eq_of_lt inside) (rotate-set_inside start xs v inside)
    | no last ↦
        let e : (start + 1) % length xs ≡ 0 = grind arith in
        rw e (rotate-set_last start xs v (omega arith))
  ]

mod_wrap : (p n : ℕ) → p < n → (p + n) % n ≡ p
mod_wrap p n h = grind arith

wrapped-mod : (p wrap k n : ℕ) → (wrap ≡ 0) ⊎ (wrap ≡ n) → k ≡ p + wrap → p < n → k % n ≡ p
wrapped-mod p wrap k n w e h = elim w [
  | inl straight ↦ let same : k ≡ p = omega arith in ap (λ t. t % n) same ∙ mod-eq_of_lt h
  | inr round ↦ let past : k ≡ p + n = omega arith in ap (λ t. t % n) past ∙ mod_wrap p n h
]

retained_run :
    (events : List Event) (start index count p wrap : ℕ)
    → (wrap ≡ 0) ⊎ (wrap ≡ length events)
    → start + index ≡ p + wrap
    → p + count ≤ length events
    → retained_from events start index count ≡ take count (drop p events)
unfolding retained_from
retained_run events start index zero p wrap w e h = refl
retained_run events start index (suc count) p wrap w e h =
    let (x, read, cut) = get_elem?-drop p events (omega arith) in
    let at = wrapped-mod p wrap (start + index) (length events) w e (omega arith) in
    ground (
      arith,
      read,
      cut,
      at,
      retained_run events start (index + 1) count (suc p) wrap w (omega arith) (omega arith),
    )

retained_split :
    (events : List Event) (start index a b : ℕ)
    → retained_from events start index (a + b)
      ≡ retained_from events start index a ++ retained_from events start (index + a) b
unfolding retained_from
retained_split events start index zero b =
    ap₂ (λ i n. retained_from events start i n) (omega arith) (omega arith)
retained_split events start index (suc a) b =
    let longer : suc a + b ≡ suc (a + b) = omega arith in
    let later : index + suc a ≡ index + 1 + a = omega arith in
    rw (longer, later) (ground (arith, retained_split events start (index + 1) a b))

-- The loop over all indices reads the ring from its start.
pub retained_rotate :
    (events : List Event) (start : ℕ)
    → start < length events
    → retained_from events start 0 (length events) ≡ rotate start events
retained_rotate events start h =
    ap (λ n. retained_from events start 0 n) (omega arith)
    ∙ retained_split events start 0 (length events - start) start
    ∙ ap₂ ◌++◌
        (retained_run events start 0 (length events - start) start 0 (inl refl) (omega arith)
            (omega arith)
          ∙ take_all (length events - start) (drop start events)
              (omega (arith, length-drop start events)))
        (retained_run events start (0 + (length events - start)) start 0 (length events) (inr refl)
          (omega arith) (omega arith))
