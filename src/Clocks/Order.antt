-- ===== src/Clocks/Order.antt =====
-- What `VectorClock.compare` decides: the pointwise order of vectors of one length.
use scrape_grid.Prelude.{
  ℕ, zero, suc, ◌≤◌, ◌<◌, ◌≡◌, refl, ap, ap₂, ◌≢◌, ◌↔◌, inl, inr, Bool, true, false, List, [], ◌∷◌,
  arith, leb, ◌==◌, get_or, length, Bool-cases, &&-eq-true, leb→le, le→leb, ==_iff,
}
use scrape_grid.Clocks.Vector.{all_slots, compare, equal, before, after, concurrent}

-- No count of the first vector is above that of the second.
abbrev pub AtMost : List ℕ → List ℕ → Type 0
AtMost va vb = (i : ℕ) → get_or va i 0 ≤ get_or vb i 0

-- A slotwise test on vectors of one length, in terms of indices.
all_slots_sound :
    (test : ℕ → ℕ → Bool) (va vb : List ℕ)
    → length va ≡ length vb
    → all_slots test va vb ≡ true
    → (i : ℕ) → i < length va
    → test (get_or va i 0) (get_or vb i 0) ≡ true
unfolding all_slots
all_slots_sound test [] vb len h i lt = absurd (omega arith)
all_slots_sound test (x ∷ xs) [] len h i lt = absurd (omega arith)
all_slots_sound test (x ∷ xs) (y ∷ ys) len h zero lt = (&&-eq-true _ _ h).0
all_slots_sound test (x ∷ xs) (y ∷ ys) len h (suc i) lt =
    all_slots_sound test xs ys (omega arith) (&&-eq-true _ _ h).1 i (omega arith)

all_slots_complete :
    (test : ℕ → ℕ → Bool) (va vb : List ℕ)
    → ((i : ℕ) → test (get_or va i 0) (get_or vb i 0) ≡ true)
    → all_slots test va vb ≡ true
unfolding all_slots
all_slots_complete test [] vb h = refl
all_slots_complete test (x ∷ xs) [] h = refl
all_slots_complete test (x ∷ xs) (y ∷ ys) h =
    let rest = all_slots_complete test xs ys (λ i. h (suc i)) in rw (h 0, rest)

pub get_or_outside : (xs : List ℕ) (i : ℕ) → length xs ≤ i → get_or xs i 0 ≡ 0
get_or_outside [] i h = refl
get_or_outside (x ∷ xs) zero h = absurd (omega arith)
get_or_outside (x ∷ xs) (suc i) h = get_or_outside xs i (omega arith)

ext_get_or :
    (xs ys : List ℕ)
    → length xs ≡ length ys
    → ((i : ℕ) → i < length xs → get_or xs i 0 ≡ get_or ys i 0)
    → xs ≡ ys
ext_get_or [] [] len h = refl
ext_get_or [] (y ∷ ys) len h = absurd (omega arith)
ext_get_or (x ∷ xs) [] len h = absurd (omega arith)
ext_get_or (x ∷ xs) (y ∷ ys) len h =
    ap₂ ◌∷◌ (h 0 (omega arith)) (ext_get_or xs ys (omega arith) (λ i lt. h (suc i) (omega arith)))

refute {ℓ} : {P : Type ℓ} {b : Bool} → (b ≡ true) ↔ P → ¬ P → b ≡ false
refute {b} iff n = elim (Bool-cases b) [ inl h ↦ absurd (n (iff.0 h)) | inr h ↦ h ]

module _ (va vb : List ℕ) (len : length va ≡ length vb) where
  le_iff : (all_slots leb va vb ≡ true) ↔ AtMost va vb
  le_iff = (
    λ h i. elim (Bool-cases (leb (suc i) (length va))) [
      | inl lt ↦ leb→le _ _ (all_slots_sound leb va vb len h i (leb→le _ _ lt))
      | inr out ↦ let far : length va ≤ i = ground arith in omega (arith, get_or_outside va i far)
    ],
    λ h. all_slots_complete leb va vb (λ i. le→leb _ _ (h i)),
  )

  ge_iff : (all_slots (λ x y. leb y x) va vb ≡ true) ↔ AtMost vb va
  ge_iff = (
    λ h i. elim (Bool-cases (leb (suc i) (length va))) [
      | inl lt ↦ leb→le _ _ (all_slots_sound (λ x y. leb y x) va vb len h i (leb→le _ _ lt))
      | inr out ↦ let far : length vb ≤ i = ground arith in omega (arith, get_or_outside vb i far)
    ],
    λ h. all_slots_complete (λ x y. leb y x) va vb (λ i. le→leb _ _ (h i)),
  )

  eq_iff : (all_slots ◌==◌ va vb ≡ true) ↔ (va ≡ vb)
  eq_iff = (
    λ h. ext_get_or va vb len (λ i lt. (==_iff _ _).0 (all_slots_sound ◌==◌ va vb len h i lt)),
    λ e. all_slots_complete ◌==◌ va vb (λ i. (==_iff _ _).1 (ap (λ v. get_or v i 0) e)),
  )

  pub AtMost-antisymm : AtMost va vb → AtMost vb va → va ≡ vb
  AtMost-antisymm h k = ext_get_or va vb len (λ i _. omega (arith, h i, k i))

  le_of_eq : va ≡ vb → AtMost va vb
  le_of_eq same i = omega (arith, ap (λ v. get_or v i 0) same)

  differ : va ≢ vb → all_slots ◌==◌ va vb ≡ false
  differ = refute eq_iff

  -- On vectors of one length `compare` decides the pointwise order, each answer exactly when it is
  -- due: "equal" on equal vectors, "before" and "after" on different ones of which one dominates,
  -- "concurrent" when neither does.
  pub compare_iff :
      ((compare va vb ≡ equal) ↔ (va ≡ vb))
      × ((compare va vb ≡ before) ↔ (AtMost va vb × (va ≢ vb)))
      × ((compare va vb ≡ after) ↔ (AtMost vb va × (va ≢ vb)))
      × ((compare va vb ≡ concurrent) ↔ ((¬ AtMost va vb) × (¬ AtMost vb va)))
  unfolding compare
  compare_iff = (
    (λ e. eq_iff.0 (ground arith), λ e. rw (eq_iff.1 e)),
    (
      λ e. (le_iff.0 (ground arith), λ same. let h = eq_iff.1 same in ground arith),
      λ (h, ne). rw (differ ne, le_iff.1 h),
    ),
    (
      λ e. (ge_iff.0 (ground arith), λ same. let h = eq_iff.1 same in ground arith),
      λ (h, ne). rw (differ ne, refute le_iff (λ k. ne (AtMost-antisymm k h)), ge_iff.1 h),
    ),
    (
      λ e. (λ h. let k = le_iff.1 h in ground arith, λ h. let k = ge_iff.1 h in ground arith),
      λ (n, m). rw (differ (λ same. n (le_of_eq same)), refute le_iff n, refute ge_iff m),
    ),
  )
