-- ===== src/HashRing/Successor.antt =====
-- The next slot clockwise, and what `get_node` finds.
use mathlib.Core.List.{Memᴰ}
use native.Mathlib.Nat.{le_refl}
use scrape_grid.Prelude.{
  ℕ, ◌≤◌, ◌<◌, ◌≡◌, refl, sym, ◌∙◌, subst, ◌⊎◌, inl, inr, true, false, none, some, List, [], ◌∷◌,
  arith, ltb, Bool-cases, Option-cases, All, ltb→lt, length,
}
use scrape_grid.Text.{Text}
use scrape_grid.HashRing.{Slot, ConsistentHashRing, contains, ring_hash, get_node}
use scrape_grid.HashRing.Ring.{first_from, owner, owner_of_some, owner_of_none, get_node_lem}
use scrape_grid.HashRing.Slots.{IsSorted, All-mono}
use scrape_grid.HashRing.Valid.{IsValid}

-- The slot that `get_node` finds: the nearest at or after the position, or the first of the ring if
-- all stand before it.
abbrev pub IsNext : ℕ → List Slot → Slot → Type 0
IsNext pos l f =
    ((pos ≤ f.0) × All (λ e. (pos ≤ e.0) → f.0 ≤ e.0) l)
    ⊎ (All (λ e. e.0 < pos) l × All (λ e. f.0 ≤ e.0) l)

first_from-none : (pos : ℕ) (l : List Slot) → first_from pos l ≡ none → All (λ e. e.0 < pos) l
unfolding first_from
first_from-none pos [] h = tt
first_from-none pos ((p, n) ∷ l) h = elim (Bool-cases (ltb p pos)) [
  | inl lt ↦ (ltb→lt p pos lt, first_from-none pos l (ground arith))
  | inr le ↦ absurd (ground arith)
]

ltb-false : (a b : ℕ) → ltb a b ≡ false → b ≤ a
ltb-false a b h = ground arith

found :
    (p : ℕ) (n : Text) (pos : ℕ) (l : List Slot) (f : Slot)
    → ltb p pos ≡ false
    → first_from pos ((p, n) ∷ l) ≡ some f
    → (p, n) ≡ f
unfolding first_from
found p n pos l f ge h = ground arith

first_from-some :
    (pos : ℕ) (l : List Slot) (f : Slot)
    → IsSorted l
    → first_from pos l ≡ some f
    → (pos ≤ f.0) × All (λ e. (pos ≤ e.0) → f.0 ≤ e.0) l
unfolding first_from
first_from-some pos [] f s h = cc
first_from-some pos ((p, n) ∷ l) f (above, s) h = elim (Bool-cases (ltb p pos)) [
  | inl lt ↦
      let (le, rest) = first_from-some pos l f s (ground arith) in
      (le, (λ k. absurd (ground arith), rest))
  | inr ge ↦
      subst (λ g. (pos ≤ g.0) × All (λ e. (pos ≤ e.0) → g.0 ≤ e.0) ((p, n) ∷ l))
        (found p n pos l f ge h)
        (
          ltb-false p pos ge,
          (λ _. le_refl p, All-mono (λ e. p ≤ e.0) (λ e. pos ≤ e.0 → p ≤ e.0) l (λ e k _. k) above),
        )
]

first_from-mem : (pos : ℕ) (l : List Slot) (f : Slot) → first_from pos l ≡ some f → Memᴰ f l
unfolding first_from
first_from-mem pos [] f h = cc
first_from-mem pos ((p, n) ∷ l) f h = elim (Bool-cases (ltb p pos)) [
  | inl lt ↦ Memᴰ.tail (first_from-mem pos l f (ground arith))
  | inr ge ↦ Memᴰ.head (sym (found p n pos l f ge h))
]

All-mem {ℓ} : (P : Slot → Type ℓ) {f : Slot} {l : List Slot} → Memᴰ f l → All P l → P f
All-mem P (Memᴰ.head e) (p, a) = subst P (sym e) p
All-mem P (Memᴰ.tail m) (p, a) = All-mem P m a

owner-IsNext :
    (pos : ℕ) (l : List Slot)
    → IsSorted l
    → 0 < length l
    → (f : Slot) × Memᴰ f l × (owner pos l ≡ some f.1) × IsNext pos l f
owner-IsNext pos [] s h = absurd (omega arith)
owner-IsNext pos (e ∷ l) s h = elim (Option-cases (first_from pos (e ∷ l))) [
  | inl missing ↦ (
    e,
    Memᴰ.head refl,
    owner_of_none pos e l missing,
    inr (first_from-none pos (e ∷ l) missing, (le_refl e.0, s.0)),
  )
  | inr (f, at) ↦ (
    f,
    first_from-mem pos (e ∷ l) f at,
    owner_of_some pos (e ∷ l) f at,
    inl (first_from-some pos (e ∷ l) f s at),
  )
]

-- On a valid ring with a slot, `get_node` gives a node for every key, and a registered one: the one whose
-- slot is next clockwise from the key's position, a key behind the last slot going to the first.
pub get_node-IsNext :
    (md5 : Text → List ℕ) (r : ConsistentHashRing) (key : Text)
    → IsValid r
    → 0 < length r.ring
    → (n : Text) × (get_node md5 r key ≡ some n)
      × (contains r.nodes n ≡ true)
      × ((f : Slot) × Memᴰ f r.ring × (f.1 ≡ n) × IsNext (ring_hash md5 key) r.ring f)
get_node-IsNext md5 r key v some_slot =
    let (f, at, named, next) = owner-IsNext (ring_hash md5 key) r.ring v.sorted some_slot in
    (
      f.1,
      get_node_lem md5 r key v.indexed.indexed ∙ named,
      All-mem (λ e. contains r.nodes e.1 ≡ true) at v.registered,
      (f, at, refl, next),
    )
