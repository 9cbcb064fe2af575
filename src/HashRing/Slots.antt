-- ===== src/HashRing/Slots.antt =====
-- Lists of slots: sorted insertion and removal, slot by slot.
use scrape_grid.Prelude.{
  ℕ, zero, suc, ◌+◌, ◌≤◌, ◌≡◌, inl, inr, true, false, List, [], ◌∷◌, arith, Bool-cases, All,
}
use scrape_grid.Text.{Text, equal, equal_iff}
use scrape_grid.HashRing.{Slot, insort, slot_less, scatter, without, contains, discard}

-- Positions do not fall along the ring.
abbrev pub IsSorted : List Slot → Type 0
IsSorted [] = Unit {0}
IsSorted (e ∷ l) = All (λ f. e.0 ≤ f.0) l × IsSorted l

All-insort {ℓ} : (P : Slot → Type ℓ) (l : List Slot) (e : Slot) → P e → All P l → All P (insort l e)
unfolding insort
All-insort P [] e p a = (p, tt)
All-insort P (y ∷ ys) e p (q, a) = elim (Bool-cases (slot_less e y)) [
  | inl h ↦ rw h (p, (q, a))
  | inr h ↦ rw h (q, All-insort P ys e p a)
]

pub All-mono {ℓ} :
    (P Q : Slot → Type ℓ) (l : List Slot) → ((f : Slot) → P f → Q f) → All P l → All Q l
All-mono P Q [] h a = tt
All-mono P Q (f ∷ l) h (p, a) = (h f p, All-mono P Q l h a)

slot_less-le : (e y : Slot) → slot_less e y ≡ true → e.0 ≤ y.0
unfolding slot_less
slot_less-le e y h = ground arith

not-slot_less-le : (e y : Slot) → slot_less e y ≡ false → y.0 ≤ e.0
unfolding slot_less
not-slot_less-le e y h = ground arith

pub insort-IsSorted : (l : List Slot) (e : Slot) → IsSorted l → IsSorted (insort l e)
unfolding insort
insort-IsSorted [] e s = (tt, tt)
insort-IsSorted (y ∷ ys) e (above, s) = elim (Bool-cases (slot_less e y)) [
  | inl h ↦
      let le = slot_less-le e y h in
      rw h
        ((le, All-mono (λ f. y.0 ≤ f.0) (λ f. e.0 ≤ f.0) ys (λ f k. omega arith) above), (above, s))
  | inr h ↦
      rw h (All-insort (λ f. y.0 ≤ f.0) ys e (not-slot_less-le e y h) above, insort-IsSorted ys e s)
]

All-without {ℓ} :
    (P : Slot → Type ℓ) (l : List Slot) (name : Text) → All P l → All P (without l name)
unfolding without
All-without P [] name a = tt
All-without P ((p, n) ∷ l) name (q, a) = elim (Bool-cases (equal n name)) [
  | inl h ↦ rw h (All-without P l name a)
  | inr h ↦ rw h (q, All-without P l name a)
]

pub without-IsSorted : (l : List Slot) (name : Text) → IsSorted l → IsSorted (without l name)
unfolding without
without-IsSorted [] name s = tt
without-IsSorted ((p, n) ∷ l) name (above, s) = elim (Bool-cases (equal n name)) [
  | inl h ↦ rw h (without-IsSorted l name s)
  | inr h ↦ rw h (All-without (λ f. p ≤ f.0) l name above, without-IsSorted l name s)
]

pub scatter-All :
    (P : Slot → Type 0) (md5 : Text → List ℕ) (name : Text) (i left : ℕ) (l : List Slot)
    → ((pos : ℕ) → P (pos, name))
    → All P l
    → All P (scatter md5 name i left l)
unfolding scatter
scatter-All P md5 name i zero l p a = a
scatter-All P md5 name i (suc left) l p a =
    scatter-All P md5 name (i + 1) left _ p (All-insort P l _ (p _) a)

pub scatter-IsSorted :
    (md5 : Text → List ℕ) (name : Text) (i left : ℕ) (l : List Slot)
    → IsSorted l
    → IsSorted (scatter md5 name i left l)
unfolding scatter
scatter-IsSorted md5 name i zero l s = s
scatter-IsSorted md5 name i (suc left) l s =
    scatter-IsSorted md5 name (i + 1) left _ (insort-IsSorted l _ s)

contains-discard :
    (xs : List Text) (name x : Text)
    → contains xs x ≡ true
    → equal x name ≡ false
    → contains (discard xs name) x ≡ true
contains-discard [] name x h ne = h
contains-discard (y ∷ ys) name x h ne =
    ground (arith, contains-discard ys name x, equal_iff y x, equal_iff y name, equal_iff x name)

-- The slots that are left when `name` goes are those of other nodes.
pub without-registered :
    (nodes : List Text) (name : Text) (l : List Slot)
    → All (λ e. contains nodes e.1 ≡ true) l
    → All (λ e. contains (discard nodes name) e.1 ≡ true) (without l name)
unfolding without
without-registered nodes name [] a = tt
without-registered nodes name ((p, n) ∷ l) (h, a) = elim (Bool-cases (equal n name)) [
  | inl e ↦ rw e (without-registered nodes name l a)
  | inr ne ↦ rw ne (contains-discard nodes name n h ne, without-registered nodes name l a)
]
