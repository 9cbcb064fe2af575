-- ===== src/HashRing/Ring.antt =====
-- The ring read clockwise: `get_node` is the owner of the key's position.
use scrape_grid.Prelude.{
  ℕ, suc, ◌<◌, ◌≡◌, refl, Option, none, some, List, [], ◌∷◌, arith, ltb, if◌then◌else◌, length,
  get_elem?, Option-cases, inl, inr,
}
use native.Mathlib.Nat.{mod-eq_of_lt, mod_self}
use scrape_grid.Text.{Text}
use scrape_grid.HashRing.{
  Slot, ConsistentHashRing, bisect_left, positions_of, ring_hash, get_node, seek,
}

-- The first slot of the list at or after `pos`.
unfoldable pub first_from : ℕ → List Slot → Option Slot
first_from pos [] = none
first_from pos ((p, n) ∷ l) = if ltb p pos then first_from pos l else some (p, n)

-- The name at that slot, or at the first slot of all if there is none.
abbrev pub name_of : Option Slot → Slot → Text
name_of none e = e.1
name_of (some f) e = f.1

unfoldable pub owner : ℕ → List Slot → Option Text
unfolding first_from
owner pos [] = none
owner pos (e ∷ l) = some (name_of (first_from pos (e ∷ l)) e)

pub owner_of_some :
    (pos : ℕ) (l : List Slot) (f : Slot) → first_from pos l ≡ some f → owner pos l ≡ some f.1
unfolding owner
owner_of_some pos [] f h = cc
owner_of_some pos (e ∷ l) f h = rw h

pub owner_of_none :
    (pos : ℕ) (e : Slot) (l : List Slot)
    → first_from pos (e ∷ l) ≡ none
    → owner pos (e ∷ l) ≡ some e.1
unfolding owner
owner_of_none pos e l h = rw h

bisect-none :
    (pos : ℕ) (l : List Slot)
    → first_from pos l ≡ none
    → bisect_left (positions_of l) pos ≡ length l
unfolding bisect_left first_from
bisect-none pos [] h = refl
bisect-none pos ((p, n) ∷ l) h = ground (arith, bisect-none pos l)

bisect-some :
    (pos : ℕ) (l : List Slot) (f : Slot)
    → first_from pos l ≡ some f
    → (bisect_left (positions_of l) pos < length l)
      × (get_elem? l (bisect_left (positions_of l) pos) ≡ some f)
unfolding bisect_left first_from
bisect-some pos [] f h = cc
bisect-some pos ((p, n) ∷ l) f h = ground (arith, bisect-some pos l f)

seek_lem : (pos : ℕ) (l : List Slot) → seek l (positions_of l) pos ≡ owner pos l
unfolding seek owner
seek_lem pos [] = refl
seek_lem pos (e ∷ es) = elim (Option-cases (first_from pos (e ∷ es))) [
  | inl missing ↦ rw (bisect-none pos (e ∷ es) missing, mod_self (suc (length es)), missing) refl
  | inr (f, found) ↦
      let (lt, at) = bisect-some pos (e ∷ es) f found in rw (mod-eq_of_lt lt, at, found) refl
]

-- `get_node` gives the owner of the key's position, where the positions kept beside the ring are
-- those of its slots.
pub get_node_lem :
    (md5 : Text → List ℕ) (r : ConsistentHashRing) (key : Text)
    → r.positions ≡ positions_of r.ring
    → get_node md5 r key ≡ owner (ring_hash md5 key) r.ring
unfolding get_node
get_node_lem md5 r key h = rw h (seek_lem (ring_hash md5 key) r.ring)
