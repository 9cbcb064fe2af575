-- ===== src/HashRing/Examples.antt =====
-- A small ring over a stand-in for the digest: the last four bits of each code point.
use mathlib.Core.List.{Memᴰ}
use scrape_grid.Prelude.{
  ◌≢◌, ap, arith, get_or, ℕ, ◌%◌, ◌≡◌, refl, ◌⊎◌, true, some, none, List, [], ◌∷◌, map,
}
use scrape_grid.Text.{Text, equal}
use scrape_grid.HashRing.{
  ConsistentHashRing, init, add_node, remove_node, get_node, contains, ring_hash,
}
use scrape_grid.HashRing.Stability.{add_node-stable, remove_node-stable}
use scrape_grid.HashRing.Valid.{IsValid, init-IsValid, add_node-IsValid}
use scrape_grid.HashRing.Successor.{IsNext, get_node-IsNext}

abbrev digest : Text → List ℕ
digest = map (λ c. c % 16)

abbrev a : Text
a = b'a' ∷ []

abbrev k : Text
k = b'k' ∷ []

abbrev both : ConsistentHashRing
both = add_node digest (add_node digest (init 2) a) k

operations : Unit {0}
unfolding add_node remove_node get_node init equal
operations = tt

-- The slots are at 1a0 and 1a1 for `a`, and at ba0 and ba1 for `k`.
both_slots : both.ring ≡ (0x1a0, a) ∷ (0x1a1, a) ∷ (0xba0, k) ∷ (0xba1, k) ∷ []
unfolding operations
both_slots = refl

-- The key `d` is at 4, `da` at 0x41, `mmm` at 0xddd, behind the last slot.
owners :
    (get_node digest both (b'd' ∷ []) ≡ some a)
    × (get_node digest both (b'b' ∷ b'b' ∷ b'b' ∷ []) ≡ some k)
    × (get_node digest both (b'm' ∷ b'm' ∷ b'm' ∷ []) ≡ some a)
    × (get_node digest (init 2) a ≡ none)
unfolding operations
owners = (refl, refl, refl, refl)

removed : remove_node digest both k ≡ add_node digest (init 2) a
unfolding operations
removed = refl

both-IsValid : IsValid both
both-IsValid =
    add_node-IsValid digest (add_node digest (init 2) a) k
      (add_node-IsValid digest (init 2) a (init-IsValid 2))

add_node-stable_example :
    (get_node digest (add_node digest both (b'z' ∷ [])) (b'd' ∷ [])
      ≡ get_node digest both (b'd' ∷ []))
    ⊎ (get_node digest (add_node digest both (b'z' ∷ [])) (b'd' ∷ []) ≡ some (b'z' ∷ []))
add_node-stable_example = add_node-stable digest both (b'z' ∷ []) (b'd' ∷ []) both-IsValid.indexed

a≢k : a ≢ k
a≢k e = absurd (omega (arith, ap (λ s. get_or s 0 0) e))

remove_node-stable_example : get_node digest (remove_node digest both k) (b'd' ∷ []) ≡ some a
unfolding operations
remove_node-stable_example =
    remove_node-stable digest both k (b'd' ∷ []) a both-IsValid.indexed refl a≢k

get_node-IsNext_example :
    (n : List ℕ) × (get_node digest both (b'b' ∷ b'b' ∷ b'b' ∷ []) ≡ some n)
    × (contains both.nodes n ≡ true)
    × ((f : ℕ × List ℕ) × Memᴰ f both.ring
        × (f.1 ≡ n)
        × IsNext (ring_hash digest (b'b' ∷ b'b' ∷ b'b' ∷ [])) both.ring f)
unfolding operations
get_node-IsNext_example =
    get_node-IsNext digest both (b'b' ∷ b'b' ∷ b'b' ∷ []) both-IsValid (omega arith)
