-- ===== src/HashRing/Valid.antt =====
-- The invariant of the ring, and its operations.
use scrape_grid.Prelude.{
  ℕ, ◌≡◌, refl, inl, inr, Bool, true, ◌||◌, List, ◌∷◌, arith, Bool-cases, All,
}
use scrape_grid.Text.{Text, equal, equal_refl}
use scrape_grid.HashRing.{ConsistentHashRing, contains, init, add_node, remove_node}
use scrape_grid.HashRing.Stability.{IsIndexed}
use scrape_grid.HashRing.Slots.{
  IsSorted, All-mono, without-IsSorted, scatter-All, scatter-IsSorted, without-registered,
}

or_true : (b : Bool) → (b || true) ≡ true
or_true b = ground arith

-- Every slot belongs to a registered node, and the ring is sorted and indexed.
pub record IsValid (r : ConsistentHashRing) : Type 0 where
  pub indexed : IsIndexed r
  pub sorted : IsSorted r.ring
  pub registered : All (λ e. contains r.nodes e.1 ≡ true) r.ring

pub init-IsValid : (virtual_nodes : ℕ) → IsValid (init virtual_nodes)
unfolding init
init-IsValid virtual_nodes = record {
  indexed = record { indexed = refl };
  sorted = tt;
  registered = tt;
}

module _ (md5 : Text → List ℕ) (r : ConsistentHashRing) (name : Text) (v : IsValid r) where
  -- Adding a node to a valid ring gives a valid ring: the positions are those of the slots, which are
  -- in order and belong to registered nodes.
  pub add_node-IsValid : IsValid (add_node md5 r name)
  unfolding add_node
  add_node-IsValid = elim (Bool-cases (contains r.nodes name)) [
    | inl old ↦ rw old v
    | inr new ↦
        let still =
          All-mono (λ e. contains r.nodes e.1 ≡ true) (λ e. contains (name ∷ r.nodes) e.1 ≡ true)
            r.ring (λ e h. rw h (or_true (equal name e.1))) v.registered in
        rw new (record {
          indexed = record { indexed = refl };
          sorted = scatter-IsSorted md5 name 0 r.virtual_nodes r.ring v.sorted;
          registered =
              scatter-All (λ e. contains (name ∷ r.nodes) e.1 ≡ true) md5 name 0 r.virtual_nodes
                r.ring (λ pos. rw (equal_refl name)) still;
        })
  ]

  -- Removing a node from a valid ring gives a valid ring.
  pub remove_node-IsValid : IsValid (remove_node md5 r name)
  unfolding remove_node
  remove_node-IsValid = elim (Bool-cases (contains r.nodes name)) [
    | inl old ↦ rw old (record {
      indexed = record { indexed = refl };
      sorted = without-IsSorted r.ring name v.sorted;
      registered = without-registered r.nodes name r.ring v.registered;
    })
    | inr new ↦ rw new v
  ]
