-- ===== src/HashRing/Stability.antt =====
-- The owners of keys before and after a node is added or removed.
use scrape_grid.Prelude.{
  ℕ, zero, suc, ◌+◌, ◌≡◌, refl, sym, ap, ◌∙◌, ◌≢◌, ◌⊎◌, inl, inr, none, some, List, [], ◌∷◌, ◌++◌,
  arith, Bool-cases, Option-cases,
}
use scrape_grid.Text.{Text, equal_iff, decimal}
use scrape_grid.HashRing.{
  Slot, ConsistentHashRing, insort, slot_less, scatter, without, positions_of, contains, ring_hash,
  add_node, remove_node, get_node,
}
use scrape_grid.HashRing.Ring.{first_from, owner, owner_of_some, owner_of_none, get_node_lem}

-- Inserting a slot changes the first slot from a position on to that slot, or not at all.
first_from-insort :
    (pos : ℕ) (l : List Slot) (e : Slot)
    → (first_from pos (insort l e) ≡ first_from pos l) ⊎ (first_from pos (insort l e) ≡ some e)
unfolding first_from insort
first_from-insort pos [] e = ground arith
first_from-insort pos ((p, n) ∷ l) e = ground (arith, first_from-insort pos l e)

first_from-without :
    (pos : ℕ) (l : List Slot) (name : Text)
    → (first_from pos l ≡ none → first_from pos (without l name) ≡ none)
      × ((f : Slot)
          → first_from pos l ≡ some f
          → f.1 ≢ name
          → first_from pos (without l name) ≡ some f)
unfolding first_from without
first_from-without pos [] name = (λ h. refl, λ f h ne. cc)
first_from-without pos ((p, n) ∷ l) name =
    let (miss, hit) = first_from-without pos l name in
    (λ h. ground (arith, miss), λ f h ne. ground (arith, equal_iff n name, hit f))

owner-insort :
    (pos : ℕ) (l : List Slot) (e : Slot)
    → (owner pos (insort l e) ≡ owner pos l) ⊎ (owner pos (insort l e) ≡ some e.1)
unfolding owner insort
owner-insort pos [] e = inr (ground arith)
owner-insort pos (y ∷ ys) e = elim (Bool-cases (slot_less e y)) [
  | inl h ↦ rw h (ground arith)
  | inr h ↦ rw h (ground (arith, first_from-insort pos ys e))
]

without_other :
    (p : ℕ) (m name : Text) (l : List Slot)
    → m ≢ name
    → without ((p, m) ∷ l) name ≡ (p, m) ∷ without l name
unfolding without
without_other p m name l ne = ground (arith, equal_iff m name)

some_eq : {m n : Text} → some m ≡ some n → m ≡ n
some_eq e = cc

owner-nil : (pos : ℕ) {n : Text} → owner pos [] ≢ some n
unfolding owner
owner-nil pos h = cc

owner-without :
    (pos : ℕ) (l : List Slot) (name n : Text)
    → owner pos l ≡ some n
    → n ≢ name
    → owner pos (without l name) ≡ some n
owner-without pos [] name n h ne = absurd (owner-nil pos h)
owner-without pos ((p, m) ∷ l) name n h ne =
    let (miss, hit) = first_from-without pos ((p, m) ∷ l) name in
    elim (Option-cases (first_from pos ((p, m) ∷ l))) [
      | inl missing ↦
          let same : m ≡ n = some_eq (sym (owner_of_none pos (p, m) l missing) ∙ h) in
          let kept = without_other p m name l (λ e. ne (sym same ∙ e)) in
          rw kept
            (owner_of_none pos (p, m) (without l name) (rw kept at (miss missing)) ∙ ap some same)
      | inr (f, found) ↦
          let same : f.1 ≡ n = some_eq (sym (owner_of_some pos ((p, m) ∷ l) f found) ∙ h) in
          owner_of_some pos (without ((p, m) ∷ l) name) f (hit f found (λ e. ne (sym same ∙ e)))
          ∙ ap some same
    ]

-- The ring of one more node, slot by slot.
owner-scatter :
    (md5 : Text → List ℕ) (name : Text) (i left : ℕ) (pos : ℕ) (l : List Slot)
    → (owner pos (scatter md5 name i left l) ≡ owner pos l)
      ⊎ (owner pos (scatter md5 name i left l) ≡ some name)
unfolding scatter
owner-scatter md5 name i zero pos l = inl refl
owner-scatter md5 name i (suc left) pos l =
    let e : Slot = (ring_hash md5 (name ++ b':' ∷ decimal i), name) in
    elim (owner-scatter md5 name (i + 1) left pos (insort l e)) [
      | inr own ↦ inr own
      | inl same ↦ elim (owner-insort pos l e) [
        | inl kept ↦ inl (same ∙ kept)
        | inr own ↦ inr (same ∙ own)
      ]
    ]

owner-added :
    (md5 : Text → List ℕ) (r : ConsistentHashRing) (name : Text) (pos : ℕ)
    → (owner pos (add_node md5 r name).ring ≡ owner pos r.ring)
      ⊎ (owner pos (add_node md5 r name).ring ≡ some name)
unfolding add_node
owner-added md5 r name pos = elim (Bool-cases (contains r.nodes name)) [
  | inl old ↦ rw old (inl refl)
  | inr new ↦ rw new (owner-scatter md5 name 0 r.virtual_nodes pos r.ring)
]

owner-removed :
    (md5 : Text → List ℕ) (r : ConsistentHashRing) (name n : Text) (pos : ℕ)
    → owner pos r.ring ≡ some n
    → n ≢ name
    → owner pos (remove_node md5 r name).ring ≡ some n
unfolding remove_node
owner-removed md5 r name n pos h ne = elim (Bool-cases (contains r.nodes name)) [
  | inl old ↦ rw old (owner-without pos r.ring name n h ne)
  | inr new ↦ rw new h
]

-- What the ring keeps true: the positions are those of the slots.
pub record IsIndexed (r : ConsistentHashRing) : Type 0 where
  pub indexed : r.positions ≡ positions_of r.ring

module _ (md5 : Text → List ℕ) where
  pub add_node-IsIndexed :
      (r : ConsistentHashRing) (name : Text) → IsIndexed r → IsIndexed (add_node md5 r name)
  unfolding add_node
  add_node-IsIndexed r name v = elim (Bool-cases (contains r.nodes name)) [
    | inl old ↦ rw old v
    | inr new ↦ rw new (record { indexed = refl })
  ]

  pub remove_node-IsIndexed :
      (r : ConsistentHashRing) (name : Text) → IsIndexed r → IsIndexed (remove_node md5 r name)
  unfolding remove_node
  remove_node-IsIndexed r name v = elim (Bool-cases (contains r.nodes name)) [
    | inl old ↦ rw old (record { indexed = refl })
    | inr new ↦ rw new v
  ]

  -- On a ring whose list of positions is that of its slots, adding a node moves no key between the
  -- other nodes: each key stays where it was, or goes to the new node.
  pub add_node-stable :
      (r : ConsistentHashRing) (name key : Text)
      → IsIndexed r
      → (get_node md5 (add_node md5 r name) key ≡ get_node md5 r key)
        ⊎ (get_node md5 (add_node md5 r name) key ≡ some name)
  add_node-stable r name key v =
      rw
        (
          get_node_lem md5 (add_node md5 r name) key (add_node-IsIndexed r name v).indexed,
          get_node_lem md5 r key v.indexed,
        )
        (owner-added md5 r name (ring_hash md5 key))

  -- On a ring whose list of positions is that of its slots, removing a node moves that node's keys
  -- only: a key that another node has stays there.
  pub remove_node-stable :
      (r : ConsistentHashRing) (name key n : Text)
      → IsIndexed r
      → get_node md5 r key ≡ some n
      → n ≢ name
      → get_node md5 (remove_node md5 r name) key ≡ some n
  remove_node-stable r name key n v h ne =
      get_node_lem md5 (remove_node md5 r name) key (remove_node-IsIndexed r name v).indexed
      ∙ owner-removed md5 r name n (ring_hash md5 key) (rw (get_node_lem md5 r key v.indexed) at h)
          ne
