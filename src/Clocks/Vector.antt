-- ===== src/Clocks/Vector.antt =====
-- `VectorClock` of algorithms/clocks.py. A method that raises returns the clock beside the error,
-- since what was written before the raise stays written.
use scrape_grid.Prelude.{
  ℕ, ◌+◌, ◌<◌, max, ◌≡◌, refl, Bool, true, ◌&&◌, none, some, List, [], ◌∷◌, arith, leb, ◌==◌,
  if◌then◌else◌, get_elem?, get_or, set, length, replicate, ◌∙◌, get_elem?-some, get_or_lem,
  get_or-set_self, get_or-set_ne, length-set, length-replicate,
}
use scrape_grid.Result.{Result, ok, err, index_error}
use native.Mathlib.Decide.{ℕ_discrete}

pub record VectorClock : Type 0 where
  pub node_id : ℕ
  pub num_nodes : ℕ
  pub vector : List ℕ

unfoldable pub init : ℕ → ℕ → VectorClock
init node_id num_nodes = record {
  node_id = node_id;
  num_nodes = num_nodes;
  vector = replicate num_nodes 0;
}

-- `self._vector[self.node_id] += 1; return list(self._vector)`
unfoldable pub bump : VectorClock → Result (List ℕ) × VectorClock
bump vc = elim (get_elem? vc.vector vc.node_id) [
  | none ↦ (err index_error, vc)
  | some n ↦ let v = set vc.vector vc.node_id (n + 1) in (ok v, record vc { vector = v })
]

unfoldable pub tick : VectorClock → Result (List ℕ) × VectorClock
unfolding bump
tick vc = bump vc

unfoldable pub send : VectorClock → Result (List ℕ) × VectorClock
unfolding tick
send vc = tick vc

-- The loop of `receive` over the slots that both vectors have.
unfoldable pub merge : List ℕ → List ℕ → List ℕ
merge [] remote = []
merge (x ∷ xs) [] = x ∷ xs
merge (x ∷ xs) (y ∷ ys) = max x y ∷ merge xs ys

unfoldable pub receive : VectorClock → List ℕ → Result (List ℕ) × VectorClock
unfolding bump
receive vc remote = bump (record vc { vector = merge vc.vector remote })

unfoldable pub snapshot : VectorClock → List ℕ
snapshot vc = vc.vector

-- `all(test(va[i], vb[i]) for i in range(n))` for the `n` slots that both vectors have.
unfoldable pub all_slots : (ℕ → ℕ → Bool) → List ℕ → List ℕ → Bool
all_slots test [] vb = true
all_slots test (x ∷ xs) [] = true
all_slots test (x ∷ xs) (y ∷ ys) = test x y && all_slots test xs ys

pub data Ordering : Type 0 where
  equal before after concurrent : Ordering

unfoldable pub compare : List ℕ → List ℕ → Ordering
compare va vb =
    let le = all_slots leb va vb in
    let ge = all_slots (λ x y. leb y x) va vb in
    let eq = all_slots ◌==◌ va vb in
    if eq then equal else (if le then before else (if ge then after else concurrent))

-- The clock belongs to one of the nodes that it counts.
pub record IsValid (vc : VectorClock) : Type 0 where
  pub counted : length vc.vector ≡ vc.num_nodes
  pub own : vc.node_id < vc.num_nodes

pub init-IsValid : (i n : ℕ) → i < n → IsValid (init i n)
unfolding init
init-IsValid i n h = record { counted = length-replicate n 0; own = h }

pub length-merge : (xs ys : List ℕ) → length (merge xs ys) ≡ length xs
unfolding merge
length-merge [] ys = refl
length-merge (x ∷ xs) [] = refl
length-merge (x ∷ xs) (y ∷ ys) = omega (arith, length-merge xs ys)

pub get_or-merge :
    (xs ys : List ℕ) (i : ℕ)
    → i < length xs
    → get_or (merge xs ys) i 0 ≡ max (get_or xs i 0) (get_or ys i 0)
unfolding merge
get_or-merge [] ys i h = elim h [ ]
get_or-merge (x ∷ xs) [] i h = omega arith
get_or-merge (x ∷ xs) (y ∷ ys) ℕ.zero h = refl
get_or-merge (x ∷ xs) (y ∷ ys) (ℕ.suc i) h = get_or-merge xs ys i (omega arith)

-- `bump` at a valid clock: what it returns, and that only the own slot moves.
pub bump_lem :
    (vc : VectorClock)
    → IsValid vc
    → (w : List ℕ) × (bump vc ≡ (ok w, record vc { vector = w }))
      × (length w ≡ length vc.vector)
      × ((i : ℕ)
          → get_or w i 0
            ≡ (if i == vc.node_id then get_or vc.vector i 0 + 1 else get_or vc.vector i 0))
unfolding bump
bump_lem vc valid =
    let inside : vc.node_id < length vc.vector = omega (arith, valid.own, valid.counted) in
    let (n, e) = get_elem?-some vc.vector vc.node_id inside in
    (
      set vc.vector vc.node_id (n + 1),
      ground arith,
      length-set vc.vector vc.node_id (n + 1),
      λ i. elim (ℕ_discrete vc.node_id i) [
        | yes same ↦ ground (
          arith,
          get_or-set_self vc.vector vc.node_id (n + 1) 0 inside,
          get_or_lem vc.vector vc.node_id 0 n e,
        )
        | no other ↦ ground (arith, get_or-set_ne vc.vector vc.node_id i (n + 1) 0 other)
      ],
    )

-- A clock that belongs to one of its nodes never raises on `tick`; the returned copy is the new
-- vector, and only the own slot has moved, by one.
pub tick_lem :
    (vc : VectorClock)
    → IsValid vc
    → (w : List ℕ) × (tick vc ≡ (ok w, record vc { vector = w }))
      × IsValid (tick vc).1
      × ((i : ℕ)
          → get_or w i 0
            ≡ (if i == vc.node_id then get_or vc.vector i 0 + 1 else get_or vc.vector i 0))
unfolding tick
tick_lem vc valid =
    let (w, e, len, at) = bump_lem vc valid in
    (w, e, rw e (record { counted = omega (arith, len, valid.counted); own = valid.own }), at)

-- `receive` takes the larger of the two counts in every slot of the local vector, a slot that the
-- remote vector lacks counting 0 there, and then counts itself once.
pub receive_lem :
    (vc : VectorClock) (remote : List ℕ)
    → IsValid vc
    → (w : List ℕ) × (receive vc remote ≡ (ok w, record vc { vector = w }))
      × IsValid (receive vc remote).1
      × ((i : ℕ)
          → i < vc.num_nodes
          → get_or w i 0
            ≡ max (get_or vc.vector i 0) (get_or remote i 0) + (if i == vc.node_id then 1 else 0))
unfolding receive
receive_lem vc remote valid =
    let merged = merge vc.vector remote in
    let still : IsValid (record vc { vector = merged }) = record {
      counted = length-merge vc.vector remote ∙ valid.counted;
      own = valid.own;
    } in
    let (w, e, len, at) = bump_lem (record vc { vector = merged }) still in
    (
      w,
      e,
      rw e (record { counted = omega (arith, len, still.counted); own = valid.own }),
      λ i h. ground (arith, at i, get_or-merge vc.vector remote i (omega (arith, valid.counted))),
    )

-- On a valid clock `receive` succeeds, and each slot of the vector that it returns holds the larger
-- of the two counts, a slot that the remote vector lacks counting 0 there, and the own slot one more.
pub receive-slot :
    (vc : VectorClock) (remote : List ℕ) (i : ℕ)
    → IsValid vc
    → i < vc.num_nodes
    → (w : List ℕ) × (receive vc remote ≡ (ok w, record vc { vector = w }))
      × (get_or w i 0
          ≡ max (get_or vc.vector i 0) (get_or remote i 0) + (if i == vc.node_id then 1 else 0))
receive-slot vc remote i valid inside =
    let (w, e, still, at) = receive_lem vc remote valid in (w, e, at i inside)
