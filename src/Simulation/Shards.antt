-- ===== src/Simulation/Shards.antt =====
-- How often a URL stands in the shards, and how taking and giving back change it.
use scrape_grid.Prelude.{
  ℕ, ◌+◌, ◌≡◌, refl, Option, none, some, List, [], ◌∷◌, ◌++◌, arith, if◌then◌else◌, Bool-cases, inl,
  inr,
}
use scrape_grid.Text.{Text, equal}
use scrape_grid.Dict.{get, put}
use scrape_grid.Simulation.{Shards, queue}
use scrape_grid.Simulation.Worker.Steal.{pop}

abbrev pub count : Text → List Text → ℕ
count u [] = 0
count u (x ∷ xs) = (if equal x u then 1 else 0) + count u xs

abbrev pub total : Text → Shards → ℕ
total u [] = 0
total u ((name, dq) ∷ shards) = count u dq + total u shards

-- Replacing a shard.
pub total-put :
    (u : Text) (shards : Shards) (name : Text) (dq : List Text)
    → total u (put equal shards name dq) + count u (queue shards name) ≡ total u shards + count u dq
unfolding get put
total-put u [] name dq = omega arith
total-put u ((k, old) ∷ shards) name dq = elim (Bool-cases (equal k name)) [
  | inl h ↦ rw h (omega arith)
  | inr h ↦ rw h (omega (arith, total-put u shards name dq))
]

pub count-append : (u : Text) (xs ys : List Text) → count u (xs ++ ys) ≡ count u xs + count u ys
count-append u [] ys = omega arith
count-append u (x ∷ xs) ys = omega (arith, count-append u xs ys)

-- What a `deque.pop` takes and what it leaves.
abbrev pub popped : Text → Option (List Text × Text) → ℕ
popped u none = 0
popped u (some (xs, x)) = count u xs + count u (x ∷ [])

pop_more :
    (u x : Text) (o : Option (List Text × Text))
    → popped u (elim o [ none ↦ some ([], x) | some (ys, y) ↦ some (x ∷ ys, y) ])
      ≡ count u (x ∷ []) + popped u o
pop_more u x none = omega arith
pop_more u x (some (ys, y)) = omega arith

pub popped-pop : (u : Text) (xs : List Text) → popped u (pop xs) ≡ count u xs
unfolding pop
popped-pop u [] = refl
popped-pop u (x ∷ xs) = omega (arith, pop_more u x (pop xs), popped-pop u xs)
