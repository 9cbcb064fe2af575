-- ===== src/Simulation/Fleet/Assignment.antt =====
-- How `DistributedFleet` deals URLs and workers out to its shards.
use scrape_grid.Prelude.{
  ℕ, ◌%◌, Bool, false, ◌||◌, Option, none, some, List, [], ◌∷◌, ◌++◌, ◌==◌, if◌then◌else◌, length,
  get_elem?,
}
use scrape_grid.Result.{Result, ok, err, index_error, zero_division_error}
use scrape_grid.Text.{Text, equal}
use scrape_grid.Dict.{Dict, put}
use scrape_grid.Simulation.{Shards, queue, category_of}

-- `name in shards`
unfoldable pub has_shard : Shards → Text → Bool
has_shard [] name = false
has_shard ((k, dq) ∷ shards) name = equal k name || has_shard shards name

-- `{cat: deque() for cat in cats}`
unfoldable pub empty_shards : List Text → Shards
empty_shards [] = []
empty_shards (cat ∷ cats) = (cat, []) ∷ empty_shards cats

-- The loop that puts the URLs of the pool into the shards, `first` being `cats[0]`.
unfoldable pub distribute : Dict Text Text → (first : Text) → Shards → List Text → Shards
unfolding has_shard category_of put
distribute domain_map first shards [] = shards
distribute domain_map first shards (url ∷ urls) =
    let cat = category_of url domain_map in
    let name = if has_shard shards cat then cat else first in
    distribute domain_map first (put equal shards name (queue shards name ++ url ∷ [])) urls

-- `cats[node_id % len(cats)]`
unfoldable pub by_index : Shards → ℕ → Result Text
by_index shards node_id =
    if length shards == 0
    then err zero_division_error
    else elim (get_elem? shards (node_id % length shards)) [
      | none ↦ err index_error
      | some shard ↦ ok shard.0
    ]

-- `_shard_for` for what the ring gave.
unfoldable pub pick : Shards → ℕ → Option Text → Result Text
unfolding has_shard by_index
pick shards node_id none = by_index shards node_id
pick shards node_id (some name) = if has_shard shards name then ok name else by_index shards node_id
