-- ===== src/Simulation/Fleet/Dealing.antt =====
-- How URLs and workers are dealt out to the shards.
use scrape_grid.Prelude.{
  ℕ, zero, suc, ◌+◌, ◌%◌, ◌<◌, ◌≡◌, refl, sym, true, Option, none, some, List, [], ◌∷◌, ◌++◌, arith,
  ==_ne, if◌then◌else◌, length, get_elem?, get_elem?-some, Bool-cases, inl, inr,
}
use mathlib.Core.Option.{some-injective}
use scrape_grid.Result.{ok}
use scrape_grid.Text.{Text, equal, equal_refl}
use scrape_grid.Dict.{Dict, put}
use scrape_grid.Simulation.{Shards, queue, category_of}
use scrape_grid.Simulation.Shards.{count, total, total-put, count-append}
use scrape_grid.Simulation.Fleet.Assignment.{has_shard, empty_shards, distribute, by_index, pick}

total-distribute :
    (u : Text) (domain_map : Dict Text Text) (first : Text) (shards : Shards) (urls : List Text)
    → total u (distribute domain_map first shards urls) ≡ total u shards + count u urls
unfolding distribute
total-distribute u m first shards [] = omega arith
total-distribute u m first shards (url ∷ urls) =
    let cat = category_of url m in
    let name = if has_shard shards cat then cat else first in
    let dq = queue shards name in
    omega (
      arith,
      total-distribute u m first (put equal shards name (dq ++ url ∷ [])) urls,
      total-put u shards name (dq ++ url ∷ []),
      count-append u dq (url ∷ []),
    )

total-empty_shards : (u : Text) (cats : List Text) → total u (empty_shards cats) ≡ 0
unfolding empty_shards
total-empty_shards u [] = refl
total-empty_shards u (cat ∷ cats) = omega (arith, total-empty_shards u cats)

-- Over no URLs to start with, each URL is dealt out as often as it is in the pool.
pub distribute_lem :
    (u : Text) (domain_map : Dict Text Text) (cats : List Text) (first : Text) (urls : List Text)
    → total u (distribute domain_map first (empty_shards cats) urls) ≡ count u urls
distribute_lem u m cats first urls =
    omega (arith, total-distribute u m first (empty_shards cats) urls, total-empty_shards u cats)

first_shard :
    (x : Text × List Text) (shards : Shards) (s : Text × List Text)
    → some x ≡ some s
    → has_shard (x ∷ shards) s.0 ≡ true
unfolding has_shard
first_shard x shards s h = rw (sym (some-injective x s h), equal_refl x.0) refl

has_shard-at :
    (shards : Shards) (i : ℕ) (s : Text × List Text)
    → get_elem? shards i ≡ some s
    → has_shard shards s.0 ≡ true
unfolding has_shard
has_shard-at [] i s h = cc
has_shard-at ((k, dq) ∷ shards) zero s h = first_shard (k, dq) shards s h
has_shard-at ((k, dq) ∷ shards) (suc i) s h = ground (arith, has_shard-at shards i s h)

by_index_lem :
    (shards : Shards) (node_id : ℕ)
    → 0 < length shards
    → (name : Text) × (by_index shards node_id ≡ ok name) × (has_shard shards name ≡ true)
unfolding by_index
by_index_lem shards node_id h =
    let (s, e) = get_elem?-some shards (node_id % length shards) (omega arith) in
    (s.0, rw (==_ne (length shards) 0 (λ z. omega arith), e) refl, has_shard-at shards _ s e)

-- Where there are shards, a worker is given one of them, whatever the ring says.
pub pick_lem :
    (shards : Shards) (node_id : ℕ) (from_ring : Option Text)
    → 0 < length shards
    → (name : Text) × (pick shards node_id from_ring ≡ ok name) × (has_shard shards name ≡ true)
unfolding pick
pick_lem shards node_id none h = by_index_lem shards node_id h
pick_lem shards node_id (some name) h = elim (Bool-cases (has_shard shards name)) [
  | inl there ↦ (name, rw there refl, there)
  | inr absent ↦
      let (other, e, there) = by_index_lem shards node_id h in (other, rw absent e, there)
]
