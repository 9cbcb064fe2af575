-- ===== src/Simulation/Worker/Steal.antt =====
-- Where a worker's next URL comes from: its own deque, or the back of the longest other one.
use scrape_grid.Prelude.{
  ℕ, ◌+◌, not, ◌&&◌, Option, none, some, List, [], ◌∷◌, ltb, if◌then◌else◌, length,
}
use scrape_grid.Text.{Text, equal}
use scrape_grid.Floats.{FloatOps}
use scrape_grid.Dict.{put}
use scrape_grid.Simulation.{Shards, queue}
use scrape_grid.Simulation.Worker.{
  World, DistributedWorker, Reading, Note, stole, info, node_name, report,
}

-- The loop of `_steal`: the first of the longest shards but the worker's own.
unfoldable pub busiest : Text → Shards → Option Text → ℕ → Option Text × ℕ
busiest own [] found best_len = (found, best_len)
busiest own ((name, dq) ∷ shards) found best_len =
    let longer = not (equal name own) && ltb best_len (length dq) in
    busiest own shards (if longer then some name else found)
      (if longer then length dq else best_len)

-- `deque.pop`
unfoldable pub pop : List Text → Option (List Text × Text)
pop [] = none
pop (x ∷ xs) = elim (pop xs) [ none ↦ some ([], x) | some (ys, y) ↦ some (x ∷ ys, y) ]

module _ (fl : FloatOps) (round_2 : fl.Float → fl.Float) (message : Note → Text) where
  -- The part of `_steal` behind the `pop`, whose `IndexError` is caught.
  unfoldable pub rob :
      World fl
      → DistributedWorker fl
      → Reading fl
      → Text
      → ℕ
      → Option (List Text × Text)
      → Option Text × (World fl × DistributedWorker fl)
  unfolding report put node_name
  rob w s r name len none = (none, (w, s))
  rob w s r name len (some (rest, url)) =
      let w' = record w { shards = put equal w.shards name rest } in
      (
        some url,
        (
          report fl round_2 message w' (node_name s.node_id) info (stole name len) r.elapsed,
          record s { tasks_stolen = s.tasks_stolen + 1 },
        ),
      )

  -- The part of `_steal` behind the search for the busiest shard.
  unfoldable pub steal_from :
      World fl
      → DistributedWorker fl
      → Reading fl
      → Option Text
      → ℕ
      → Option Text × (World fl × DistributedWorker fl)
  unfolding rob pop
  steal_from w s r none len = (none, (w, s))
  steal_from w s r (some name) len = rob w s r name len (pop (queue w.shards name))

  unfoldable pub steal :
      World fl → DistributedWorker fl → Reading fl → Option Text × (World fl × DistributedWorker fl)
  unfolding busiest steal_from
  steal w s r =
      let (victim, len) = busiest s.shard_name w.shards none 0 in steal_from w s r victim len

  -- The own deque, or else another's.
  unfoldable pub url_from :
      World fl
      → DistributedWorker fl
      → Reading fl
      → List Text
      → Option Text × (World fl × DistributedWorker fl)
  unfolding steal put
  url_from w s r [] = steal w s r
  url_from w s r (url ∷ rest) =
      (some url, (record w { shards = put equal w.shards s.shard_name rest }, s))

  unfoldable pub next_url :
      World fl → DistributedWorker fl → Reading fl → Option Text × (World fl × DistributedWorker fl)
  unfolding url_from
  next_url w s r = url_from w s r (queue w.shards s.shard_name)
