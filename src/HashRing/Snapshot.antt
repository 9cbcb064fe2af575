-- ===== src/HashRing/Snapshot.antt =====
-- `ring_snapshot` of `ConsistentHashRing`.
use scrape_grid.Prelude.{ℕ, ◌^◌, Option, none, some, List, [], ◌∷◌}
use scrape_grid.Text.{Text, equal}
use scrape_grid.Floats.{FloatOps}
use scrape_grid.Dict.{Dict, get, put}
use scrape_grid.HashRing.{ConsistentHashRing, Slot}

-- `if node not in seen: seen[node] = pos`, for what `seen` has for the node.
unfoldable pub see : Dict Text ℕ → Text → ℕ → Option ℕ → Dict Text ℕ
unfolding put
see seen node pos none = put equal seen node pos
see seen node pos (some first) = seen

unfoldable pub first_seen : Dict Text ℕ → List Slot → Dict Text ℕ
unfolding see get
first_seen seen [] = seen
first_seen seen ((pos, node) ∷ ring) = first_seen (see seen node pos (get equal seen node)) ring

module _ (fl : FloatOps) where
  open fl use {Float, of_ℕ, mul, div}

  pub record Point : Type 0 where
    pub node : Text
    pub position : ℕ
    pub angle : Float

  unfoldable pub points : Dict Text ℕ → List Point
  points [] = []
  points ((node, position) ∷ seen) =
      record {
        node = node;
        position = position;
        angle = mul (div (of_ℕ position) (of_ℕ (2 ^ 32))) (of_ℕ 360);
      }
      ∷ points seen

  unfoldable pub ring_snapshot : ConsistentHashRing → List Point
  unfolding first_seen points
  ring_snapshot r = points (first_seen [] r.ring)
