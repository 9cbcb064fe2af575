-- ===== src/HashRing.antt =====
-- algorithms/consistent_hash.py: `ConsistentHashRing`. The set of node names is a list without
-- repetition. `md5` stands for `hashlib.md5`: it gives the hexadecimal digits of the digest of a
-- text, each as a number below 16.
pub mod Ring
pub mod Stability
pub mod Slots
pub mod Valid
pub mod Snapshot
pub mod Successor
mod Examples
use scrape_grid.Prelude.{
  take, ℕ, zero, suc, ◌+◌, ◌*◌, ◌%◌, Bool, true, false, not, ◌&&◌, ◌||◌, Option, none, some, List,
  [], ◌∷◌, ◌++◌, map, ltb, ◌==◌, if◌then◌else◌, length, get_elem?,
}
use scrape_grid.Text.{Text, equal, less, decimal}

-- VIRTUAL_NODES_PER_NODE
abbrev pub virtual_nodes_per_node : ℕ
virtual_nodes_per_node = 150

-- `int(digits, 16)`
unfoldable pub from_hex : ℕ → List ℕ → ℕ
from_hex acc [] = acc
from_hex acc (d ∷ ds) = from_hex (acc * 16 + d) ds

-- A virtual node: its position and the real node's name.
abbrev pub Slot : Type 0
Slot = ℕ × Text

-- `<` on such pairs.
unfoldable pub slot_less : Slot → Slot → Bool
slot_less (p, n) (q, m) = ltb p q || (p == q && less n m)

-- `bisect.insort` on a sorted list: in front of the first slot that is larger.
unfoldable pub insort : List Slot → Slot → List Slot
insort [] e = e ∷ []
insort (y ∷ ys) e = if slot_less e y then e ∷ y ∷ ys else y ∷ insort ys e

-- `bisect.bisect_left` on a sorted list: how many entries stand below `pos`.
unfoldable pub bisect_left : List ℕ → ℕ → ℕ
bisect_left [] pos = 0
bisect_left (x ∷ xs) pos = if ltb x pos then suc (bisect_left xs pos) else 0

abbrev pub contains : List Text → Text → Bool
contains [] name = false
contains (x ∷ xs) name = equal x name || contains xs name

-- The names other than `name`.
abbrev pub discard : List Text → Text → List Text
discard [] name = []
discard (x ∷ xs) name = if equal x name then discard xs name else x ∷ discard xs name

-- `[(p, n) for p, n in ring if n != name]`
unfoldable pub without : List Slot → Text → List Slot
without [] name = []
without ((p, n) ∷ ring) name =
    if equal n name then without ring name else (p, n) ∷ without ring name

abbrev pub positions_of : List Slot → List ℕ
positions_of = map (λ e. e.0)

abbrev pub name_at : Option Slot → Option Text
name_at none = none
name_at (some (p, n)) = some n

-- `get_node` from the lookup of the position on. The index is below the ring's length.
unfoldable pub seek : List Slot → List ℕ → ℕ → Option Text
unfolding bisect_left
seek [] positions pos = none
seek (e ∷ es) positions pos =
    name_at (get_elem? (e ∷ es) (bisect_left positions pos % length (e ∷ es)))

pub record ConsistentHashRing : Type 0 where
  pub virtual_nodes : ℕ
  pub ring : List Slot
  pub positions : List ℕ
  pub nodes : List Text

unfoldable pub init : ℕ → ConsistentHashRing
init virtual_nodes = record { virtual_nodes = virtual_nodes; ring = []; positions = []; nodes = [] }

module _ (md5 : Text → List ℕ) where
  unfoldable pub ring_hash : Text → ℕ
  unfolding from_hex
  ring_hash key = from_hex 0 (take 8 (md5 key))

  -- The loop of `add_node` from replica `i` on, `left` replicas to go.
  unfoldable pub scatter : Text → (i left : ℕ) → List Slot → List Slot
  unfolding insort slot_less less decimal ring_hash
  scatter name i zero ring = ring
  scatter name i (suc left) ring =
      scatter name (i + 1) left (insort ring (ring_hash (name ++ b':' ∷ decimal i), name))

  unfoldable pub add_node : ConsistentHashRing → Text → ConsistentHashRing
  unfolding scatter
  add_node r name =
      if contains r.nodes name
      then r
      else let ring = scatter name 0 r.virtual_nodes r.ring in
        record r { nodes = name ∷ r.nodes; ring = ring; positions = positions_of ring }

  unfoldable pub remove_node : ConsistentHashRing → Text → ConsistentHashRing
  unfolding without
  remove_node r name =
      if not (contains r.nodes name)
      then r
      else let ring = without r.ring name in
        record r { nodes = discard r.nodes name; ring = ring; positions = positions_of ring }

  unfoldable pub get_node : ConsistentHashRing → Text → Option Text
  unfolding ring_hash seek
  get_node r key = seek r.ring r.positions (ring_hash key)

  unfoldable pub get_nodes : ConsistentHashRing → List Text
  get_nodes r = r.nodes
