-- ===== src/Simulation/Membership.antt =====
-- `GossipProtocol` of simulation.py, the engine's own. `random.sample` gives the two nodes of a
-- round, which are an argument; `F` is what is told of a node.
pub mod State
use scrape_grid.Prelude.{
  ℕ, ◌+◌, ◌≤◌, ◌≡◌, refl, List, [], ◌∷◌, ◌++◌, arith, ltb, ◌==◌, if◌then◌else◌, length,
  length-append, drop, Bool-cases, inl, inr,
}
use scrape_grid.Dict.{Dict, put}
use scrape_grid.Gossip.{Exchange}

pub record GossipProtocol (I : Type 0) : Type 0 where
  pub rounds : ℕ
  pub known_nodes : Dict ℕ I
  pub recent_exchanges : List Exchange

unfoldable pub init : {I : Type 0} → GossipProtocol I
init = record { rounds = 0; known_nodes = []; recent_exchanges = [] }

unfoldable pub update_node : {I : Type 0} → GossipProtocol I → ℕ → I → GossipProtocol I
unfolding put
update_node g node_id info = record g { known_nodes = put ◌==◌ g.known_nodes node_id info }

-- `drawn` are the two nodes that `random.sample(node_ids, 2)` gives.
unfoldable pub gossip_round :
    {I : Type 0} → GossipProtocol I → (node_ids : List ℕ) → (drawn : ℕ × ℕ) → GossipProtocol I
gossip_round g node_ids (a, b) =
    let longer =
      g.recent_exchanges
      ++ record { round = g.rounds + 1; from = a; to = b; nodes_shared = length g.known_nodes }
        ∷ [] in
    if ltb (length node_ids) 2 then g else record g {
      rounds = g.rounds + 1;
      recent_exchanges = if ltb 20 (length longer) then drop 1 longer else longer;
    }

-- The rounds recorded are the last ones, in turn, up to the count of rounds, at most 20 of them.
abbrev pub Recent : ℕ → List Exchange → Type 0
Recent n [] = Unit {0}
Recent n (e ∷ es) = (e.round + length es ≡ n) × Recent n es

Recent-append :
    (n : ℕ) (es : List Exchange) (e : Exchange)
    → e.round ≡ n + 1
    → Recent n es
    → Recent (n + 1) (es ++ e ∷ [])
Recent-append n [] e h r = (omega arith, tt)
Recent-append n (x ∷ xs) e h (p, r) =
    (omega (arith, length-append xs (e ∷ [])), Recent-append n xs e h r)

Recent-drop : (n : ℕ) (es : List Exchange) → Recent n es → Recent n (drop 1 es)
Recent-drop n [] r = tt
Recent-drop n (x ∷ xs) (p, r) = r

abbrev pub IsValid : {I : Type 0} → GossipProtocol I → Type 0
IsValid g = Recent g.rounds g.recent_exchanges × (length g.recent_exchanges ≤ 20)

at_most : (xs : List Exchange) (e : Exchange) → length xs ≤ 20 → length (drop 1 (xs ++ e ∷ [])) ≤ 20
at_most [] e h = omega arith
at_most (x ∷ xs) e h = omega (arith, length-append xs (e ∷ []))

-- A gossip round keeps the record of exchanges one of the latest rounds, numbered without a gap up to the
-- count of rounds, and of 20 at most.
pub gossip_round-IsValid :
    {I : Type 0} (g : GossipProtocol I) (node_ids : List ℕ) (drawn : ℕ × ℕ)
    → IsValid g
    → IsValid (gossip_round g node_ids drawn)
unfolding gossip_round
gossip_round-IsValid g node_ids (a, b) (recent, few) =
    let e : Exchange = record {
      round = g.rounds + 1;
      from = a;
      to = b;
      nodes_shared = length g.known_nodes;
    } in
    let longer = g.recent_exchanges ++ e ∷ [] in
    let grown = Recent-append g.rounds g.recent_exchanges e refl recent in
    elim (Bool-cases (ltb (length node_ids) 2)) [
      | inl lone ↦ rw lone (recent, few)
      | inr enough ↦ elim (Bool-cases (ltb 20 (length longer))) [
        | inl long ↦
            rw (enough, long)
              (Recent-drop (g.rounds + 1) longer grown, at_most g.recent_exchanges e few)
        | inr short ↦ rw (enough, short) (grown, ground arith)
      ]
    ]
