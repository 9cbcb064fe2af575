-- ===== src/Simulation/Membership/State.antt =====
-- `state` of the engine's `GossipProtocol`; `round_3` is `round(_, 3)`.
use scrape_grid.Prelude.{ℕ, max, List, length, take_last}
use scrape_grid.Floats.{FloatOps, fmin}
use scrape_grid.Gossip.{Exchange}
use scrape_grid.Simulation.Membership.{GossipProtocol}

module _ (fl : FloatOps) where
  open fl use {Float, of_ℕ, div}

  pub record GossipState : Type 0 where
    pub rounds : ℕ
    pub known_nodes : ℕ
    pub convergence : Float
    pub recent_exchanges : List Exchange

  unfoldable pub state :
      {I : Type 0} (round_3 : Float → Float) → GossipProtocol I → (total_expected : ℕ) → GossipState
  state round_3 g total_expected =
      let known = length g.known_nodes in
      record {
        rounds = g.rounds;
        known_nodes = known;
        convergence = round_3 (fmin fl (of_ℕ 1) (div (of_ℕ known) (of_ℕ (max total_expected 1))));
        recent_exchanges = take_last 5 g.recent_exchanges;
      }
