-- ===== src/Gossip/Examples.antt =====
-- Three nodes, as in tests/test_gossip.py: two know themselves and exchange their views.
use scrape_grid.Prelude.{ℕ, ◌+◌, ◌≡◌, refl, Option, none, some, List, [], ◌∷◌, ◌==◌, arith}
use scrape_grid.Result.{Result, ok, err, value_error}
use scrape_grid.Dict.{get, or_else}
use scrape_grid.Gossip.{GossipProtocol, init, update_self, exchange, known_nodes, Info}
use scrape_grid.Gossip.Views.{
  IsValid, after, exchange_lem, init-IsValid, update_self-IsValid, exchange-others,
}

methods : Unit {0}
unfolding init update_self exchange known_nodes
methods = tt

abbrev up : List ℕ
up = b'u' ∷ b'p' ∷ []

abbrev to_int : ℕ → Result ℕ
to_int n = ok n

abbrev cluster : GossipProtocol ℕ
cluster = update_self (update_self init 1 up 10) 2 up 5

abbrev bad_key : Option (List (ℕ × Option (Info ℕ)))
bad_key = some ((7, none) ∷ [])

refused : (exchange (λ n. err value_error) cluster 1 2 bad_key).1 ≡ err value_error
unfolding methods
refused = refl

cluster-IsValid : IsValid cluster
cluster-IsValid =
    update_self-IsValid (update_self init 1 up 10) 2 up 5
      (update_self-IsValid init 1 up 10 (init-IsValid ℕ))

both_known :
    known_nodes (after to_int cluster 1 2) 1
    ≡ (1, record { status = up; load_score = 10 })
      ∷ (2, record { status = up; load_score = 5 })
      ∷ []
unfolding methods scrape_grid.Dict.merge
both_known = refl

exchange_lem_example :
    IsValid (after to_int cluster 1 2)
    × (known_nodes (after to_int cluster 1 2) 1 ≡ known_nodes (after to_int cluster 1 2) 2)
    × ((n : ℕ)
        → get ◌==◌ (known_nodes (after to_int cluster 1 2) 1) n
          ≡ or_else (get ◌==◌ (known_nodes cluster 2) n) (get ◌==◌ (known_nodes cluster 1) n))
    × ((after to_int cluster 1 2).rounds ≡ cluster.rounds + 1)
exchange_lem_example = exchange_lem to_int cluster 1 2 cluster-IsValid

exchange-others_example : known_nodes (after to_int cluster 1 3) 2 ≡ known_nodes cluster 2
exchange-others_example = exchange-others to_int cluster 1 3 2 (λ e. omega arith) (λ e. omega arith)
