-- ===== src/Gossip.antt =====
-- algorithms/gossip.py: `GossipProtocol`. Node ids are natural numbers. `to_int` stands for `int` on
-- a key of a snapshot. A snapshot is the items of its `node_states`, each with the `dict` that it
-- maps to or `none` for another object; `none` stands for a snapshot that is absent or empty or
-- whose `node_states` is absent or no `dict`.
pub mod Views
mod Examples
use scrape_grid.Prelude.{
  ℕ, ◌+◌, Option, none, some, List, [], ◌∷◌, ◌++◌, ltb, leb, max, Bool, true, false, ◌||◌, ◌==◌,
  if◌then◌else◌, length, take_last,
}
use scrape_grid.Result.{Result, ok, err, PyError}
use scrape_grid.Text.{Text}
use scrape_grid.Floats.{FloatOps}
use scrape_grid.Dict.{Dict, get, put, merge, or_default}

pub record Info (F : Type 0) : Type 0 where
  pub status : Text
  pub load_score : F

abbrev pub View : Type 0 → Type 0
View F = Dict ℕ (Info F)

pub record Exchange : Type 0 where
  pub round : ℕ
  pub from : ℕ
  pub to : ℕ
  pub nodes_shared : ℕ

pub record GossipProtocol (F : Type 0) : Type 0 where
  pub rounds : ℕ
  pub views : Dict ℕ (View F)
  pub recent_exchanges : List Exchange

unfoldable pub init : {F : Type 0} → GossipProtocol F
init = record { rounds = 0; views = []; recent_exchanges = [] }

-- `d.setdefault(k, {})`
unfoldable pub set_default : {F : Type 0} → Dict ℕ (View F) → ℕ → Dict ℕ (View F)
unfolding get put
set_default views k = elim (get ◌==◌ views k) [ none ↦ put ◌==◌ views k [] | some v ↦ views ]

-- `self.views[k]`, a key that is there
abbrev pub view : {F : Type 0} → Dict ℕ (View F) → ℕ → View F
view views k = or_default (get ◌==◌ views k) []

unfoldable pub update_self : {F : Type 0} → GossipProtocol F → ℕ → Text → F → GossipProtocol F
unfolding set_default
update_self g node_id status load_score =
    let views = set_default g.views node_id in
    let own =
      put ◌==◌ (view views node_id) node_id (record { status = status; load_score = load_score }) in
    record g { views = put ◌==◌ views node_id own }

-- `self.recent_exchanges.append(…)` and the cut to the last 20.
unfoldable pub note : List Exchange → Exchange → List Exchange
note recent e =
    let longer = recent ++ e ∷ [] in if ltb 20 (length longer) then take_last 20 longer else longer

module _ {F : Type 0} {Raw : Type 0} (to_int : Raw → Result ℕ) where
  -- The loop over the items of a snapshot: a key that is no number stops it where it stands.
  unfoldable pub absorb : View F → Dict Raw (Option (Info F)) → View F × Option PyError
  absorb own [] = (own, none)
  absorb own ((raw, none) ∷ states) = elim (to_int raw) [
    | err e ↦ (own, some e)
    | ok known ↦ absorb own states
  ]
  absorb own ((raw, some info) ∷ states) = elim (to_int raw) [
    | err e ↦ (own, some e)
    | ok known ↦ absorb (put ◌==◌ own known info) states
  ]

  -- The part of `exchange` behind the snapshot.
  unfoldable pub share : GossipProtocol F → (node_a node_b : ℕ) → GossipProtocol F
  unfolding note
  share g node_a node_b =
      let merged = merge ◌==◌ (view g.views node_a) (view g.views node_b) in
      record {
        rounds = g.rounds + 1;
        views = put ◌==◌ (put ◌==◌ g.views node_a merged) node_b merged;
        recent_exchanges = note g.recent_exchanges (record {
          round = g.rounds + 1;
          from = node_a;
          to = node_b;
          nodes_shared = length merged;
        });
      }

  unfoldable pub exchange :
      GossipProtocol F
      → (node_a node_b : ℕ) → Option (Dict Raw (Option (Info F)))
      → GossipProtocol F × Result (Unit {0})
  unfolding set_default absorb share
  exchange g node_a node_b state_snapshot =
      let views = set_default (set_default g.views node_a) node_b in
      elim state_snapshot [
        | none ↦ (share (record g { views = views }) node_a node_b, ok tt)
        | some states ↦
            let (own, fault) = absorb (view views node_a) states in
            let g' = record g { views = put ◌==◌ views node_a own } in
            elim fault [ none ↦ (share g' node_a node_b, ok tt) | some e ↦ (g', err e) ]
      ]

unfoldable pub known_nodes : {F : Type 0} → GossipProtocol F → ℕ → View F
unfolding get
known_nodes g node_id = or_default (get ◌==◌ g.views node_id) []

-- `n in ids`
abbrev holds : List ℕ → ℕ → Bool
holds [] n = false
holds (i ∷ ids) n = i == n || holds ids n

-- `all_nodes.update(…)`, ids that are there being left out.
unfoldable pub join_ids : {I : Type 0} → List ℕ → Dict ℕ I → List ℕ
join_ids ids [] = ids
join_ids ids ((n, v) ∷ d) = join_ids (if holds ids n then ids else n ∷ ids) d

-- `all_nodes`: the ids that have a view, and then those in the views.
unfoldable pub all_nodes : {F : Type 0} → List ℕ → Dict ℕ (View F) → List ℕ
unfolding join_ids
all_nodes ids [] = ids
all_nodes ids ((n, v) ∷ views) = all_nodes (join_ids ids v) views

-- The views that tell of `expected` nodes.
unfoldable pub converged : {F : Type 0} → ℕ → Dict ℕ (View F) → ℕ
converged expected [] = 0
converged expected ((n, v) ∷ views) =
    (if leb expected (length v) then 1 else 0) + converged expected views

pub record Stats (F : Type 0) : Type 0 where
  pub rounds : ℕ
  pub known : ℕ
  pub convergence : F
  pub recent : List Exchange

-- `round_3` is `round(_, 3)`.
unfoldable pub stats :
    {F : Type 0} (fl : FloatOps) (round_3 : fl.Float → fl.Float) → GossipProtocol F → Stats fl.Float
unfolding all_nodes converged
stats fl round_3 g =
    let ids = all_nodes (join_ids [] g.views) g.views in
    record {
      rounds = g.rounds;
      known = length ids;
      convergence = round_3 (
          fl.div (fl.of_ℕ (converged (max (length ids) 1) g.views))
            (fl.of_ℕ (max (length g.views) 1)));
      recent = take_last 5 g.recent_exchanges;
    }
