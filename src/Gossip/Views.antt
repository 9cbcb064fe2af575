-- ===== src/Gossip/Views.antt =====
-- Exchanges, and the views of the nodes after them.
use native.Mathlib.Decide.{ℕ_discrete}
use scrape_grid.Prelude.{
  ℕ, ◌+◌, ◌≡◌, refl, sym, ◌∙◌, subst, ◌≢◌, none, [], ◌==◌, ==_iff, ==_ne, Option-cases, inl, inr,
}
use scrape_grid.Result.{Result}
use scrape_grid.Text.{Text}
use scrape_grid.Dict.{Dict, get, put, merge, or_else}
use scrape_grid.Dict.Laws.{get-put_self, get-put_ne, IsDict, put-IsDict, merge-IsDict, get-merge}
use scrape_grid.Gossip.{
  Info, View, GossipProtocol, init, update_self, set_default, view, share, exchange, known_nodes,
}

-- Every view is a dictionary.
abbrev pub IsValid : {F : Type 0} → GossipProtocol F → Type 0
IsValid g = (node : ℕ) → IsDict ◌==◌ ==_iff (known_nodes g node)

module _ {F : Type 0} where
  view-set_default :
      (views : Dict ℕ (View F)) (k j : ℕ) → view (set_default views k) j ≡ view views j
  unfolding set_default
  view-set_default views k j = elim (Option-cases (get ◌==◌ views k)) [
    | inl h ↦
        rw (set_default, h)
          (elim (ℕ_discrete k j) [
            | yes same ↦
                subst (λ i. view (put ◌==◌ views k []) i ≡ view views i) same
                  (rw (get-put_self ◌==◌ ==_iff views k [], h) refl)
            | no ne ↦ rw (get-put_ne ◌==◌ ==_iff views k j [] (==_ne k j ne)) refl
          ])
    | inr (v, h) ↦ rw (set_default, h) refl
  ]

  -- The views of the merge that `exchange` ends in.
  view-put_self : (views : Dict ℕ (View F)) (k : ℕ) (v : View F) → view (put ◌==◌ views k v) k ≡ v
  view-put_self views k v = rw (get-put_self ◌==◌ ==_iff views k v) refl

  view-put_ne :
      (views : Dict ℕ (View F)) (k j : ℕ) (v : View F)
      → k ≢ j
      → view (put ◌==◌ views k v) j ≡ view views j
  view-put_ne views k j v ne = rw (get-put_ne ◌==◌ ==_iff views k j v (==_ne k j ne)) refl

module _ {F : Type 0} {Raw : Type 0} (to_int : Raw → Result ℕ) (g : GossipProtocol F)
    (node_a node_b : ℕ) where
  abbrev pub after : GossipProtocol F
  after = (exchange to_int g node_a node_b none).0

  -- What either knows after an exchange without a snapshot.
  abbrev union : View F
  union = merge ◌==◌ (known_nodes g node_a) (known_nodes g node_b)

  begun : Dict ℕ (View F)
  begun = set_default (set_default g.views node_a) node_b

  view-begun : (c : ℕ) → view begun c ≡ known_nodes g c
  unfolding begun known_nodes
  view-begun c =
      view-set_default (set_default g.views node_a) node_b c ∙ view-set_default g.views node_a c

  merged_lem : merge ◌==◌ (view begun node_a) (view begun node_b) ≡ union
  merged_lem = rw (view-begun node_a, view-begun node_b) refl

  after_b : known_nodes after node_b ≡ union
  unfolding exchange share known_nodes begun
  after_b = view-put_self _ node_b _ ∙ merged_lem

  after_a : known_nodes after node_a ≡ union
  unfolding exchange share known_nodes begun
  after_a = elim (ℕ_discrete node_b node_a) [
    | yes same ↦ subst (λ n. known_nodes after n ≡ union) same after_b
    | no ne ↦ view-put_ne _ node_b node_a _ ne ∙ view-put_self _ node_a _ ∙ merged_lem
  ]

  -- An exchange without a snapshot leaves the view of every node but the two as it was.
  pub exchange-others : (c : ℕ) → node_a ≢ c → node_b ≢ c → known_nodes after c ≡ known_nodes g c
  unfolding exchange share known_nodes begun
  exchange-others c ne_a ne_b =
      view-put_ne _ node_b c _ ne_b ∙ view-put_ne _ node_a c _ ne_a ∙ view-begun c

  counted : after.rounds ≡ g.rounds + 1
  unfolding exchange share
  counted = refl

  module _ (valid : IsValid g) where
    union-IsDict : IsDict ◌==◌ ==_iff union
    union-IsDict =
        merge-IsDict ◌==◌ ==_iff (known_nodes g node_a) (known_nodes g node_b) (valid node_a)

    after-IsValid : IsValid after
    after-IsValid c = elim (ℕ_discrete node_b c) [
      | yes same ↦
          subst (λ n. IsDict ◌==◌ ==_iff (known_nodes after n)) same
            (subst (IsDict ◌==◌ ==_iff) (sym after_b) union-IsDict)
      | no ne ↦ elim (ℕ_discrete node_a c) [
        | yes same ↦
            subst (λ n. IsDict ◌==◌ ==_iff (known_nodes after n)) same
              (subst (IsDict ◌==◌ ==_iff) (sym after_a) union-IsDict)
        | no ne_a ↦ subst (IsDict ◌==◌ ==_iff) (sym (exchange-others c ne_a ne)) (valid c)
      ]
    ]

    -- After an exchange without a snapshot, in a cluster whose views are dictionaries, the two nodes
    -- have one and the same view, which tells of every node what `node_b` knew of it, or else what
    -- `node_a` did; the views are dictionaries again, and one more round is counted.
    pub exchange_lem :
        IsValid after
        × (known_nodes after node_a ≡ known_nodes after node_b)
        × ((n : ℕ)
            → get ◌==◌ (known_nodes after node_a) n
              ≡ or_else (get ◌==◌ (known_nodes g node_b) n) (get ◌==◌ (known_nodes g node_a) n))
        × (after.rounds ≡ g.rounds + 1)
    exchange_lem = (
      after-IsValid,
      after_a ∙ sym after_b,
      (λ n.
          rw after_a
            (get-merge ◌==◌ ==_iff (known_nodes g node_a) (known_nodes g node_b) n (valid node_b))),
      counted,
    )

pub init-IsValid :
    (F : Type 0) (c : ℕ) → IsDict ◌==◌ ==_iff (known_nodes (let g : GossipProtocol F = init in g) c)
unfolding init known_nodes get
init-IsValid F c = tt

-- A node's report on itself leaves every view a dictionary.
pub update_self-IsValid :
    {F : Type 0} (g : GossipProtocol F) (k : ℕ) (status : Text) (load : F)
    → IsValid g
    → IsValid (update_self g k status load)
unfolding update_self known_nodes
update_self-IsValid {F = F} g k status load valid c =
    let views = set_default g.views k in
    let info : Info F = record { status = status; load_score = load } in
    let own = put ◌==◌ (view views k) k info in
    let own_IsDict : IsDict ◌==◌ ==_iff own =
      put-IsDict ◌==◌ ==_iff (view views k) k info
        (subst (IsDict ◌==◌ ==_iff) (sym (view-set_default g.views k k)) (valid k)) in
    elim (ℕ_discrete k c) [
      | yes same ↦
          subst (λ n. IsDict ◌==◌ ==_iff (view (put ◌==◌ views k own) n)) same
            (subst (IsDict ◌==◌ ==_iff) (sym (view-put_self views k own)) own_IsDict)
      | no ne ↦
          subst (IsDict ◌==◌ ==_iff)
            (sym (view-put_ne views k c own ne ∙ view-set_default g.views k c)) (valid c)
    ]
