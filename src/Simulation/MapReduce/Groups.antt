-- ===== src/Simulation/MapReduce/Groups.antt =====
-- What `run_mapreduce` says of a category.
use scrape_grid.Prelude.{
  ◌≡◌, refl, ◌∙◌, ap, Option, none, some, List, [], ◌∷◌, ◌++◌, Bool-cases, inl, inr,
}
use scrape_grid.Text.{Text, equal, equal_iff}
use scrape_grid.Floats.{FloatOps}
use scrape_grid.Dict.{Dict, get, put, or_default}
use scrape_grid.Dict.Laws.{get-put}
use scrape_grid.Simulation.MapReduce.{
  Input, Stats, key, group, summary, reduce, run_mapreduce, of_category,
}

module _ {A : Type 0} where
  abbrev join : Option (List A) → List A → Option (List A)
  join o [] = o
  join none (x ∷ xs) = some (x ∷ xs)
  join (some ys) (x ∷ xs) = some (ys ++ x ∷ xs)

  append_assoc : (xs ys zs : List A) → (xs ++ ys) ++ zs ≡ xs ++ (ys ++ zs)
  append_assoc [] ys zs = refl
  append_assoc (x ∷ xs) ys zs = ap (λ ws. x ∷ ws) (append_assoc xs ys zs)

  join_step :
      (o : Option (List A)) (x : A) (xs : List A)
      → join (some (or_default o [] ++ x ∷ [])) xs ≡ join o (x ∷ xs)
  join_step none x [] = refl
  join_step none x (y ∷ ys) = refl
  join_step (some zs) x [] = refl
  join_step (some zs) x (y ∷ ys) = ap (λ ws. some ws) (append_assoc zs (x ∷ []) (y ∷ ys))

module _ (fl : FloatOps) (round_3 round_1 : fl.Float → fl.Float) where
  group_lem :
      (mapped : Dict Text (List (Input fl))) (rs : List (Input fl)) (cat : Text)
      → get equal (group fl mapped rs) cat
        ≡ join (get equal mapped cat) (of_category fl round_3 round_1 cat rs)
  unfolding group
  group_lem mapped [] cat = refl
  group_lem mapped (r ∷ rs) cat =
      let k = key fl r in
      let items = or_default (get equal mapped k) [] ++ r ∷ [] in
      group_lem (put equal mapped k items) rs cat ∙ (elim (Bool-cases (equal k cat)) [
        | inl h ↦
            rw (get-put equal equal_iff mapped k cat items, h, (equal_iff k cat).0 h)
              (join_step (get equal mapped cat) r (of_category fl round_3 round_1 cat rs))
        | inr h ↦ rw (get-put equal equal_iff mapped k cat items, h) refl
      ])

  -- The summary of some results; none of no results.
  abbrev pub summarised : List (Input fl) → Option (Stats fl)
  summarised [] = none
  summarised (r ∷ rs) = some (summary fl round_3 round_1 (r ∷ rs))

  abbrev over : Option (List (Input fl)) → Option (Stats fl)
  over none = none
  over (some items) = some (summary fl round_3 round_1 items)

  get-reduce :
      (mapped : Dict Text (List (Input fl))) (cat : Text)
      → get equal (reduce fl round_3 round_1 mapped) cat ≡ over (get equal mapped cat)
  unfolding get reduce
  get-reduce [] cat = refl
  get-reduce ((k, items) ∷ mapped) cat = elim (Bool-cases (equal k cat)) [
    | inl h ↦ rw h refl
    | inr h ↦ rw h (get-reduce mapped cat)
  ]

  over-join : (rs : List (Input fl)) → over (join none rs) ≡ summarised rs
  over-join [] = refl
  over-join (r ∷ rs) = refl

  -- `run_mapreduce` maps a category to the summary of all results of that category in their order,
  -- a missing one counting as "general", and has no entry for a category without results.
  pub run_mapreduce_lem :
      (rs : List (Input fl)) (cat : Text)
      → get equal (run_mapreduce fl round_3 round_1 rs) cat
        ≡ summarised (of_category fl round_3 round_1 cat rs)
  unfolding run_mapreduce get
  run_mapreduce_lem rs cat =
      get-reduce (group fl [] rs) cat
      ∙ ap over (group_lem [] rs cat)
      ∙ over-join (of_category fl round_3 round_1 cat rs)
