-- ===== src/Simulation/MapReduce.antt =====
-- `run_mapreduce` of simulation.py. A result is the part of the dictionary that the function reads,
-- with `none` for a key that is missing; `round_3` and `round_1` are `round(_, 3)` and `round(_, 1)`.
pub mod Groups
use scrape_grid.Prelude.{
  ℕ, zero, suc, ◌+◌, ◌≡◌, refl, sym, ◌∙◌, ap, max, true, false, Option, none, some, List, [], ◌∷◌,
  ◌++◌, arith, if◌then◌else◌, length, length-append, Bool-cases, inl, inr,
}
use scrape_grid.Text.{Text, equal}
use scrape_grid.Floats.{FloatOps}
use scrape_grid.Dict.{Dict, get, put, or_default}
use scrape_grid.Simulation.{general}

module _ (fl : FloatOps) where
  open fl use {Float, zero, of_ℕ, add, div}

  pub record Input : Type 0 where
    pub category : Option Text
    pub quality_score : Option Float
    pub word_count : Option ℕ

  pub record Stats : Type 0 where
    pub item_count : ℕ
    pub avg_quality : Float
    pub total_words : ℕ
    pub avg_words : Float

  abbrev pub key : Input → Text
  key r = or_default r.category general

  -- The loop that fills `mapped`.
  unfoldable pub group : Dict Text (List Input) → List Input → Dict Text (List Input)
  unfolding get put
  group mapped [] = mapped
  group mapped (r ∷ rs) =
      group (put equal mapped (key r) (or_default (get equal mapped (key r)) [] ++ r ∷ [])) rs

  unfoldable pub words : List Input → ℕ
  words [] = 0
  words (r ∷ rs) = or_default r.word_count 0 + words rs

  -- `sum` adds from the left.
  unfoldable pub qualities : Float → List Input → Float
  qualities acc [] = acc
  qualities acc (r ∷ rs) = qualities (add acc (or_default r.quality_score zero)) rs

  module _ (round_3 round_1 : Float → Float) where
    unfoldable pub summary : List Input → Stats
    unfolding words qualities
    summary items = record {
      item_count = length items;
      avg_quality = round_3 (div (qualities zero items) (of_ℕ (max (length items) 1)));
      total_words = words items;
      avg_words = round_1 (div (of_ℕ (words items)) (of_ℕ (max (length items) 1)));
    }

    unfoldable pub reduce : Dict Text (List Input) → Dict Text Stats
    unfolding summary
    reduce [] = []
    reduce ((cat, items) ∷ mapped) = (cat, summary items) ∷ reduce mapped

    unfoldable pub run_mapreduce : List Input → Dict Text Stats
    unfolding group reduce
    run_mapreduce scraped_results = reduce (group [] scraped_results)

    -- The results of one category, in their order.
    abbrev pub of_category : Text → List Input → List Input
    of_category cat [] = []
    of_category cat (r ∷ rs) =
        let rest = of_category cat rs in if equal (key r) cat then r ∷ rest else rest
