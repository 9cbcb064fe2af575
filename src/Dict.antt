-- ===== src/Dict.antt =====
-- Python's dictionaries, as association lists in insertion order; `eq` is the test on keys.
pub mod Laws
use scrape_grid.Prelude.{ℕ, suc, Bool, Option, none, some, List, [], ◌∷◌, if◌then◌else◌}

abbrev pub Dict : Type 0 → Type 0 → Type 0
Dict K V = List (K × V)

module _ {K : Type 0} {V : Type 0} (eq : K → K → Bool) where
  -- `d.get(k)`
  unfoldable pub get : Dict K V → K → Option V
  get [] k = none
  get ((k', v) ∷ d) k = let rest = get d k in if eq k' k then some v else rest

  -- `d[k] = v`: a key that is there keeps its place, another goes to the end.
  unfoldable pub put : Dict K V → K → V → Dict K V
  put [] k v = (k, v) ∷ []
  put ((k', v') ∷ d) k v = let rest = put d k v in if eq k' k then (k', v) ∷ d else (k', v') ∷ rest

  -- `{**d, **e}`
  unfoldable pub merge : Dict K V → Dict K V → Dict K V
  unfolding put
  merge d [] = d
  merge d ((k, v) ∷ e) = merge (put d k v) e

abbrev pub or_else {ℓ} : {A : Type ℓ} → Option A → Option A → Option A
or_else none o = o
or_else (some a) o = some a

abbrev pub or_default {ℓ} : {A : Type ℓ} → Option A → A → A
or_default none a = a
or_default (some b) a = b

abbrev pub values : {K V : Type 0} → Dict K V → List V
values [] = []
values ((k, v) ∷ d) = v ∷ values d

abbrev pub keys : {K V : Type 0} → Dict K V → List K
keys [] = []
keys ((k, v) ∷ d) = k ∷ keys d
