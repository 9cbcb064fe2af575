-- ===== src/Simulation.antt =====
-- simulation.py: the helpers at its head, and the shards that the workers of the fleet share. A
-- shard's `deque` is one object, which the fleet and every worker of that shard hold: it is read and
-- written in the fleet's dictionary, under the shard's name.
pub mod Shards
pub mod Delay
pub mod Worker
pub mod Scraper
pub mod Conservation
pub mod MapReduce
pub mod Membership
pub mod Prepass
pub mod Fleet
pub mod Engine
mod Examples
use scrape_grid.Prelude.{
  ℕ, zero, suc, ◌+◌, Bool, true, false, not, ◌&&◌, Option, none, some, List, [], ◌∷◌, ltb, ◌==◌,
  if◌then◌else◌, length, get_elem?,
}
use scrape_grid.Result.{Result, ok, err, index_error}
use scrape_grid.Text.{Text, equal}
use scrape_grid.Dict.{Dict, get, or_default}

-- `text.split(sep)` for a separator of one code point.
unfoldable pub split : ℕ → Text → List Text
split sep [] = [] ∷ []
split sep (c ∷ cs) =
    let rest = split sep cs in
    if c == sep
    then [] ∷ rest
    else elim rest [ [] ↦ (c ∷ []) ∷ [] | part ∷ parts ↦ (c ∷ part) ∷ parts ]

-- `_domain_of`
unfoldable pub domain_of : Text → Result Text
unfolding split
domain_of url = elim (get_elem? (split b'/' url) 2) [ none ↦ err index_error | some part ↦ ok part ]

abbrev pub general : Text
general = b'g' ∷ b'e' ∷ b'n' ∷ b'e' ∷ b'r' ∷ b'a' ∷ b'l' ∷ []

-- `_category_of`
unfoldable pub category_of : Text → Dict Text Text → Text
unfolding get
category_of url domain_map = or_default (get equal domain_map url) general

abbrev pub Shards : Type 0
Shards = Dict Text (List Text)

abbrev pub queue : Shards → Text → List Text
queue shards name = or_default (get equal shards name) []
