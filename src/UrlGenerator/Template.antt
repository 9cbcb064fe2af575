-- ===== src/UrlGenerator/Template.antt =====
-- `str.format` for fields in braces, without the escapes `{{` and `}}`, conversions and format
-- specifications, of which the templates of the program have none.
use scrape_grid.Prelude.{ℕ, none, some, [], ◌∷◌, ◌++◌, ◌==◌, if◌then◌else◌}
use scrape_grid.Result.{Result, ok, err, key_error, value_error, ◌>>=◌}
use scrape_grid.Text.{Text, equal}
use scrape_grid.Dict.{Dict, get}

-- Between fields, or inside one with the part of its name that has been read.
pub data Place : Type 0 where
  outside : Place
  inside : Text → Place

-- The place behind the character `c`.
unfoldable pub next : Place → ℕ → Place
next outside c = if c == b'{' then inside [] else outside
next (inside name) c = if c == b'}' then outside else inside (name ++ c ∷ [])

unfoldable pub format_from : Dict Text Text → Place → Text → Result Text
unfolding next get equal
format_from fields outside [] = ok []
format_from fields (inside name) [] = err value_error
format_from fields outside (c ∷ cs) =
    let rest = format_from fields (next outside c) cs in
    if c == b'{'
    then rest
    else if c == b'}'
    then err value_error
    else (do text ← rest; ok (c ∷ text))
format_from fields (inside name) (c ∷ cs) =
    let rest = format_from fields (next (inside name) c) cs in
    if c == b'}'
    then elim (get equal fields name) [
      | none ↦ err key_error
      | some value ↦ do text ← rest; ok (value ++ text)
    ]
    else rest

unfoldable pub format : Dict Text Text → Text → Result Text
unfolding format_from
format fields template = format_from fields outside template
