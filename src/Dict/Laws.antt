-- ===== src/Dict/Laws.antt =====
-- Reading a dictionary after a write and after a merge.
use scrape_grid.Prelude.{
  ◌≡◌, refl, sym, ◌∙◌, subst, ◌≢◌, ◌↔◌, Bool, true, false, none, some, [], ◌∷◌, if◌then◌else◌,
  Bool-cases, inl, inr,
}
use scrape_grid.Dict.{Dict, get, put, merge, or_else}

true-false : true ≢ false
true-false e = cc

flip :
    {K : Type 0} (eq : K → K → Bool)
    → ((a b : K) → (eq a b ≡ true) ↔ (a ≡ b))
    → (a b : K) → eq a b ≡ false
    → eq b a ≡ false
flip eq eq_iff a b h = elim (Bool-cases (eq b a)) [
  | inl e ↦ absurd (true-false (sym ((eq_iff a b).1 (sym ((eq_iff b a).0 e))) ∙ h))
  | inr e ↦ e
]

module _ {K : Type 0} {V : Type 0} (eq : K → K → Bool)
    (eq_iff : (a b : K) → (eq a b ≡ true) ↔ (a ≡ b)) where
  pub get-put_self : (d : Dict K V) (k : K) (v : V) → get eq (put eq d k v) k ≡ some v
  unfolding get put
  get-put_self [] k v = rw ((eq_iff k k).1 refl) refl
  get-put_self ((k', w) ∷ d) k v = elim (Bool-cases (eq k' k)) [
    | inl h ↦ rw (h, h) refl
    | inr h ↦ rw (h, h) (get-put_self d k v)
  ]

  pub get-put_ne :
      (d : Dict K V) (k j : K) (v : V) → eq k j ≡ false → get eq (put eq d k v) j ≡ get eq d j
  unfolding get put
  get-put_ne [] k j v ne = rw ne refl
  get-put_ne ((k', w) ∷ d) k j v ne = elim (Bool-cases (eq k' k)) [
    | inl h ↦ let same = (eq_iff k' k).0 h in rw (h, same, ne) refl
    | inr h ↦ rw (h, get-put_ne d k j v ne) refl
  ]

  pub get-put :
      (d : Dict K V) (k j : K) (v : V)
      → get eq (put eq d k v) j ≡ (if eq k j then some v else get eq d j)
  get-put d k j v = elim (Bool-cases (eq k j)) [
    | inl h ↦ let same = (eq_iff k j).0 h in rw (h, ← same) (get-put_self d k v)
    | inr h ↦ rw h (get-put_ne d k j v h)
  ]

  -- No key stands in the list twice.
  abbrev pub IsDict : Dict K V → Type 0
  IsDict [] = Unit {0}
  IsDict ((k, v) ∷ d) = (get eq d k ≡ none) × IsDict d

  pub put-IsDict : (d : Dict K V) (k : K) (v : V) → IsDict d → IsDict (put eq d k v)
  unfolding get put
  put-IsDict [] k v u = (refl, tt)
  put-IsDict ((k', w) ∷ d) k v (fresh, u) = elim (Bool-cases (eq k' k)) [
    | inl h ↦ rw h (fresh, u)
    | inr h ↦ rw h (get-put_ne d k k' v (flip eq eq_iff k' k h) ∙ fresh, put-IsDict d k v u)
  ]

  pub merge-IsDict : (d e : Dict K V) → IsDict d → IsDict (merge eq d e)
  unfolding merge
  merge-IsDict d [] u = u
  merge-IsDict d ((k, v) ∷ e) u = merge-IsDict (put eq d k v) e (put-IsDict d k v u)

  -- In `{**d, **e}` a key that occurs in `e` reads as it does there, the others as in `d`.
  pub get-merge :
      (d e : Dict K V) (j : K)
      → IsDict e
      → get eq (merge eq d e) j ≡ or_else (get eq e j) (get eq d j)
  unfolding get merge
  get-merge d [] j u = refl
  get-merge d ((k, v) ∷ e) j (fresh, u) = elim (Bool-cases (eq k j)) [
    | inl h ↦
        let none_later : get eq e j ≡ none =
          subst (λ i. get eq e i ≡ none) ((eq_iff k j).0 h) fresh in
        rw (get-merge (put eq d k v) e j u, get-put d k j v, h, none_later) refl
    | inr h ↦ rw (get-merge (put eq d k v) e j u, get-put d k j v, h) refl
  ]
