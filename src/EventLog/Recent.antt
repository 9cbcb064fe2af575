-- ===== src/EventLog/Recent.antt =====
-- What the log keeps of the calls of `log`.
use scrape_grid.Prelude.{
  ℕ, zero, suc, ◌+◌, ◌-◌, ◌≤◌, ◌≡◌, refl, sym, ◌∙◌, ap, List, [], ◌∷◌, ◌++◌, map, arith, ltb,
  if◌then◌else◌, length, drop, take_last, length-append, length-drop, Bool-cases, inl, inr,
}
use scrape_grid.EventLog.{Event, EventLog, init, log}

module _ {A : Type 0} where
  drop-append : (n : ℕ) (xs ys : List A) → n ≤ length xs → drop n xs ++ ys ≡ drop n (xs ++ ys)
  drop-append zero xs ys h = refl
  drop-append (suc n) [] ys h = absurd (omega arith)
  drop-append (suc n) (x ∷ xs) ys h = drop-append n xs ys (omega arith)

  drop_eq : (n m : ℕ) (xs : List A) → n ≡ m → drop n xs ≡ drop m xs
  drop_eq n m xs h = ap (λ k. drop k xs) h

  drop_none : (n : ℕ) → drop n (let xs : List A = [] in xs) ≡ []
  drop_none zero = refl
  drop_none (suc n) = refl

  drop-drop : (n m : ℕ) (xs : List A) → drop n (drop m xs) ≡ drop (m + n) xs
  drop-drop n zero xs = drop_eq n (0 + n) xs (omega arith)
  drop-drop n (suc m) [] = drop_none n ∙ sym (drop_none (suc m + n))
  drop-drop n (suc m) (x ∷ xs) =
      drop-drop n m xs ∙ drop_eq (suc (m + n)) (suc m + n) (x ∷ xs) (omega arith)

  append_assoc : (xs ys zs : List A) → (xs ++ ys) ++ zs ≡ xs ++ (ys ++ zs)
  append_assoc [] ys zs = refl
  append_assoc (x ∷ xs) ys zs = ap (λ ws. x ∷ ws) (append_assoc xs ys zs)

  append_none : (xs : List A) → xs ++ [] ≡ xs
  append_none [] = refl
  append_none (x ∷ xs) = ap (λ ws. x ∷ ws) (append_none xs)

  -- Cutting a list to its last 500 after each element that comes in keeps the last 500 of all.
  cut : List A → List A
  cut xs = if ltb 500 (length xs) then take_last 500 xs else xs

  cut_lem : (xs : List A) (y : A) → cut (take_last 500 xs ++ y ∷ []) ≡ take_last 500 (xs ++ y ∷ [])
  unfolding cut
  cut_lem xs y =
      let k = length xs - 500 in
      let all = xs ++ y ∷ [] in
      let joined : take_last 500 xs ++ y ∷ [] ≡ drop k all =
        drop-append k xs (y ∷ []) (omega arith) in
      let size : length all ≡ length xs + 1 = length-append xs (y ∷ []) in
      let short : length (drop k all) ≡ length xs + 1 - k = omega (arith, length-drop k all) in
      rw joined (elim (Bool-cases (ltb 500 (length (drop k all)))) [
        | inl b ↦
            rw b (drop-drop (length (drop k all) - 500) k all ∙ drop_eq _ _ all (ground arith))
        | inr b ↦ rw b (drop_eq k (length all - 500) all (ground arith))
      ])

module _ {F : Type 0} (round_2 : F → F) where
  abbrev pub run : EventLog F → List (Event F) → EventLog F
  run l [] = l
  run l (e ∷ es) = run (log round_2 l e) es

  abbrev pub kept : Event F → Event F
  kept e = record e { t = round_2 e.t }

  run-from :
      (xs es : List (Event F)) (l : EventLog F)
      → l.events ≡ take_last 500 xs
      → (run l es).events ≡ take_last 500 (xs ++ map kept es)
  unfolding log cut
  run-from xs [] l h = h ∙ ap (take_last 500) (sym (append_none xs))
  run-from xs (e ∷ es) l h =
      run-from (xs ++ kept e ∷ []) es (log round_2 l e)
        (ap (λ ys. cut (ys ++ kept e ∷ [])) h ∙ cut_lem xs (kept e))
      ∙ ap (take_last 500) (append_assoc xs (kept e ∷ []) (map kept es))

  -- After any calls of `log` on a new log it holds the last 500 of them, in the order of the calls,
  -- each with its time rounded and the rest of it as it was given.
  pub run_lem : (es : List (Event F)) → (run init es).events ≡ take_last 500 (map kept es)
  unfolding init
  run_lem es = run-from [] es init refl
