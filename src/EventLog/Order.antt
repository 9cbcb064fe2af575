-- ===== src/EventLog/Order.antt =====
-- The order of what `all` returns, and the events of each stamp in it.
use scrape_grid.Prelude.{
  ℕ, ◌≤◌, ◌<◌, ◌≡◌, refl, ◌∙◌, ap, List, [], ◌∷◌, arith, ltb, ◌==◌, if◌then◌else◌, All, Bool-cases,
  inl, inr,
}
use scrape_grid.EventLog.{Event, EventLog, insert, sorted, all_events}

module _ {F : Type 0} where
  abbrev pub Ascends : List (Event F) → Type 0
  Ascends [] = Unit {0}
  Ascends (e ∷ es) = All (λ x. e.lamport ≤ x.lamport) es × Ascends es

  -- The events of one stamp, in their order.
  abbrev pub stamped : ℕ → List (Event F) → List (Event F)
  stamped n [] = []
  stamped n (e ∷ es) = let rest = stamped n es in if e.lamport == n then e ∷ rest else rest

  All-insert :
      (n : ℕ) (e : Event F) (xs : List (Event F))
      → n ≤ e.lamport
      → All (λ x. n ≤ x.lamport) xs
      → All (λ x. n ≤ x.lamport) (insert e xs)
  unfolding insert
  All-insert n e [] h a = (h, tt)
  All-insert n e (x ∷ xs) h (p, a) = elim (Bool-cases (ltb x.lamport e.lamport)) [
    | inl b ↦ rw b (p, All-insert n e xs h a)
    | inr b ↦ rw b (h, (p, a))
  ]

  All_le :
      (n m : ℕ) (xs : List (Event F))
      → n ≤ m
      → All (λ x. m ≤ x.lamport) xs
      → All (λ x. n ≤ x.lamport) xs
  All_le n m [] h a = tt
  All_le n m (x ∷ xs) h (p, a) = (omega arith, All_le n m xs h a)

  insert-Ascends : (e : Event F) (xs : List (Event F)) → Ascends xs → Ascends (insert e xs)
  unfolding insert
  insert-Ascends e [] a = (tt, tt)
  insert-Ascends e (x ∷ xs) (p, a) = elim (Bool-cases (ltb x.lamport e.lamport)) [
    | inl b ↦ rw b (All-insert x.lamport e xs (ground arith) p, insert-Ascends e xs a)
    | inr b ↦
        let le : e.lamport ≤ x.lamport = ground arith in
        rw b ((le, All_le e.lamport x.lamport xs le p), (p, a))
  ]

  sorted-Ascends : (xs : List (Event F)) → Ascends (sorted xs)
  unfolding sorted
  sorted-Ascends [] = tt
  sorted-Ascends (e ∷ es) = insert-Ascends e (sorted es) (sorted-Ascends es)

  swap :
      (n : ℕ) (e x : Event F) (xs : List (Event F))
      → x.lamport < e.lamport
      → stamped n (x ∷ e ∷ xs) ≡ stamped n (e ∷ x ∷ xs)
  swap n e x xs h = ground arith

  stamped-cons :
      (n : ℕ) (x : Event F) (xs ys : List (Event F))
      → stamped n xs ≡ stamped n ys
      → stamped n (x ∷ xs) ≡ stamped n (x ∷ ys)
  stamped-cons n x xs ys h = ap (λ zs. if x.lamport == n then x ∷ zs else zs) h

  stamped-insert :
      (n : ℕ) (e : Event F) (xs : List (Event F)) → stamped n (insert e xs) ≡ stamped n (e ∷ xs)
  unfolding insert
  stamped-insert n e [] = refl
  stamped-insert n e (x ∷ xs) = elim (Bool-cases (ltb x.lamport e.lamport)) [
    | inl b ↦ rw b (
        stamped-cons n x (insert e xs) (e ∷ xs) (stamped-insert n e xs)
        ∙ swap n e x xs (ground arith))
    | inr b ↦ rw b refl
  ]

  stamped-sorted : (n : ℕ) (xs : List (Event F)) → stamped n (sorted xs) ≡ stamped n xs
  unfolding sorted
  stamped-sorted n [] = refl
  stamped-sorted n (e ∷ es) =
      stamped-insert n e (sorted es) ∙ stamped-cons n e (sorted es) es (stamped-sorted n es)

  -- What `all` returns ascends in the stamps, and for each stamp it has the events of the log with
  -- that stamp, each as often as it was kept and in the order in which they were logged.
  pub all_events_lem :
      (l : EventLog F)
      → Ascends (all_events l) × ((n : ℕ) → stamped n (all_events l) ≡ stamped n l.events)
  unfolding all_events
  all_events_lem l = (sorted-Ascends l.events, λ n. stamped-sorted n l.events)
