-- ===== src/Clocks/Causality.antt =====
-- What vector clocks say about causality.
use scrape_grid.Prelude.{
  ℕ, ◌≤◌, ◌<◌, ◌≡◌, sym, ap, ◌∙◌, List, arith, ltb, ltb→lt, get_or, length, Bool-cases, inl, inr,
}
use scrape_grid.Result.{ok}
use scrape_grid.Clocks.Vector.{VectorClock, IsValid, receive, receive_lem, compare, before}
use scrape_grid.Clocks.Order.{AtMost-antisymm, compare_iff, get_or_outside}

-- `before` is transitive on vectors of one length.
pub before_trans :
    (va vb vc : List ℕ)
    → length va ≡ length vb
    → length vb ≡ length vc
    → compare va vb ≡ before
    → compare vb vc ≡ before
    → compare va vc ≡ before
before_trans va vb vc ab bc p q =
    let (h, ne) = (compare_iff va vb ab).1.0 p in
    let (k, _) = (compare_iff vb vc bc).1.0 q in
    (compare_iff va vc (ab ∙ bc)).1.1 (
      λ i. omega (arith, h i, k i),
      λ e. ne (AtMost-antisymm va vb ab h (λ i. omega (arith, k i, ap (λ v. get_or v i 0) e))),
    )

-- A vector that is nowhere above another, and below it in one slot, is before it.
before_of_lt :
    (va vb : List ℕ) (i : ℕ)
    → length va ≡ length vb
    → ((j : ℕ) → j < length va → get_or va j 0 ≤ get_or vb j 0)
    → get_or va i 0 < get_or vb i 0
    → compare va vb ≡ before
before_of_lt va vb i len h lt = (compare_iff va vb len).1.1 (
  λ j. elim (Bool-cases (ltb j (length va))) [
    | inl inside ↦ h j (ltb→lt _ _ inside)
    | inr out ↦ let far : length va ≤ j = ground arith in omega (arith, get_or_outside va j far)
  ],
  λ e. absurd (omega (arith, ap (λ v. get_or v i 0) e)),
)

-- A message carries time forward: with vectors of the cluster's size, what `receive` returns is
-- after the receiver's old vector and after the vector in the message.
pub receive-after :
    (vc : VectorClock) (remote : List ℕ)
    → IsValid vc
    → length remote ≡ vc.num_nodes
    → (w : List ℕ) × (receive vc remote ≡ (ok w, record vc { vector = w }))
      × (compare vc.vector w ≡ before)
      × (compare remote w ≡ before)
receive-after vc remote valid len =
    let (w, e, still, at) = receive_lem vc remote valid in
    let counted : length w ≡ vc.num_nodes = (rw e at still).counted in
    (
      w,
      e,
      before_of_lt vc.vector w vc.node_id (valid.counted ∙ sym counted)
          (λ j h. omega (arith, at j (omega (arith, valid.counted))))
          (ground (arith, at vc.node_id valid.own)),
      before_of_lt remote w vc.node_id (len ∙ sym counted)
          (λ j h. omega (arith, at j (omega (arith, len))))
          (ground (arith, at vc.node_id valid.own)),
    )
