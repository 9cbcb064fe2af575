-- ===== src/Raft/Votes.antt =====
-- Counting votes in a record of who voted for whom in which term.
use scrape_grid.Prelude.{
  ℕ, zero, suc, ◌+◌, ◌≤◌, ◌<◌, ◌≡◌, refl, ◌≢◌, ◌&&◌, Option, none, some, List, [], ◌∷◌, All, arith,
  ◌==◌, if◌then◌else◌, Bool-cases, inl, inr,
}
use native.Mathlib.Decide.{dec_lt}
use scrape_grid.Raft.System.{others, peers}

-- `votes v t` is the node that `v` voted for in term `t`.
abbrev pub Ballots : Type 0
Ballots = (voter term : ℕ) → Option ℕ

-- One more vote: `v` votes for `i` in term `t`.
abbrev pub with_vote : Ballots → ℕ → ℕ → ℕ → Ballots
with_vote b v t i w u = if v == w && t == u then some i else b w u

abbrev is_for : ℕ → Option ℕ → ℕ
is_for i none = 0
is_for i (some j) = if j == i then 1 else 0

-- How many of the nodes below `n` voted for `i` in term `t`.
pub tally : Ballots → ℕ → ℕ → ℕ → ℕ
tally b t i zero = 0
tally b t i (suc n) = tally b t i n + is_for i (b n t)

-- Nobody's vote changes from `b` to `b'`.
abbrev pub Extends : Ballots → Ballots → Type 0
Extends b b' = (v t x : ℕ) → b v t ≡ some x → b' v t ≡ some x

pub with_vote-Extends : (b : Ballots) (v t i : ℕ) → b v t ≡ none → Extends b (with_vote b v t i)
with_vote-Extends b v t i free w u x h = elim (Bool-cases (v == w && t == u)) [
  | inl same ↦ absurd (ground arith)
  | inr other ↦ rw other h
]

is_for_mono :
    (o o' : Option ℕ) (i : ℕ) → ((x : ℕ) → o ≡ some x → o' ≡ some x) → is_for i o ≤ is_for i o'
is_for_mono none o' i h = omega arith
is_for_mono (some x) o' i h = rw (h x refl) (omega arith)

pub tally_mono : (b b' : Ballots) (t i n : ℕ) → Extends b b' → tally b t i n ≤ tally b' t i n
unfolding tally
tally_mono b b' t i zero h = omega arith
tally_mono b b' t i (suc n) h =
    omega (arith, tally_mono b b' t i n h, is_for_mono (b n t) (b' n t) i (h n t))

pub tally-with_vote :
    (b : Ballots) (v t i n : ℕ)
    → v < n
    → b v t ≡ none
    → tally b t i n + 1 ≤ tally (with_vote b v t i) t i n
unfolding tally
tally-with_vote b v t i zero h free = absurd (omega arith)
tally-with_vote b v t i (suc n) h free = elim (dec_lt v n) [
  | yes below ↦ ground (arith, tally-with_vote b v t i n below free)
  | no last ↦
      ground (arith, tally_mono b (with_vote b v t i) t i n (with_vote-Extends b v t i free))
]

is_for-disjoint : (o : Option ℕ) (i j : ℕ) → i ≢ j → is_for i o + is_for j o ≤ 1
is_for-disjoint none i j h = omega arith
is_for-disjoint (some x) i j h = ground arith

-- Two candidates of one term share no voter.
pub tally-disjoint : (b : Ballots) (t i j n : ℕ) → i ≢ j → tally b t i n + tally b t j n ≤ n
unfolding tally
tally-disjoint b t i j zero h = omega arith
tally-disjoint b t i j (suc n) h =
    omega (arith, tally-disjoint b t i j n h, is_for-disjoint (b n t) i j h)

-- The nodes of the list are below `n`, different, and have not voted for `i` in term `t`.
abbrev pub Fresh : Ballots → (t i n : ℕ) → List ℕ → Type 0
Fresh b t i n [] = Unit {0}
Fresh b t i n (p ∷ ps) = (p < n) × (b p t ≢ some i) × All (λ q. p ≢ q) ps × Fresh b t i n ps

-- Votes for others, and votes of nodes that are not in the list, leave it fresh.
pub Fresh-with_vote_ne :
    (b : Ballots) (v u j t i n : ℕ) (ps : List ℕ)
    → j ≢ i
    → Fresh b t i n ps
    → Fresh (with_vote b v u j) t i n ps
Fresh-with_vote_ne b v u j t i n [] ne f = tt
Fresh-with_vote_ne b v u j t i n (p ∷ ps) ne (lt, no_vote, apart, f) =
    (lt, λ e. ground arith, apart, Fresh-with_vote_ne b v u j t i n ps ne f)

pub Fresh-with_vote :
    (b : Ballots) (v u j t i n : ℕ) (ps : List ℕ)
    → All (λ q. v ≢ q) ps
    → Fresh b t i n ps
    → Fresh (with_vote b v u j) t i n ps
Fresh-with_vote b v u j t i n [] out f = tt
Fresh-with_vote b v u j t i n (p ∷ ps) (ne, out) (lt, no_vote, apart, f) =
    (lt, λ e. ground arith, apart, Fresh-with_vote b v u j t i n ps out f)

pub All-mono : {P Q : ℕ → Type 0} (ps : List ℕ) → ((q : ℕ) → P q → Q q) → All P ps → All Q ps
All-mono [] h a = tt
All-mono (p ∷ ps) h (x, a) = (h p x, All-mono ps h a)

others-Fresh :
    (b : Ballots) (t i n m : ℕ) (tail : List ℕ)
    → ((p : ℕ) → p ≢ i → b p t ≢ some i)
    → m ≤ n
    → All (λ q. m ≤ q) tail
    → Fresh b t i n tail
    → Fresh b t i n (others m i tail)
unfolding others
others-Fresh b t i n zero tail h le above f = f
others-Fresh b t i n (suc m) tail h le above f = elim (Bool-cases (m == i)) [
  | inl own ↦
      rw own
        (others-Fresh b t i n m tail h (omega arith) (All-mono tail (λ q k. omega arith) above) f)
  | inr other ↦ rw other (
      others-Fresh b t i n m (m ∷ tail) h (omega arith)
        (omega arith, All-mono tail (λ q k. omega arith) above)
        (omega arith, h m (λ e. ground arith), All-mono tail (λ q k e. omega arith) above, f))
]

-- Where nobody else has voted for `i` in term `t`, the whole list of its peers is fresh.
pub peers-Fresh :
    (b : Ballots) (t i n : ℕ) → ((p : ℕ) → p ≢ i → b p t ≢ some i) → Fresh b t i n (peers n i)
unfolding peers
peers-Fresh b t i n h = others-Fresh b t i n n [] h (omega arith) tt tt
