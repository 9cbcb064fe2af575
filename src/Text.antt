-- ===== src/Text.antt =====
-- Python's `str` as the list of its code points, with the operations that the program uses.
use Prim.Native.Char.{code}
use Prim.Native.String.{String}
use scrape_grid.Prelude.{
  ℕ, zero, suc, ◌+◌, ◌/◌, ◌%◌, ◌≡◌, refl, ◌↔◌, Bool, true, false, ◌&&◌, ◌||◌, List, [], ◌∷◌, ◌++◌,
  arith, ltb, ◌==◌, if◌then◌else◌,
}

abbrev pub Text : Type 0
Text = List ℕ

-- The code points of a literal.
abbrev pub codes : String → Text
codes String.[] = []
codes (String.◌∷◌ c s) = code c ∷ codes s

-- `==`
unfoldable pub equal : Text → Text → Bool
equal [] [] = true
equal [] (y ∷ ys) = false
equal (x ∷ xs) [] = false
equal (x ∷ xs) (y ∷ ys) = x == y && equal xs ys

pub equal_iff : (s t : Text) → (equal s t ≡ true) ↔ (s ≡ t)
unfolding equal
equal_iff [] [] = (λ _. refl, λ _. refl)
equal_iff [] (y ∷ ys) = (λ e. cc, λ e. cc)
equal_iff (x ∷ xs) [] = (λ e. cc, λ e. cc)
equal_iff (x ∷ xs) (y ∷ ys) =
    (λ e. ground (arith, equal_iff xs ys), λ e. ground (arith, equal_iff xs ys))

pub equal_refl : (s : Text) → equal s s ≡ true
equal_refl s = (equal_iff s s).1 refl

-- `<`: by code points, a prefix first.
unfoldable pub less : Text → Text → Bool
less s [] = false
less [] (y ∷ ys) = true
less (x ∷ xs) (y ∷ ys) = ltb x y || (x == y && less xs ys)

-- The decimal digits of `n`; each round takes one off, so `suc n` rounds are enough.
unfoldable pub digits : ℕ → ℕ → Text
digits zero n = []
digits (suc fuel) n =
    let front = digits fuel (n / 10) in
    if ltb n 10 then (b'0' + n) ∷ [] else front ++ (b'0' + n % 10) ∷ []

-- `str(n)`
unfoldable pub decimal : ℕ → Text
unfolding digits
decimal n = digits (suc n) n
