-- ===== src/Result.antt =====
-- What a Python call ends in: a value, or one of the exceptions that the program can raise.
use scrape_grid.Prelude.{◌≡◌, refl}

pub data PyError : Type 0 where
  index_error key_error value_error assertion_error zero_division_error : PyError

pub data Result {ℓ} (A : Type ℓ) : Type ℓ where
  err : PyError → Result A
  ok : A → Result A

infixl 5 ◌>>=◌
-- A call whose value the rest of the method goes on with.
abbrev pub ◌>>=◌ {ℓ κ} :
    {A : Type ℓ} {B : Type κ} (called : Result A) (rest : A → Result B) → Result B
err raised >>= rest = err raised
ok value >>= rest = rest value

-- A chain that ends well has come through its first call well.
pub >>=-eq-ok {ℓ κ} :
    {A : Type ℓ} {B : Type κ} {end : B} (called : Result A) (rest : A → Result B)
    → (called >>= rest) ≡ ok end
    → (value : A) × (called ≡ ok value) × (rest value ≡ ok end)
>>=-eq-ok (err raised) rest ended = cc
>>=-eq-ok (ok value) rest ended = (value, refl, ended)
