-- ===== src/Prelude/Results.antt =====
-- What a fallible Rust function does: it returns `Ok`, returns `Err`, or panics (an `unwrap` of a
-- failure, or an index out of range).
use mathlib.Core.Path.{◌≡◌, refl}
use mathlib.Core.Bool.{Bool, true, false}
use mathlib.Core.Option.{Option, none, some}

pub data Outcome {ℓ κ} (E : Type ℓ) (A : Type κ) : Type (ℓ ⊔ κ) where
  panic : Outcome E A
  err : E → Outcome E A
  ok : A → Outcome E A

module _ {ℓ κ} {E : Type ℓ} {A : Type κ} where
  -- `o.unwrap()`, and an index into a slice
  abbrev pub unwrap : Option A → Outcome E A
  unwrap (some value) = ok value
  unwrap none = panic

  -- `?` across two error types, by their `From` implementation
  abbrev pub map_err {μ} : {D : Type μ} → (E → D) → Outcome E A → Outcome D A
  map_err from panic = panic
  map_err from (err e) = err (from e)
  map_err from (ok value) = ok value

  pub ok-injective : {a b : A} → ◌≡◌ {A = Outcome E A} (ok a) (ok b) → a ≡ b
  ok-injective same = cc

-- `if b { return Err(e) }`
abbrev pub fail_if {ℓ} : {E : Type ℓ} → Bool → E → Outcome E (Unit {0})
fail_if false e = ok tt
fail_if true e = err e

-- A panic and an error end the block.
infixl 5 ◌>>=◌ ◌>>◌
abbrev pub ◌>>=◌ {ℓ κ μ} :
    {E : Type ℓ} {A : Type κ} {B : Type μ} → Outcome E A → (A → Outcome E B) → Outcome E B
panic >>= rest = panic
err e >>= rest = err e
ok value >>= rest = rest value

abbrev pub ◌>>◌ {ℓ κ} : {E : Type ℓ} {B : Type κ} → Outcome E (Unit {0}) → Outcome E B → Outcome E B
first >> rest = first >>= λ _. rest

-- What is made of a value and can be read back can be so where there may be no value.
pub >>=_reread {ℓ κ μ} :
    {E : Type ℓ} {A : Type κ} {B : Type μ} (o : Outcome E A) (make : A → B) (read : B → Outcome E B)
    → ((a : A) → read (make a) ≡ ok (make a))
    → (o >>= λ a. ok (make a)) >>= read ≡ (o >>= λ a. ok (make a))
>>=_reread panic make read h = refl
>>=_reread (err e) make read h = refl
>>=_reread (ok a) make read h = h a

-- where a chain gives a value, so did its first step
pub >>=-ok {ℓ κ μ} :
    {E : Type ℓ} {A : Type κ} {B : Type μ} (o : Outcome E A) (rest : A → Outcome E B) (b : B)
    → o >>= rest ≡ ok b
    → (a : A) × (o ≡ ok a) × (rest a ≡ ok b)
>>=-ok panic rest b e = absurd cc
>>=-ok (err x) rest b e = absurd cc
>>=-ok (ok a) rest b e = (a, refl, e)
