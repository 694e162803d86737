-- ===== src/Base/Results.antt =====
-- What a call of the program comes back with.
use mathlib.Core.Path.{◌≡◌, refl}

-- `panic` is a Rust panic. `stuck` is no outcome of the program: the model's fuel ran out.
pub data Result {ℓ} (E : Type 0) (A : Type ℓ) : Type ℓ where
  ok : A → Result E A
  err : E → Result E A
  panic : Result E A
  stuck : Result E A

module _ {E : Type 0} where
  infixl 5 ◌>>=◌
  -- `?` and `and_then`: every end but `ok` is passed on.
  abbrev pub ◌>>=◌ {ℓ κ} :
      {A : Type ℓ} {B : Type κ} (r : Result E A) (next : A → Result E B) → Result E B
  stuck >>= next = stuck
  panic >>= next = panic
  err message >>= next = err message
  ok value >>= next = next value

  -- A chain that ends well went well at its first step, and on from there.
  pub >>=-eq-ok {ℓ κ} :
      {A : Type ℓ} {B : Type κ} (first : Result E A) (next : A → Result E B) {end : B}
      → (first >>= next) ≡ ok end
      → (value : A) × (first ≡ ok value) × (next value ≡ ok end)
  >>=-eq-ok stuck next run = cc
  >>=-eq-ok panic next run = cc
  >>=-eq-ok (err message) next run = cc
  >>=-eq-ok (ok value) next run = (value, refl, run)

  pub ok-injective {ℓ} : {A : Type ℓ} {a b : A} → ◌≡◌ {A = Result E A} (ok a) (ok b) → a ≡ b
  ok-injective h = cc
