-- ===== src/Splitter/Bytes.antt =====
-- Byte slices: `from_le_bytes`, `to_le_bytes`, slicing, and "these bytes stand at this offset".
use mathlib.Core.Path.{subst}
use arcflame.Base.{
  ℕ, zero, suc, ◌+◌, ◌-◌, ◌*◌, ◌/◌, ◌%◌, ◌^◌, ◌≤◌, ◌<◌, ◌≡◌, refl, sym, ap, ◌∙◌, List, [], ◌∷◌,
  ◌++◌, append_assoc, length, take, drop, length-append, length-drop, take_self, drop_self,
  drop-drop, ltb, if◌then◌else◌, le→ltb, arith,
}
use arcflame.Base.Results.{ok, panic}
use arcflame.Splitter.{Outcome}

-- `uN::from_le_bytes`
unfoldable pub from_le_bytes : List ℕ → ℕ
from_le_bytes [] = 0
from_le_bytes (b ∷ bs) = b + 256 * from_le_bytes bs

-- `to_le_bytes` of a number of `k` bytes
unfoldable pub to_le_bytes : ℕ → ℕ → List ℕ
to_le_bytes zero v = []
to_le_bytes (suc k) v = (v % 256) ∷ to_le_bytes k (v / 256)

pub length-to_le_bytes : (k v : ℕ) → length (to_le_bytes k v) ≡ k
unfolding to_le_bytes
length-to_le_bytes zero v = refl
length-to_le_bytes (suc k) v = ap suc (length-to_le_bytes k (v / 256))

pub from_le_bytes-to_le_bytes : (k v : ℕ) → v < 256 ^ k → from_le_bytes (to_le_bytes k v) ≡ v
unfolding from_le_bytes to_le_bytes
from_le_bytes-to_le_bytes zero v h = omega arith
from_le_bytes-to_le_bytes (suc k) v h =
    omega (arith, from_le_bytes-to_le_bytes k (v / 256) (omega arith))

-- `data[start..end]`: a range that does not lie in the slice panics.
unfoldable pub slice {ℓ} : {A : Type ℓ} → List A → ℕ → ℕ → Outcome (List A)
slice bytes start end =
    if ltb end start
    then panic
    else if ltb (length bytes) end
    then panic
    else ok (take (end - start) (drop start bytes))

module _ {ℓ} {A : Type ℓ} where
  -- `part` stands in `bytes` at `offset`.
  abbrev pub At : List A → ℕ → List A → Type ℓ
  At bytes offset part =
      (rest : List A) × (drop offset bytes ≡ part ++ rest) × (offset ≤ length bytes)

  pub At-left : (bytes : List A) (o : ℕ) (a b : List A) → At bytes o (a ++ b) → At bytes o a
  At-left bytes o a b (rest, e, h) = (b ++ rest, e ∙ append_assoc a b rest, h)

  pub At-bound : (bytes : List A) (o : ℕ) (a : List A) → At bytes o a → o + length a ≤ length bytes
  At-bound bytes o a (rest, e, h) =
      omega (arith, length-drop o bytes, ap length e, length-append a rest)

  pub At-right :
      (bytes : List A) (o : ℕ) (a b : List A) → At bytes o (a ++ b) → At bytes (o + length a) b
  At-right bytes o a b (rest, e, h) = (
    rest,
    sym (drop-drop (length a) o bytes)
        ∙ ap (drop (length a)) (e ∙ append_assoc a b rest)
        ∙ drop_self a (b ++ rest),
    omega (arith, At-bound bytes o (a ++ b) (rest, e, h), length-append a b),
  )

  pub slice-At :
      (bytes : List A) (o : ℕ) (a : List A) → At bytes o a → slice bytes o (o + length a) ≡ ok a
  unfolding slice
  slice-At bytes o a (rest, e, h) =
      rw
        (
          le→ltb (o + length a) o (omega arith),
          le→ltb (length bytes) (o + length a) (At-bound bytes o a (rest, e, h)),
          e,
          add_sub o (length a),
          take_self a rest,
        )
        refl
    where
      add_sub : (m n : ℕ) → m + n - m ≡ n
      add_sub m n = omega arith

  -- Where the bytes before are known, what follows stands at their number.
  pub At-after : (before part rest : List A) → At (before ++ (part ++ rest)) (length before) part
  At-after before part rest =
      (rest, drop_self before (part ++ rest), omega (arith, length-append before (part ++ rest)))

  -- What a slice that did not panic holds.
  pub slice-ok :
      (bytes : List A) (start end : ℕ) {part : List A}
      → slice bytes start end ≡ ok part
      → (part ≡ take (end - start) (drop start bytes)) × (start ≤ end) × (end ≤ length bytes)
  unfolding slice
  slice-ok bytes start end h = ground arith

-- What stands behind a number of `k` bytes.
pub At-le :
    (bytes : List ℕ) (o k v : ℕ) (rest : List ℕ)
    → At bytes o (to_le_bytes k v ++ rest)
    → At bytes (o + k) rest
At-le bytes o k v rest at =
    rw (length-to_le_bytes k v) at (At-right bytes o (to_le_bytes k v) rest at)

pub slice-le :
    (bytes : List ℕ) (o k v : ℕ) (rest : List ℕ)
    → At bytes o (to_le_bytes k v ++ rest)
    → slice bytes o (o + k) ≡ ok (to_le_bytes k v)
slice-le bytes o k v rest at =
    subst (λ n. slice bytes o (o + n) ≡ ok (to_le_bytes k v)) (length-to_le_bytes k v)
      (slice-At bytes o (to_le_bytes k v) (At-left bytes o (to_le_bytes k v) rest at))
