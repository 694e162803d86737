-- ===== src/Splitter/Layers/Partition.antt =====
-- The shards of a split plan share out the tensors: none is lost and none is written twice.
use mathlib.Core.Path.{fun_ext}
use mathlib.Core.List.{Perm, perm_middle}
use mathlib.Core.List.Perm
use arcflame.Base.{
  ℕ, zero, suc, ◌+◌, ◌<◌, ◌≤◌, ◌≡◌, ◌≢◌, refl, ap, ◌∙◌, sym, All, length, List, [], ◌∷◌, ◌++◌,
  append_assoc, Option, none, some, leb, ◌==◌, if◌then◌else◌, arith, inl, inr, Bool-cases,
}
use arcflame.Splitter.Header.{TensorInfo}
use arcflame.Splitter.Layers.{get_layer_id}
use arcflame.Splitter.Writer.Sorting.{Distinct}
use arcflame.Splitter.Layers.Grouping.{in_layer, outside, matching}

-- `f k ++ f (k + 1) ++ …`, so many times.
unfoldable pub rows_of : (ℕ → List ℕ) → ℕ → ℕ → List ℕ
rows_of f k zero = []
rows_of f k (suc n) = f k ++ rows_of f (suc k) n

unfoldable pub concat : List (List ℕ) → List ℕ
concat [] = []
concat (x ∷ xs) = x ++ concat xs

pub rows_of-add :
    (f : ℕ → List ℕ) (k m n : ℕ) → rows_of f k (m + n) ≡ rows_of f k m ++ rows_of f (k + m) n
unfolding rows_of
rows_of-add f k zero n =
    let e : 0 + n ≡ n = omega arith in let e' : k + 0 ≡ k = omega arith in rw (e, e') refl
rows_of-add f k (suc m) n =
    let e : suc m + n ≡ suc (m + n) = omega arith in
    let e' : k + suc m ≡ suc k + m = omega arith in
    rw (e, e') (ap (λ xs. f k ++ xs) (rows_of-add f (suc k) m n) ∙ sym (append_assoc (f k) _ _))

module _ (l i : ℕ) (f g : ℕ → List ℕ)
    (step : (j : ℕ) → g j ≡ (if l == j then i ∷ f j else f j)) where
  rows_of_other : (k n : ℕ) → (l < k) → rows_of g k n ≡ rows_of f k n
  unfolding rows_of
  rows_of_other k zero h = refl
  rows_of_other k (suc n) h =
      rw (rows_of_other (suc k) n (omega arith))
        (ap (λ xs. xs ++ rows_of f (suc k) n) (ground (arith, step k)))

  rows_of_insert : (k n : ℕ) → k ≤ l → l < k + n → Perm (rows_of g k n) (i ∷ rows_of f k n)
  unfolding rows_of
  rows_of_insert k zero lo hi = absurd (omega arith)
  rows_of_insert k (suc n) lo hi = elim (Bool-cases (l == k)) [
    | inl e ↦
        let gk : g k ≡ i ∷ f k = ground (arith, step k) in
        rw (gk, rows_of_other (suc k) n (ground arith)) (Perm.refl _)
    | inr e ↦
        let gk : g k ≡ f k = ground (arith, step k) in
        rw gk (
          Perm.trans
            (Perm.append_left (f k) (rows_of_insert (suc k) n (ground arith) (omega arith)))
            (perm_middle (f k) (rows_of f (suc k) n)))
  ]

  rows_of_below : (k n : ℕ) → k + n ≤ l → rows_of g k n ≡ rows_of f k n
  unfolding rows_of
  rows_of_below k zero h = refl
  rows_of_below k (suc n) h =
      rw (rows_of_below (suc k) n (omega arith))
        (ap (λ xs. xs ++ rows_of f (suc k) n) (ground (arith, step k)))

rows_of_nil : (k n : ℕ) → rows_of (λ j. []) k n ≡ []
unfolding rows_of
rows_of_nil k zero = refl
rows_of_nil k (suc n) = rows_of_nil (suc k) n

-- One tensor, of layer `o`, goes to the group of its layer or to the last one.
one_more :
    (o : Option ℕ) (n i : ℕ) (f g : ℕ → List ℕ) (rest rest' : List ℕ)
    → ((j : ℕ) → g j ≡ (if in_layer j o then i ∷ f j else f j))
    → rest' ≡ (if outside n o then i ∷ rest else rest)
    → Perm (rows_of g 0 n ++ rest') (i ∷ (rows_of f 0 n ++ rest))
one_more none n i f g rest rest' step e = rw (fun_ext step, e) (perm_middle (rows_of f 0 n) rest)
one_more (some l) n i f g rest rest' step e = elim (Bool-cases (leb n l)) [
  | inl above ↦
      rw (e, above, rows_of_below l i f g step 0 n (ground arith))
        (perm_middle (rows_of f 0 n) rest)
  | inr below ↦
      rw (e, below)
        (Perm.append_right rest (rows_of_insert l i f g step 0 n (omega arith) (ground arith)))
]

-- The indices of all tensors, counted from `i`.
pub positions : ℕ → List TensorInfo → List ℕ
positions i [] = []
positions i (t ∷ ts) = i ∷ positions (suc i) ts

pub groups_partition :
    (n i : ℕ) (ts : List TensorInfo)
    → Perm
        (rows_of (λ j. matching (in_layer j) i ts) 0 n ++ matching (outside n) i ts)
        (positions i ts)
unfolding positions matching
groups_partition n i [] = rw (rows_of_nil 0 n) (Perm.refl _)
groups_partition n i (t ∷ ts) =
    Perm.trans (one_more (get_layer_id t.name) n i _ _ _ _ (λ j. refl) refl)
      (Perm.cons i (groups_partition n (suc i) ts))

pub positions-All :
    (P : ℕ → Type 0) (i : ℕ) (ts : List TensorInfo)
    → ((j : ℕ) → i ≤ j → j < i + length ts → P j)
    → All P (positions i ts)
unfolding positions
positions-All P i [] h = tt
positions-All P i (t ∷ ts) h = (
  h i (omega arith) (omega arith),
  positions-All P (suc i) ts (λ j lo hi. h j (omega arith) (omega arith)),
)

pub length-positions : (i : ℕ) (ts : List TensorInfo) → length (positions i ts) ≡ length ts
unfolding positions
length-positions i [] = refl
length-positions i (t ∷ ts) = ap suc (length-positions (suc i) ts)

pub positions-Distinct : (i : ℕ) (ts : List TensorInfo) → Distinct (positions i ts)
unfolding positions
positions-Distinct i [] = tt
positions-Distinct i (t ∷ ts) = (
  positions-All (λ j. j ≢ i) (suc i) ts (λ j lo hi. λ e. omega arith),
  positions-Distinct (suc i) ts,
)
