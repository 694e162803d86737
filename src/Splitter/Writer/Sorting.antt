-- ===== src/Splitter/Writer/Sorting.antt =====
-- `sort_by_key` rearranges, and its result ascends by the key.
use arcflame.Base.{ℕ, ◌≤◌, ◌≢◌, sym, List, [], ◌∷◌, All, leb, leb→le, Bool-cases, inl, inr, arith}
use arcflame.Splitter.Writer.{insert_by, sort_by_key}

-- No index occurs twice.
abbrev pub Distinct : List ℕ → Type 0
Distinct [] = Unit {0}
Distinct (i ∷ rest) = All (λ j. j ≢ i) rest × Distinct rest

module _ (key : ℕ → ℕ) where
  -- Each key is at most every later one.
  abbrev pub Ascending : List ℕ → Type 0
  Ascending [] = Unit {0}
  Ascending (i ∷ rest) = All (λ j. key i ≤ key j) rest × Ascending rest

  insert_by-All :
      (P : ℕ → Type 0) (i : ℕ) (js : List ℕ) → P i → All P js → All P (insert_by key i js)
  unfolding insert_by
  insert_by-All P i [] p all = (p, tt)
  insert_by-All P i (j ∷ js) p all = elim (Bool-cases (leb (key i) (key j))) [
    | inl e ↦ rw e (p, all)
    | inr e ↦ rw e (all.0, insert_by-All P i js p all.1)
  ]

  insert_by-All_inv :
      (P : ℕ → Type 0) (i : ℕ) (js : List ℕ) → All P (insert_by key i js) → P i × All P js
  unfolding insert_by
  insert_by-All_inv P i [] all = all
  insert_by-All_inv P i (j ∷ js) all = elim (Bool-cases (leb (key i) (key j))) [
    | inl e ↦ rw e at all
    | inr e ↦
        let all' : P j × All P (insert_by key i js) = rw e at all in
        let rest = insert_by-All_inv P i js all'.1 in (rest.0, (all'.0, rest.1))
  ]

  -- What holds of all indices holds of the sorted ones, and the other way round.
  pub sort_by_key-All : (P : ℕ → Type 0) (is : List ℕ) → All P is → All P (sort_by_key key is)
  unfolding sort_by_key
  sort_by_key-All P [] all = tt
  sort_by_key-All P (i ∷ is) all =
      insert_by-All P i (sort_by_key key is) all.0 (sort_by_key-All P is all.1)

  pub sort_by_key-All_inv : (P : ℕ → Type 0) (is : List ℕ) → All P (sort_by_key key is) → All P is
  unfolding sort_by_key
  sort_by_key-All_inv P [] all = tt
  sort_by_key-All_inv P (i ∷ is) all =
      let rest = insert_by-All_inv P i (sort_by_key key is) all in
      (rest.0, sort_by_key-All_inv P is rest.1)

  insert_by-Distinct :
      (i : ℕ) (js : List ℕ) → All (λ j. j ≢ i) js → Distinct js → Distinct (insert_by key i js)
  unfolding insert_by
  insert_by-Distinct i [] absent distinct = (tt, tt)
  insert_by-Distinct i (j ∷ js) absent distinct = elim (Bool-cases (leb (key i) (key j))) [
    | inl e ↦ rw e (absent, distinct)
    | inr e ↦ rw e (
      insert_by-All (λ k. k ≢ j) i js (λ same. absent.0 (sym same)) distinct.0,
      insert_by-Distinct i js absent.1 distinct.1,
    )
  ]

  pub sort_by_key-Distinct : (is : List ℕ) → Distinct is → Distinct (sort_by_key key is)
  unfolding sort_by_key
  sort_by_key-Distinct [] distinct = tt
  sort_by_key-Distinct (i ∷ is) distinct =
      insert_by-Distinct i (sort_by_key key is) (sort_by_key-All (λ j. j ≢ i) is distinct.0)
        (sort_by_key-Distinct is distinct.1)

  below-All :
      (i j : ℕ) (js : List ℕ)
      → key i ≤ key j
      → All (λ k. key j ≤ key k) js
      → All (λ k. key i ≤ key k) js
  below-All i j [] le all = tt
  below-All i j (k ∷ js) le all = (omega arith, below-All i j js le all.1)

  insert_by-Ascending : (i : ℕ) (js : List ℕ) → Ascending js → Ascending (insert_by key i js)
  unfolding insert_by
  insert_by-Ascending i [] asc = (tt, tt)
  insert_by-Ascending i (j ∷ js) asc = elim (Bool-cases (leb (key i) (key j))) [
    | inl e ↦ rw e ((leb→le _ _ e, below-All i j js (leb→le _ _ e) asc.0), asc)
    | inr e ↦ rw e (
      insert_by-All (λ k. key j ≤ key k) i js (ground arith) asc.0,
      insert_by-Ascending i js asc.1,
    )
  ]

  pub sort_by_key-Ascending : (is : List ℕ) → Ascending (sort_by_key key is)
  unfolding sort_by_key
  sort_by_key-Ascending [] = tt
  sort_by_key-Ascending (i ∷ is) = insert_by-Ascending i _ (sort_by_key-Ascending is)
