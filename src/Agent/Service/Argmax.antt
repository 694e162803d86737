-- ===== src/Agent/Service/Argmax.antt =====
-- The greedy choice of `forward_stream` of node-agent/src/network/grpc_server.rs.
use mathlib.Core.Path.{subst}
use arcflame.Base.{
  ℕ, suc, ◌+◌, ◌≤◌, ◌<◌, ◌≡◌, sym, ◌⊎◌, inl, inr, refl, Bool, true, false, List, [], ◌∷◌, All,
  length, get_or, leb, leb→le, if◌then◌else◌, arith,
}
use arcflame.Agent.Service.Generate.{total_key, max_from, max_index}

lt_of_leb : (a b : ℕ) → leb a b ≡ false → b < a
lt_of_leb a b h = ground arith

-- What the search over the rest `xs`, from index `i` on, ends with: the best so far, or a better one.
Best : ℕ → ℕ → ℕ → List ℕ → ℕ → Type 0
Best i best best_key xs r =
    ((r ≡ best) × All (λ y. total_key y ≤ best_key) xs)
    ⊎ ((k : ℕ) × (r ≡ i + k)
        × (k < length xs)
        × (best_key ≤ total_key (get_or xs k 0))
        × All (λ y. total_key y ≤ total_key (get_or xs k 0)) xs)

Best-wins :
    (i best best_key x : ℕ) (xs : List ℕ) (r : ℕ)
    → best_key ≤ total_key x
    → Best (suc i) i (total_key x) xs r
    → Best i best best_key (x ∷ xs) r
unfolding Best
Best-wins i best best_key x xs r wins (inl (e, all)) =
    inr (0, omega arith, omega arith, wins, (omega arith, all))
Best-wins i best best_key x xs r wins (inr (k, e, less, better, all)) =
    inr (suc k, omega arith, omega arith, omega arith, (better, all))

Best-loses :
    (i best best_key x : ℕ) (xs : List ℕ) (r : ℕ)
    → total_key x < best_key
    → Best (suc i) best best_key xs r
    → Best i best best_key (x ∷ xs) r
unfolding Best
Best-loses i best best_key x xs r loses (inl (e, all)) = inl (e, (omega arith, all))
Best-loses i best best_key x xs r loses (inr (k, e, less, better, all)) =
    inr (suc k, omega arith, omega arith, better, (omega arith, all))

max_from-Best :
    (i best best_key : ℕ) (xs : List ℕ) → Best i best best_key xs (max_from i best best_key xs)
unfolding max_from Best
max_from-Best i best best_key [] = inl (refl, tt)
max_from-Best i best best_key (x ∷ xs) =
    by_key (leb best_key (total_key x)) refl (max_from-Best (suc i) i (total_key x) xs)
      (max_from-Best (suc i) best best_key xs)
  where
    by_key :
        (b : Bool)
        → leb best_key (total_key x) ≡ b
        → Best (suc i) i (total_key x) xs (max_from (suc i) i (total_key x) xs)
        → Best (suc i) best best_key xs (max_from (suc i) best best_key xs)
        → Best i best best_key
            (x ∷ xs)
            (max_from (suc i) (if b then i else best) (if b then total_key x else best_key) xs)
    by_key true e wins loses =
        Best-wins i best best_key x xs _ (leb→le best_key (total_key x) e) wins
    by_key false e wins loses =
        Best-loses i best best_key x xs _ (lt_of_leb best_key (total_key x) e) loses

Greatest : ℕ → List ℕ → ℕ → Type 0
Greatest x xs i =
    (i < length (x ∷ xs)) × All (λ y. total_key y ≤ total_key (get_or (x ∷ xs) i 0)) (x ∷ xs)

-- Of logits that are not none, the choice is the index of one, and none is greater in the total order
-- of `f32::total_cmp`, in which also a NaN has a place.
pub max_index_greatest :
    (x : ℕ) (xs : List ℕ)
    → let i = max_index (x ∷ xs) in
      (i < length (x ∷ xs)) × All (λ y. total_key y ≤ total_key (get_or (x ∷ xs) i 0)) (x ∷ xs)
unfolding max_index Best Greatest
max_index_greatest x xs =
    by_best (max_from 1 0 (total_key x) xs) (max_from-Best 1 0 (total_key x) xs)
  where
    by_best :
        (i : ℕ)
        → Best 1 0 (total_key x) xs i
        → (i < length (x ∷ xs)) × All (λ y. total_key y ≤ total_key (get_or (x ∷ xs) i 0)) (x ∷ xs)
    by_best i (inl (e, all)) = subst (Greatest x xs) (sym e) (omega arith, (omega arith, all))
    by_best i (inr (k, e, less, better, all)) =
        let e' : suc k ≡ i = omega arith in subst (Greatest x xs) e' (omega arith, (better, all))
