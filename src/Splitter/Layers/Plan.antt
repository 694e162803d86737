-- ===== src/Splitter/Layers/Plan.antt =====
-- The shards of a plan, one by one.
use native.Mathlib.Nat.{div-add-mod, mod-lt}
use arcflame.Base.{
  ℕ, zero, suc, ◌+◌, ◌-◌, ◌*◌, ◌%◌, ◌^◌, ◌<◌, ◌≤◌, ◌≡◌, refl, ap, ◌∙◌, sym, Bool, true, false, List,
  [], ◌∷◌, ◌++◌, append-nil, append_assoc, length, get_or, arith, get_elem?-get_or, lt→ltb,
}
use arcflame.Base.Results.{ok}
use arcflame.Splitter.Layers.{
  layer_indices, collect_layers, last_group, Shard, shard, get_shard_tensor_indices, ceil_div,
}
use arcflame.Splitter.Layers.Partition.{rows_of}

last_group_lem : (gs : List (List ℕ)) (n : ℕ) → length gs ≡ suc n → last_group gs ≡ get_or gs n []
last_group_lem [] n h = absurd (omega arith)
last_group_lem (g ∷ []) n h = let e : n ≡ 0 = omega arith in rw e refl
last_group_lem (g ∷ h ∷ gs) zero len = absurd (omega arith)
last_group_lem (g ∷ h ∷ gs) (suc n) len = last_group_lem (h ∷ gs) n (omega arith)

pub ceil_div_bounds : (a b : ℕ) → 0 < b → (a ≤ ceil_div a b * b) × (ceil_div a b * b < a + b)
unfolding ceil_div
ceil_div_bounds a b h = (
  omega (arith, div-add-mod (a + b - 1) b, mod-lt (a + b - 1) h),
  omega (arith, div-add-mod (a + b - 1) b, mod-lt (a + b - 1) h),
)

module _ (gs : List (List ℕ)) (num_layers : ℕ) (len : length gs ≡ suc num_layers)
    (small : num_layers < 2 ^ 31) where
  abbrev group : ℕ → List ℕ
  group k = get_or gs k []

  layer_indices_lem : (k : ℕ) → k < num_layers → layer_indices gs k ≡ ok (group k)
  layer_indices_lem k h =
      let e : (length gs + 2 ^ 64 - 1) % 2 ^ 64 ≡ num_layers = omega arith in
      rw (e, lt→ltb k num_layers h, get_elem?-get_or gs k [] (omega arith)) refl

  collect_layers_lem :
      (rounds k : ℕ) (acc : List ℕ)
      → k + rounds ≤ num_layers
      → collect_layers gs rounds k acc ≡ ok (acc ++ rows_of group k rounds)
  unfolding collect_layers rows_of
  collect_layers_lem zero k acc h = ap ok (sym (append-nil acc))
  collect_layers_lem (suc rounds) k acc h = rw (layer_indices_lem k (omega arith)) (
      collect_layers_lem rounds (suc k) (acc ++ group k) (omega arith)
      ∙ ap ok (append_assoc acc (group k) (rows_of group (suc k) rounds)))

  -- A shard in the middle of the plan.
  pub inner_shard :
      (first n : ℕ)
      → 0 < n
      → first + n ≤ num_layers
      → get_shard_tensor_indices gs first (first + n - 1) false ≡ ok (rows_of group first n)
  unfolding get_shard_tensor_indices
  inner_shard first n pos h =
      let e : suc (first + n - 1) - first ≡ n = omega arith in
      rw (e, collect_layers_lem n first [] h) refl

  pub final_shard :
      (first n : ℕ)
      → 0 < n
      → first + n ≡ num_layers
      → get_shard_tensor_indices gs first (num_layers - 1) true
        ≡ ok (rows_of group first n ++ group num_layers)
  unfolding get_shard_tensor_indices
  final_shard first n pos h =
      let e : suc (num_layers - 1) - first ≡ n = omega arith in
      rw (e, collect_layers_lem n first [] (omega arith), last_group_lem gs num_layers len) refl

scale_le : (i n b : ℕ) → suc i ≤ n → i * b + b ≤ n * b
scale_le i n b h = grind arith

scale_lt : (i n b : ℕ) → suc i < n → i * b + b + b ≤ n * b
scale_lt i n b h = omega (arith, scale_le (suc i) n b h)

le-scale : (i b : ℕ) → 0 < b → i ≤ i * b
le-scale i b h = grind arith

Shard_path :
    {a a' b b' : ℕ} {c c' : Bool}
    → a ≡ a'
    → b ≡ b'
    → c ≡ c'
    → ◌≡◌ {A = Shard}
        (record { first_layer = a; last_layer = b; has_lm_head = c })
        (record { first_layer = a'; last_layer = b'; has_lm_head = c' })
Shard_path p q r = λ t. record { first_layer = p t; last_layer = q t; has_lm_head = r t }

module _ (num_layers lps num_shards : ℕ) (small : num_layers < 2 ^ 31) (pos : 0 < lps)
    (word : lps < 2 ^ 32) (enough : num_layers ≤ num_shards * lps)
    (tight : num_shards * lps < num_layers + lps) where
  pub shard_inner :
      (i : ℕ)
      → suc i < num_shards
      → (i * lps + lps < num_layers)
        × (shard num_layers lps num_shards i
            ≡ record { first_layer = i * lps; last_layer = i * lps + lps - 1; has_lm_head = false })
  unfolding shard
  shard_inner i h =
      let k = scale_lt i num_shards lps h in
      let first : i * lps % 2 ^ 32 ≡ i * lps = omega arith in
      (omega arith, Shard_path first (rw first (omega arith)) (ground (arith, le-scale i lps pos)))

  -- A row of layers that does not begin at 0 is no longer than the model.
  wide : (i : ℕ) → i * lps < num_layers → i * lps + lps < 2 ^ 32
  wide zero h = omega arith
  wide (suc i) h = omega arith

  pub shard_final :
      (i : ℕ)
      → suc i ≡ num_shards
      → (i * lps < num_layers)
        × (shard num_layers lps num_shards i
            ≡ record { first_layer = i * lps; last_layer = num_layers - 1; has_lm_head = true })
  unfolding shard
  shard_final i h =
      let k = scale_le i num_shards lps (omega arith) in
      let first : i * lps % 2 ^ 32 ≡ i * lps = omega arith in
      let all : num_layers ≤ i * lps + lps = omega (arith, ap (λ (n : ℕ). n * lps) h) in
      let fits : i * lps + lps < 2 ^ 32 = wide i (omega arith) in
      (omega arith, Shard_path first (rw first (omega arith)) (ground (arith, le-scale i lps pos)))
