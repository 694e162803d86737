-- ===== src/Splitter/Layers/Shards.antt =====
-- The shards of a plan, taken together, hold each tensor once.
use mathlib.Core.Path.{ap₂}
use mathlib.Core.List.{Perm}
use arcflame.Base.{
  ℕ, zero, suc, ◌+◌, ◌-◌, ◌*◌, ◌^◌, ◌<◌, ◌≤◌, ◌≡◌, refl, ap, ◌∙◌, sym, List, [], ◌∷◌, ◌++◌,
  append-nil, append_assoc, length, get_or, arith,
}
use arcflame.Base.Results.{ok}
use arcflame.Splitter.Header.{TensorInfo}
use arcflame.Splitter.Layers.{group_tensors_by_layer, shard_indices_from, ceil_div}
use arcflame.Splitter.Layers.Grouping.{
  in_layer, outside, matching, length-group_tensors_by_layer, group_tensors_by_layer_group,
  group_tensors_by_layer_rest,
}
use arcflame.Splitter.Layers.Partition.{rows_of, rows_of-add, concat, positions, groups_partition}
use arcflame.Splitter.Layers.Plan.{
  ceil_div_bounds, inner_shard, final_shard, shard_inner, shard_final,
}

module _ (num_layers lps num_shards : ℕ) (small : num_layers < 2 ^ 31) (pos : 0 < lps)
    (word : lps < 2 ^ 32) (enough : num_layers ≤ num_shards * lps)
    (tight : num_shards * lps < num_layers + lps) where
  module _ (gs : List (List ℕ)) (len : length gs ≡ suc num_layers) where
    abbrev row : ℕ → ℕ → List ℕ
    row = rows_of (λ k. get_or gs k [])

    join :
        (i : ℕ)
        → i * lps + lps < num_layers
        → row (i * lps) lps ++ row (suc i * lps) (num_layers - suc i * lps)
          ≡ row (i * lps) (num_layers - i * lps)
    join i h =
        let e : suc i * lps ≡ i * lps + lps = omega arith in
        let e' : num_layers - i * lps ≡ lps + (num_layers - (i * lps + lps)) = omega arith in
        rw (e, e') (sym (rows_of-add _ (i * lps) lps (num_layers - (i * lps + lps))))

    -- The shards from `i` on hold the layers from `i * lps` on, and the last group.
    shard_indices_from_lem :
        (rounds i : ℕ)
        → i + suc rounds ≡ num_shards
        → (lists : List (List ℕ)) × (shard_indices_from gs num_layers lps num_shards (suc rounds) i
            ≡ ok lists)
          × (concat lists ≡ row (i * lps) (num_layers - i * lps) ++ get_or gs num_layers [])
    unfolding shard_indices_from concat
    shard_indices_from_lem zero i h =
        let (below, e) =
          shard_final num_layers lps num_shards small pos word enough tight i (omega arith) in
        (
          (row (i * lps) (num_layers - i * lps) ++ get_or gs num_layers []) ∷ [],
          rw
              (
                e,
                final_shard gs num_layers len small (i * lps) (num_layers - i * lps) (omega arith)
                    (omega arith),
              )
              refl,
          append-nil _,
        )
    shard_indices_from_lem (suc rounds) i h =
        let (below, e) =
          shard_inner num_layers lps num_shards small pos word enough tight i (omega arith) in
        let (lists, run, all) = shard_indices_from_lem rounds (suc i) (omega arith) in
        (
          row (i * lps) lps ∷ lists,
          rw (e, inner_shard gs num_layers len small (i * lps) lps pos (omega arith), run) refl,
          ap (λ xs. row (i * lps) lps ++ xs) all
              ∙ sym (append_assoc (row (i * lps) lps) _ (get_or gs num_layers []))
              ∙ ap (λ xs. xs ++ get_or gs num_layers []) (join i (omega arith)),
        )

rows_of-eq :
    (f g : ℕ → List ℕ) (k n : ℕ) → ((j : ℕ) → j < k + n → f j ≡ g j) → rows_of f k n ≡ rows_of g k n
unfolding rows_of
rows_of-eq f g k zero h = refl
rows_of-eq f g k (suc n) h =
    ap (λ xs. xs ++ rows_of f (suc k) n) (h k (omega arith))
    ∙ ap (λ xs. g k ++ xs) (rows_of-eq f g (suc k) n (λ j below. h j (omega arith)))

group_rows :
    (tensors : List TensorInfo) (num_layers : ℕ)
    → rows_of (λ k. get_or (group_tensors_by_layer tensors num_layers) k []) 0 num_layers
        ++ get_or (group_tensors_by_layer tensors num_layers) num_layers []
      ≡ rows_of (λ k. matching (in_layer k) 0 tensors) 0 num_layers
        ++ matching (outside num_layers) 0 tensors
group_rows tensors num_layers =
    ap₂ (λ (xs ys : List ℕ). xs ++ ys)
      (rows_of-eq _ _ 0 num_layers
        (λ k below. group_tensors_by_layer_group tensors num_layers k (omega arith)))
      (group_tensors_by_layer_rest tensors num_layers)

shards_partition_at :
    (tensors : List TensorInfo) (num_layers lps num_shards : ℕ)
    → 0 < num_layers
    → num_layers < 2 ^ 31
    → 0 < lps
    → lps < 2 ^ 32
    → num_layers ≤ num_shards * lps
    → num_shards * lps < num_layers + lps
    → (lists : List (List ℕ)) × (shard_indices_from
          (group_tensors_by_layer tensors num_layers)
          num_layers
          lps
          num_shards
          num_shards
          0
        ≡ ok lists)
      × Perm (concat lists) (positions 0 tensors)
shards_partition_at tensors num_layers lps zero some_layer small pos word enough tight =
    absurd (omega arith)
shards_partition_at tensors num_layers lps (suc n) some_layer small pos word enough tight =
    let gs = group_tensors_by_layer tensors num_layers in
    let (lists, run, all) =
      shard_indices_from_lem num_layers lps (suc n) small pos word enough tight gs
        (length-group_tensors_by_layer tensors num_layers) n 0 (omega arith) in
    let e : 0 * lps ≡ 0 = omega arith in
    let e' : num_layers - 0 ≡ num_layers = omega arith in
    (
      lists,
      run,
      rw (rw (e, e') at all, group_rows tensors num_layers) (groups_partition num_layers 0 tensors),
    )

-- For a model with a layer at least and fewer than 2 ^ 31, and any positive number of layers a shard
-- below 2 ^ 32, the loop of `main` over the shards never panics, and the index lists of its
-- `ceil(num_layers / layers_per_shard)` shards, one after the other, are a permutation of the
-- indices of all tensors.
pub shards_partition :
    (tensors : List TensorInfo) (num_layers layers_per_shard : ℕ)
    → 0 < num_layers
    → num_layers < 2 ^ 31
    → 0 < layers_per_shard
    → layers_per_shard < 2 ^ 32
    → let num_shards = ceil_div num_layers layers_per_shard in
      (lists : List (List ℕ)) × (shard_indices_from
          (group_tensors_by_layer tensors num_layers)
          num_layers
          layers_per_shard
          num_shards
          num_shards
          0
        ≡ ok lists)
      × Perm (concat lists) (positions 0 tensors)
shards_partition tensors num_layers lps some_layer small pos word =
    let (enough, tight) = ceil_div_bounds num_layers lps pos in
    shards_partition_at tensors num_layers lps (ceil_div num_layers lps) some_layer small pos word
      enough tight
