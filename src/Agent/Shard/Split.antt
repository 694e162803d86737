-- ===== src/Agent/Shard/Split.antt =====
-- The shards of tools/gguf-splitter/src/main.rs and the node's test of node-agent/src/inference/shard.rs.
use mathlib.Core.Path.{subst}
use arcflame.Base.{
  ℕ, zero, suc, ◌+◌, ◌-◌, ◌*◌, ◌^◌, ◌<◌, ◌≤◌, ◌≡◌, refl, ◌∙◌, sym, Bool, true, false, List, [], ◌∷◌,
  ◌++◌, Option, some, All, All-append, get_elem?, get_or, inl, inr, ◌⊎◌, arith, if◌then◌else◌,
}
use arcflame.Base.Text.{pos}
use arcflame.Base.Results.{ok, ok-injective}
use arcflame.Splitter.Header.{TensorInfo}
use arcflame.Splitter.Layers.{
  get_layer_id, group_tensors_by_layer, get_shard_tensor_indices, ceil_div, Shard, shard,
}
use arcflame.Splitter.Layers.Grouping.{
  in_layer, outside, matching, group_tensors_by_layer_group, group_tensors_by_layer_rest,
  length-group_tensors_by_layer,
}
use arcflame.Splitter.Layers.Partition.{rows_of}
use arcflame.Splitter.Layers.Plan.{
  ceil_div_bounds, inner_shard, final_shard, shard_inner, shard_final,
}
use arcflame.Agent.Shard.{LayerRange, tensor_belongs_to_node}
use arcflame.Agent.Shard.Laws.{belongs_by_layer}

-- The range of a node that holds a shard.
abbrev pub range_of : Shard → LayerRange
range_of s = record {
  first_layer = pos s.first_layer;
  num_layers = pos (s.last_layer + 1 - s.first_layer);
  has_lm_head = s.has_lm_head;
}

-- The positions whose tensors pass a test.
matching-All :
    (test : Option ℕ → Bool) (P : ℕ → Type 0) (i : ℕ) (ts : List TensorInfo)
    → ((j : ℕ) (t : TensorInfo)
        → get_elem? ts j ≡ some t
        → test (get_layer_id t.name) ≡ true
        → P (i + j))
    → All P (matching test i ts)
unfolding matching
matching-All test P i [] h = tt
matching-All test P i (t ∷ ts) h = by_test (test (get_layer_id t.name)) refl (
    matching-All test P (suc i) ts
      (λ j u found passes. subst P (omega arith) (h (suc j) u found passes)))
  where
    by_test :
        (b : Bool)
        → test (get_layer_id t.name) ≡ b
        → All P (matching test (suc i) ts)
        → All P (if b then i ∷ matching test (suc i) ts else matching test (suc i) ts)
    by_test true e rest = (subst P (omega arith) (h 0 t refl e), rest)
    by_test false e rest = rest

-- If its tensor has one of the model's layers, the node of this range takes it.
abbrev pub Taken : List TensorInfo → ℕ → LayerRange → ℕ → Type 0
Taken tensors num_layers range j =
    (t : TensorInfo) (l : ℕ)
    → get_elem? tensors j ≡ some t
    → get_layer_id t.name ≡ some l
    → l < num_layers
    → tensor_belongs_to_node t.name range ≡ true

module _ (tensors : List TensorInfo) (num_layers : ℕ) (small : num_layers < 2 ^ 31) where
  -- A layer of the range.
  matching-Taken :
      (first num k : ℕ) (lm : Bool)
      → first ≤ k
      → k < first + num
      → first + num ≤ num_layers
      → All
          (Taken tensors num_layers
            (record { first_layer = pos first; num_layers = pos num; has_lm_head = lm }))
          (matching (in_layer k) 0 tensors)
  matching-Taken first num k lm above below room =
      matching-All (in_layer k) _ 0 tensors (λ j t found passes u l found' is_layer less.
        let found'' : get_elem? tensors j ≡ some u =
          subst (λ (k : ℕ). get_elem? tensors k ≡ some u) (omega arith) found' in
        let same : t ≡ u = cc in
        let passes' : in_layer k (some l) ≡ true = cc in
        belongs_by_layer u.name l first num lm is_layer (omega arith) (omega arith) (omega arith)
        ∙ ground arith)

  rows_of-Taken :
      (first num : ℕ) (lm : Bool) (k n : ℕ)
      → first ≤ k
      → k + n ≤ first + num
      → first + num ≤ num_layers
      → All
          (Taken tensors num_layers
            (record { first_layer = pos first; num_layers = pos num; has_lm_head = lm }))
          (rows_of (λ k. get_or (group_tensors_by_layer tensors num_layers) k []) k n)
  unfolding rows_of
  rows_of-Taken first num lm k zero above below room = tt
  rows_of-Taken first num lm k (suc n) above below room =
      All-append _ _ _
        (rw (group_tensors_by_layer_group tensors num_layers k (omega arith))
          (matching-Taken first num k lm above (omega arith) room))
        (rows_of-Taken first num lm (suc k) n (omega arith) (omega arith) room)

  outside-Taken :
      (range : LayerRange)
      → All (Taken tensors num_layers range) (matching (outside num_layers) 0 tensors)
  outside-Taken range =
      matching-All (outside num_layers) _ 0 tensors (λ j t found passes u l found' is_layer less.
        let found'' : get_elem? tensors j ≡ some u =
          subst (λ (k : ℕ). get_elem? tensors k ≡ some u) (omega arith) found' in
        let same : t ≡ u = cc in
        let passes' : outside num_layers (some l) ≡ true = cc in absurd (ground arith))

  shard-Taken_at :
      (lps i : ℕ) (idxs : List ℕ)
      → 0 < lps
      → lps < 2 ^ 32
      → ((suc i < ceil_div num_layers lps) ⊎ (suc i ≡ ceil_div num_layers lps))
      → let s = shard num_layers lps (ceil_div num_layers lps) i in
        get_shard_tensor_indices
            (group_tensors_by_layer tensors num_layers)
            s.first_layer
            s.last_layer
            s.has_lm_head
          ≡ ok idxs
        → All (Taken tensors num_layers (range_of s)) idxs
  shard-Taken_at lps i idxs positive word (inl inner) run =
      let gs = group_tensors_by_layer tensors num_layers in
      let (enough, tight) = ceil_div_bounds num_layers lps positive in
      let (room, is) =
        shard_inner num_layers lps (ceil_div num_layers lps) small positive word enough tight i
          inner in
      let first = i * lps in
      let e : first + lps - 1 + 1 - first ≡ lps = omega arith in
      let all =
        inner_shard gs num_layers (length-group_tensors_by_layer tensors num_layers) small first lps
          positive (omega arith) in
      let same : rows_of (λ k. get_or gs k []) first lps ≡ idxs =
        ok-injective (sym all ∙ (rw is at run)) in
      rw (is, e)
        (subst (All (Taken tensors num_layers _)) same
          (rows_of-Taken first lps false first lps (omega arith) (omega arith) (omega arith)))
  shard-Taken_at lps i idxs positive word (inr final) run =
      let gs = group_tensors_by_layer tensors num_layers in
      let (enough, tight) = ceil_div_bounds num_layers lps positive in
      let (room, is) =
        shard_final num_layers lps (ceil_div num_layers lps) small positive word enough tight i
          final in
      let first = i * lps in
      let n = num_layers - first in
      let e : num_layers - 1 + 1 - first ≡ n = omega arith in
      let all =
        final_shard gs num_layers (length-group_tensors_by_layer tensors num_layers) small first n
          (omega arith) (omega arith) in
      let same : rows_of (λ k. get_or gs k []) first n ++ get_or gs num_layers [] ≡ idxs =
        ok-injective (sym all ∙ (rw is at run)) in
      rw (is, e)
        (subst (All (Taken tensors num_layers _)) same (
          All-append _ _ _
            (rows_of-Taken first n true first n (omega arith) (omega arith) (omega arith))
            (rw (group_tensors_by_layer_rest tensors num_layers) (outside-Taken _))))

-- A model has fewer than 2 ^ 31 layers, and its shards a positive number of layers below 2 ^ 32. Then for
-- each shard of the plan, and a node whose range is the shard's, the node takes every tensor of the shard
-- that has one of the model's layers. Both go by the name, but the splitter reads it as a `u32` and the
-- node as an `i32`.
pub shard-Taken :
    (tensors : List TensorInfo) (num_layers layers_per_shard i : ℕ) (idxs : List ℕ)
    → num_layers < 2 ^ 31
    → 0 < layers_per_shard
    → layers_per_shard < 2 ^ 32
    → let num_shards = ceil_div num_layers layers_per_shard in
      let s = shard num_layers layers_per_shard num_shards i in
      i < num_shards
      → get_shard_tensor_indices
          (group_tensors_by_layer tensors num_layers)
          s.first_layer
          s.last_layer
          s.has_lm_head
        ≡ ok idxs
      → All (Taken tensors num_layers (range_of s)) idxs
shard-Taken tensors num_layers lps i idxs small positive word below run =
    shard-Taken_at tensors num_layers small lps i idxs positive word (omega arith) run
