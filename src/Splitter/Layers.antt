-- ===== src/Splitter/Layers.antt =====
-- Layers, groups and shards of tools/gguf-splitter/src/main.rs: `get_layer_id`, `count_layers`,
-- `group_tensors_by_layer`, `get_shard_tensor_indices`, and the split plan of `main`.
pub mod Grouping
pub mod Partition
pub mod Permuted
pub mod Plan
pub mod Shards
pub mod Count
use arcflame.Base.{
  ℕ, zero, suc, ◌+◌, ◌-◌, ◌/◌, ◌%◌, ◌^◌, min, Bool, List, [], ◌∷◌, ◌++◌, Option, none, some, length,
  get_elem?, get_or, set, take, replicate, ltb, leb, ◌==◌, if◌then◌else◌,
}
use arcflame.Base.Results.{ok, panic, ◌>>=◌}
use arcflame.Base.Text.{codes, strip_prefix, find, parse_u32}
use arcflame.Splitter.{Outcome, add_u32, mul_u32}
use arcflame.Splitter.Header.{TensorInfo}

-- The number in `blk.N.…`.
unfoldable pub get_layer_id : List ℕ → Option ℕ
get_layer_id name = elim (strip_prefix (codes "blk.") name) [
  | none ↦ none
  | some rest ↦ elim (find b'.' rest) [ none ↦ none | some dot ↦ parse_u32 (take dot rest) ]
]

-- `if layer >= max { max = layer + 1; }`
abbrev pub raise : ℕ → Option ℕ → ℕ
raise max none = max
raise max (some layer) = if leb max layer then add_u32 layer 1 else max

unfoldable pub count_layers_from : ℕ → List TensorInfo → ℕ
count_layers_from max [] = max
count_layers_from max (t ∷ ts) = count_layers_from (raise max (get_layer_id t.name)) ts

unfoldable pub count_layers : List TensorInfo → ℕ
unfolding count_layers_from
count_layers tensors = count_layers_from 0 tensors

-- The two vectors that the loop of `group_tensors_by_layer` fills.
pub record Groups : Type 0 where
  pub groups : List (List ℕ)
  pub non_layer : List ℕ

abbrev pub push : List (List ℕ) → ℕ → ℕ → List (List ℕ)
push groups layer i = set groups layer (get_or groups layer [] ++ (i ∷ []))

abbrev pub place : ℕ → Option ℕ → Groups → Groups
place i none g = record g { non_layer = g.non_layer ++ (i ∷ []) }
place i (some layer) g =
    if ltb layer (length g.groups)
    then record g { groups = push g.groups layer i }
    else record g { non_layer = g.non_layer ++ (i ∷ []) }

unfoldable pub group_loop : ℕ → List TensorInfo → Groups → Groups
group_loop i [] g = g
group_loop i (t ∷ ts) g = group_loop (suc i) ts (place i (get_layer_id t.name) g)

unfoldable pub group_tensors_by_layer : List TensorInfo → ℕ → List (List ℕ)
unfolding group_loop
group_tensors_by_layer tensors num_layers =
    let g = group_loop 0 tensors (record { groups = replicate num_layers []; non_layer = [] }) in
    g.groups ++ (g.non_layer ∷ [])

-- `groups.len() - 1` wraps at an empty slice, and indexing out of range panics.
abbrev pub layer_indices : List (List ℕ) → ℕ → Outcome (List ℕ)
layer_indices groups layer =
    if ltb layer ((length groups + 2 ^ 64 - 1) % 2 ^ 64)
    then elim (get_elem? groups layer) [ none ↦ panic | some indices ↦ ok indices ]
    else ok []

-- `for layer in first_layer..=last_layer`, by the rounds left.
unfoldable pub collect_layers : List (List ℕ) → ℕ → ℕ → List ℕ → Outcome (List ℕ)
collect_layers groups zero layer indices = ok indices
collect_layers groups (suc rounds) layer indices = layer_indices groups layer >>= λ more.
    collect_layers groups rounds (suc layer) (indices ++ more)

abbrev pub last_group : List (List ℕ) → List ℕ
last_group [] = []
last_group (g ∷ []) = g
last_group (g ∷ h ∷ gs) = last_group (h ∷ gs)

unfoldable pub get_shard_tensor_indices : List (List ℕ) → ℕ → ℕ → Bool → Outcome (List ℕ)
get_shard_tensor_indices groups first_layer last_layer has_lm_head =
    collect_layers groups (suc last_layer - first_layer) first_layer [] >>= λ indices.
    ok (if has_lm_head then indices ++ last_group groups else indices)

-- Both operands are below 2 ^ 32, so the `f64` quotient has the exact ceiling.
unfoldable pub ceil_div : ℕ → ℕ → ℕ
ceil_div a b = (a + b - 1) / b

abbrev sub_u32 : ℕ → ℕ → ℕ
sub_u32 a b = (a + 2 ^ 32 - b) % 2 ^ 32

-- One entry of the split plan, and of the loop that writes the shards.
pub record Shard : Type 0 where
  pub first_layer : ℕ
  pub last_layer : ℕ
  pub has_lm_head : Bool

unfoldable pub shard : ℕ → ℕ → ℕ → ℕ → Shard
shard num_layers layers_per_shard num_shards i = record {
  first_layer = mul_u32 i layers_per_shard;
  last_layer =
      min (sub_u32 (add_u32 (mul_u32 i layers_per_shard) layers_per_shard) 1)
        (sub_u32 num_layers 1);
  has_lm_head = add_u32 i 1 == num_shards;
}

-- The tensors of the shards `i`, `i + 1`, …, for so many rounds of the loop of `main`.
unfoldable pub shard_indices_from : List (List ℕ) → ℕ → ℕ → ℕ → ℕ → ℕ → Outcome (List (List ℕ))
shard_indices_from groups num_layers layers_per_shard num_shards zero i = ok []
shard_indices_from groups num_layers layers_per_shard num_shards (suc rounds) i = do
  let s = shard num_layers layers_per_shard num_shards i
  indices ← get_shard_tensor_indices groups s.first_layer s.last_layer s.has_lm_head
  rest ← shard_indices_from groups num_layers layers_per_shard num_shards rounds (suc i)
  ok (indices ∷ rest)
