-- ===== src/Agent/Shard.antt =====
-- node-agent/src/inference/shard.rs: the layers of a node, and the tensors that belong to it.
pub mod Laws
pub mod Split
use arcflame.Base.{
  ℕ, zero, suc, ◌+◌, ◌-◌, ◌%◌, ◌^◌, Bool, true, false, ◌&&◌, List, Option, none, some, take, ltb,
  leb, if◌then◌else◌,
}
use arcflame.Base.Text.{codes, strip_prefix, find, contains, parse_i32, ℤ, pos, negsuc}
use arcflame.Agent.{Text}

abbrev pub leb_int : ℤ → ℤ → Bool
leb_int (pos m) (pos n) = leb m n
leb_int (pos m) (negsuc n) = false
leb_int (negsuc m) (pos n) = true
leb_int (negsuc m) (negsuc n) = leb n m

-- The `i32` with the same 32 bits as the integer, and the bits of an `i32`.
abbrev pub to_bits : ℤ → ℕ
to_bits (pos n) = n % 2 ^ 32
to_bits (negsuc n) = (2 ^ 32 - 1) - n % 2 ^ 32

abbrev pub from_bits : ℕ → ℤ
from_bits b = if ltb b (2 ^ 31) then pos b else negsuc (2 ^ 32 - 1 - b)

pub record LayerRange : Type 0 where
  pub first_layer : ℤ
  pub num_layers : ℤ
  pub has_lm_head : Bool

unfoldable pub last_layer : LayerRange → ℤ
last_layer range =
    from_bits ((to_bits range.first_layer + to_bits range.num_layers + (2 ^ 32 - 1)) % 2 ^ 32)

unfoldable pub layer_from_tensor_name : Text → Option ℤ
layer_from_tensor_name name = elim (strip_prefix (codes "blk.") name) [
  | some rest ↦ elim (find b'.' rest) [ none ↦ none | some dot ↦ parse_i32 (take dot rest) ]
  | none ↦ none
]

unfoldable pub tensor_belongs_to_node : Text → LayerRange → Bool
unfolding layer_from_tensor_name last_layer
tensor_belongs_to_node tensor_name range = elim (layer_from_tensor_name tensor_name) [
  | some layer ↦ leb_int range.first_layer layer && leb_int layer (last_layer range)
  | none ↦ contains (codes "output") tensor_name && range.has_lm_head
]
