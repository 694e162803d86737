-- ===== src/Splitter/Tests.antt =====
-- Runs of the splitter's parts at concrete inputs.
use mathlib.Core.List.{Perm}
use arcflame.Base.{
  ◌^◌, ℕ, suc, ◌+◌, ◌-◌, ◌%◌, ◌<◌, ◌≤◌, ◌≡◌, ◌⊎◌, refl, false, List, [], ◌∷◌, ◌++◌, some, none,
  length, All, get_elem?, replicate, take, arith,
}
use arcflame.Base.Text.{codes, is_utf8, strip_prefix, find, parse_u32}
use arcflame.Base.Results.{ok}
use arcflame.Splitter.Bytes.{At, to_le_bytes, slice}
use arcflame.Splitter.Header.{TensorInfo, read_header, read_tensors}
use arcflame.Splitter.Writer.{
  align_up, write_shard, write_info, compute_data_sizes, sort_by_key, assign_offsets, write_head,
  write_infos, write_data, write_dims, padding, offset_of, Offsets, lookup,
}
use arcflame.Splitter.Writer.Align.{align_up_least}
use arcflame.Splitter.Writer.Infos.{IsTensor, moved}
use arcflame.Splitter.Writer.Placement.{original, Packed, Restored}
use arcflame.Splitter.Writer.Sorting.{Distinct}
use arcflame.Splitter.Writer.Sizes.{Tiles, by_offset, compute_data_sizes_tile}
use arcflame.Splitter.Writer.Roundtrip.{write_shard_roundtrip}
use arcflame.Splitter.Writer.Misplaced.{write_shard_misplaces}
use arcflame.Splitter.Writer.Total.{write_shard_total}
use arcflame.Splitter.Main.{Job, write_shards}
use arcflame.Splitter.Main.Laws.{Complete, write_shards-Complete}
use arcflame.Splitter.Layers.{
  get_layer_id, count_layers, group_tensors_by_layer, shard_indices_from, ceil_div,
}
use arcflame.Splitter.Layers.Count.{TensorBelow, HasLayer, count_layers_least}
use arcflame.Splitter.Layers.Grouping.{matching, in_layer, outside, group_tensors_by_layer_groups}
use arcflame.Splitter.Layers.Partition.{concat, positions}
use arcflame.Splitter.Layers.Shards.{shards_partition}

abbrev block : TensorInfo
block = record { name = codes "blk.0.w"; n_dims = 1; dims = 8 ∷ []; ggml_type = 0; offset = 0 }

abbrev head_weight : TensorInfo
head_weight = record {
  name = codes "output";
  n_dims = 1;
  dims = 1 ∷ [];
  ggml_type = 0;
  offset = 32;
}

abbrev two_tensors : List TensorInfo
two_tensors = block ∷ head_weight ∷ []

abbrev two_sizes : List ℕ
two_sizes = 32 ∷ 4 ∷ []

abbrev source_file : List ℕ
source_file = 1 ∷ 2 ∷ 3 ∷ 4 ∷ replicate 36 7

abbrev pub small_u32 : ℕ → List ℕ
small_u32 n = n ∷ 0 ∷ 0 ∷ 0 ∷ []

abbrev pub small_u64 : ℕ → List ℕ
small_u64 n = small_u32 n ++ small_u32 0

abbrev shard_file : List ℕ
shard_file =
    codes "GGUF"
    ++ (small_u32 3
        ++ (small_u64 2
            ++ (small_u64 0
                ++ (small_u64 6
                    ++ (codes "output"
                        ++ (small_u32 1
                            ++ (small_u64 1
                                ++ (small_u32 0
                                    ++ (small_u64 32
                                        ++ (small_u64 7
                                            ++ (codes "blk.0.w"
                                                ++ (small_u32 1
                                                    ++ (small_u64 8
                                                        ++ (small_u32 0
                                                            ++ (small_u64 0
                                                            ++ (replicate 27 0
                                                            ++ replicate 36 7))))))))))))))))

shard_file_run : write_shard 3 0 (1 ∷ 0 ∷ []) two_tensors two_sizes [] source_file 4 ≡ ok shard_file
unfolding write_shard assign_offsets sort_by_key write_head write_infos write_data slice to_le_bytes
    write_info write_dims align_up padding
shard_file_run = refl

block-IsTensor : IsTensor block
unfolding is_utf8
block-IsTensor = record {
  name_length = omega arith;
  name_utf8 = refl;
  dims_length = refl;
  dims_small = (omega arith, tt);
  n_dims_small = omega arith;
  type_small = omega arith;
}

head_weight-IsTensor : IsTensor head_weight
unfolding is_utf8
head_weight-IsTensor = record {
  name_length = omega arith;
  name_utf8 = refl;
  dims_length = refl;
  dims_small = (omega arith, tt);
  n_dims_small = omega arith;
  type_small = omega arith;
}

two_tensors-IsTensor : All IsTensor two_tensors
two_tensors-IsTensor = (block-IsTensor, (head_weight-IsTensor, tt))

align_up_least_example :
    (align_up 33 32 % 32 ≡ 0) × (33 ≤ align_up 33 32) × (align_up 33 32 < 33 + 32)
align_up_least_example = align_up_least 33 (omega arith)

group_tensors_by_layer_groups_example :
    (length (group_tensors_by_layer two_tensors 1) ≡ 2)
    × (get_elem? (group_tensors_by_layer two_tensors 1) 0
        ≡ some (matching (in_layer 0) 0 two_tensors))
    × (get_elem? (group_tensors_by_layer two_tensors 1) 1
        ≡ some (matching (outside 1) 0 two_tensors))
group_tensors_by_layer_groups_example = group_tensors_by_layer_groups two_tensors 1 0 (omega arith)

write_shard_total_example :
    (out : List ℕ) × (write_shard 3 0 (1 ∷ 0 ∷ []) two_tensors two_sizes [] source_file 4 ≡ ok out)
write_shard_total_example =
    write_shard_total 3 0 (1 ∷ 0 ∷ []) two_tensors two_sizes [] source_file 4 (omega arith) refl
      (omega arith, (omega arith, tt)) (omega arith, (omega arith, tt))

shards_partition_example :
    let num_shards = ceil_div 1 1 in
    (lists : List (List ℕ)) × (shard_indices_from
        (group_tensors_by_layer two_tensors 1)
        1
        1
        num_shards
        num_shards
        0
      ≡ ok lists)
    × Perm (concat lists) (positions 0 two_tensors)
shards_partition_example =
    shards_partition two_tensors 1 1 (omega arith) (omega arith) (omega arith) (omega arith)

sorted_Packed : Packed two_sizes (sort_by_key (offset_of two_tensors) (1 ∷ 0 ∷ []))
unfolding sort_by_key
sorted_Packed = (refl, tt)

one_two_Distinct : Distinct (1 ∷ 0 ∷ [])
one_two_Distinct = (((λ e. absurd (omega arith)), tt), (tt, tt))

write_shard_roundtrip_example :
    (m : Offsets) × (ts : List TensorInfo) × (pos : ℕ) × (read_header shard_file
      ≡ ok (record { version = 3; tensor_count = 2; metadata_kv_count = 0 }))
    × At shard_file 24 []
    × (moved two_tensors m (1 ∷ 0 ∷ []) ≡ ok ts)
    × (read_tensors shard_file 2 24 ≡ ok (ts, pos))
    × All (Restored two_tensors two_sizes source_file 4 m shard_file (align_up pos 32)) (1 ∷ 0 ∷ [])
write_shard_roundtrip_example =
    write_shard_roundtrip 3 0 (1 ∷ 0 ∷ []) two_tensors two_sizes [] source_file 4 shard_file
      (omega arith) (omega arith) (omega arith) two_tensors-IsTensor one_two_Distinct sorted_Packed
      (omega arith, (omega arith, tt)) (omega arith) shard_file_run

compute_data_sizes_tile_example :
    (length (compute_data_sizes two_tensors 4 40) ≡ 2)
    × Tiles two_tensors 4 40 (compute_data_sizes two_tensors 4 40) (by_offset two_tensors)
compute_data_sizes_tile_example =
    compute_data_sizes_tile two_tensors 4 40 (omega arith) (omega arith, (omega arith, tt))

-- Sizes of which the first is no multiple of 32.
abbrev odd_sizes : List ℕ
odd_sizes = 20 ∷ 4 ∷ []

abbrev odd_file : List ℕ
odd_file = take (length shard_file - 12) shard_file

odd_file_run : write_shard 3 0 (1 ∷ 0 ∷ []) two_tensors odd_sizes [] source_file 4 ≡ ok odd_file
unfolding write_shard assign_offsets sort_by_key write_head write_infos write_data slice to_le_bytes
    write_info write_dims align_up padding
odd_file_run = refl

in_order : sort_by_key (offset_of two_tensors) (1 ∷ 0 ∷ []) ≡ 0 ∷ 1 ∷ []
unfolding sort_by_key
in_order = refl

write_shard_misplaces_example :
    (m : Offsets) × (ts : List TensorInfo) × (pos v : ℕ) × (moved two_tensors m (1 ∷ 0 ∷ [])
      ≡ ok ts)
    × (read_tensors odd_file 2 24 ≡ ok (ts, pos))
    × (lookup 1 m ≡ some v)
    × (20 < v)
    × At odd_file (align_up pos 32 + 20) (original two_tensors odd_sizes source_file 4 1)
write_shard_misplaces_example =
    write_shard_misplaces 3 0 (1 ∷ 0 ∷ []) two_tensors odd_sizes [] source_file 4 odd_file 0 1 []
      (omega arith) (omega arith) (omega arith) two_tensors-IsTensor one_two_Distinct
      (omega arith, (omega arith, tt)) (omega arith) in_order (λ e. absurd (omega arith))
      (omega arith) odd_file_run

abbrev two_layer_job : Job
two_layer_job = record {
  model = record {
    header = record { version = 3; tensor_count = 2; metadata_kv_count = 0 };
    tensors = two_tensors;
    info_start = 24;
    data_start = 4;
    num_layers = 1;
  };
  architecture = none;
  layers_per_shard = 1;
  num_shards = 1;
  groups = (0 ∷ []) ∷ (1 ∷ []) ∷ [];
  data_sizes = two_sizes;
  raw_metadata = [];
}

write_shards-Complete_example :
    Complete
      (λ n. false)
      false
      two_layer_job
      source_file
      1
      0
      (write_shards (λ n. false) false two_layer_job source_file 1 0)
write_shards-Complete_example =
    write_shards-Complete (λ n. false) false two_layer_job source_file 1 0

two_tensors-TensorBelow : All (TensorBelow (2 ^ 32 - 1)) two_tensors
unfolding get_layer_id strip_prefix find parse_u32
two_tensors-TensorBelow = (omega arith, (tt, tt))

count_layers_least_example :
    All (TensorBelow (count_layers two_tensors)) two_tensors
    × ((count_layers two_tensors ≡ 0)
        ⊎ ((layer : ℕ) × HasLayer layer two_tensors × (count_layers two_tensors ≡ suc layer)))
count_layers_least_example = count_layers_least two_tensors two_tensors-TensorBelow
