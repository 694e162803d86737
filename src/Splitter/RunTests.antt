-- ===== src/Splitter/RunTests.antt =====
-- A whole run of the splitter on a small file: two layers, one tensor each.
use mathlib.Core.Path.{subst}
use arcflame.Base.{
  ℕ, zero, suc, ◌<◌, ◌≡◌, refl, sym, ◌∙◌, true, false, List, [], ◌∷◌, ◌++◌, none, some, replicate,
  length, arith,
}
use arcflame.Base.Text.{codes, is_utf8, strip_prefix, find, parse_u32, contains}
use arcflame.Base.Results.{ok, ok-injective}
use arcflame.Splitter.Bytes.{slice, from_le_bytes, to_le_bytes}
use arcflame.Splitter.Reader.{get_metadata_string, repeat, read_u32, read_u64}
use arcflame.Splitter.Reader.Values.{Fits}
use arcflame.Splitter.Header.{
  TensorInfo, read_header, skip_metadata, tensor_info_start, is_tensor_info_at, looks_like_name,
  search_start, read_tensors, read_tensor, read_many,
}
use arcflame.Splitter.Layers.{
  count_layers, count_layers_from, get_layer_id, group_tensors_by_layer, ceil_div, shard,
  collect_layers, get_shard_tensor_indices,
}
use arcflame.Splitter.Writer.{
  align_up, offset_of, compute_data_sizes, write_shard, assign_offsets, sort_by_key, write_head,
  write_infos, write_data, write_info, write_dims, padding,
}
use arcflame.Splitter.Writer.Infos.{IsTensor}
use arcflame.Splitter.Main.{
  Args, Model, Job, Written, shards, read_model, prepare, choose_layers_per_shard, shard_bytes,
  main,
}
use arcflame.Splitter.Main.Restore.{IsSplittable}
use arcflame.Splitter.Tests.{small_u32, small_u64}
use arcflame.Splitter.Main.Split.{IsRestored, main_restores}

abbrev pub weight_info : List ℕ → ℕ → List ℕ
weight_info name offset =
    small_u64 7 ++ (name ++ (small_u32 1 ++ (small_u64 8 ++ (small_u32 0 ++ small_u64 offset))))

abbrev pub tiny_file : List ℕ
tiny_file =
    codes "GGUF"
    ++ (small_u32 3
        ++ (small_u64 2
            ++ (small_u64 0
                ++ (weight_info (codes "blk.0.w") 0
                    ++ (weight_info (codes "blk.1.w") 32
                        ++ (replicate 26 0 ++ (replicate 32 7 ++ replicate 32 9)))))))

abbrev pub weight : List ℕ → ℕ → TensorInfo
weight name offset = record {
  name = name;
  n_dims = 1;
  dims = 8 ∷ [];
  ggml_type = 0;
  offset = offset;
}

abbrev pub tiny_model : Model
tiny_model = record {
  header = record { version = 3; tensor_count = 2; metadata_kv_count = 0 };
  tensors = weight (codes "blk.0.w") 0 ∷ weight (codes "blk.1.w") 32 ∷ [];
  info_start = 24;
  data_start = 128;
  num_layers = 2;
}

abbrev pub tiny_job : Job
tiny_job = record {
  model = tiny_model;
  architecture = none;
  layers_per_shard = 1;
  num_shards = 2;
  groups = (0 ∷ []) ∷ (1 ∷ []) ∷ [] ∷ [];
  data_sizes = 32 ∷ 32 ∷ [];
  raw_metadata = [];
}

abbrev pub split_args : Args
split_args = record {
  layers_per_shard = some 1;
  node_config = false;
  list_tensors = false;
  split = true;
  force = false;
}

abbrev tiny_shard : List ℕ → ℕ → List ℕ
tiny_shard name byte =
    codes "GGUF"
    ++ (small_u32 3
        ++ (small_u64 1 ++ (small_u64 0 ++ (weight_info name 0 ++ (0 ∷ replicate 32 byte)))))

pub tiny_read : read_model tiny_file ≡ ok tiny_model
unfolding read_model read_header slice from_le_bytes skip_metadata tensor_info_start search_start
    is_tensor_info_at looks_like_name contains strip_prefix read_tensors read_tensor read_many
    read_u32 read_u64 is_utf8 align_up count_layers count_layers_from get_layer_id find parse_u32
    repeat
tiny_read = refl

tiny_prepared : prepare split_args (ok none) tiny_file tiny_model ≡ ok tiny_job
unfolding prepare get_metadata_string choose_layers_per_shard slice ceil_div group_tensors_by_layer
    get_layer_id strip_prefix find parse_u32 compute_data_sizes sort_by_key
tiny_prepared = refl

first_shard : shard_bytes tiny_job tiny_file 0 ≡ ok (tiny_shard (codes "blk.0.w") 7)
unfolding shard_bytes shard collect_layers get_shard_tensor_indices write_shard assign_offsets
    sort_by_key write_head write_infos write_data slice to_le_bytes write_info write_dims align_up
    padding
first_shard = refl

second_shard : shard_bytes tiny_job tiny_file 1 ≡ ok (tiny_shard (codes "blk.1.w") 9)
unfolding shard_bytes shard collect_layers get_shard_tensor_indices write_shard assign_offsets
    sort_by_key write_head write_infos write_data slice to_le_bytes write_info write_dims align_up
    padding
second_shard = refl

fits : (i : ℕ) (out : List ℕ) → i < 2 → shard_bytes tiny_job tiny_file i ≡ ok out → Fits out
fits zero out less run = subst Fits (ok-injective (sym first_shard ∙ run)) (omega arith)
fits (suc zero) out less run = subst Fits (ok-injective (sym second_shard ∙ run)) (omega arith)
fits (suc (suc i)) out less run = absurd (omega arith)

pub weight-IsTensor :
    (name : List ℕ) (offset : ℕ)
    → length name ≡ 7
    → is_utf8 name ≡ true
    → IsTensor (weight name offset)
weight-IsTensor name offset len valid = record {
  name_length = omega arith;
  name_utf8 = valid;
  dims_length = refl;
  dims_small = (omega arith, tt);
  n_dims_small = omega arith;
  type_small = omega arith;
}

pub both_utf8 : (is_utf8 (codes "blk.0.w") ≡ true) × (is_utf8 (codes "blk.1.w") ≡ true)
unfolding is_utf8
both_utf8 = (refl, refl)

pub offsets_apart :
    (i j : ℕ)
    → i < 2
    → j < 2
    → offset_of tiny_model.tensors i ≡ offset_of tiny_model.tensors j
    → i ≡ j
offsets_apart zero zero hi hj e = refl
offsets_apart zero (suc zero) hi hj e = absurd (omega arith)
offsets_apart (suc zero) zero hi hj e = absurd (omega arith)
offsets_apart (suc zero) (suc zero) hi hj e = refl
offsets_apart (suc (suc i)) j hi hj e = absurd (omega arith)
offsets_apart i (suc (suc j)) hi hj e = absurd (omega arith)

tiny_model-IsSplittable : IsSplittable tiny_model tiny_file
tiny_model-IsSplittable = record {
  version = omega arith;
  entries = omega arith;
  layers = omega arith;
  few_layers = omega arith;
  tensors = omega arith;
  well = (
    weight-IsTensor (codes "blk.0.w") 0 refl both_utf8.0,
    (weight-IsTensor (codes "blk.1.w") 32 refl both_utf8.1, tt),
  );
  file = omega arith;
  begins = (omega arith, (omega arith, tt));
  aligned = (refl, (refl, tt));
  apart = offsets_apart;
}

main_restores_example :
    (w : Written) × (main split_args (some tiny_file) (ok none) (λ n. false) ≡ ok (shards w))
    × IsRestored tiny_job tiny_file w
main_restores_example =
    main_restores split_args tiny_file (ok none) (λ n. false) tiny_model tiny_job tiny_read
      tiny_prepared refl refl tiny_model-IsSplittable (omega arith) (λ n. refl) fits
