-- ===== src/Splitter/PlanTests.antt =====
-- The plan of `main` of tools/gguf-splitter/src/main.rs for a small file, and a file without layers.
use arcflame.Base.{ℕ, ◌≡◌, refl, false, List, [], ◌∷◌, ◌++◌, none, some, replicate, length, arith}
use arcflame.Base.Text.{codes, is_utf8, strip_prefix, find, parse_u32, contains}
use arcflame.Base.Results.{ok}
use arcflame.Splitter.Bytes.{slice, from_le_bytes}
use arcflame.Splitter.Reader.{get_metadata_string, repeat, read_u32, read_u64}
use arcflame.Splitter.Header.{
  read_header, skip_metadata, tensor_info_start, is_tensor_info_at, looks_like_name, search_start,
  read_tensors, read_tensor, read_many,
}
use arcflame.Splitter.Layers.{
  Shard, count_layers, count_layers_from, get_layer_id, group_tensors_by_layer, ceil_div,
}
use arcflame.Splitter.Writer.{align_up, compute_data_sizes, sort_by_key}
use arcflame.Splitter.Main.{
  Args, Model, Job, shards, plan, read_model, prepare, choose_layers_per_shard, main,
}
use arcflame.Splitter.Tests.{small_u32, small_u64}
use arcflame.Splitter.Main.Plan.{Tiles, main_plans, main_without_layers}
use arcflame.Splitter.RunTests.{
  tiny_file, tiny_model, tiny_job, tiny_read, split_args, weight, weight_info,
}

abbrev plan_args : Args
plan_args = record split_args { split = false }

tiny_planned : prepare plan_args (ok none) tiny_file tiny_model ≡ ok tiny_job
unfolding prepare get_metadata_string choose_layers_per_shard slice ceil_div group_tensors_by_layer
    get_layer_id strip_prefix find parse_u32 compute_data_sizes sort_by_key
tiny_planned = refl

main_plans_example :
    (ss : List Shard) × (main plan_args (some tiny_file) (ok none) (λ n. false) ≡ ok (plan ss))
    × (length ss ≡ 2)
    × Tiles 2 1 0 ss
main_plans_example =
    main_plans plan_args tiny_file (ok none) (λ n. false) tiny_model tiny_job tiny_read tiny_planned
      refl refl (omega arith) (omega arith) (omega arith)

-- A file whose only tensor belongs to no layer.
abbrev flat_file : List ℕ
flat_file =
    codes "GGUF"
    ++ (small_u32 3
        ++ (small_u64 1
            ++ (small_u64 0
                ++ (weight_info (codes "output.") 0 ++ (replicate 33 0 ++ replicate 32 7)))))

abbrev flat_model : Model
flat_model = record {
  header = record { version = 3; tensor_count = 1; metadata_kv_count = 0 };
  tensors = weight (codes "output.") 0 ∷ [];
  info_start = 24;
  data_start = 64;
  num_layers = 0;
}

abbrev flat_job : Job
flat_job = record {
  model = flat_model;
  architecture = none;
  layers_per_shard = 1;
  num_shards = 0;
  groups = (0 ∷ []) ∷ [];
  data_sizes = 64 ∷ [];
  raw_metadata = [];
}

flat_read : read_model flat_file ≡ ok flat_model
unfolding read_model read_header slice from_le_bytes skip_metadata tensor_info_start search_start
    is_tensor_info_at looks_like_name contains strip_prefix read_tensors read_tensor read_many
    read_u32 read_u64 is_utf8 align_up count_layers count_layers_from get_layer_id find parse_u32
    repeat
flat_read = refl

flat_prepared : prepare split_args (ok none) flat_file flat_model ≡ ok flat_job
unfolding prepare get_metadata_string choose_layers_per_shard slice ceil_div group_tensors_by_layer
    get_layer_id strip_prefix find parse_u32 compute_data_sizes sort_by_key
flat_prepared = refl

main_without_layers_example :
    main split_args (some flat_file) (ok none) (λ n. false)
    ≡ ok (shards (record { files = []; result = ok tt }))
main_without_layers_example =
    main_without_layers split_args flat_file (ok none) (λ n. false) flat_model flat_job flat_read
      flat_prepared refl refl
