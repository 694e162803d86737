-- ===== src/Splitter/WholeTests.antt =====
-- A file with metadata, split, and its shards read again, by tools/gguf-splitter/src/main.rs.
use mathlib.Core.Path.{subst}
use arcflame.Base.{
  ℕ, zero, suc, ◌<◌, ◌≡◌, refl, sym, ◌∙◌, true, false, List, [], ◌∷◌, ◌++◌, none, some, replicate,
  length, arith,
}
use arcflame.Base.Text.{codes, is_utf8, strip_prefix, find, parse_u32, contains}
use arcflame.Base.Results.{ok, ok-injective}
use arcflame.Splitter.Bytes.{slice, from_le_bytes, to_le_bytes}
use arcflame.Splitter.Reader.Values.{Fits, encode}
use arcflame.Splitter.Header.{is_tensor_info_at, looks_like_name}
use arcflame.Splitter.Header.Metadata.{encode_entries}
use arcflame.Splitter.Header.Lookup.{text_under}
use arcflame.Splitter.Layers.{
  count_layers, count_layers_from, get_layer_id, group_tensors_by_layer, ceil_div, shard,
  collect_layers, get_shard_tensor_indices,
}
use arcflame.Splitter.Writer.{
  align_up, compute_data_sizes, write_shard, assign_offsets, sort_by_key, write_head, write_infos,
  write_data, write_info, write_dims, padding,
}
use arcflame.Splitter.Main.{Job, Model, Written, shards, shard_bytes, main, choose_layers_per_shard}
use arcflame.Splitter.Main.Read.{encode_model, model_of}
use arcflame.Splitter.Main.Restore.{IsSplittable, job_of}
use arcflame.Splitter.Main.Split.{IsSplit}
use arcflame.Splitter.Main.Whole.{StartsClear, ReadsBack, main_splits}
use arcflame.Splitter.RunTests.{
  weight, tiny_model, split_args, weight-IsTensor, both_utf8, offsets_apart,
}
use arcflame.Splitter.ReadTests.{
  name_entry, name_entry-IsEntry, named_room, weight_name, last_name, eight_clear,
}

abbrev body : List ℕ
body = replicate 30 0 ++ (replicate 32 7 ++ replicate 32 9)

abbrev whole_file : List ℕ
whole_file = encode_model 3 name_entry tiny_model.tensors body

abbrev whole_model : Model
whole_model = model_of 3 name_entry tiny_model.tensors

abbrev whole_job : Job
whole_job =
    job_of whole_model whole_file (text_under (codes "general.architecture") name_entry) 1
      (encode_entries name_entry)

abbrev shard_of : List ℕ → ℕ → List ℕ
shard_of name byte =
    encode_model 3 name_entry (weight name 0 ∷ []) (replicate 5 0 ++ replicate 32 byte)

first_out : shard_bytes whole_job whole_file 0 ≡ ok (shard_of (codes "blk.0.w") 7)
unfolding shard_bytes shard collect_layers get_shard_tensor_indices write_shard assign_offsets
    sort_by_key write_head write_infos write_data slice to_le_bytes write_info write_dims align_up
    padding encode compute_data_sizes group_tensors_by_layer get_layer_id strip_prefix find
    parse_u32 count_layers count_layers_from ceil_div
first_out = refl

second_out : shard_bytes whole_job whole_file 1 ≡ ok (shard_of (codes "blk.1.w") 9)
unfolding shard_bytes shard collect_layers get_shard_tensor_indices write_shard assign_offsets
    sort_by_key write_head write_infos write_data slice to_le_bytes write_info write_dims align_up
    padding encode compute_data_sizes group_tensors_by_layer get_layer_id strip_prefix find
    parse_u32 count_layers count_layers_from ceil_div
second_out = refl

whole_shards : whole_job.num_shards ≡ 2
unfolding ceil_div count_layers count_layers_from get_layer_id strip_prefix find parse_u32
whole_shards = refl

whole_layers : whole_model.num_layers ≡ 2
unfolding count_layers count_layers_from get_layer_id strip_prefix find parse_u32
whole_layers = refl

whole_data : whole_model.data_start ≡ 160
unfolding align_up to_le_bytes write_info write_dims encode
whole_data = refl

whole_length : length whole_file ≡ 224
unfolding to_le_bytes write_info write_dims encode
whole_length = refl

whole_clear :
    StartsClear name_entry whole_file
    × StartsClear name_entry (shard_of (codes "blk.0.w") 7)
    × StartsClear name_entry (shard_of (codes "blk.1.w") 9)
unfolding is_tensor_info_at slice from_le_bytes to_le_bytes write_info write_dims encode
    looks_like_name contains strip_prefix
whole_clear = (
  eight_clear whole_file (refl, (refl, (refl, (refl, (refl, (refl, (refl, (refl, tt)))))))),
  eight_clear (shard_of (codes "blk.0.w") 7)
      (refl, (refl, (refl, (refl, (refl, (refl, (refl, (refl, tt)))))))),
  eight_clear (shard_of (codes "blk.1.w") 9)
      (refl, (refl, (refl, (refl, (refl, (refl, (refl, (refl, tt)))))))),
)

whole-Fits : Fits (shard_of (codes "blk.0.w") 7) × Fits (shard_of (codes "blk.1.w") 9)
unfolding to_le_bytes write_info write_dims encode
whole-Fits = (omega arith, omega arith)

good :
    (i : ℕ) (out : List ℕ)
    → i < whole_job.num_shards
    → shard_bytes whole_job whole_file i ≡ ok out
    → Fits out × StartsClear name_entry out
good zero out less run =
    subst (λ o. Fits o × StartsClear name_entry o) (ok-injective (sym first_out ∙ run))
      (whole-Fits.0, whole_clear.1)
good (suc zero) out less run =
    subst (λ o. Fits o × StartsClear name_entry o) (ok-injective (sym second_out ∙ run))
      (whole-Fits.1, whole_clear.2)
good (suc (suc i)) out less run = absurd (omega (arith, whole_shards))

whole_model-IsSplittable : IsSplittable whole_model whole_file
whole_model-IsSplittable = record {
  version = omega arith;
  entries = omega arith;
  layers = omega (arith, whole_layers);
  few_layers = omega (arith, whole_layers);
  tensors = omega arith;
  well = (
    weight-IsTensor (codes "blk.0.w") 0 refl both_utf8.0,
    (weight-IsTensor (codes "blk.1.w") 32 refl both_utf8.1, tt),
  );
  file = omega (arith, whole_length);
  begins = (omega (arith, whole_length, whole_data), (omega (arith, whole_length, whole_data), tt));
  aligned = (refl, (refl, tt));
  apart = offsets_apart;
}

name_utf8 : is_utf8 (codes "name") ≡ true
unfolding is_utf8
name_utf8 = refl

one_layer : choose_layers_per_shard split_args (ok none) whole_model.num_layers ≡ ok 1
unfolding choose_layers_per_shard
one_layer = refl

main_splits_example :
    (w : Written) × (main split_args (some whole_file) (ok none) (λ n. false) ≡ ok (shards w))
    × IsSplit (ReadsBack whole_model whole_file name_entry whole_job.data_sizes) whole_job w
main_splits_example =
    main_splits split_args (ok none) (λ n. false) 3 name_entry (weight (codes "blk.0.w") 0)
      (weight (codes "blk.1.w") 32 ∷ []) body 1 (omega (arith, whole_length))
      whole_model-IsSplittable name_entry-IsEntry (name_utf8, tt)
      (
        (weight-IsTensor (codes "blk.0.w") 0 refl both_utf8.0, omega arith),
        ((weight-IsTensor (codes "blk.1.w") 32 refl both_utf8.1, omega arith), tt),
      )
      ((omega arith, omega arith, weight_name), ((omega arith, omega arith, last_name), tt))
      named_room whole_clear.0 one_layer (omega arith) (omega arith) refl refl (λ n. refl) good
