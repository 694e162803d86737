-- ===== src/Splitter/Main.antt =====
-- `main` and `calculate_from_node_config` of tools/gguf-splitter/src/main.rs. What it learns from
-- the system (the bytes of the model, the parsed node configuration, the shard files that exist)
-- is passed in; what it prints or writes is its output. Calls that create and write files succeed.
pub mod Laws
pub mod Plan
pub mod Read
pub mod Reread
pub mod Restore
pub mod Split
pub mod Whole
use arcflame.Base.{
  ℕ, zero, suc, ◌+◌, ◌%◌, ◌^◌, Bool, true, false, not, ◌&&◌, List, [], ◌∷◌, Option, none, some, map,
  length, ◌==◌, if◌then◌else◌,
}
use arcflame.Base.Results.{Result, ok, err, panic, stuck, ◌>>=◌}
use arcflame.Base.Text.{codes}
use arcflame.Splitter.{Error, Outcome, not_found, zero_layers, output_exists}
use arcflame.Splitter.Bytes.{slice}
use arcflame.Splitter.Reader.{get_metadata_string}
use arcflame.Splitter.Header.{
  TensorInfo, Header, read_header, skip_metadata, tensor_info_start, read_tensors,
}
use arcflame.Splitter.Layers.{
  count_layers, group_tensors_by_layer, get_shard_tensor_indices, ceil_div, Shard, shard,
}
use arcflame.Splitter.Writer.{align_up, compute_data_sizes, write_shard}

pub record Args : Type 0 where
  pub layers_per_shard : Option ℕ
  pub node_config : Bool
  pub list_tensors : Bool
  pub split : Bool
  pub force : Bool

-- The file that is read and parsed by serde_json gives the number under `layers_per_shard`, if it
-- holds one that is a `u64`; reading or parsing may fail.
unfoldable pub calculate_from_node_config : Outcome (Option ℕ) → Outcome ℕ
calculate_from_node_config config =
    config >>= λ field. elim field [ none ↦ ok 10 | some lps ↦ ok (lps % 2 ^ 32) ]

unfoldable pub choose_layers_per_shard : Args → Outcome (Option ℕ) → ℕ → Outcome ℕ
unfolding calculate_from_node_config
choose_layers_per_shard args config num_layers = elim args.layers_per_shard [
  | some n ↦ ok n
  | none ↦
      if args.node_config then calculate_from_node_config config else ok (ceil_div num_layers 4)
]

-- What `main` knows once the file is read.
pub record Model : Type 0 where
  pub header : Header
  pub tensors : List TensorInfo
  pub info_start : ℕ
  pub data_start : ℕ
  pub num_layers : ℕ

unfoldable pub read_model : List ℕ → Outcome Model
read_model bytes = do
  header ← read_header bytes
  metadata_end ← skip_metadata bytes header.metadata_kv_count
  info_start ← tensor_info_start bytes metadata_end
  (tensors, info_end) ← read_tensors bytes header.tensor_count info_start
  ok (record {
    header = header;
    tensors = tensors;
    info_start = info_start;
    data_start = align_up info_end 32;
    num_layers = count_layers tensors;
  })

-- The model, and what the two ways to go on share.
pub record Job : Type 0 where
  pub model : Model
  pub architecture : Option (List ℕ)
  pub layers_per_shard : ℕ
  pub num_shards : ℕ
  pub groups : List (List ℕ)
  pub data_sizes : List ℕ
  pub raw_metadata : List ℕ

unfoldable pub prepare : Args → Outcome (Option ℕ) → List ℕ → Model → Outcome Job
unfolding choose_layers_per_shard
prepare args config bytes m = do
  architecture ←
      get_metadata_string bytes 24 m.header.metadata_kv_count (codes "general.architecture")
  layers_per_shard ← choose_layers_per_shard args config m.num_layers
  if layers_per_shard == 0 then err zero_layers else (do
    raw_metadata ← slice bytes 24 m.info_start
    ok (record {
      model = m;
      architecture = architecture;
      layers_per_shard = layers_per_shard;
      num_shards = ceil_div m.num_layers layers_per_shard;
      groups = group_tensors_by_layer m.tensors m.num_layers;
      data_sizes = compute_data_sizes m.tensors m.data_start (length bytes);
      raw_metadata = raw_metadata;
    }))

-- The bytes of shard `i`, counted from 0.
unfoldable pub shard_bytes : Job → List ℕ → ℕ → Outcome (List ℕ)
shard_bytes job bytes i = do
  let m = job.model
  let s = shard m.num_layers job.layers_per_shard job.num_shards i
  indices ← get_shard_tensor_indices job.groups s.first_layer s.last_layer s.has_lm_head
  write_shard m.header.version m.header.metadata_kv_count indices m.tensors job.data_sizes
      job.raw_metadata bytes m.data_start

-- A written file: the number in `shard_NNN.gguf`, and its bytes.
abbrev pub ShardFile : Type 0
ShardFile = ℕ × List ℕ

-- The files that a run completed, also where it ended early, and how it ended.
pub record Written : Type 0 where
  pub files : List ShardFile
  pub result : Outcome (Unit {0})

abbrev stop : Outcome (Unit {0}) → Written
stop r = record { files = []; result = r }

abbrev then_write : ShardFile → Written → Written
then_write f w = record { files = f ∷ w.files; result = w.result }

-- `for i in 0..num_shards` with `--split`, by the rounds left.
unfoldable pub write_shards : (ℕ → Bool) → Bool → Job → List ℕ → ℕ → ℕ → Written
write_shards exists force job bytes zero i = stop (ok tt)
write_shards exists force job bytes (suc rounds) i = elim (exists (suc i) && not force) [
  | true ↦ stop (err (output_exists (suc i ∷ [])))
  | false ↦ elim (shard_bytes job bytes i) [
    | ok out ↦ then_write (suc i, out) (write_shards exists force job bytes rounds (suc i))
    | err e ↦ stop (err e)
    | panic ↦ stop panic
    | stuck ↦ stop stuck
  ]
]

abbrev pub plan_from : Job → ℕ → ℕ → List Shard
plan_from job zero i = []
plan_from job (suc rounds) i =
    shard job.model.num_layers job.layers_per_shard job.num_shards i ∷ plan_from job rounds (suc i)

-- What a run leaves: the names that it lists, the plan that it writes, or the shards.
pub data Output : Type 0 where
  names : List (List ℕ) → Output
  plan : List Shard → Output
  shards : Written → Output

unfoldable pub main : Args → Option (List ℕ) → Outcome (Option ℕ) → (ℕ → Bool) → Outcome Output
unfolding read_model prepare write_shards
main args none config exists = err not_found
main args (some bytes) config exists = do
  m ← read_model bytes
  if args.list_tensors then ok (names (map (λ (t : TensorInfo). t.name) m.tensors)) else (do
    job ← prepare args config bytes m
    if args.split
        then ok (shards (write_shards exists args.force job bytes job.num_shards 0))
        else ok (plan (plan_from job job.num_shards 0)))
