-- ===== src/Agent/Tests.antt =====
-- Runs of the node agent's parts at concrete inputs.
use arcflame.Base.{
  All, ℕ, ◌<◌, ◌+◌, ◌≡◌, ◌↔◌, refl, true, false, ◌&&◌, List, [], ◌∷◌, some, length, leb, ltb, arith,
}
use arcflame.Base.Text.{codes, pos, strip_prefix, find, parse_u32, parse_u64}
use arcflame.Base.Results.{ok}
use arcflame.Splitter.Header.{TensorInfo}
use arcflame.Splitter.Layers.{
  get_layer_id, group_tensors_by_layer, get_shard_tensor_indices, collect_layers, ceil_div, shard,
}
use arcflame.Agent.Shard.Split.{Taken, range_of, shard-Taken}
use arcflame.Agent.{Text, System, done, failed, trim_start, trim_end, trim_end_matches}
use arcflame.Agent.Tuning.{TuningRequest, apply_tuning}
use arcflame.Agent.Tuning.Laws.{requested, apply_tuning_accounts}
use arcflame.Agent.Tuning.Frame.{Asked, pages, swap, device, huge, numa, apply_tuning_keeps}
use arcflame.Agent.Tuning.Queries.{size_in_line}
use arcflame.Agent.Drivers.{audit}
use arcflame.Agent.Drivers.Laws.{Advised, audit_recommends}
use arcflame.Agent.Shard.{tensor_belongs_to_node}
use arcflame.Agent.Shard.Laws.{belongs_by_layer}
use arcflame.Agent.Rpc.{Processes, new}
use arcflame.Agent.Rpc.Laws.{Live, call_start, call_stop, handle, recorded, run, run_children}

-- A machine without commands, whose files can be written and that remembers what was written.
abbrev bare : System
bare = record {
  State = List Text;
  exists = λ path s. false;
  read_to_string = λ path s. (failed (codes "none"), s);
  read_dir = λ path s. (failed (codes "none"), s);
  write = λ path text s. (done tt, path ∷ s);
  output = λ command args s. (failed (codes "none"), s);
}

-- The governor fails, for want of `cpupower`; the swappiness is written.
abbrev two_steps : TuningRequest
two_steps = record {
  set_performance_governor = true;
  set_hugepages = false;
  hugepages_count = 0;
  set_swappiness = true;
  swappiness_value = 10;
  set_io_scheduler = false;
  io_scheduler = [];
  set_thp_mode = false;
  thp_mode = [];
  disable_numa_balancing = false;
}

apply_tuning_accounts_example :
    let r = (apply_tuning bare two_steps []).0 in
    (length r.changes_made + length r.errors ≡ requested two_steps)
    × ((r.applied ≡ true) ↔ (r.errors ≡ []))
apply_tuning_accounts_example = apply_tuning_accounts bare two_steps []

-- Only the swappiness was written.
OnlySwappiness : List Text → Type 0
OnlySwappiness written = All (λ path. path ≡ codes "/proc/sys/vm/swappiness") written

Asked-swappiness :
    (path text : Text) (s : List Text)
    → Asked two_steps path
    → OnlySwappiness s
    → OnlySwappiness (path ∷ s)
unfolding OnlySwappiness
Asked-swappiness path text s (pages on) q = cc
Asked-swappiness path text s (swap on) q = (refl, q)
Asked-swappiness path text s (device name on) q = cc
Asked-swappiness path text s (huge on) q = cc
Asked-swappiness path text s (numa on) q = cc

nothing_written : OnlySwappiness []
unfolding OnlySwappiness
nothing_written = tt

apply_tuning_keeps_example : OnlySwappiness (apply_tuning bare two_steps []).1
apply_tuning_keeps_example =
    apply_tuning_keeps bare two_steps OnlySwappiness (λ path s q. q) (λ path s q. q)
      (λ command args s q. q) Asked-swappiness [] nothing_written

page_size : size_in_line (codes "Hugepagesize:    2048 kB") ≡ some 2048
unfolding size_in_line strip_prefix trim_end_matches trim_start trim_end parse_u64
page_size = refl

audit_recommends_example : let r = (audit bare []).0 in Advised r.drivers r.recommendations
audit_recommends_example = audit_recommends bare []

third_layer : get_layer_id (codes "blk.3.w") ≡ some 3
unfolding get_layer_id strip_prefix find parse_u32
third_layer = refl

belongs_by_layer_example :
    tensor_belongs_to_node
      (codes "blk.3.w")
      (record { first_layer = pos 2; num_layers = pos 4; has_lm_head = false })
    ≡ (leb 2 3 && ltb 3 (2 + 4))
belongs_by_layer_example =
    belongs_by_layer (codes "blk.3.w") 3 2 4 false third_layer (omega arith) (omega arith)
      (omega arith)

-- Children are numbered, and each spawn succeeds.
abbrev numbered : Processes
numbered = record {
  State = ℕ;
  Child = ℕ;
  spawn = λ bin args s. (done s, s + 1);
  kill = λ c s. (done tt, s);
}

run_children_example :
    let w =
      run numbered
        (call_start ∷ call_start ∷ call_stop ∷ call_start ∷ [])
        (new (recorded numbered) 50052 (codes "rpc-server"), (0, [])) in
    Live w.1.1 (handle w.0.process)
run_children_example =
    run_children numbered 50052 (codes "rpc-server")
      (call_start ∷ call_start ∷ call_stop ∷ call_start ∷ []) 0

abbrev two_blocks : List TensorInfo
two_blocks =
    record { name = codes "blk.0.w"; n_dims = 0; dims = []; ggml_type = 0; offset = 0 }
    ∷ record { name = codes "blk.1.w"; n_dims = 0; dims = []; ggml_type = 0; offset = 32 }
    ∷ []

first_plan :
    let s = shard 2 1 (ceil_div 2 1) 0 in
    get_shard_tensor_indices
      (group_tensors_by_layer two_blocks 2)
      s.first_layer
      s.last_layer
      s.has_lm_head
    ≡ ok (0 ∷ [])
unfolding get_shard_tensor_indices collect_layers shard ceil_div group_tensors_by_layer get_layer_id
    strip_prefix find parse_u32
first_plan = refl

two_shards : 0 < ceil_div 2 1
unfolding ceil_div
two_shards = omega arith

shard-Taken_example : All (Taken two_blocks 2 (range_of (shard 2 1 (ceil_div 2 1) 0))) (0 ∷ [])
shard-Taken_example =
    shard-Taken two_blocks 2 1 0 (0 ∷ []) (omega arith) (omega arith) (omega arith) two_shards
      first_plan
