-- ===== src/Agent/Inference/Entry.antt =====
-- node-agent/src/inference/mod.rs: what the service calls.
use arcflame.Agent.{Try}
use arcflame.Agent.Inference.{
  Llama, World, ShardConfig, LoadStatus, ForwardRequest, ForwardResponse, load_shard_model,
  run_forward_pass, unload_current_shard,
}

module _ (L : Llama) where
  abbrev pub load_shard : ShardConfig → World L → Try LoadStatus × World L
  load_shard config = load_shard_model L config

  abbrev pub forward : ForwardRequest → World L → Try ForwardResponse × World L
  forward request = run_forward_pass L request

  abbrev pub unload_shard : World L → World L
  unload_shard = unload_current_shard L
