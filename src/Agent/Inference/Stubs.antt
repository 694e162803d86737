-- ===== src/Agent/Inference/Stubs.antt =====
-- node-agent/src/inference/model.rs and forward.rs: the branches for a build without the feature
-- `inference`, which no build has, since inference/mod.rs leaves both files out of it.
use arcflame.Base.{ℕ, true, false, [], ◌*◌}
use arcflame.Base.Text.{pos}
use arcflame.Agent.{Try, done}
use arcflame.Agent.Inference.{ShardConfig, LoadStatus, ForwardRequest, ForwardResponse, to_i64}

-- It sleeps for half a second; the milliseconds that passed are an argument.
unfoldable pub load_shard_stub : ℕ → ShardConfig → Try LoadStatus
load_shard_stub elapsed config = done (record {
  loaded = true;
  memory_used_bytes = pos (512 * 1024 * 1024);
  layers_loaded = config.num_layers;
  load_time_ms = to_i64 elapsed;
  error = [];
})

unfoldable pub forward_stub : ℕ → ForwardRequest → Try ForwardResponse
forward_stub elapsed request = done (record {
  hidden_state = request.hidden_state;
  logits = [];
  has_logits = false;
  compute_time_ms = to_i64 elapsed;
})
