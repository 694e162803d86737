-- ===== src/Agent/Service.antt =====
-- node-agent/src/network/grpc_server.rs: the handlers of the node's service; `forward_stream` is in
-- `Stream`.
pub mod Replies
pub mod Generate
pub mod Stream
pub mod Tokens
pub mod Argmax
pub mod Modes
pub mod Answers
pub mod Recorded
pub mod Positions
pub mod Decoding
pub mod Greedy
pub mod Laws
use arcflame.Base.{
  ℕ, ◌%◌, ◌^◌, Bool, true, false, List, [], ◌++◌, Option, none, some, ltb, ◌==◌, if◌then◌else◌,
}
use arcflame.Base.Text.{codes, ℤ, pos, negsuc}
use arcflame.Agent.{Text, Try, done, failed, System, ◌>>=◌, pure, Floats}
use arcflame.Agent.Tuning.{TuningRequest, TuningResponse, apply_tuning}
use arcflame.Agent.Drivers.{DriverReport, audit}
use arcflame.Agent.Overclocking.{
  OverclockingStatus, apply_safe_tuning, apply_aggressive_tuning, get_status,
}
use arcflame.Agent.Hardware.{HardwareReport}
use arcflame.Agent.Hardware.Benchmark.{BenchmarkResult, run_cpu_benchmark}
use arcflame.Agent.Inference.{
  Llama, World, ShardConfig, LoadStatus, ForwardRequest, ForwardResponse,
}
use arcflame.Agent.Inference.Entry
use arcflame.Agent.Service.Replies.{
  Reply, response, status, Status, Messages, unimplemented, internal_status,
}
use arcflame.Agent.Service.Stream.{forward_stream}

pub record RegisterResponse : Type 0 where
  pub accepted : Bool
  pub orchestrator_id : Text
  pub session_token : Text

pub record HeartbeatResponse : Type 0 where
  pub acknowledged : Bool
  pub commands : List Text

pub record PerfModeResponse : Type 0 where
  pub applied : Bool
  pub message : Text
  pub before : List (Text × Text)
  pub after : List (Text × Text)

pub record InferenceStats : Type 0 where
  pub layers_loaded : ℕ
  pub total_forward_calls : ℕ
  pub total_tokens_processed : ℕ
  pub kv_cache_used_bytes : ℕ
  pub peak_memory_bytes : ℕ

pub record RpcEndpoint : Type 0 where
  pub running : Bool
  pub port : ℕ
  pub address : Text

pub record NodeService (N : Floats) : Type 0 where
  pub node_id : Text
  pub node_name : Text
  pub hardware_report : HardwareReport N
  pub addr : Text
  pub rpc_port : ℕ

unfoldable pub register : Reply RegisterResponse
register = response (record {
  accepted = true;
  orchestrator_id = codes "arcflare-orch";
  session_token = codes "dev-session";
})

unfoldable pub heartbeat : Reply HeartbeatResponse
heartbeat = response (record { acknowledged = true; commands = [] })

unfoldable pub get_hardware_info : {N : Floats} → NodeService N → Reply (HardwareReport N)
get_hardware_info service = response (record service.hardware_report { node_id = service.node_id })

-- Of the request nothing is used. The time that the loop takes is an argument.
unfoldable pub run_benchmark : (N : Floats) → N.F → Reply (BenchmarkResult N)
unfolding run_cpu_benchmark
run_benchmark N elapsed = response (run_cpu_benchmark N elapsed)

-- The statistics are constant; the average time, a float, is 0.
unfoldable pub get_inference_stats : Reply InferenceStats
get_inference_stats = response (record {
  layers_loaded = 0;
  total_forward_calls = 0;
  total_tokens_processed = 0;
  kv_cache_used_bytes = 0;
  peak_memory_bytes = 0;
})

unfoldable pub get_rpc_endpoint : {N : Floats} → NodeService N → Reply RpcEndpoint
get_rpc_endpoint service =
    response (record { running = ltb 0 service.rpc_port; port = service.rpc_port; address = [] })

-- `Mode::try_from`
pub data Mode : Type 0 where
  safe aggressive custom : Mode

abbrev pub mode_of : ℤ → Option Mode
mode_of (pos n) =
    if n == 0
    then some safe
    else if n == 1
    then some aggressive
    else if n == 2
    then some custom
    else none
mode_of (negsuc n) = none

abbrev pub mode_reply : Try Text → Reply PerfModeResponse
mode_reply (done message) =
    response (record { applied = true; message = message; before = []; after = [] })
mode_reply (failed e) =
    response (record { applied = false; message = codes "Failed: " ++ e; before = []; after = [] })

module _ (S : System) where
  open S use {State}

  abbrev pub tune_for : Option Mode → State → Try Text × State
  tune_for (some safe) = apply_safe_tuning S
  tune_for (some aggressive) = apply_aggressive_tuning S
  tune_for (some custom) = pure (done (codes "Custom mode applied"))
  tune_for none = pure (done (codes "Custom mode applied"))

  unfoldable pub set_performance_mode : ℤ → State → Reply PerfModeResponse × State
  unfolding apply_safe_tuning apply_aggressive_tuning
  set_performance_mode mode = do result ← tune_for (mode_of mode); pure (mode_reply result)

  unfoldable pub get_overclocking_status :
      (N : Floats) → State → Reply (OverclockingStatus S N) × State
  unfolding get_status
  get_overclocking_status N = do s ← get_status S N; pure (response s)

  unfoldable pub check_drivers : State → Reply DriverReport × State
  unfolding audit
  check_drivers = do report ← audit S; pure (response report)

  unfoldable pub apply_system_tuning : TuningRequest → State → Reply TuningResponse × State
  unfolding apply_tuning
  apply_system_tuning req = do result ← apply_tuning S req; pure (response result)

abbrev pub not_compiled : Status
not_compiled = record {
  code = unimplemented;
  message = codes "Inference support not compiled. Build with --features inference";
}

-- `map_err(|e| Status::internal(format!(…)))`
abbrev pub or_internal : {A : Type 0} → Text → Try A → Reply A
or_internal prefix (done a) = response a
or_internal prefix (failed e) = status (internal_status (prefix ++ e))

-- The handlers of both builds: with the feature `inference`, and without.
module _ (L : Llama) (inference : Bool) where
  abbrev if_compiled :
      {A : Type 0} → Text → (World L → Try A × World L) → World L → Reply A × World L
  if_compiled prefix m w = elim inference [
    | true ↦ let (r, w') = m w in (or_internal prefix r, w')
    | false ↦ (status not_compiled, w)
  ]

  unfoldable pub load_shard : ShardConfig → World L → Reply LoadStatus × World L
  load_shard config = if_compiled (codes "Failed to load shard: ") (Entry.load_shard L config)

  unfoldable pub forward : ForwardRequest → World L → Reply ForwardResponse × World L
  forward req = if_compiled (codes "Forward pass failed: ") (Entry.forward L req)

  unfoldable pub unload_shard : World L → Reply (Unit {0}) × World L
  unload_shard w = (response tt, elim inference [ true ↦ Entry.unload_shard L w | false ↦ w ])

  -- `forward_stream`: the stream, or an error.
  unfoldable pub open_stream : Option Text → List (Reply ForwardRequest) → World L → Reply Messages
  unfolding forward_stream
  open_stream env reqs w = elim inference [
    | true ↦ response (forward_stream L env reqs w)
    | false ↦ status not_compiled
  ]
