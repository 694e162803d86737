-- ===== src/Agent/Node.antt =====
-- `main` of node-agent/src/main.rs: how the node starts, what it announces, and how it ends.
pub mod Discovery
pub mod Ending
pub mod Broadcasting
pub mod Laws
use arcflame.Base.{
  ℕ, zero, suc, ◌+◌, min, Bool, true, false, List, [], ◌∷◌, ◌++◌, Option, none, some, length,
  if◌then◌else◌,
}
use arcflame.Base.Text.{codes}
use arcflame.Agent.{Text, Try, done, failed, Floats, decimal, ◌>>=◌, pure}
use arcflame.Agent.Rpc.{Processes, RpcServer, new, start, stop}
use arcflame.Agent.Hardware.{HardwareReport, CpuInfo, MemoryInfo, GpuInfo, name_or_unknown}
use arcflame.Agent.Node.Discovery.{DiscoveryMessage}
use arcflame.Agent.Node.Ending.{Future, Events, ending}
use arcflame.Agent.Service.{NodeService}

pub record Args : Type 0 where
  pub grpc_port : ℕ
  pub name : Option Text
  pub orchestrator_port : ℕ
  pub orchestrator_host : Option Text
  pub enable_rpc : Bool
  pub rpc_port : Option ℕ
  pub rpc_server_bin : Text

-- What a machine says of itself; `machine_uid::get` and the reading of /etc/hostname may fail.
pub record Host : Type 0 where
  pub machine_uid : Try Text
  pub hostname_file : Try Text
  pub version : Text
  pub os : Text

-- `.ok().filter(|s| !s.is_empty()).unwrap_or_else(…)`
abbrev machine_id : Text → Try Text → Text
machine_id default (failed e) = default
machine_id default (done []) = default
machine_id default (done (c ∷ cs)) = c ∷ cs

unfoldable pub hostname : Host → Text
hostname host = name_or_unknown host.hostname_file

unfoldable pub node_id : Args → Host → Text
unfolding hostname
node_id args host =
    machine_id (hostname host) host.machine_uid
    ++ (codes "-" ++ (hostname host ++ (codes "-" ++ decimal args.grpc_port)))

-- `saturating_add` of a `u16`
unfoldable pub effective_rpc_port : Args → ℕ
effective_rpc_port args =
    if args.enable_rpc
    then elim args.rpc_port [ some port ↦ port | none ↦ min (args.grpc_port + 1000) 65535 ]
    else 0

unfoldable pub node_name : Args → Host → Text
unfolding hostname
node_name args host = elim args.name [ some name ↦ name | none ↦ hostname host ]

-- The body of the registration.
pub record Payload : Type 0 where
  pub node_id : Text
  pub name : Text
  pub grpc_port : ℕ
  pub rpc_port : ℕ
  pub version : Text
  pub os : Text
  pub cpu_cores : ℕ
  pub ram_bytes : ℕ
  pub gpu_count : ℕ

module _ (P : Processes) where
  -- What runs once the node is started.
  pub record Started (N : Floats) : Type 0 where
    pub rpc_server : Option (RpcServer P)
    pub message : DiscoveryMessage
    pub registration : Option (Text × Payload)
    pub service : NodeService N

  -- `Some(rpc)` is kept also if the start failed.
  unfoldable pub start_rpc : Args → P.State → Option (RpcServer P) × P.State
  start_rpc args = elim args.enable_rpc [
    | false ↦ pure none
    | true ↦ start P (new P (effective_rpc_port args) args.rpc_server_bin) >>= λ (r, rpc).
        pure (some rpc)
  ]

  unfoldable pub stop_rpc : Option (RpcServer P) → P.State → Option (RpcServer P) × P.State
  stop_rpc none = pure none
  stop_rpc (some rpc) = stop P rpc >>= λ rpc'. pure (some rpc')

  module _ {N : Floats} (args : Args) (host : Host) (report : HardwareReport N) where
    abbrev discovery_message : DiscoveryMessage
    unfolding node_id node_name effective_rpc_port
    discovery_message = record {
      node_id = node_id args host;
      node_name = node_name args host;
      grpc_port = args.grpc_port;
      rpc_port = effective_rpc_port args;
      version = host.version;
      os = host.os;
    }

    abbrev cores_of : Option (CpuInfo N) → ℕ
    cores_of none = 0
    cores_of (some cpu) = cpu.cores

    abbrev ram_of : Option MemoryInfo → ℕ
    ram_of none = 0
    ram_of (some memory) = memory.total_bytes

    abbrev gpus_of : List (GpuInfo N) → ℕ
    gpus_of gpus = length gpus

    abbrev payload : Payload
    unfolding node_id node_name effective_rpc_port
    payload = record {
      node_id = node_id args host;
      name = node_name args host;
      grpc_port = args.grpc_port;
      rpc_port = effective_rpc_port args;
      version = host.version;
      os = host.os;
      cpu_cores = cores_of report.cpu;
      ram_bytes = ram_of report.memory;
      gpu_count = gpus_of report.gpus;
    }

    abbrev register_url : Text → Text
    register_url orchestrator_host =
        codes "http://"
        ++ (orchestrator_host
            ++ (codes ":" ++ (decimal args.orchestrator_port ++ codes "/api/nodes/register")))

    abbrev registration_of : Option Text → Option (Text × Payload)
    registration_of none = none
    registration_of (some orchestrator_host) = some (register_url orchestrator_host, payload)

    -- `main` up to the service; the answer to the registration is only logged.
    unfoldable pub start_node : P.State → Started N × P.State
    unfolding start_rpc node_id node_name effective_rpc_port payload discovery_message
    start_node = start_rpc args >>= λ rpc. pure (record {
      rpc_server = rpc;
      message = discovery_message;
      registration = registration_of args.orchestrator_host;
      service = record {
        node_id = node_id args host;
        node_name = node_name args host;
        hardware_report = report;
        addr = codes "0.0.0.0:" ++ decimal args.grpc_port;
        rpc_port = effective_rpc_port args;
      };
    })

  -- How a run of `main` ended: its result, when it set the shutdown flag, and the rpc-server.
  pub record Exit : Type 0 where
    pub result : Try (Unit {0})
    pub shutdown_at : Option ℕ
    pub rpc_server : Option (RpcServer P)

  -- What follows the `select!` that ended in second `t`.
  abbrev pub stop_node : Option (RpcServer P) → ℕ × Try (Unit {0}) → P.State → Exit × P.State
  unfolding stop_rpc
  stop_node rpc (t, result) = stop_rpc rpc >>= λ rpc'.
      pure (record { result = result; shutdown_at = some t; rpc_server = rpc' })

  module _ {N : Floats} (args : Args) (host : Host) where
    -- The whole of `main`: the hardware report, or its error; `serving t` is what the machine does in the
    -- `t` seconds until the service ends or a signal comes. Without either it never ends.
    unfoldable pub run_node :
        Events
        → (ℕ → P.State → P.State)
        → Try (HardwareReport N)
        → P.State
        → Option (Exit × P.State)
    unfolding start_node stop_node
    run_node events serving (failed e) s =
        some (record { result = failed e; shutdown_at = none; rpc_server = none }, s)
    run_node events serving (done report) s =
        let (started, s') = start_node args host report s in
        elim (ending events) [
          | none ↦ none
          | some (t, result) ↦ some (stop_node started.rpc_server (t, result) (serving t s'))
        ]
