-- ===== src/Agent/MachineTests.antt =====
-- Runs of the node agent's performance modes, hardware report, start and end at concrete inputs.
use arcflame.Base.{
  All, ℕ, ◌+◌, ◌*◌, ◌/◌, ◌<◌, ◌≡◌, refl, Bool, true, false, List, [], ◌∷◌, ◌++◌, none, some, arith,
  leb,
}
use arcflame.Base.Text.{codes, pos}
use arcflame.Agent.{Text, System, done, failed, Floats}
use arcflame.Agent.Rpc.{Processes, RpcServer, is_running}
use arcflame.Agent.Rpc.Laws.{recorded}
use arcflame.Agent.Hardware.{Sysinfo, CpuInfo, DiskInfo, HardwareReport}
use arcflame.Agent.Hardware.Cpu.{
  nothing_scanned, scan_lines, set_model, set_flags, set_features, model_prefix, flags_prefix,
  features_prefix,
}
use arcflame.Agent.Hardware.Gpu.{collect, detect_gpus}
use arcflame.Agent.Hardware.Unloaded.{Unmeasured, collect_unloaded}
use arcflame.Agent.Hardware.Laws.{last_with, scan_lines_last, vendors, one_if, detect_gpus-vendors}
use arcflame.Agent.Service.{mode_of, set_performance_mode, get_rpc_endpoint}
use arcflame.Agent.Service.Laws.{Applied, set_performance_mode-Applied}
use arcflame.Agent.Service.Modes.{
  Runs, governor_safe, governor, probe_intel, core, cache, apply, probe_ryzen, tdp, probe_nvidia,
  power, clock, set_performance_mode_keeps,
}
use arcflame.Agent.Node.{Args, Host, effective_rpc_port, start_node, run_node}
use arcflame.Agent.Node.Discovery.{
  DiscoveryMessage, Udp, Stopped, start_broadcaster, open_socket, broadcast, wait,
}
use arcflame.Agent.Node.Ending.{Events, ending, shutdown_signal, select}
use arcflame.Agent.Node.Broadcasting.{Announces, broadcast_stops}
use arcflame.Agent.Node.Laws.{
  ClaimsRunning, aside, EndsClean, start_node_misreports, run_node_reaps,
}

-- A machine without commands, on which every write fails. It counts what was tried.
abbrev refusing : System
refusing = record {
  State = ℕ × ℕ;
  exists = λ path s. false;
  read_to_string = λ path s. (done (codes "0"), s);
  read_dir = λ path s. (failed (codes "none"), s);
  write = λ path text s. (failed (codes "denied"), (s.0, s.1 + 1));
  output = λ command args s. (failed (codes "none"), (s.0 + 1, s.1));
}

set_performance_mode-Applied_example : Applied (set_performance_mode refusing (pos 0) (0, 0)).0
set_performance_mode-Applied_example = set_performance_mode-Applied refusing (pos 0) (0, 0)

-- Mode 2 runs no command.
no_command :
    (command : Text) (args : List Text) (t : ℕ × ℕ)
    → Runs (mode_of (pos 2)) command args
    → t.0 ≡ 0
    → t.0 + 1 ≡ 0
no_command command args t (governor_safe on) q = cc
no_command command args t (governor on) q = cc
no_command command args t (probe_intel on) q = cc
no_command command args t (core on) q = cc
no_command command args t (cache on) q = cc
no_command command args t (apply on) q = cc
no_command command args t (probe_ryzen on) q = cc
no_command command args t (tdp on) q = cc
no_command command args t (probe_nvidia on) q = cc
no_command command args t (power on) q = cc
no_command command args t (clock on) q = cc

set_performance_mode_keeps_example : (set_performance_mode refusing (pos 2) (0, 0)).1.0 ≡ 0
set_performance_mode_keeps_example =
    set_performance_mode_keeps refusing (λ t. t.0 ≡ 0) (pos 2) (0, 0) (λ path t q. q) no_command
      (λ path text t writes q. q) refl

-- Floats that are natural numbers.
abbrev whole : Floats
whole = record {
  F = ℕ;
  parse_f64 = λ s. none;
  of_nat = λ n. n;
  mul = λ a b. a * b;
  div = λ a b. a / b;
  to_u64 = λ a. a;
}

-- A handle is the number of threads that it was loaded with.
abbrev sysinfo : Sysinfo (ℕ × ℕ)
sysinfo = record {
  Handle = ℕ;
  new = 0;
  new_all = λ s. 8;
  refresh_memory = λ s h. h;
  physical_core_count = λ h. some 4;
  cpus = λ h. h;
  total_memory = λ h. h * 1024;
  available_memory = λ h. h * 512;
  total_swap = λ h. 0;
  free_swap = λ h. 0;
  new_disks = [];
}

abbrev cpuinfo : List Text
cpuinfo =
    (model_prefix ++ codes "A")
    ∷ (flags_prefix ++ codes "fpu avx2")
    ∷ (model_prefix ++ codes "B")
    ∷ []

scan_lines_last_example :
    scan_lines cpuinfo nothing_scanned
    ≡ set_features (last_with features_prefix cpuinfo) (
        set_flags
          (last_with flags_prefix cpuinfo)
          (set_model (last_with model_prefix cpuinfo) nothing_scanned))
scan_lines_last_example = scan_lines_last cpuinfo nothing_scanned

collect_unloaded_example :
    let r = (collect refusing whole sysinfo (codes "x86_64") (0, 0)).0 in
    ((c : CpuInfo whole) × (r.cpu ≡ some c) × (c.threads ≡ 0))
    × All (Unmeasured refusing whole sysinfo (codes "x86_64")) r.gpus
    × ((d : DiskInfo whole) × (r.disk ≡ some d)
        × (d.total_bytes ≡ 0)
        × (d.available_bytes ≡ 0)
        × (d.is_ssd ≡ false))
collect_unloaded_example =
    collect_unloaded refusing whole sysinfo (codes "x86_64") refl refl refl (0, 0)

detect_gpus-vendors_example :
    (nvidia amd intel : Bool) × (vendors refusing whole sysinfo
        (codes "x86_64")
        (detect_gpus refusing whole sysinfo (codes "x86_64") (0, 0)).0
      ≡ one_if refusing whole sysinfo (codes "x86_64") nvidia (codes "NVIDIA")
        ++ (one_if refusing whole sysinfo (codes "x86_64") amd (codes "AMD")
            ++ one_if refusing whole sysinfo (codes "x86_64") intel (codes "Intel")))
detect_gpus-vendors_example = detect_gpus-vendors refusing whole sysinfo (codes "x86_64") (0, 0)

-- The flag is set in second 12.
abbrev at_twelve : ℕ → Bool
at_twelve t = leb 12 t

-- Sockets that open; a send fails. The machine counts the sends.
abbrev counted : Udp
counted = record {
  State = ℕ;
  Socket = Unit {0};
  to_vec = λ msg. done msg.node_id;
  bind = λ addr s. (done tt, s);
  set_broadcast = λ socket on s. (done tt, s);
  send_to = λ socket payload dest s. (failed (codes "unreachable"), s + 1);
}

abbrev announcement : DiscoveryMessage
announcement = record {
  node_id = codes "uid-box-50051";
  node_name = codes "box";
  grpc_port = 50051;
  rpc_port = 0;
  version = codes "0.1.0";
  os = codes "linux";
}

broadcast_stops_example :
    (r : Stopped counted) × (start_broadcaster counted 13 at_twelve announcement 0 ≡ some r)
    × Announces counted 12 announcement 0 r
broadcast_stops_example =
    broadcast_stops counted 12 at_twelve (λ t less. ground arith) (λ t reached. ground arith) 13
      announcement 0 (omega arith)

three_sends :
    start_broadcaster counted 13 at_twelve announcement 0
    ≡ some (record { at = 12; sent = 0 ∷ 5 ∷ 10 ∷ []; machine = 3 })
unfolding start_broadcaster open_socket broadcast wait
three_sends = refl

abbrev args : Args
args = record {
  grpc_port = 50051;
  name = none;
  orchestrator_port = 8080;
  orchestrator_host = none;
  enable_rpc = true;
  rpc_port = none;
  rpc_server_bin = codes "rpc-server";
}

abbrev host : Host
host = record {
  machine_uid = done (codes "uid");
  hostname_file = done (codes "box");
  version = codes "0.1.0";
  os = codes "linux";
}

abbrev report : HardwareReport whole
report = record {
  node_id = [];
  cpu = none;
  gpus = [];
  memory = none;
  disk = none;
  network = none;
  benchmark_score = 0;
}

-- No process can be started.
abbrev no_binary : Processes
no_binary = record {
  State = ℕ;
  Child = ℕ;
  spawn = λ bin args s. (failed (codes "not found"), s);
  kill = λ c s. (done tt, s);
}

has_port : 0 < effective_rpc_port args
unfolding effective_rpc_port
has_port = omega arith

start_node_misreports_example :
    let started = (start_node no_binary args host report 0).0 in
    ClaimsRunning (get_rpc_endpoint started.service)
    × (0 < started.message.rpc_port)
    × ((rpc : RpcServer no_binary) × (started.rpc_server ≡ some rpc)
        × (is_running no_binary rpc ≡ false))
start_node_misreports_example =
    start_node_misreports no_binary args host report 0 (codes "not found") refl has_port refl

-- Children are numbered, and each spawn succeeds.
abbrev numbered : Processes
numbered = record {
  State = ℕ;
  Child = ℕ;
  spawn = λ bin args s. (done s, s + 1);
  kill = λ c s. (done tt, s);
}

-- The service fails in second 9, but SIGTERM comes in second 5; Ctrl-C never does.
abbrev events : Events
events = record {
  unix = true;
  ctrl_c = none;
  sigterm = done (some (5, tt));
  served = some (9, failed (codes "transport"));
  picks_ctrl_c = true;
  picks_served = true;
}

ends_at_five : ending events ≡ some (5, done tt)
unfolding ending shutdown_signal select
ends_at_five = refl

run_node_reaps_example : EndsClean numbered 5 (done tt) (
    run_node
      (recorded numbered)
      args
      host
      events
      (λ t. aside numbered (λ s. s + t))
      (done report)
      (0, []))
run_node_reaps_example =
    run_node_reaps numbered host report args events (λ t s. s + t) 0 5 (done tt) ends_at_five
