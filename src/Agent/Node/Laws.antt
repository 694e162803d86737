-- ===== src/Agent/Node/Laws.antt =====
-- The start and the end of the node: node-agent/src/main.rs.
use arcflame.Base.{ℕ, ◌<◌, ◌≡◌, refl, ap, ◌∙◌, Bool, true, false, [], Option, none, some, lt→ltb}
use arcflame.Agent.{Text, Try, done, failed, Floats, ◌>>=◌, pure}
use arcflame.Agent.Rpc.{Processes, RpcServer, new, start, stop, start_args, after_spawn, is_running}
use arcflame.Agent.Rpc.Laws.{Live, nothing, handle, recorded, start-Kept}
use arcflame.Agent.Hardware.{HardwareReport}
use arcflame.Agent.Service.{get_rpc_endpoint, RpcEndpoint}
use arcflame.Agent.Service.Replies.{Reply, response, status}
use arcflame.Agent.Node.{
  Args, Host, effective_rpc_port, start_rpc, stop_rpc, start_node, stop_node, run_node, Exit,
}
use arcflame.Agent.Node.Ending.{Events, ending}

abbrev pub ClaimsRunning : Reply RpcEndpoint → Type 0
ClaimsRunning (response r) = r.running ≡ true
ClaimsRunning (status e) = ⊥

module _ (P : Processes) (args : Args) (s : P.State) where
  abbrev server : RpcServer P
  server = record { port = effective_rpc_port args; bin = args.rpc_server_bin; process = none }

  start_rpc-enabled : args.enable_rpc ≡ true → (start_rpc P args s).0 ≡ some (start P server s).0.1
  unfolding start_rpc new
  start_rpc-enabled enabled = ap (λ b. (rpc b s).0) enabled
    where
      rpc : Bool → P.State → Option (RpcServer P) × P.State
      rpc b = elim b [ false ↦ pure none | true ↦ start P server >>= λ (r, kept). pure (some kept) ]

  start-fails :
      (e : Text)
      → (P.spawn args.rpc_server_bin (start_args (effective_rpc_port args)) s).0 ≡ failed e
      → (start P server s).0.1 ≡ server
  unfolding start
  start-fails e fails = ap (λ r. (after_spawn P server r).1) fails

module _ (P : Processes) {N : Floats} (args : Args) (host : Host) (report : HardwareReport N) where
  -- If the rpc-server is asked for on a port that is not 0, and its spawn fails, the node still announces
  -- that port and its service still says that the server is running, though it is not.
  pub start_node_misreports :
      (s : P.State) (e : Text)
      → args.enable_rpc ≡ true
      → 0 < effective_rpc_port args
      → (P.spawn args.rpc_server_bin (start_args (effective_rpc_port args)) s).0 ≡ failed e
      → let started = (start_node P args host report s).0 in
        ClaimsRunning (get_rpc_endpoint started.service)
        × (0 < started.message.rpc_port)
        × ((rpc : RpcServer P) × (started.rpc_server ≡ some rpc) × (is_running P rpc ≡ false))
  unfolding start_node get_rpc_endpoint is_running
  start_node_misreports s e enabled port fails = (
    lt→ltb 0 (effective_rpc_port args) port,
    port,
    (
      server P args s,
      start_rpc-enabled P args s enabled ∙ ap some (start-fails P args s e fails),
      refl,
    ),
  )

module _ (P : Processes) where
  -- A state without the history, lifted.
  abbrev pub aside : (P.State → P.State) → (recorded P).State → (recorded P).State
  aside serving w = (serving w.0, w.1)

  stop_rpc-Reaped :
      (port : ℕ) (bin : Text) (process : Option P.Child) (s : (recorded P).State)
      → Live s.1 (handle process)
      → let server : RpcServer (recorded P) = record {
        port = port;
        bin = bin;
        process = process;
      } in
        Live (stop_rpc (recorded P) (some server) s).1.1 []
  unfolding stop_rpc stop
  stop_rpc-Reaped port bin none s k = k
  stop_rpc-Reaped port bin (some c) s k = Live.kill c k

  -- What `run_node` owes when its service ends, with this result, in second `t`.
  abbrev pub EndsClean :
      ℕ → Try (Unit {0}) → Option (Exit (recorded P) × (recorded P).State) → Type 0
  EndsClean t result none = ⊥
  EndsClean t result (some (exit, s)) =
      (exit.result ≡ result) × (exit.shutdown_at ≡ some t) × Live s.1 []

  module _ {N : Floats} (host : Host) (report : HardwareReport N) where
    started-EndsClean :
        (args : Args) (serving : P.State → P.State) (s : P.State) (t : ℕ) (result : Try (Unit {0}))
        → let (started, s') = start_node (recorded P) args host report (s, []) in
          EndsClean t result
            (some (stop_node (recorded P) started.rpc_server (t, result) (aside serving s')))
    unfolding start_node start_rpc stop_rpc stop_node new
    started-EndsClean args serving s t result = by_case args.enable_rpc
      where
        by_case :
            (enabled : Bool)
            → let args' : Args = record args { enable_rpc = enabled } in
              let (started, s') = start_node (recorded P) args' host report (s, []) in
              EndsClean t result
                (some (stop_node (recorded P) started.rpc_server (t, result) (aside serving s')))
        by_case false = (refl, refl, nothing)
        by_case true =
            let args' : Args = record args { enable_rpc = true } in
            let port = effective_rpc_port args' in
            let (r, s') = start (recorded P) (new (recorded P) port args.rpc_server_bin) (s, []) in
            (
              refl,
              refl,
              stop_rpc-Reaped r.1.port r.1.bin r.1.process (aside serving s')
                  (start-Kept P port args.rpc_server_bin none (s, []) nothing),
            )

    -- Let the hardware report be made, and the service end or a signal come, in second `t`. Then the node
    -- ends, with the service's result, or without an error on a signal; it has set the shutdown flag in
    -- that second; and, whatever the machine does in the meantime and whatever `spawn` and `kill` answer, no
    -- rpc-server that it started is left alive.
    pub run_node_reaps :
        (args : Args) (events : Events) (serving : ℕ → P.State → P.State) (s : P.State) (t : ℕ)
        (result : Try (Unit {0}))
        → ending events ≡ some (t, result)
        → EndsClean t result
            (run_node (recorded P) args host events (λ u. aside (serving u)) (done report) (s, []))
    unfolding run_node
    run_node_reaps args events serving s t result ends =
        rw (run_node, ends) (started-EndsClean args (serving t) s t result)
