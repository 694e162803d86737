-- ===== src/Agent/Rpc.antt =====
-- node-agent/src/inference/rpc.rs: the child process that serves the model's tensors.
pub mod Laws
use arcflame.Base.{ℕ, Bool, true, false, List, [], ◌∷◌, ◌++◌, Option, none, some}
use arcflame.Base.Text.{codes}
use arcflame.Agent.{Text, Try, done, failed, decimal, ◌>>=◌, pure}

-- The processes of the machine: `spawn` starts one, and `kill` ends it and waits for its end.
pub record Processes : Type 1 where
  pub State : Type 0
  pub Child : Type 0
  pub spawn : Text → List Text → State → Try Child × State
  pub kill : Child → State → Try (Unit {0}) × State

abbrev pub start_args : ℕ → List Text
start_args port = codes "-H" ∷ codes "0.0.0.0" ∷ codes "-p" ∷ decimal port ∷ []

module _ (P : Processes) where
  open P use {State, Child, spawn, kill}

  -- Each call holds the lock of `process` from its first to its last step.
  pub record RpcServer : Type 0 where
    pub port : ℕ
    pub bin : Text
    pub process : Option Child

  unfoldable pub new : ℕ → Text → RpcServer
  new port bin = record { port = port; bin = bin; process = none }

  abbrev spawn_error : Text → Text → Text
  spawn_error bin e = codes "Failed to spawn rpc-server (" ++ (bin ++ (codes "): " ++ e))

  abbrev pub after_spawn : RpcServer → Try Child → Try (Unit {0}) × RpcServer
  after_spawn server (done child) = (done tt, record server { process = some child })
  after_spawn server (failed e) = (failed (spawn_error server.bin e), server)

  unfoldable pub start : RpcServer → State → (Try (Unit {0}) × RpcServer) × State
  start server = elim server.process [
    | some child ↦ pure (done tt, server)
    | none ↦ spawn server.bin (start_args server.port) >>= λ r. pure (after_spawn server r)
  ]

  -- A failure to kill is only logged.
  unfoldable pub stop : RpcServer → State → RpcServer × State
  stop server = elim server.process [
    | none ↦ pure server
    | some child ↦ kill child >>= λ r. pure (record server { process = none })
  ]

  unfoldable pub is_running : RpcServer → Bool
  is_running server = elim server.process [ none ↦ false | some child ↦ true ]
