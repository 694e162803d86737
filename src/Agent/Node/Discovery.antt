-- ===== src/Agent/Node/Discovery.antt =====
-- node-agent/src/network/discovery.rs: the broadcaster that announces the node.
use arcflame.Base.{ℕ, zero, suc, Bool, true, false, List, [], ◌∷◌, ◌++◌, Option, none, some}
use arcflame.Base.Text.{codes}
use arcflame.Agent.{Text, Try, done, failed, decimal}

pub record DiscoveryMessage : Type 0 where
  pub node_id : Text
  pub node_name : Text
  pub grpc_port : ℕ
  pub rpc_port : ℕ
  pub version : Text
  pub os : Text

-- The sockets of tokio, and the writing of a message by serde_json.
pub record Udp : Type 1 where
  pub State : Type 0
  pub Socket : Type 0
  pub to_vec : DiscoveryMessage → Try (List ℕ)
  pub bind : Text → State → Try Socket × State
  pub set_broadcast : Socket → Bool → State → Try (Unit {0}) × State
  pub send_to : Socket → List ℕ → Text → State → Try (Unit {0}) × State

abbrev pub discovery_port : ℕ
discovery_port = 5678

abbrev pub discovery_interval : ℕ
discovery_interval = 5

-- The time goes by seconds: `shutdown t` is the flag at second `t`. After a message the loop waits five
-- seconds, or until a poll, once a second, finds the flag set.
unfoldable pub wait : (ℕ → Bool) → ℕ → ℕ → ℕ
wait shutdown zero t = t
wait shutdown (suc polls) t = elim (shutdown (suc t)) [
  | true ↦ suc t
  | false ↦ wait shutdown polls (suc t)
]

module _ (U : Udp) where
  open U use {State, Socket, to_vec, bind, set_broadcast, send_to}

  -- When the broadcaster ended, the seconds in which it tried to send, and what it left.
  pub record Stopped : Type 0 where
    pub at : ℕ
    pub sent : List ℕ
    pub machine : State

  abbrev pub dest : Text
  dest = codes "255.255.255.255:" ++ decimal discovery_port

  -- The loop. A send takes no time, and one that fails is only logged. The fuel bounds the rounds.
  unfoldable pub broadcast : Socket → List ℕ → ℕ → (ℕ → Bool) → ℕ → State → Option Stopped
  unfolding wait
  broadcast socket payload zero shutdown t s = none
  broadcast socket payload (suc fuel) shutdown t s = elim (shutdown t) [
    | true ↦ some (record { at = t; sent = []; machine = s })
    | false ↦
        let (r, s') = send_to socket payload dest s in
        elim (broadcast socket payload fuel shutdown (wait shutdown discovery_interval t) s') [
          | none ↦ none
          | some stopped ↦ some (record stopped { sent = t ∷ stopped.sent })
        ]
  ]

  abbrev pub enable : Socket → Try (Unit {0}) × State → Try Socket × State
  enable socket (done _, s) = (done socket, s)
  enable socket (failed e, s) = (failed e, s)

  abbrev pub after_bind : Try Socket × State → Try Socket × State
  after_bind (done socket, s) = enable socket (set_broadcast socket true s)
  after_bind (failed e, s) = (failed e, s)

  unfoldable pub open_socket : State → Try Socket × State
  open_socket s = after_bind (bind (codes "0.0.0.0:0") s)

  -- The task: without a socket it ends at once.
  abbrev pub run_task : List ℕ → ℕ → (ℕ → Bool) → Try Socket × State → Option Stopped
  run_task payload fuel shutdown (failed e, s) = some (record { at = 0; sent = []; machine = s })
  run_task payload fuel shutdown (done socket, s) = broadcast socket payload fuel shutdown 0 s

  unfoldable pub start_broadcaster : ℕ → (ℕ → Bool) → DiscoveryMessage → State → Option Stopped
  unfolding open_socket broadcast
  start_broadcaster fuel shutdown msg s = elim (to_vec msg) [
    | failed e ↦ some (record { at = 0; sent = []; machine = s })
    | done payload ↦ run_task payload fuel shutdown (open_socket s)
  ]
