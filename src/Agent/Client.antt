-- ===== src/Agent/Client.antt =====
-- node-agent/src/network/grpc_client.rs: the connection to the orchestrator.
use arcflame.Base.{Bool, List, ◌++◌, Option}
use arcflame.Base.Text.{codes, ℤ}
use arcflame.Agent.{Text, Try, done, failed, Floats, ◌>>=◌, pure}
use arcflame.Agent.Hardware.{HardwareReport}
use arcflame.Agent.Service.Replies.{Reply}

pub record NodeStatus (N : Floats) : Type 0 where
  pub node_id : Text
  pub state : Text
  pub hardware : Option (HardwareReport N)
  pub current_temperature : N.F
  pub current_load : N.F

pub record PartitionRequest : Type 0 where
  pub model_name : Text
  pub model_size_bytes : ℤ
  pub num_layers : ℤ
  pub max_context : ℤ

pub record NodePartition : Type 0 where
  pub node_id : Text
  pub first_layer : ℤ
  pub num_layers : ℤ
  pub has_lm_head : Bool
  pub shard_download_url : Text
  pub peer_seeders : List Text

pub record PartitionAssignment : Type 0 where
  pub model_name : Text
  pub partitions : List NodePartition

-- The client that tonic generates: a channel that may fail to open, and a call for each method. What a
-- call changes is in the state.
pub record OrchestratorClient (N : Floats) : Type 1 where
  pub State : Type 0
  pub Channel : Type 0
  pub connect : Text → State → Try Channel × State
  pub report_node_status : Channel → NodeStatus N → State → Reply (Unit {0}) × State
  pub request_partition : Channel → PartitionRequest → State → Reply PartitionAssignment × State

module _ {N : Floats} (O : OrchestratorClient N) where
  open O use {State, Channel}

  pub record OrchestratorConnection : Type 0 where
    pub client : Channel

  abbrev pub connection : Try Channel → Try OrchestratorConnection
  connection (done client) = done (record { client = client })
  connection (failed e) = failed e

  unfoldable pub connect : Text → State → Try OrchestratorConnection × State
  connect addr = do client ← O.connect (codes "http://" ++ addr); pure (connection client)

  unfoldable pub report_status :
      OrchestratorConnection → NodeStatus N → State → Reply (Unit {0}) × State
  report_status self node_status = O.report_node_status self.client node_status

  unfoldable pub request_partition :
      OrchestratorConnection → PartitionRequest → State → Reply PartitionAssignment × State
  request_partition self request = O.request_partition self.client request
