-- ===== src/Agent/Service/Replies.antt =====
-- What the handlers of node-agent/src/network/grpc_server.rs answer: a response or a status of tonic.
use arcflame.Base.{List}
use arcflame.Agent.{Text}
use arcflame.Agent.Inference.{ForwardResponse}

pub data Code : Type 0 where
  internal unimplemented : Code

pub record Status : Type 0 where
  pub code : Code
  pub message : Text

-- `Result<A, Status>`
pub data Reply (A : Type 0) : Type 0 where
  response : A → Reply A
  status : Status → Reply A

abbrev pub internal_status : Text → Status
internal_status message = record { code = internal; message = message }

-- A stream of responses.
abbrev pub Messages : Type 0
Messages = List (Reply ForwardResponse)
