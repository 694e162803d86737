-- ===== src/Agent/Service/Stream.antt =====
-- `forward_stream` of node-agent/src/network/grpc_server.rs: the stream of responses to a stream of requests.
use arcflame.Base.{
  ℕ, Bool, true, false, List, [], ◌∷◌, ◌++◌, Option, none, some, ltb, if◌then◌else◌,
}
use arcflame.Base.Text.{codes, ℤ, pos, negsuc}
use arcflame.Agent.{Text, Try, done, failed}
use arcflame.Agent.Inference.{Llama, ForwardRequest, ForwardResponse, World, is_empty_text}
use arcflame.Agent.Inference.Entry
use arcflame.Agent.Service.Replies.{Reply, response, status, Messages, internal_status}
use arcflame.Agent.Service.Generate.{produce, always}

-- `if req.max_tokens > 0 { req.max_tokens as usize } else { 256 }`
abbrev pub token_limit : ℤ → ℕ
token_limit (pos n) = if ltb 0 n then n else 256
token_limit (negsuc n) = 256

-- `env::var("ARCFLARE_MODEL_PATH")`
abbrev pub model_path : Option Text → Text
model_path (some path) = path
model_path none = codes "/models/qwen2.5-0.5b-instruct-q4_k_m.gguf"

-- `while let Some(resp) = rx_stream.next().await { yield resp?; }`: an error ends the stream.
abbrev pub relay : Messages → Messages → Messages
relay [] rest = rest
relay (response r ∷ ms) rest = response r ∷ relay ms rest
relay (status e ∷ ms) rest = status e ∷ []

abbrev pub forwarded : Try ForwardResponse → Messages → Messages
forwarded (done r) rest = response r ∷ rest
forwarded (failed e) rest = status (internal_status (codes "Forward: " ++ e)) ∷ []

module _ (L : Llama) (env : Option Text) where
  -- The responses to one request, and then the rest: a forward pass if there is no prompt.
  abbrev pub answer : Bool → ForwardRequest → World L → (World L → Messages) → Messages
  answer true req w rest = let (r, w') = Entry.forward L req w in forwarded r (rest w')
  answer false req w rest =
      let (ms, w') =
        produce L always (model_path env) req.text_prompt (token_limit req.max_tokens) w in
      relay ms (rest w')

  -- The stream of the responses to a stream of requests. What is computed behind an error is never
  -- asked for.
  unfoldable pub forward_stream : List (Reply ForwardRequest) → World L → Messages
  forward_stream [] w = []
  forward_stream (status e ∷ reqs) w = status e ∷ []
  forward_stream (response req ∷ reqs) w =
      answer (is_empty_text req.text_prompt) req w (λ w'. forward_stream reqs w')
