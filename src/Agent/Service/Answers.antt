-- ===== src/Agent/Service/Answers.antt =====
-- How `forward_stream` of node-agent/src/network/grpc_server.rs answers a stream of requests.
use arcflame.Base.{◌≤◌, ◌≡◌, refl, ap, Bool, true, false, List, [], ◌∷◌, ◌++◌, Option, map, length}
use arcflame.Agent.{Text, Try, done, failed}
use arcflame.Agent.Inference.{Llama, World, ForwardRequest, ForwardResponse, is_empty_text}
use arcflame.Agent.Inference.Entry
use arcflame.Agent.Service.Replies.{Reply, response, status, Status, Messages}
use arcflame.Agent.Service.Generate.{end_response, produce, always}
use arcflame.Agent.Service.Stream.{
  relay, forwarded, answer, forward_stream, model_path, token_limit,
}
use arcflame.Agent.Service.Tokens.{Answered, refused, told, token_message, produce-Answered}

-- The requests and the stream that answers them.
pub data Answers : List (Reply ForwardRequest) → Messages → Type 0 where
  ended : Answers [] []
  -- The request itself is an error of the transport.
  broken :
      {reqs : List (Reply ForwardRequest)} (e : Status) → Answers (status e ∷ reqs) (status e ∷ [])
  prompted :
      {reqs : List (Reply ForwardRequest)} {rest : Messages} (req : ForwardRequest)
      (tokens : List Text)
      → is_empty_text req.text_prompt ≡ false
      → length tokens ≤ token_limit req.max_tokens
      → Answers reqs rest
      → Answers (response req ∷ reqs) (map token_message tokens ++ (response end_response ∷ rest))
  prompt_failed :
      {reqs : List (Reply ForwardRequest)} (req : ForwardRequest) (e : Status)
      → is_empty_text req.text_prompt ≡ false
      → Answers (response req ∷ reqs) (status e ∷ [])
  passed :
      {reqs : List (Reply ForwardRequest)} {rest : Messages} (req : ForwardRequest)
      (resp : ForwardResponse)
      → is_empty_text req.text_prompt ≡ true
      → Answers reqs rest
      → Answers (response req ∷ reqs) (response resp ∷ rest)
  pass_failed :
      {reqs : List (Reply ForwardRequest)} (req : ForwardRequest) (e : Status)
      → is_empty_text req.text_prompt ≡ true
      → Answers (response req ∷ reqs) (status e ∷ [])

module _ (L : Llama) (env : Option Text) where
  relay_tokens :
      (tokens : List Text) (rest : Messages)
      → relay (map token_message tokens ++ (response end_response ∷ [])) rest
        ≡ map token_message tokens ++ (response end_response ∷ rest)
  relay_tokens [] rest = refl
  relay_tokens (text ∷ tokens) rest = ap (λ ms. token_message text ∷ ms) (relay_tokens tokens rest)

  relay-Answers :
      (req : ForwardRequest) (reqs : List (Reply ForwardRequest)) (ms rest : Messages)
      → is_empty_text req.text_prompt ≡ false
      → Answered (token_limit req.max_tokens) ms
      → Answers reqs rest
      → Answers (response req ∷ reqs) (relay ms rest)
  relay-Answers req reqs ms rest prompt (refused e) more = prompt_failed req e prompt
  relay-Answers req reqs ms rest prompt (told tokens few) more =
      rw (relay_tokens tokens rest) (prompted req tokens prompt few more)

  forwarded-Answers :
      (req : ForwardRequest) (reqs : List (Reply ForwardRequest)) (r : Try ForwardResponse)
      (rest : Messages)
      → is_empty_text req.text_prompt ≡ true
      → Answers reqs rest
      → Answers (response req ∷ reqs) (forwarded r rest)
  forwarded-Answers req reqs (done resp) rest prompt more = passed req resp prompt more
  forwarded-Answers req reqs (failed e) rest prompt more = pass_failed req _ prompt

  answer-Answers :
      (b : Bool) (req : ForwardRequest) (reqs : List (Reply ForwardRequest)) (w : World L)
      (rest : World L → Messages)
      → is_empty_text req.text_prompt ≡ b
      → ((w' : World L) → Answers reqs (rest w'))
      → Answers (response req ∷ reqs) (answer L env b req w rest)
  answer-Answers true req reqs w rest prompt more =
      let r = Entry.forward L req w in forwarded-Answers req reqs r.0 (rest r.1) prompt (more r.1)
  answer-Answers false req reqs w rest prompt more =
      let p = produce L always (model_path env) req.text_prompt (token_limit req.max_tokens) w in
      relay-Answers req reqs p.0 (rest p.1) prompt
        (produce-Answered L env (model_path env) req.text_prompt (token_limit req.max_tokens) w)
        (more p.1)

  -- Whatever the binding answers, every request of a stream is answered, in order, until the first error,
  -- which ends the stream: a prompt by tokens, at most as many as it asks for or 256, and the message
  -- that ends them; a request without a prompt by one response.
  pub forward_stream-Answers :
      (reqs : List (Reply ForwardRequest)) (w : World L)
      → Answers reqs (forward_stream L env reqs w)
  unfolding forward_stream
  forward_stream-Answers [] w = ended
  forward_stream-Answers (status e ∷ reqs) w = broken e
  forward_stream-Answers (response req ∷ reqs) w =
      answer-Answers (is_empty_text req.text_prompt) req reqs w (λ w'. forward_stream L env reqs w')
        refl (λ w'. forward_stream-Answers reqs w')
