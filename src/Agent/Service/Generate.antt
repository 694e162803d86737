-- ===== src/Agent/Service/Generate.antt =====
-- The task that `forward_stream` of node-agent/src/network/grpc_server.rs spawns for a prompt: the tokens,
-- chosen greedily, and the messages that it sends.
use arcflame.Base.{
  ℕ, zero, suc, ◌+◌, ◌-◌, ◌/◌, ◌%◌, ◌^◌, Bool, true, false, List, [], ◌∷◌, ◌++◌, Option, none, some,
  length, ltb, leb, ◌==◌, if◌then◌else◌,
}
use arcflame.Base.Text.{codes, ℤ, pos, negsuc}
use arcflame.Agent.{Text, Try, done, failed, map_err, decimal}
use arcflame.Agent.Shard.{from_bits}
use arcflame.Agent.Inference.{
  Llama, ForwardResponse, World, Action, ◌>>=◌, pure, from, call, backend, context_size,
  default_gpu_layers,
}
use arcflame.Agent.Service.Replies.{Reply, response, status, Messages, internal_status}

-- `f32::total_cmp` compares the numbers of this order: the negative ones stand below, turned round.
unfoldable pub total_key : ℕ → ℕ
total_key bits = if ltb bits (2 ^ 31) then bits + 2 ^ 31 else 2 ^ 32 - 1 - bits

-- `max_by` keeps the last of the greatest.
unfoldable pub max_from : ℕ → ℕ → ℕ → List ℕ → ℕ
unfolding total_key
max_from i best best_key [] = best
max_from i best best_key (x ∷ xs) =
    let wins = leb best_key (total_key x) in
    max_from (suc i) (if wins then i else best) (if wins then total_key x else best_key) xs

unfoldable pub max_index : List ℕ → ℕ
unfolding max_from
max_index [] = 0
max_index (x ∷ xs) = max_from 1 0 (total_key x) xs

-- The closure `argmax`, with its cast `as i32`.
abbrev pub argmax : List ℕ → ℤ
argmax logits = from_bits (max_index logits % 2 ^ 32)

abbrev pub int_eq : ℤ → ℤ → Bool
int_eq (pos m) (pos n) = m == n
int_eq (pos m) (negsuc n) = false
int_eq (negsuc m) (pos n) = false
int_eq (negsuc m) (negsuc n) = m == n

abbrev pub decimal_int : ℤ → Text
decimal_int (pos n) = decimal n
decimal_int (negsuc n) = b'-' ∷ decimal (suc n)

-- `str::as_bytes`
abbrev utf8_char : ℕ → List ℕ
utf8_char c =
    if ltb c 0x80
    then c ∷ []
    else if ltb c 0x800
    then (0xc0 + c / 64) ∷ (0x80 + c % 64) ∷ []
    else if ltb c 0x10000
    then (0xe0 + c / 4096) ∷ (0x80 + c / 64 % 64) ∷ (0x80 + c % 64) ∷ []
    else (0xf0 + c / 262144) ∷ (0x80 + c / 4096 % 64) ∷ (0x80 + c / 64 % 64) ∷ (0x80 + c % 64) ∷ []

unfoldable pub as_bytes : Text → List ℕ
as_bytes [] = []
as_bytes (c ∷ cs) = utf8_char c ++ as_bytes cs

abbrev pub token_response : Text → ForwardResponse
token_response text = record {
  hidden_state = [];
  logits = as_bytes text;
  has_logits = true;
  compute_time_ms = pos 0;
}

abbrev pub end_response : ForwardResponse
end_response = record {
  hidden_state = [];
  logits = [];
  has_logits = false;
  compute_time_ms = pos 0;
}

abbrev pub text_or_number : ℤ → Try Text → Text
text_or_number token (done text) = text
text_or_number token (failed e) = codes "[" ++ (decimal_int token ++ codes "]")

module _ (L : Llama) where
  -- The end of a round of the loop over the tokens: whether it goes on, with which token.
  pub record Round : Type 0 where
    pub next : Option ℤ
    pub machine : L.State
    pub sent : Messages

  abbrev stop : L.State → Messages → Round
  stop s ms = record { next = none; machine = s; sent = ms }

  abbrev pub continue_unless : Bool → ℤ → L.State → Messages → Round
  continue_unless true token s ms = stop s ms
  continue_unless false token s ms = record { next = some token; machine = s; sent = ms }

  abbrev pub or_stop : Option ℤ → Messages × L.State → (ℤ → Messages × L.State) → Messages × L.State
  or_stop none ended rest = ended
  or_stop (some token) ended rest = rest token

  -- What is ready before the first token.
  pub record Ready : Type 0 where
    pub model : L.Model
    pub context : L.Context

  abbrev pub with_error : {A : Type 0} → Text → Action L A → Action L A
  with_error prefix m w = let (r, w') = m w in (map_err prefix r, w')

  -- The steps of the task up to the first token, each with those that follow it.
  abbrev pub decode_prompt : L.Model → L.Context → L.Batch → Action L Ready
  decode_prompt model ctx batch =
      ◌>>=◌ L (with_error (codes "Decode prompt: ") (call L (L.decode ctx batch)))
        λ _. pure L (record { model = model; context = ctx })

  abbrev pub batch_prompt : L.Model → List ℤ → L.Context → Action L Ready
  batch_prompt model tokens ctx =
      ◌>>=◌ L
        (from L (
          map_err (codes "Batch: ")
            (L.add_sequence (L.new_batch (length tokens) 1) tokens (pos 0) true)))
        λ batch. decode_prompt model ctx batch

  abbrev pub make_context : L.Backend → L.Model → List ℤ → Action L Ready
  make_context be model tokens =
      ◌>>=◌ L (with_error (codes "Ctx: ") (call L (L.new_context model be context_size)))
        λ ctx. batch_prompt model tokens ctx

  abbrev pub tokenize_prompt : Text → L.Backend → L.Model → Action L Ready
  tokenize_prompt prompt be model =
      ◌>>=◌ L (from L (map_err (codes "Tokenize: ") (L.str_to_token model prompt)))
        λ tokens. make_context be model tokens

  abbrev pub load_for : Text → Text → L.Backend → Action L Ready
  load_for path prompt be =
      ◌>>=◌ L
        (with_error (codes "Load model: ") (call L (L.load_from_file be path default_gpu_layers)))
        λ model. tokenize_prompt prompt be model

  unfoldable pub prepare : Text → Text → Action L Ready
  prepare path prompt =
      ◌>>=◌ L (with_error (codes "Backend init: ") (backend L)) λ be. load_for path prompt be

  module _ (takes : ℕ → Bool) where
    -- A blocking send fails if the receiver is gone. `takes k` says that it is there for message `k`.
    abbrev pub send : Reply ForwardResponse → Messages → Bool × Messages
    send m ms = if takes (length ms) then (true, ms ++ (m ∷ [])) else (false, ms)

    abbrev pub after_send : L.Model → ℤ → L.State → Bool × Messages → Round
    after_send model token s (true, ms) =
        continue_unless (int_eq token (L.token_eos model)) token s ms
    after_send model token s (false, ms) = stop s ms

    -- The greedy choice, and its text.
    abbrev pub sample : L.Model → List ℕ → L.State → Messages → Round
    sample model [] s ms = stop s ms
    sample model (x ∷ xs) s ms =
        let token = argmax (x ∷ xs) in
        after_send model token s
          (send (response (token_response (text_or_number token (L.token_to_str model token)))) ms)

    abbrev pub after_decode : L.Model → L.Context → Try (Unit {0}) × L.State → Messages → Round
    after_decode model ctx (done _, s) ms = sample model (L.get_logits ctx s) s ms
    after_decode model ctx (failed e, s) ms = stop s ms

    abbrev pub after_add : L.Model → L.Context → Try L.Batch → L.State → Messages → Round
    after_add model ctx (done batch) s ms = after_decode model ctx (L.decode ctx batch s) ms
    after_add model ctx (failed e) s ms = stop s ms

    -- One round: token 0 stands for none, and is not decoded.
    unfoldable pub round : L.Model → L.Context → ℕ → ℤ → L.State → Messages → Round
    round model ctx i last s ms =
        if int_eq last (pos 0)
        then sample model (L.get_logits ctx s) s ms
        else after_add model ctx
            (L.add (L.new_batch 1 1) last (from_bits (i % 2 ^ 32)) (pos 0 ∷ []) true) s ms

    unfoldable pub generate :
        L.Model → L.Context → ℕ → ℕ → ℤ → L.State → Messages → Messages × L.State
    unfolding round
    generate model ctx zero i last s ms = (ms, s)
    generate model ctx (suc rounds) i last s ms =
        let r = round model ctx i last s ms in
        or_stop r.next (r.sent, r.machine)
          (λ token. generate model ctx rounds (suc i) token r.machine r.sent)

    -- The tokens, and the message that ends them.
    abbrev pub generate_all : ℕ → Try Ready × World L → Messages × World L
    generate_all max_tokens (failed e, w) = ((send (status (internal_status e)) []).1, w)
    generate_all max_tokens (done ready, w) =
        let (ms, s) = generate ready.model ready.context max_tokens 0 (pos 0) w.machine [] in
        ((send (response end_response) ms).1, record w { machine = s })

    -- The task that is spawned for a prompt.
    unfoldable pub produce : Text → Text → ℕ → World L → Messages × World L
    unfolding prepare generate
    produce path prompt max_tokens w = generate_all max_tokens (prepare path prompt w)

-- The receiver of a stream that is read to its end takes every message.
abbrev pub always : ℕ → Bool
always k = true
