-- ===== src/Agent/ServiceTests.antt =====
-- Runs of the node agent's inference service at concrete inputs.
use arcflame.Base.{
  All, ℕ, ◌+◌, ◌<◌, ◌≤◌, ◌≡◌, refl, false, List, [], ◌∷◌, ◌++◌, none, some, length, replicate,
  get_or, ◌%◌, ◌^◌, arith,
}
use arcflame.Base.Text.{codes, ℤ, pos}
use arcflame.Agent.{Text, done}
use arcflame.Agent.Shard.{from_bits}
use arcflame.Agent.Inference.{backend, Llama, World, ShardConfig, ForwardRequest}
use arcflame.Agent.Inference.Laws.{
  Call, load, unload, forward, Steps, serve_all, view, serve_all-Steps,
}
use arcflame.Agent.Service.Replies.{Reply, response}
use arcflame.Agent.Service.Generate.{
  Ready, prepare, round, total_key, max_index, generate, produce, always,
}
use arcflame.Agent.Service.Stream.{forward_stream}
use arcflame.Agent.Service.Tokens.{Answered, produce-Answered, zero_message, generate_zero}
use arcflame.Agent.Service.Positions.{InPrompt, produce_repeats}
use arcflame.Agent.Service.Recorded.{recorded, positions_from}
use arcflame.Agent.Service.Answers.{Answers, forward_stream-Answers}
use arcflame.Agent.Service.Argmax.{max_index_greatest}

-- A binding whose every call succeeds and whose logits are always these. The machine counts the
-- batches that it decoded.
abbrev llama : List ℕ → Llama
llama logits = record {
  State = ℕ;
  Backend = Unit {0};
  Model = Text;
  Context = Unit {0};
  Batch = List ℤ;
  init = λ s. (done tt, s);
  load_from_file = λ be path layers s. (done path, s);
  str_to_token = λ model text. done (pos 5 ∷ pos 6 ∷ []);
  token_to_str = λ model token. done (codes "a");
  token_eos = λ model. pos 7;
  new_context = λ model be size s. (done tt, s);
  new_batch = λ capacity sequences. [];
  add_sequence = λ batch tokens sequence logits. done (batch ++ tokens);
  add = λ batch token position sequences logits. done (batch ++ (token ∷ []));
  decode = λ ctx batch s. (done tt, s + 1);
  get_logits = λ ctx s. logits;
  elapsed = λ s t. 0;
}

-- 1.0, 2.0 and 0.5
abbrev logits : List ℕ
logits = 0x3f800000 ∷ 0x40000000 ∷ 0x3f000000 ∷ []

abbrev fresh : World (llama logits)
fresh = record { backend = none; current_shard = none; machine = 0 }

abbrev config : ShardConfig
config = record {
  model_name = codes "m";
  shard_path = [];
  first_layer = pos 0;
  num_layers = pos 12;
  has_lm_head = false;
  max_context_length = pos 2048;
  gguf_path = codes "/m.gguf";
  peer_addresses = [];
}

abbrev request : Text → ForwardRequest
request prompt = record {
  hidden_state = [];
  start_layer = pos 0;
  num_layers = pos 12;
  input_ids = pos 1 ∷ [];
  text_prompt = prompt;
  clear_context = false;
  max_tokens = pos 3;
  temperature = 0;
}

-- A forward pass without a shard, a load, a forward pass, an unload, and a forward pass again.
abbrev calls : List Call
calls =
    forward (request []) ∷ load config ∷ forward (request []) ∷ unload ∷ forward (request []) ∷ []

serve_all-Steps_example :
    Steps
      (view (llama logits) fresh)
      (serve_all (llama logits) calls fresh).0
      (view (llama logits) (serve_all (llama logits) calls fresh).1)
serve_all-Steps_example = serve_all-Steps (llama logits) calls fresh

abbrev hello : Text
hello = codes "Hello"

produce-Answered_example :
    Answered 3 (produce (llama logits) always (codes "/m.gguf") hello 3 fresh).0
produce-Answered_example = produce-Answered (llama logits) none (codes "/m.gguf") hello 3 fresh

abbrev zeros : Llama
zeros = llama (0x40000000 ∷ 0x3f800000 ∷ [])

zero_wins : from_bits (max_index (0x40000000 ∷ 0x3f800000 ∷ []) % 2 ^ 32) ≡ pos 0
unfolding max_index
zero_wins = refl

generate_zero_example :
    generate zeros always hello tt 3 0 (pos 0) 1 []
    ≡ (replicate 3 (zero_message zeros none hello), 1)
generate_zero_example =
    generate_zero zeros none hello tt 3 0 1 [] 0x40000000 (0x3f800000 ∷ []) refl zero_wins refl

max_index_greatest_example :
    let i = max_index logits in
    (i < length logits) × All (λ y. total_key y ≤ total_key (get_or logits i 0)) logits
max_index_greatest_example = max_index_greatest 0x3f800000 (0x40000000 ∷ 0x3f000000 ∷ [])

-- Two requests with a prompt, and one without, for which no shard is loaded.
abbrev requests : List (Reply ForwardRequest)
requests = response (request hello) ∷ response (request []) ∷ response (request hello) ∷ []

forward_stream-Answers_example :
    Answers requests (forward_stream (llama logits) none requests fresh)
forward_stream-Answers_example = forward_stream-Answers (llama logits) none requests fresh

-- A run in which the prompt has two tokens, and two more are asked for.
abbrev machine : World (recorded (llama logits))
machine = record { backend = none; current_shard = none; machine = (0, []) }

abbrev ready : Ready (recorded (llama logits))
ready = record { model = codes "/m.gguf"; context = tt }

abbrev prompted : World (recorded (llama logits))
prompted = record { backend = some tt; current_shard = none; machine = (1, pos 0 ∷ pos 1 ∷ []) }

prepared_prompt :
    prepare (recorded (llama logits)) (codes "/m.gguf") hello machine ≡ (done ready, prompted)
unfolding prepare backend
prepared_prompt = refl

one_repeated :
    (produce (recorded (llama logits)) always (codes "/m.gguf") hello 2 machine).1.machine.1
    ≡ pos 0 ∷ pos 1 ∷ pos 1 ∷ []
unfolding produce prepare backend generate round max_index
one_repeated = refl

produce_repeats_example :
    (ps : List ℤ) × ((produce
        (recorded (llama logits))
        always
        (codes "/m.gguf")
        hello
        2
        machine).1.machine.1
      ≡ positions_from 0 (pos 5 ∷ pos 6 ∷ []) ++ ps)
    × All (InPrompt 2) ps
produce_repeats_example =
    produce_repeats (llama logits) always (codes "/m.gguf") hello 2 machine prompted ready
      (pos 5 ∷ pos 6 ∷ []) prepared_prompt refl (omega arith) (omega arith)
