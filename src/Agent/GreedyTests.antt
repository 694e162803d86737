-- ===== src/Agent/GreedyTests.antt =====
-- A run of the task for a prompt with a client that leaves, at a concrete input.
use arcflame.Base.{ℕ, ◌≡◌, refl, false, List, [], ◌∷◌, ◌++◌, none, some, length, Bool, ltb, true}
use arcflame.Base.Text.{codes, ℤ, pos}
use arcflame.Agent.{Text, done}
use arcflame.Agent.Inference.{backend, Llama, World}
use arcflame.Agent.Service.Generate.{Ready, max_index}
use arcflame.Agent.Service.Decoding.{
  greedy_choice, History, Decoding, offered, fed, fed_before, greedy_tokens, until,
}

abbrev hello : Text
hello = codes "Hello"

-- A binding that keeps what it decoded. The greedy choice is token 1 until it holds four tokens, and then
-- token 2, which ends the text.
abbrev logits_for : Bool → List ℕ
logits_for true = 0 ∷ 0x40000000 ∷ 0x3f800000 ∷ []
logits_for false = 0 ∷ 0x3f800000 ∷ 0x40000000 ∷ []

abbrev keeping : Llama
keeping = record {
  State = History;
  Backend = Unit {0};
  Model = Text;
  Context = Unit {0};
  Batch = History;
  init = λ s. (done tt, s);
  load_from_file = λ be path layers s. (done path, s);
  str_to_token = λ model text. done (pos 5 ∷ pos 6 ∷ []);
  token_to_str = λ model token. done (codes "a");
  token_eos = λ model. pos 2;
  new_context = λ model be size s. (done tt, []);
  new_batch = λ capacity sequences. [];
  add_sequence = λ batch tokens sequence last. done ((pos 5, pos 0) ∷ (pos 6, pos 1) ∷ []);
  add = λ batch token position sequences last. done (batch ++ ((token, position) ∷ []));
  decode = λ ctx batch s. (done tt, s ++ batch);
  get_logits = λ ctx s. logits_for (ltb (length s) 4);
  elapsed = λ s t. 0;
}

some_for : (b : Bool) → (x : ℕ) × (xs : List ℕ) × (logits_for b ≡ x ∷ xs)
some_for true = (0, 0x40000000 ∷ 0x3f800000 ∷ [], refl)
some_for false = (0, 0x3f800000 ∷ 0x40000000 ∷ [], refl)

abbrev keeps : Decoding keeping
keeps = record {
  history = λ ctx s. s;
  contents = λ b. b;
  capacity = 2048;
  logits = λ ctx h. logits_for (ltb (length h) 4);
  add_one = λ token position. ((token, position) ∷ [], refl, refl);
  decode_batch = λ ctx b s fits. (s ++ b, refl, refl);
  read_logits = λ ctx s. refl;
  some_logits = λ ctx h. some_for (ltb (length h) 4);
}

abbrev empty_machine : World keeping
empty_machine = record { backend = none; current_shard = none; machine = [] }

abbrev prompt_history : History
prompt_history = (pos 5, pos 0) ∷ (pos 6, pos 1) ∷ []

abbrev kept_prompt : World keeping
kept_prompt = record { backend = some tt; current_shard = none; machine = prompt_history }

abbrev kept : Ready keeping
kept = record { model = codes "/m.gguf"; context = tt }

-- Five tokens are asked for, the third ends the text, and the client leaves after two messages.
abbrev two_taken : ℕ → Bool
two_taken j = ltb j 2

abbrev three_tokens : List ℤ
three_tokens = until (pos 2) (greedy_tokens (greedy_choice keeps tt) 1 prompt_history 5)

three_chosen : three_tokens ≡ pos 1 ∷ pos 1 ∷ pos 2 ∷ []
unfolding max_index until greedy_tokens fed
three_chosen = refl

two_decoded :
    fed_before 0 (pos 0) (offered two_taken 0 three_tokens) ≡ (pos 1, pos 1) ∷ (pos 1, pos 2) ∷ []
unfolding max_index until greedy_tokens fed fed_before offered
two_decoded = refl
