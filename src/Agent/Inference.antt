-- ===== src/Agent/Inference.antt =====
-- node-agent/src/inference: `model.rs` and `forward.rs`, with the feature `inference` that alone
-- compiles them, over the binding of llama.cpp.
pub mod Entry
pub mod Stubs
pub mod Laws
use arcflame.Base.{
  ℕ, ◌%◌, ◌^◌, ◌-◌, Bool, true, false, List, [], ◌∷◌, ◌++◌, Option, none, some, map, length, ltb,
  if◌then◌else◌,
}
use arcflame.Base.Text.{codes, ℤ, pos, negsuc}
use arcflame.Splitter.Bytes.{to_le_bytes}
use arcflame.Agent.{Text, Try, done, failed, map_err}

-- The binding, a library: models, contexts and batches are handles. A call may change the machine,
-- and may fail with a message. A logit is the 32 bits of an `f32`.
pub record Llama : Type 1 where
  pub State : Type 0
  pub Backend : Type 0
  pub Model : Type 0
  pub Context : Type 0
  pub Batch : Type 0
  pub init : State → Try Backend × State
  -- the path, and how many layers go to the GPU
  pub load_from_file : Backend → Text → ℕ → State → Try Model × State
  -- a token begins the text (`AddBos::Always`)
  pub str_to_token : Model → Text → Try (List ℤ)
  pub token_to_str : Model → ℤ → Try Text
  pub token_eos : Model → ℤ
  -- the size of the context
  pub new_context : Model → Backend → ℕ → State → Try Context × State
  pub new_batch : ℕ → ℕ → Batch
  pub add_sequence : Batch → List ℤ → ℤ → Bool → Try Batch
  pub add : Batch → ℤ → ℤ → List ℤ → Bool → Try Batch
  pub decode : Context → Batch → State → Try (Unit {0}) × State
  pub get_logits : Context → State → List ℕ
  -- the milliseconds between two states of the machine
  pub elapsed : State → State → ℕ

pub record ShardConfig : Type 0 where
  pub model_name : Text
  pub shard_path : Text
  pub first_layer : ℤ
  pub num_layers : ℤ
  pub has_lm_head : Bool
  pub max_context_length : ℤ
  pub gguf_path : Text
  pub peer_addresses : List Text

pub record LoadStatus : Type 0 where
  pub loaded : Bool
  pub memory_used_bytes : ℤ
  pub layers_loaded : ℤ
  pub load_time_ms : ℤ
  pub error : Text

pub record ForwardRequest : Type 0 where
  pub hidden_state : List ℕ
  pub start_layer : ℤ
  pub num_layers : ℤ
  pub input_ids : List ℤ
  pub text_prompt : Text
  pub clear_context : Bool
  pub max_tokens : ℤ
  pub temperature : ℕ

pub record ForwardResponse : Type 0 where
  pub hidden_state : List ℕ
  pub logits : List ℕ
  pub has_logits : Bool
  pub compute_time_ms : ℤ

-- `as i64`
abbrev pub to_i64 : ℕ → ℤ
to_i64 n = let b = n % 2 ^ 64 in if ltb b (2 ^ 63) then pos b else negsuc (2 ^ 64 - 1 - b)

abbrev pub default_gpu_layers : ℕ
default_gpu_layers = 999

abbrev pub context_size : ℕ
context_size = 2048

abbrev pub is_empty_text : Text → Bool
is_empty_text [] = true
is_empty_text (c ∷ cs) = false

-- `flat_map(|&f| f.to_le_bytes())`
unfoldable pub logit_bytes : List ℕ → List ℕ
logit_bytes [] = []
logit_bytes (f ∷ fs) = to_le_bytes 4 f ++ logit_bytes fs

module _ (L : Llama) where
  pub record ShardState : Type 0 where
    pub model_name : Text
    pub first_layer : ℤ
    pub num_layers : ℤ
    pub has_lm_head : Bool
    pub model : Option L.Model

  -- The process: the statics `BACKEND` and `CURRENT_SHARD`, a cell that is set once and holds a
  -- lock, and the machine.
  pub record World : Type 0 where
    pub backend : Option L.Backend
    pub current_shard : Option (Option ShardState)
    pub machine : L.State

  -- A function that returns a `Result`. What it changed stays changed if it fails.
  abbrev pub Action : Type 0 → Type 0
  Action A = World → Try A × World

  abbrev pub after : {A B : Type 0} → (A → Action B) → Try A → Action B
  after f (done a) w = f a w
  after f (failed e) w = (failed e, w)

  infixl 5 ◌>>=◌
  abbrev pub ◌>>=◌ : {A B : Type 0} → Action A → (A → Action B) → Action B
  ◌>>=◌ m f w = after f (m w).0 (m w).1

  abbrev pub pure : {A : Type 0} → A → Action A
  pure a w = (done a, w)

  -- A `Result` that is at hand, and a call of the binding.
  abbrev pub from : {A : Type 0} → Try A → Action A
  from r w = (r, w)

  abbrev pub call : {A : Type 0} → (L.State → Try A × L.State) → Action A
  call m w = ((m w.machine).0, record w { machine = (m w.machine).1 })

  -- `ok_or_else`
  abbrev pub some_or : {A : Type 0} → Text → Option A → Action A
  some_or message none = from (failed message)
  some_or message (some a) = pure a

  abbrev pub keep_backend : Try L.Backend → Action L.Backend
  keep_backend (done b) w = (done b, record w { backend = some b })
  keep_backend (failed e) w = (failed (codes "Backend init: " ++ e), w)

  abbrev pub backend_or_init : Option L.Backend → Action L.Backend
  backend_or_init (some b) w = pure b w
  backend_or_init none w =
      let (r, s) = L.init w.machine in keep_backend r (record w { machine = s })

  unfoldable pub backend : Action L.Backend
  backend w = backend_or_init w.backend w

  -- A write to the lock, which `get_or_init` makes first if there is none.
  abbrev pub store_shard : ShardState → World → World
  store_shard s w = record w { current_shard = some (some s) }

  -- What `load_shard_model` does with a model that is loaded.
  abbrev pub install : L.State → ShardConfig → L.Model → Action LoadStatus
  install start config model w = (
    done (record {
      loaded = true;
      memory_used_bytes = pos 0;
      layers_loaded = config.num_layers;
      load_time_ms = to_i64 (L.elapsed start w.machine);
      error = [];
    }),
    store_shard
        (record {
          model_name = config.model_name;
          first_layer = config.first_layer;
          num_layers = config.num_layers;
          has_lm_head = config.has_lm_head;
          model = some model;
        })
        w,
  )

  abbrev pub load_model : Text → L.Backend → Action L.Model
  load_model path be w =
      let (r, s) = L.load_from_file be path default_gpu_layers w.machine in
      (map_err (codes "Failed to load model: ") r, record w { machine = s })

  unfoldable pub load_shard_model : ShardConfig → Action LoadStatus
  unfolding backend
  load_shard_model config w =
      (backend >>= λ _.
      backend >>= λ be. load_model config.gguf_path be >>= λ model. install w.machine config model)
        w

  abbrev pub get_loaded_model : Action (Option ShardState)
  get_loaded_model w = some_or (codes "No model loaded") w.current_shard w

  unfoldable pub unload_current_shard : World → World
  unload_current_shard w = elim w.current_shard [
    | none ↦ w
    | some cell ↦ record w { current_shard = some none }
  ]

  abbrev pub resolve_tokens : L.Model → ForwardRequest → Try (List ℤ)
  resolve_tokens model request =
      if is_empty_text request.text_prompt
      then done request.input_ids
      else map_err (codes "Tokenize error: ") (L.str_to_token model request.text_prompt)

  abbrev pub create_context : L.Model → L.Backend → Action L.Context
  create_context model be w =
      let (r, s) = L.new_context model be context_size w.machine in
      (map_err (codes "Context creation: ") r, record w { machine = s })

  abbrev pub fill_batch : List ℤ → Try L.Batch
  fill_batch tokens =
      map_err (codes "Batch add: ")
        (L.add_sequence (L.new_batch (length tokens) 1) tokens (pos 0) true)

  abbrev pub decode_batch : L.Context → L.Batch → Action (Unit {0})
  decode_batch ctx batch w =
      let (r, s) = L.decode ctx batch w.machine in
      (map_err (codes "Decode error: ") r, record w { machine = s })

  abbrev pub respond : L.State → L.Context → Action ForwardResponse
  respond start ctx w = (
    done (record {
      hidden_state = [];
      logits = logit_bytes (L.get_logits ctx w.machine);
      has_logits = true;
      compute_time_ms = to_i64 (L.elapsed start w.machine);
    }),
    w,
  )

  unfoldable pub run_forward_pass : ForwardRequest → Action ForwardResponse
  unfolding backend
  run_forward_pass request w =
      (backend >>= λ be. get_loaded_model >>= λ state.
      some_or (codes "No shard loaded") state >>= λ shard.
      some_or (codes "No model instance") shard.model >>= λ model.
      from (resolve_tokens model request) >>= λ tokens. create_context model be >>= λ ctx.
      from (fill_batch tokens) >>= λ batch. decode_batch ctx batch >>= λ _. respond w.machine ctx)
        w
