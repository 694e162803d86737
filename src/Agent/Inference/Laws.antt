-- ===== src/Agent/Inference/Laws.antt =====
-- What a client sees of node-agent/src/inference over any calls: an optional shard.
use arcflame.Base.{◌≡◌, refl, sym, ap, ◌∙◌, Bool, true, List, [], ◌∷◌, Option, none, some}
use arcflame.Base.Text.{codes, ℤ}
use arcflame.Agent.{Text, Try, done, failed}
use arcflame.Agent.Inference.{
  Llama, ShardConfig, LoadStatus, ForwardRequest, ForwardResponse, ShardState, World, Action, after,
  some_or, backend, backend_or_init, keep_backend, load_model, load_shard_model,
  unload_current_shard, run_forward_pass, resolve_tokens, create_context, fill_batch, decode_batch,
  get_loaded_model,
}

-- A shard, without the handle of its model.
pub record Shard : Type 0 where
  pub model_name : Text
  pub first_layer : ℤ
  pub num_layers : ℤ
  pub has_lm_head : Bool

abbrev pub shard_in : ShardConfig → Shard
shard_in c = record {
  model_name = c.model_name;
  first_layer = c.first_layer;
  num_layers = c.num_layers;
  has_lm_head = c.has_lm_head;
}

pub data Call : Type 0 where
  load : ShardConfig → Call
  unload : Call
  forward : ForwardRequest → Call

pub data Answer : Type 0 where
  loading : Try LoadStatus → Answer
  unloaded : Answer
  response : Try ForwardResponse → Answer

-- The promise: a load that succeeds puts its shard in place of any other, and one that fails changes
-- nothing; after an unload there is none; a forward pass changes nothing, and succeeds only with a
-- shard, and then with logits.
pub data Step : Option Shard → Call → Answer → Option Shard → Type 0 where
  load_done :
      {s : Option Shard} (c : ShardConfig) (status : LoadStatus)
      → status.loaded ≡ true
      → status.layers_loaded ≡ c.num_layers
      → Step s (load c) (loading (done status)) (some (shard_in c))
  load_failed :
      {s : Option Shard} (c : ShardConfig) (e : Text) → Step s (load c) (loading (failed e)) s
  unload_done : {s : Option Shard} → Step s unload unloaded none
  forward_done :
      (shard : Shard) (r : ForwardRequest) (resp : ForwardResponse)
      → resp.has_logits ≡ true
      → Step (some shard) (forward r) (response (done resp)) (some shard)
  forward_failed :
      {s : Option Shard} (r : ForwardRequest) (e : Text)
      → Step s (forward r) (response (failed e)) s

pub data Steps : Option Shard → List (Call × Answer) → Option Shard → Type 0 where
  stay : {s : Option Shard} → Steps s [] s
  next :
      {s s' s'' : Option Shard} {c : Call} {a : Answer} {rest : List (Call × Answer)}
      → Step s c a s'
      → Steps s' rest s''
      → Steps s ((c, a) ∷ rest) s''

module _ (L : Llama) where
  abbrev pub visible : Option (Option (ShardState L)) → Option Shard
  visible none = none
  visible (some none) = none
  visible (some (some s)) = some (record {
    model_name = s.model_name;
    first_layer = s.first_layer;
    num_layers = s.num_layers;
    has_lm_head = s.has_lm_head;
  })

  abbrev pub view : World L → Option Shard
  view w = visible w.current_shard

  unfoldable pub serve : Call → World L → Answer × World L
  serve (load c) w = let (r, w') = load_shard_model L c w in (loading r, w')
  serve unload w = (unloaded, unload_current_shard L w)
  serve (forward req) w = let (r, w') = run_forward_pass L req w in (response r, w')

  unfoldable pub serve_all : List Call → World L → List (Call × Answer) × World L
  unfolding serve
  serve_all [] w = ([], w)
  serve_all (c ∷ cs) w =
      let (a, w') = serve c w in let (rest, w'') = serve_all cs w' in ((c, a) ∷ rest, w'')

  -- How an action ends: with `Q` of its value and the world, or with `E` of the world.
  abbrev Ends :
      {A : Type 0} → (A → World L → Type 0) → (World L → Type 0) → Try A × World L → Type 0
  Ends Q E (done a, w) = Q a w
  Ends Q E (failed e, w) = E w

  after-Ends :
      {A B : Type 0} (Q : A → World L → Type 0) (R : B → World L → Type 0) (E : World L → Type 0)
      (f : A → Action L B) (r : Try A × World L)
      → Ends Q E r
      → ((a : A) (w : World L) → Q a w → Ends R E (f a w))
      → Ends R E (after L f r.0 r.1)
  after-Ends Q R E f (done a, w) ends then = then a w ends
  after-Ends Q R E f (failed e, w) ends then = ends

  module _ (c : Option (Option (ShardState L))) where
    -- The cell is as it was.
    abbrev Same : World L → Type 0
    Same w = w.current_shard ≡ c

    backend-Ends : (w : World L) → Same w → Ends (λ _. Same) Same (backend L w)
    unfolding backend
    backend-Ends w same = by_case w.backend
      where
        by_init :
            (r : Try L.Backend) (w' : World L)
            → Same w'
            → Ends (λ _. Same) Same (keep_backend L r w')
        by_init (done b) w' same' = same'
        by_init (failed e) w' same' = same'

        by_case : (o : Option L.Backend) → Ends (λ _. Same) Same (backend_or_init L o w)
        by_case (some b) = same
        by_case none =
            by_init (L.init w.machine).0 (record w { machine = (L.init w.machine).1 }) same

    plain-Ends : {A : Type 0} (r : Try A) (w : World L) → Same w → Ends (λ _. Same) Same (r, w)
    plain-Ends (done a) w same = same
    plain-Ends (failed e) w same = same

    some_or-Ends :
        {A : Type 0} (message : Text) (o : Option A) (w : World L)
        → Same w
        → Ends (λ a w'. (o ≡ some a) × Same w') Same (some_or L message o w)
    some_or-Ends message none w same = same
    some_or-Ends message (some a) w same = (refl, same)

    -- A forward pass that succeeds gives logits, and there was a shard.
    Answered : ForwardResponse → World L → Type 0
    Answered resp w = (resp.has_logits ≡ true) × ((s : ShardState L) × (c ≡ some (some s))) × Same w

    run_forward_pass-Ends :
        (request : ForwardRequest) (w : World L)
        → Same w
        → Ends Answered Same (run_forward_pass L request w)
    unfolding run_forward_pass Answered
    run_forward_pass-Ends request w same =
        after-Ends _ Answered Same _ (backend L w) (backend-Ends w same) λ be w₁ same₁.
          after-Ends _ Answered Same _ (get_loaded_model L w₁)
            (some_or-Ends (codes "No model loaded") w₁.current_shard w₁ same₁)
            λ state w₂ (is, same₂).
              after-Ends _ Answered Same _ (some_or L (codes "No shard loaded") state w₂)
                (some_or-Ends (codes "No shard loaded") state w₂ same₂)
                λ shard w₃ (is', same₃).
                  after-Ends _ Answered Same _
                    (some_or L (codes "No model instance") shard.model w₃)
                    (some_or-Ends (codes "No model instance") shard.model w₃ same₃)
                    λ model w₄ (_, same₄).
                      after-Ends _ Answered Same _ (resolve_tokens L model request, w₄)
                        (plain-Ends (resolve_tokens L model request) w₄ same₄)
                        λ tokens w₅ same₅.
                          after-Ends _ Answered Same _ (create_context L model be w₅)
                            (plain-Ends _ (create_context L model be w₅).1 same₅)
                            λ ctx w₆ same₆.
                              after-Ends _ Answered Same _ (fill_batch L tokens, w₆)
                                (plain-Ends (fill_batch L tokens) w₆ same₆)
                                λ batch w₇ same₇.
                                  after-Ends _ Answered Same _ (decode_batch L ctx batch w₇)
                                    (plain-Ends _ (decode_batch L ctx batch w₇).1 same₇)
                                    λ _ w₈ same₈.
                                      (refl, (shard, sym same₁ ∙ is ∙ ap some is'), same₈)

    -- A load that succeeds leaves its shard.
    Loaded : ShardConfig → LoadStatus → World L → Type 0
    Loaded config status w =
        (status.loaded ≡ true)
        × (status.layers_loaded ≡ config.num_layers)
        × (view w ≡ some (shard_in config))

    load_shard_model-Ends :
        (config : ShardConfig) (w : World L)
        → Same w
        → Ends (Loaded config) Same (load_shard_model L config w)
    unfolding load_shard_model Loaded
    load_shard_model-Ends config w same =
        after-Ends _ (Loaded config) Same _ (backend L w) (backend-Ends w same) λ _ w₁ same₁.
          after-Ends _ (Loaded config) Same _ (backend L w₁) (backend-Ends w₁ same₁) λ be w₂ same₂.
            after-Ends _ (Loaded config) Same _ (load_model L config.gguf_path be w₂)
              (plain-Ends _ (load_model L config.gguf_path be w₂).1 same₂)
              λ model w₃ same₃. (refl, refl, refl)

    forward-Step :
        (req : ForwardRequest) (r : Try ForwardResponse) (w : World L)
        → Ends Answered Same (r, w)
        → Step (visible c) (forward req) (response r) (view w)
    unfolding Answered
    forward-Step req (done resp) w (logits, (s, is), same) =
        rw (same, is) (forward_done _ req resp logits)
    forward-Step req (failed e) w same = rw same (forward_failed req e)

    load-Step :
        (config : ShardConfig) (r : Try LoadStatus) (w : World L)
        → Ends (Loaded config) Same (r, w)
        → Step (visible c) (load config) (loading r) (view w)
    unfolding Loaded
    load-Step config (done status) w (loaded, layers, is) =
        rw is (load_done config status loaded layers)
    load-Step config (failed e) w same = rw same (load_failed config e)

  unload-Step :
      (w : World L) (c : Option (Option (ShardState L)))
      → w.current_shard ≡ c
      → Step (visible c) unload unloaded (view (unload_current_shard L w))
  unfolding unload_current_shard
  unload-Step w none e = rw e unload_done
  unload-Step w (some cell) e = rw e unload_done

  serve-Step : (c : Call) (w : World L) → Step (view w) c (serve c w).0 (view (serve c w).1)
  unfolding serve
  serve-Step (load config) w =
      load-Step w.current_shard config _ _ (load_shard_model-Ends w.current_shard config w refl)
  serve-Step unload w = unload-Step w w.current_shard refl
  serve-Step (forward req) w =
      forward-Step w.current_shard req _ _ (run_forward_pass-Ends w.current_shard req w refl)

  -- Whatever the binding answers, any sequence of loads, unloads and forward passes, from any state of
  -- the process on, goes by the promise of `Step`: each call's answer and what a client sees before
  -- and after it, an optional shard, are one of its steps.
  pub serve_all-Steps :
      (cs : List Call) (w : World L) → Steps (view w) (serve_all cs w).0 (view (serve_all cs w).1)
  unfolding serve_all
  serve_all-Steps [] w = stay
  serve_all-Steps (c ∷ cs) w = next (serve-Step c w) (serve_all-Steps cs (serve c w).1)
