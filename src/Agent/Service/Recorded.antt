-- ===== src/Agent/Service/Recorded.antt =====
-- The binding of llama.cpp with a record of the positions at which it decodes, and what the task for a prompt
-- in node-agent/src/network/grpc_server.rs decodes before the first token.
use arcflame.Base.{ℕ, suc, ◌≡◌, refl, sym, ap, ◌∙◌, true, List, [], ◌∷◌, ◌++◌, length}
use arcflame.Base.Text.{codes, ℤ, pos}
use arcflame.Agent.{Text, Try, done, failed, map_err}
use arcflame.Agent.Inference.{
  after, ◌>>=◌, Action, call, from, pure, backend, default_gpu_layers, context_size, Llama, World,
}
use arcflame.Agent.Service.Generate.{
  Ready, prepare, with_error, load_for, tokenize_prompt, make_context, batch_prompt, decode_prompt,
}

pub done-injective : {A : Type 0} {x y : A} → ◌≡◌ {A = Try A} (done x) (done y) → x ≡ y
done-injective e = cc

-- The positions from `k` on, for so many tokens.
abbrev pub positions_from : ℕ → List ℤ → List ℤ
positions_from k [] = []
positions_from k (token ∷ tokens) = pos k ∷ positions_from (suc k) tokens

abbrev pub recorded_batch : {A : Type 0} → Try A → List ℤ → Try (A × List ℤ)
recorded_batch (done batch) ps = done (batch, ps)
recorded_batch (failed e) ps = failed e

module _ (L : Llama) where
  -- The binding with a record: a batch knows the positions of its tokens, which `add_sequence` counts from
  -- 0, and the machine those of all batches that it was asked to decode, since the context was made.
  abbrev pub recorded : Llama
  recorded = record {
    State = L.State × List ℤ;
    Backend = L.Backend;
    Model = L.Model;
    Context = L.Context;
    Batch = L.Batch × List ℤ;
    init = λ s. let (r, s') = L.init s.0 in (r, (s', s.1));
    load_from_file =
        λ be path layers s. let (r, s') = L.load_from_file be path layers s.0 in (r, (s', s.1));
    str_to_token = L.str_to_token;
    token_to_str = L.token_to_str;
    token_eos = L.token_eos;
    new_context = λ model be size s. let (r, s') = L.new_context model be size s.0 in (r, (s', []));
    new_batch = λ capacity sequences. (L.new_batch capacity sequences, []);
    add_sequence = λ batch tokens sequence logits.
        recorded_batch (L.add_sequence batch.0 tokens sequence logits)
          (batch.1 ++ positions_from 0 tokens);
    add = λ batch token position sequences logits.
        recorded_batch (L.add batch.0 token position sequences logits) (batch.1 ++ (position ∷ []));
    decode = λ ctx batch s. let (r, s') = L.decode ctx batch.0 s.0 in (r, (s', s.1 ++ batch.1));
    get_logits = λ ctx s. L.get_logits ctx s.0;
    elapsed = λ s t. L.elapsed s.0 t.0;
  }

module _ (L : Llama) where
  -- What a call that succeeded went through.
  bind-done :
      {A B : Type 0} (m : Action L A) (f : A → Action L B) (w w' : World L) (b : B)
      → ◌>>=◌ L m f w ≡ (done b, w')
      → (a : A) × (v : World L) × (m w ≡ (done a, v)) × (f a v ≡ (done b, w'))
  bind-done {A = A} {B = B} m f w w' b run = by_result (m w) refl run
    where
      by_result :
          (r : Try A × World L)
          → m w ≡ r
          → after L f r.0 r.1 ≡ (done b, w')
          → (a : A) × (v : World L) × (m w ≡ (done a, v)) × (f a v ≡ (done b, w'))
      by_result (done a, v) e run = (a, v, e, run)
      by_result (failed e', v) e run = cc

  map_err-done :
      {A : Type 0} (prefix : Text) (r : Try A) (a : A) → map_err prefix r ≡ done a → r ≡ done a
  map_err-done prefix (done b) a e = e
  map_err-done prefix (failed b) a e = cc

  recorded_batch-done :
      {A : Type 0} (prefix : Text) (r : Try A) (ps : List ℤ) (b : A × List ℤ)
      → map_err prefix (recorded_batch r ps) ≡ done b
      → b.1 ≡ ps
  recorded_batch-done prefix (done a) ps b e =
      let same : ◌≡◌ {A = _ × List ℤ} (a, ps) b = cc in sym (ap (λ p. p.1) same)
  recorded_batch-done prefix (failed a) ps b e = cc

module _ (L : Llama) where
  abbrev machine_after : {A : Type 0} → Try A × World (recorded L) → List ℤ
  machine_after r = r.1.machine.1

  decode_prompt-positions :
      (model : L.Model) (ctx : L.Context) (batch : L.Batch × List ℤ) (w w' : World (recorded L))
      (ready : Ready (recorded L))
      → decode_prompt (recorded L) model ctx batch w ≡ (done ready, w')
      → (ready.model ≡ model) × (w'.machine.1 ≡ w.machine.1 ++ batch.1)
  decode_prompt-positions model ctx batch w w' ready run =
      let R : Llama = recorded L in
      let (u, v, decode_run, run') =
        bind-done R (with_error R (codes "Decode prompt: ") (call R (R.decode ctx batch)))
          (λ _. pure R (record { model = model; context = ctx })) w w' ready run in
      let is : ◌≡◌ {A = Try (Ready R)} (done (record { model = model; context = ctx }))
          (done ready) =
        ap (λ p. p.0) run' in
      (
        ap (λ (r : Ready R). r.model) (sym (done-injective is)),
        sym (ap machine_after run') ∙ sym (ap machine_after decode_run),
      )

  batch_prompt-positions :
      (model : L.Model) (tokens : List ℤ) (ctx : L.Context) (w w' : World (recorded L))
      (ready : Ready (recorded L))
      → batch_prompt (recorded L) model tokens ctx w ≡ (done ready, w')
      → (ready.model ≡ model) × (w'.machine.1 ≡ w.machine.1 ++ positions_from 0 tokens)
  batch_prompt-positions model tokens ctx w w' ready run =
      let R : Llama = recorded L in
      let (batch, v, batch_run, run') =
        bind-done R
          (from R (
            map_err (codes "Batch: ")
              (R.add_sequence (R.new_batch (length tokens) 1) tokens (pos 0) true)))
          (λ batch. decode_prompt R model ctx batch) w w' ready run in
      let (is, decoded) = decode_prompt-positions model ctx batch v w' ready run' in
      let at : batch.1 ≡ positions_from 0 tokens =
        recorded_batch-done L (codes "Batch: ") _ (positions_from 0 tokens) batch
          (ap (λ p. p.0) batch_run) in
      (
        is,
        decoded
            ∙ ap (λ h. h ++ batch.1) (sym (ap machine_after batch_run))
            ∙ ap (λ ps. w.machine.1 ++ ps) at,
      )

  make_context-positions :
      (be : L.Backend) (model : L.Model) (tokens : List ℤ) (w w' : World (recorded L))
      (ready : Ready (recorded L))
      → make_context (recorded L) be model tokens w ≡ (done ready, w')
      → (ready.model ≡ model) × (w'.machine.1 ≡ positions_from 0 tokens)
  make_context-positions be model tokens w w' ready run =
      let R : Llama = recorded L in
      let (ctx, v, context_run, run') =
        bind-done R (with_error R (codes "Ctx: ") (call R (R.new_context model be context_size)))
          (λ ctx. batch_prompt R model tokens ctx) w w' ready run in
      let (is, decoded) = batch_prompt-positions model tokens ctx v w' ready run' in
      (is, decoded ∙ ap (λ h. h ++ positions_from 0 tokens) (sym (ap machine_after context_run)))

  -- What is decoded before the first token: the prompt, at the positions from 0 on.
  tokenize_prompt-positions :
      (prompt : Text) (be : L.Backend) (model : L.Model) (w w' : World (recorded L))
      (ready : Ready (recorded L))
      → tokenize_prompt (recorded L) prompt be model w ≡ (done ready, w')
      → (tokens : List ℤ) × (L.str_to_token ready.model prompt ≡ done tokens)
        × (w'.machine.1 ≡ positions_from 0 tokens)
  tokenize_prompt-positions prompt be model w w' ready run =
      let R : Llama = recorded L in
      let (tokens, v, token_run, run') =
        bind-done R (from R (map_err (codes "Tokenize: ") (R.str_to_token model prompt)))
          (λ tokens. make_context R be model tokens) w w' ready run in
      let (is, decoded) = make_context-positions be model tokens v w' ready run' in
      (
        tokens,
        ap (λ m. L.str_to_token m prompt) is
            ∙ map_err-done L (codes "Tokenize: ") (L.str_to_token model prompt) tokens
                (ap (λ p. p.0) token_run),
        decoded,
      )

  pub prepare-positions :
      (path prompt : Text) (w w' : World (recorded L)) (ready : Ready (recorded L))
      → prepare (recorded L) path prompt w ≡ (done ready, w')
      → (tokens : List ℤ) × (L.str_to_token ready.model prompt ≡ done tokens)
        × (w'.machine.1 ≡ positions_from 0 tokens)
  unfolding prepare
  prepare-positions path prompt w w' ready run =
      let R : Llama = recorded L in
      let (be, v, backend_run, run₁) =
        bind-done R (with_error R (codes "Backend init: ") (backend R))
          (λ be. load_for R path prompt be) w w' ready run in
      let (model, v', load_run, run₂) =
        bind-done R
          (with_error R (codes "Load model: ")
            (call R (R.load_from_file be path default_gpu_layers)))
          (λ model. tokenize_prompt R prompt be model) v w' ready run₁ in
      tokenize_prompt-positions prompt be model v' w' ready run₂
