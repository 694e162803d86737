-- ===== src/Agent/Service/Positions.antt =====
-- At which positions `forward_stream` of node-agent/src/network/grpc_server.rs decodes.
use arcflame.Base.{
  ℕ, zero, suc, ◌+◌, ◌%◌, ◌^◌, ◌<◌, ◌≤◌, ◌≡◌, inl, inr, refl, sym, ap, ◌∙◌, Bool, true, false, List,
  [], ◌∷◌, ◌++◌, Option, none, some, All, All-append, length, append-nil, append_assoc, Bool-cases,
  lt→ltb, arith,
}
use arcflame.Base.Text.{ℤ, pos}
use arcflame.Agent.{Text, Try, done, failed}
use arcflame.Agent.Shard.{from_bits}
use arcflame.Agent.Inference.{after, Llama, World}
use arcflame.Agent.Service.Replies.{Messages}
use arcflame.Agent.Service.Generate.{
  Round, argmax, int_eq, continue_unless, send, after_send, sample, after_decode, after_add, round,
  or_stop, generate, generate_all, produce, Ready, prepare,
}
use arcflame.Agent.Service.Recorded.{
  recorded, recorded_batch, positions_from, done-injective, prepare-positions,
}

-- One of the first `n` positions, where a prompt of `n` tokens stands.
abbrev pub InPrompt : ℕ → ℤ → Type 0
InPrompt n p = (k : ℕ) × (k < n) × (p ≡ pos k)

from_bits_small : (i : ℕ) → i < 2 ^ 31 → from_bits (i % 2 ^ 32) ≡ pos i
from_bits_small i small =
    let e : i % 2 ^ 32 ≡ i = omega arith in rw (e, lt→ltb i (2 ^ 31) small) refl

module _ (L : Llama) (takes : ℕ → Bool) (n : ℕ) (few : n ≤ 2 ^ 31) where
  abbrev R : Llama
  R = recorded L

  -- What was decoded in addition.
  abbrev pub Decoded : List ℤ → List ℤ → Type 0
  Decoded before after = (ps : List ℤ) × (after ≡ before ++ ps) × All (InPrompt n) ps

  nothing : (h : List ℤ) → Decoded h h
  nothing h = ([], sym (append-nil h), tt)

  both : (h h' h'' : List ℤ) → Decoded h h' → Decoded h' h'' → Decoded h h''
  both h h' h'' (ps, e, all) (qs, e', all') = (
    ps ++ qs,
    e' ∙ ap (λ xs. xs ++ qs) e ∙ append_assoc h ps qs,
    All-append (InPrompt n) ps qs all all',
  )

  continue_unless-machine :
      (b : Bool) (token : ℤ) (s : R.State) (ms : Messages)
      → (continue_unless R b token s ms).machine ≡ s
  continue_unless-machine true token s ms = refl
  continue_unless-machine false token s ms = refl

  after_send-machine :
      (model : L.Model) (token : ℤ) (s : R.State) (sent : Bool × Messages)
      → (after_send R takes model token s sent).machine ≡ s
  after_send-machine model token s (true, ms) =
      continue_unless-machine (int_eq token (L.token_eos model)) token s ms
  after_send-machine model token s (false, ms) = refl

  sample-machine :
      (model : L.Model) (logits : List ℕ) (s : R.State) (ms : Messages)
      → (sample R takes model logits s ms).machine ≡ s
  sample-machine model [] s ms = refl
  sample-machine model (x ∷ xs) s ms =
      after_send-machine model (argmax (x ∷ xs)) s (send R takes _ ms)

  after_decode-machine :
      (model : L.Model) (ctx : L.Context) (r : Try (Unit {0}) × R.State) (ms : Messages)
      → (after_decode R takes model ctx r ms).machine ≡ r.1
  after_decode-machine model ctx (done _, s) ms = sample-machine model (L.get_logits ctx s.0) s ms
  after_decode-machine model ctx (failed e, s) ms = refl

  after_add-Decoded :
      (model : L.Model) (ctx : L.Context) (i : ℕ) (b : Try L.Batch) (s : R.State) (ms : Messages)
      → i < n
      → Decoded s.1
          (after_add R takes model ctx
            (recorded_batch b (from_bits (i % 2 ^ 32) ∷ []))
            s
            ms).machine.1
  after_add-Decoded model ctx i (done batch) s ms below =
      let ps = from_bits (i % 2 ^ 32) ∷ [] in
      (
        ps,
        ap (λ (t : R.State). t.1) (after_decode-machine model ctx (R.decode ctx (batch, ps) s) ms),
        ((i, below, from_bits_small i (omega arith)), tt),
      )
  after_add-Decoded model ctx i (failed e) s ms below = nothing s.1

  round-Decoded :
      (model : L.Model) (ctx : L.Context) (i : ℕ) (last : ℤ) (s : R.State) (ms : Messages)
      → i < n
      → Decoded s.1 (round R takes model ctx i last s ms).machine.1
  unfolding round
  round-Decoded model ctx i last s ms below = elim (Bool-cases (int_eq last (pos 0))) [
    | inl e ↦
        let same = sample-machine model (L.get_logits ctx s.0) s ms in rw (e, same) (nothing s.1)
    | inr e ↦ rw e (after_add-Decoded model ctx i _ s ms below)
  ]

  or_stop-Decoded :
      (h : List ℤ) (r : Round R) (o : Option ℤ) (rest : ℤ → Messages × R.State)
      → Decoded h r.machine.1
      → ((token : ℤ) → Decoded r.machine.1 (rest token).1.1)
      → Decoded h (or_stop R o (r.sent, r.machine) rest).1.1
  or_stop-Decoded h r none rest now later = now
  or_stop-Decoded h r (some token) rest now later =
      both h r.machine.1 (rest token).1.1 now (later token)

  generate-Decoded :
      (model : L.Model) (ctx : L.Context) (rounds i : ℕ) (last : ℤ) (s : R.State) (ms : Messages)
      → i + rounds ≤ n
      → Decoded s.1 (generate R takes model ctx rounds i last s ms).1.1
  unfolding generate
  generate-Decoded model ctx zero i last s ms below = nothing s.1
  generate-Decoded model ctx (suc rounds) i last s ms below =
      let r = round R takes model ctx i last s ms in
      or_stop-Decoded s.1 r r.next
        (λ token. generate R takes model ctx rounds (suc i) token r.machine r.sent)
        (round-Decoded model ctx i last s ms (omega arith))
        (λ token. generate-Decoded model ctx rounds (suc i) token r.machine r.sent (omega arith))

module _ (L : Llama) where
  -- Let the task for a prompt get as far as the tokens, and the prompt have at least as many tokens as are
  -- asked for, and 2 ^ 31 at most. Then, whatever the client takes, the task has the prompt decoded at the
  -- positions from 0 on, and each token behind it at one of the same positions.
  pub produce_repeats :
      (takes : ℕ → Bool) (path prompt : Text) (limit : ℕ) (w w' : World (recorded L))
      (ready : Ready (recorded L)) (tokens : List ℤ)
      → prepare (recorded L) path prompt w ≡ (done ready, w')
      → L.str_to_token ready.model prompt ≡ done tokens
      → limit ≤ length tokens
      → length tokens ≤ 2 ^ 31
      → (ps : List ℤ) × ((produce (recorded L) takes path prompt limit w).1.machine.1
          ≡ positions_from 0 tokens ++ ps)
        × All (InPrompt (length tokens)) ps
  unfolding produce
  produce_repeats takes path prompt limit w w' ready tokens run told few small =
      let R : Llama = recorded L in
      let (tokens', told', decoded) = prepare-positions L path prompt w w' ready run in
      let same : tokens' ≡ tokens = done-injective (sym told' ∙ told) in
      let (ps, more, all) =
        generate-Decoded L takes (length tokens) small ready.model ready.context limit 0 (pos 0)
          w'.machine [] (omega arith) in
      (
        ps,
        ap (λ r. (generate_all R takes limit r).1.machine.1) run
            ∙ more
            ∙ ap (λ h. h ++ ps) (decoded ∙ ap (positions_from 0) same),
        all,
      )
