-- ===== src/Agent/Service/Tokens.antt =====
-- What `forward_stream` of node-agent/src/network/grpc_server.rs sends for a prompt.
use mathlib.Core.Path.{subst}
use arcflame.Base.{
  ℕ, zero, suc, ◌%◌, ◌^◌, ◌≤◌, ◌≡◌, ◌⊎◌, inl, inr, refl, sym, ap, ◌∙◌, Bool, true, false, List, [],
  ◌∷◌, ◌++◌, Option, none, some, map, append-nil, append_assoc, length, replicate, if◌then◌else◌,
  arith,
}
use arcflame.Base.Text.{ℤ, pos}
use arcflame.Agent.{Text, Try, done, failed}
use arcflame.Agent.Shard.{from_bits}
use arcflame.Agent.Inference.{Llama, World, ForwardResponse}
use arcflame.Agent.Service.Replies.{Reply, response, status, Status, Messages, internal_status}
use arcflame.Agent.Service.Generate.{
  Round, argmax, int_eq, token_response, end_response, text_or_number, continue_unless, sample,
  after_decode, after_add, round, or_stop, generate, Ready, prepare, generate_all, produce, always,
}

abbrev pub token_message : Text → Reply ForwardResponse
token_message text = response (token_response text)

-- A prompt is answered by one error, or by so many tokens at most and the message that ends them.
pub data Answered (limit : ℕ) : Messages → Type 0 where
  refused : (e : Status) → Answered limit (status e ∷ [])
  told :
      (tokens : List Text)
      → length tokens ≤ limit
      → Answered limit (map token_message tokens ++ (response end_response ∷ []))

module _ (L : Llama) (env : Option Text) where
  abbrev here : ℕ → Bool
  here = always

  -- A round sends nothing and ends the loop, or sends one token.
  abbrev Sends : Messages → Round L → Type 0
  Sends ms r =
      ((r.sent ≡ ms) × (r.next ≡ none))
      ⊎ ((text : Text) × (r.sent ≡ ms ++ (token_message text ∷ [])))

  continue_unless-sent :
      (b : Bool) (token : ℤ) (s : L.State) (ms : Messages)
      → (continue_unless L b token s ms).sent ≡ ms
  continue_unless-sent true token s ms = refl
  continue_unless-sent false token s ms = refl

  sample-Sends :
      (model : L.Model) (logits : List ℕ) (s : L.State) (ms : Messages)
      → Sends ms (sample L here model logits s ms)
  sample-Sends model [] s ms = inl (refl, refl)
  sample-Sends model (x ∷ xs) s ms =
      let token = argmax (x ∷ xs) in
      inr (_, continue_unless-sent (int_eq token (L.token_eos model)) token s _)

  after_decode-Sends :
      (model : L.Model) (ctx : L.Context) (r : Try (Unit {0}) × L.State) (ms : Messages)
      → Sends ms (after_decode L here model ctx r ms)
  after_decode-Sends model ctx (done _, s) ms = sample-Sends model (L.get_logits ctx s) s ms
  after_decode-Sends model ctx (failed e, s) ms = inl (refl, refl)

  after_add-Sends :
      (model : L.Model) (ctx : L.Context) (b : Try L.Batch) (s : L.State) (ms : Messages)
      → Sends ms (after_add L here model ctx b s ms)
  after_add-Sends model ctx (done batch) s ms =
      after_decode-Sends model ctx (L.decode ctx batch s) ms
  after_add-Sends model ctx (failed e) s ms = inl (refl, refl)

  round-Sends :
      (model : L.Model) (ctx : L.Context) (i : ℕ) (last : ℤ) (s : L.State) (ms : Messages)
      → Sends ms (round L here model ctx i last s ms)
  unfolding round
  round-Sends model ctx i last s ms = by_zero (int_eq last (pos 0))
    where
      by_zero :
          (b : Bool)
          → Sends ms (
              if b
              then sample L here model (L.get_logits ctx s) s ms
              else after_add L here model ctx
                  (L.add (L.new_batch 1 1) last (from_bits (i % 2 ^ 32)) (pos 0 ∷ []) true)
                  s
                  ms)
      by_zero true = sample-Sends model (L.get_logits ctx s) s ms
      by_zero false = after_add-Sends model ctx _ s ms

  -- The loop adds a token a round at most.
  Adds : ℕ → Messages → Messages → Type 0
  Adds limit ms ms' =
      (tokens : List Text) × (length tokens ≤ limit) × (ms' ≡ ms ++ map token_message tokens)

  -- One round, and then the rest, if the loop goes on.
  Adds-round :
      (rounds : ℕ) (ms : Messages) (r : Round L) (o : Option ℤ) (rest : ℤ → Messages × L.State)
      → Sends ms r
      → r.next ≡ o
      → ((token : ℤ) → Adds rounds r.sent (rest token).0)
      → Adds (suc rounds) ms (or_stop L o (r.sent, r.machine) rest).0
  unfolding Adds
  Adds-round rounds ms r none rest (inl (e, ends)) is more =
      ([], omega arith, e ∙ sym (append-nil ms))
  Adds-round rounds ms r none rest (inr (text, e)) is more = (text ∷ [], omega arith, e)
  Adds-round rounds ms r (some token) rest (inl (e, ends)) is more = cc
  Adds-round rounds ms r (some token) rest (inr (text, e)) is more =
      let (tokens, few, e') = more token in
      (
        text ∷ tokens,
        omega arith,
        e'
            ∙ ap (λ sent. sent ++ map token_message tokens) e
            ∙ append_assoc ms (token_message text ∷ []) (map token_message tokens),
      )

  generate-Adds :
      (model : L.Model) (ctx : L.Context) (rounds i : ℕ) (last : ℤ) (s : L.State) (ms : Messages)
      → Adds rounds ms (generate L here model ctx rounds i last s ms).0
  unfolding generate Adds
  generate-Adds model ctx zero i last s ms = ([], omega arith, sym (append-nil ms))
  generate-Adds model ctx (suc rounds) i last s ms =
      let r = round L here model ctx i last s ms in
      Adds-round rounds ms r r.next
        (λ token. generate L here model ctx rounds (suc i) token r.machine r.sent)
        (round-Sends model ctx i last s ms) refl
        (λ token. generate-Adds model ctx rounds (suc i) token r.machine r.sent)

  generate_all-Answered :
      (limit : ℕ) (r : Try (Ready L) × World L) → Answered limit (generate_all L here limit r).0
  unfolding Adds
  generate_all-Answered limit (failed e, w) = refused (internal_status e)
  generate_all-Answered limit (done ready, w) =
      let (tokens, few, e) = generate-Adds ready.model ready.context limit 0 (pos 0) w.machine [] in
      subst (λ ms. Answered limit (ms ++ (response end_response ∷ []))) (sym e) (told tokens few)

  -- Whatever the binding answers, a prompt whose stream is read to its end is answered by one error, or by
  -- tokens, at most as many as asked for, and then the message without logits that ends them.
  pub produce-Answered :
      (path prompt : Text) (limit : ℕ) (w : World L)
      → Answered limit (produce L here path prompt limit w).0
  unfolding produce
  produce-Answered path prompt limit w = generate_all-Answered limit (prepare L path prompt w)

  -- The message for token 0.
  abbrev pub zero_message : L.Model → Reply ForwardResponse
  zero_message model = token_message (text_or_number (pos 0) (L.token_to_str model (pos 0)))

  sample_zero :
      (model : L.Model) (s : L.State) (ms : Messages) (logits : List ℕ) (x : ℕ) (xs : List ℕ)
      → logits ≡ x ∷ xs
      → argmax (x ∷ xs) ≡ pos 0
      → int_eq (pos 0) (L.token_eos model) ≡ false
      → sample L here model logits s ms
        ≡ record { next = some (pos 0); machine = s; sent = ms ++ (zero_message model ∷ []) }
  sample_zero model s ms [] x xs logits zero_token goes_on = cc
  sample_zero model s ms (y ∷ ys) x xs logits zero_token goes_on =
      let e : argmax (y ∷ ys) ≡ pos 0 = ap argmax logits ∙ zero_token in rw (e, goes_on) refl

  round_zero :
      (model : L.Model) (ctx : L.Context) (i : ℕ) (s : L.State) (ms : Messages) (x : ℕ)
      (xs : List ℕ)
      → L.get_logits ctx s ≡ x ∷ xs
      → argmax (x ∷ xs) ≡ pos 0
      → int_eq (pos 0) (L.token_eos model) ≡ false
      → round L here model ctx i (pos 0) s ms
        ≡ record { next = some (pos 0); machine = s; sent = ms ++ (zero_message model ∷ []) }
  unfolding round
  round_zero model ctx i s ms x xs logits zero_token goes_on =
      sample_zero model s ms (L.get_logits ctx s) x xs logits zero_token goes_on

  -- If token 0 is the greedy choice and does not end the text, the loop never decodes it: the state of the
  -- model stays, and token 0 is sent in every round that is left.
  pub generate_zero :
      (model : L.Model) (ctx : L.Context) (rounds i : ℕ) (s : L.State) (ms : Messages) (x : ℕ)
      (xs : List ℕ)
      → L.get_logits ctx s ≡ x ∷ xs
      → argmax (x ∷ xs) ≡ pos 0
      → int_eq (pos 0) (L.token_eos model) ≡ false
      → generate L here model ctx rounds i (pos 0) s ms
        ≡ (ms ++ replicate rounds (zero_message model), s)
  unfolding generate
  generate_zero model ctx zero i s ms x xs logits zero_token goes_on =
      ap (λ m. (m, s)) (sym (append-nil ms))
  generate_zero model ctx (suc rounds) i s ms x xs logits zero_token goes_on =
      let message = zero_message model in
      ap
        (λ (r : Round L).
          or_stop L r.next (r.sent, r.machine)
            (λ token. generate L here model ctx rounds (suc i) token r.machine r.sent))
        (round_zero model ctx i s ms x xs logits zero_token goes_on)
      ∙ generate_zero model ctx rounds (suc i) s (ms ++ (message ∷ [])) x xs logits zero_token
          goes_on
      ∙ ap (λ m. (m, s)) (append_assoc ms (message ∷ []) (replicate rounds message))
