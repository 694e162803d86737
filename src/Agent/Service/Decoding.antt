-- ===== src/Agent/Service/Decoding.antt =====
-- Greedy decoding, as a client sees the task for a prompt in node-agent/src/network/grpc_server.rs: over a
-- binding of llama.cpp that keeps what it decoded, and with a client that may leave.
use mathlib.Core.Path.{subst}
use arcflame.Base.{
  true, ℕ, zero, suc, ◌%◌, ◌^◌, ◌≤◌, ◌≡◌, refl, sym, ap, ◌∙◌, inl, inr, Bool, List, [], ◌∷◌, ◌++◌,
  append-nil, append_assoc, length, length-append, Bool-cases, arith, if◌then◌else◌,
}
use arcflame.Base.Text.{ℤ, pos}
use arcflame.Agent.{done}
use arcflame.Agent.Shard.{from_bits}
use arcflame.Agent.Inference.{Llama, ForwardResponse}
use arcflame.Agent.Service.Tokens.{token_message}
use arcflame.Agent.Service.Replies.{Reply, Messages}
use arcflame.Agent.Service.Generate.{argmax, text_or_number, int_eq, send}

-- Tokens with the positions at which they were decoded.
abbrev pub History : Type 0
History = List (ℤ × ℤ)

-- What the binding is documented to do, for a context with room: a batch for one token takes one, decoding
-- appends a batch to what the context holds, and the logits, of which there are some, depend on what
-- it holds.
pub record Decoding (L : Llama) : Type 0 where
  pub history : L.Context → L.State → History
  pub contents : L.Batch → History
  pub capacity : ℕ
  pub logits : L.Context → History → List ℕ
  pub add_one :
      (token position : ℤ)
      → (b : L.Batch) × (L.add (L.new_batch 1 1) token position (pos 0 ∷ []) true ≡ done b)
        × (contents b ≡ (token, position) ∷ [])
  pub decode_batch :
      (ctx : L.Context) (b : L.Batch) (s : L.State)
      → length (history ctx s ++ contents b) ≤ capacity
      → (s' : L.State) × (L.decode ctx b s ≡ (done tt, s'))
        × (history ctx s' ≡ history ctx s ++ contents b)
  pub read_logits :
      (ctx : L.Context) (s : L.State) → L.get_logits ctx s ≡ logits ctx (history ctx s)
  pub some_logits :
      (ctx : L.Context) (h : History) → (x : ℕ) × (xs : List ℕ) × (logits ctx h ≡ x ∷ xs)

-- The greedy choice behind what the context holds.
abbrev pub greedy_choice : {L : Llama} → Decoding L → L.Context → History → ℤ
greedy_choice D ctx h = argmax (D.logits ctx h)

-- The messages that a client takes that is there for message `j` if `takes j`, from number `j` on.
unfoldable pub taken : (ℕ → Bool) → ℕ → Messages → Messages
taken takes j [] = []
taken takes j (m ∷ ms) = let rest = taken takes (suc j) ms in if takes j then m ∷ rest else []

-- The tokens up to the first whose message is not taken, which is one of them.
unfoldable pub offered : (ℕ → Bool) → ℕ → List ℤ → List ℤ
offered takes j [] = []
offered takes j (token ∷ tokens) =
    let rest = offered takes (suc j) tokens in token ∷ (if takes j then rest else [])

-- What is decoded for a token at a place in the text: nothing for token 0.
unfoldable pub fed : ℕ → ℤ → History
fed i token = if int_eq token (pos 0) then [] else (token, from_bits (i % 2 ^ 32)) ∷ []

-- What is decoded until these tokens are chosen, one by one: each only after the one before it.
unfoldable pub fed_before : ℕ → ℤ → List ℤ → History
unfolding fed
fed_before i last [] = []
fed_before i last (token ∷ tokens) = fed i last ++ fed_before (suc i) token tokens

-- Greedy decoding of so many tokens, from the place `i` on.
unfoldable pub greedy_tokens : (History → ℤ) → ℕ → History → ℕ → List ℤ
unfolding fed
greedy_tokens greedy i h zero = []
greedy_tokens greedy i h (suc n) =
    let token = greedy h in token ∷ greedy_tokens greedy (suc i) (h ++ fed i token) n

-- The tokens up to the end of the text, which is one of them.
unfoldable pub until : ℤ → List ℤ → List ℤ
until eos [] = []
until eos (token ∷ tokens) =
    let rest = until eos tokens in token ∷ (if int_eq token eos then [] else rest)

abbrev pub message_of : (L : Llama) → L.Model → ℤ → Reply ForwardResponse
message_of L model token = token_message (text_or_number token (L.token_to_str model token))

pub length-fed : (i : ℕ) (token : ℤ) → length (fed i token) ≤ 1
unfolding fed
length-fed i token = elim (Bool-cases (int_eq token (pos 0))) [
  | inl e ↦ rw e (omega arith)
  | inr e ↦ rw e (omega arith)
]

module _ (L : Llama) (takes : ℕ → Bool) where
  -- A message more, behind those that are taken.
  pub send-taken :
      (m : Reply ForwardResponse) (before ms : Messages)
      → (send L takes m (before ++ taken takes (length before) ms)).1
        ≡ before ++ taken takes (length before) (ms ++ (m ∷ []))
  unfolding taken
  send-taken m before [] = elim (Bool-cases (takes (length before))) [
    | inl open_ ↦ rw (append-nil before, open_) refl
    | inr shut ↦ rw (append-nil before, shut) (sym (append-nil before))
  ]
  send-taken m before (m' ∷ ms) = elim (Bool-cases (takes (length before))) [
    | inl open_ ↦
        let next : length (before ++ (m' ∷ [])) ≡ suc (length before) =
          omega (arith, length-append before (m' ∷ [])) in
        let more =
          subst
            (λ (j : ℕ).
              (send L takes m ((before ++ (m' ∷ [])) ++ taken takes j ms)).1
              ≡ (before ++ (m' ∷ [])) ++ taken takes j (ms ++ (m ∷ [])))
            next (send-taken m (before ++ (m' ∷ [])) ms) in
        rw open_ (
          ap (λ b. (send L takes m b).1) (sym (append_assoc before (m' ∷ []) _))
          ∙ more
          ∙ append_assoc before (m' ∷ []) _)
    | inr shut ↦ rw (shut, append-nil before, shut) refl
  ]
