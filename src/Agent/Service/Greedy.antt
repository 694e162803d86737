-- ===== src/Agent/Service/Greedy.antt =====
-- The tokens that the task for a prompt in node-agent/src/network/grpc_server.rs chooses, sends and
-- decodes, against greedy decoding (`Decoding`).
use arcflame.Base.{ℕ, suc, ◌+◌, ◌≤◌, ◌≡◌, Bool, List, [], ◌∷◌, ◌++◌, map, length, if◌then◌else◌}
use arcflame.Base.Text.{ℤ}
use arcflame.Agent.{Text}
use arcflame.Agent.Inference.{Llama}
use arcflame.Agent.Service.Replies.{Messages}
use arcflame.Agent.Service.Generate.{Round, int_eq, send, after_send, or_stop, generate}
use arcflame.Agent.Service.Decoding.{
  greedy_choice, History, Decoding, taken, offered, fed, fed_before, greedy_tokens, until,
  message_of,
}

module _ (L : Llama) (D : Decoding L) (takes : ℕ → Bool) (model : L.Model) (ctx : L.Context) where
  open D use {history, contents, capacity}

  abbrev greedy : L.Context → History → ℤ
  greedy = greedy_choice D

  abbrev eos : ℤ
  eos = L.token_eos model

  abbrev choice : L.State → ℤ
  choice s = greedy ctx (history ctx s)

  -- A round sends the greedy choice.
  abbrev sends_choice : L.State → Messages → Round L
  sends_choice s ms =
      after_send L takes model (choice s) s (send L takes (message_of L model (choice s)) ms)

  -- The tokens behind the first one, if the loop goes on.
  abbrev later : ℕ → ℕ → History → List ℤ
  later i rounds h =
      let token = greedy ctx h in
      if int_eq token eos
      then []
      else until eos (greedy_tokens (greedy ctx) (suc i) (h ++ fed i token) rounds)

  -- What the loop gives that has these tokens to send.
  abbrev Sent : Messages → List ℤ → Messages → Type 0
  Sent ms tokens ms' = ms' ≡ ms ++ taken takes (length ms) (map (message_of L model) tokens)

  -- What the loop gives whose next choice is that for `h`.
  abbrev Gives : ℕ → ℕ → History → Messages → Messages × L.State → Type 0
  Gives i rounds h ms out =
      let tokens = greedy ctx h ∷ later i rounds h in
      Sent ms tokens out.0
      × (history ctx out.1
          ≡ h
            ++ fed_before i (greedy ctx h) (
                if takes (length ms)
                then offered takes (suc (length ms)) (later i rounds h)
                else []))

  abbrev go_on : ℕ → ℕ → Round L → Messages × L.State
  go_on rounds i r =
      or_stop L r.next (r.sent, r.machine)
        (λ token. generate L takes model ctx rounds i token r.machine r.sent)

  abbrev HasRoom : ℕ → L.State → Type 0
  HasRoom rounds s = length (history ctx s) + rounds ≤ capacity

  abbrev Generates : ℕ → ℕ → ℤ → L.State → Messages → Type 0
  Generates rounds i last s ms =
      let h = history ctx s ++ fed i last in
      let tokens = until eos (greedy_tokens (greedy ctx) (suc i) h rounds) in
      let out = generate L takes model ctx rounds i last s ms in
      Sent ms tokens out.0
      × (history ctx out.1 ≡ history ctx s ++ fed_before i last (offered takes (length ms) tokens))
