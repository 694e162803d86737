-- ===== src/Agent/Rpc/Laws.antt =====
-- The life of the rpc-server child of node-agent/src/inference/rpc.rs, over sequences of calls.
use arcflame.Base.{ℕ, List, [], ◌∷◌, Option, none, some}
use arcflame.Agent.{Text, Try, done, failed}
use arcflame.Agent.Rpc.{Processes, RpcServer, new, start, stop, start_args, after_spawn}

-- What was done to the children, the latest first. `killed` is a call of `kill`, whatever it
-- returns: the handle is dropped behind it, which kills the child too (`kill_on_drop`).
pub data Event (C : Type 0) : Type 0 where
  spawned : C → Event C
  killed : C → Event C

-- The children that a history leaves: spawned, and not killed since.
pub data Live {C : Type 0} : List (Event C) → List C → Type 0 where
  nothing : Live [] []
  spawn : {h : List (Event C)} {cs : List C} (c : C) → Live h cs → Live (spawned c ∷ h) (c ∷ cs)
  kill : {h : List (Event C)} {cs : List C} (c : C) → Live h (c ∷ cs) → Live (killed c ∷ h) cs

pub data Call : Type 0 where
  call_start : Call
  call_stop : Call

abbrev pub handle : {C : Type 0} → Option C → List C
handle none = []
handle (some c) = c ∷ []

module _ (P : Processes) where
  abbrev History : Type 0
  History = List (Event P.Child)

  abbrev pub spawned_if : Try P.Child → History → History
  spawned_if (done c) h = spawned c ∷ h
  spawned_if (failed e) h = h

  -- The same processes, with the history of the children.
  abbrev pub recorded : Processes
  recorded = record {
    State = P.State × History;
    Child = P.Child;
    spawn = λ bin args s. let (r, s') = P.spawn bin args s.0 in (r, (s', spawned_if r s.1));
    kill = λ c s. let (r, s') = P.kill c s.0 in (r, (s', killed c ∷ s.1));
  }

  -- A server and its machine after so many calls, in order.
  unfoldable pub run :
      List Call → RpcServer recorded × recorded.State → RpcServer recorded × recorded.State
  unfolding start stop
  run [] w = w
  run (call_start ∷ cs) w = let (r, s) = start recorded w.0 w.1 in run cs (r.1, s)
  run (call_stop ∷ cs) w = run cs (stop recorded w.0 w.1)

  abbrev pub Kept : RpcServer recorded × recorded.State → Type 0
  Kept w = Live w.1.1 (handle w.0.process)

  pub start-Kept :
      (port : ℕ) (bin : Text) (process : Option P.Child) (s : recorded.State)
      → let server : RpcServer recorded = record { port = port; bin = bin; process = process } in
        Kept (server, s) → let (r, s') = start recorded server s in Kept (r.1, s')
  unfolding start
  start-Kept port bin (some c) s k = k
  start-Kept port bin none s k = by_case (P.spawn bin (start_args port) s.0).0
    where
      server : RpcServer recorded
      server = record { port = port; bin = bin; process = none }

      by_case :
          (a : Try P.Child)
          → Live (spawned_if a s.1) (handle (after_spawn recorded server a).1.process)
      by_case (done c) = Live.spawn c k
      by_case (failed e) = k

  pub stop-Kept :
      (port : ℕ) (bin : Text) (process : Option P.Child) (s : recorded.State)
      → let server : RpcServer recorded = record { port = port; bin = bin; process = process } in
        Kept (server, s) → Kept (stop recorded server s)
  unfolding stop
  stop-Kept port bin none s k = k
  stop-Kept port bin (some c) s k = Live.kill c k

  run-Kept :
      (calls : List Call) (w : RpcServer recorded × recorded.State) → Kept w → Kept (run calls w)
  unfolding run
  run-Kept [] w k = k
  run-Kept (call_start ∷ cs) w k =
      let (server, s) = w in run-Kept cs _ (start-Kept server.port server.bin server.process s k)
  run-Kept (call_stop ∷ cs) w k =
      let (server, s) = w in run-Kept cs _ (stop-Kept server.port server.bin server.process s k)

  -- From a new server on, through any sequence of `start` and `stop` and whatever `spawn` and
  -- `kill` answer: the children that were spawned and not killed since are none while `process` is
  -- empty, and else the one child in it. So at most one is alive, and none is forgotten.
  pub run_children :
      (port : ℕ) (bin : Text) (calls : List Call) (s : P.State)
      → let w = run calls (new recorded port bin, (s, [])) in Live w.1.1 (handle w.0.process)
  unfolding run new
  run_children port bin calls s = run-Kept calls (new recorded port bin, (s, [])) nothing
