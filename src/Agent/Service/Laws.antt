-- ===== src/Agent/Service/Laws.antt =====
-- What the handlers of node-agent/src/network/grpc_server.rs answer.
use arcflame.Base.{◌≡◌, refl, true, Option, none, some}
use arcflame.Base.Text.{ℤ}
use arcflame.Agent.{System}
use arcflame.Agent.Overclocking.{apply_safe_tuning, apply_aggressive_tuning}
use arcflame.Agent.Service.{
  PerfModeResponse, mode_of, mode_reply, tune_for, Mode, safe, aggressive, custom,
  set_performance_mode,
}
use arcflame.Agent.Service.Replies.{Reply, response, status}

-- A reply that claims success.
abbrev pub Applied : Reply PerfModeResponse → Type 0
Applied (response r) = r.applied ≡ true
Applied (status e) = ⊥

module _ (S : System) where
  open S use {State}

  tune_for-Applied : (mode : Option Mode) (s : State) → Applied (mode_reply (tune_for S mode s).0)
  unfolding apply_safe_tuning apply_aggressive_tuning
  tune_for-Applied (some safe) s = refl
  tune_for-Applied (some aggressive) s = refl
  tune_for-Applied (some custom) s = refl
  tune_for-Applied none s = refl

  -- A performance mode is always reported as applied: for each number, also one that is no mode, and
  -- whatever the machine answers, also if every command and every write fails.
  pub set_performance_mode-Applied :
      (mode : ℤ) (s : State) → Applied (set_performance_mode S mode s).0
  unfolding set_performance_mode
  set_performance_mode-Applied mode s = tune_for-Applied (mode_of mode) s
