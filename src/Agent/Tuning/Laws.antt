-- ===== src/Agent/Tuning/Laws.antt =====
-- What `apply_tuning` of node-agent/src/tuning/mod.rs reports, and which files it writes.
use arcflame.Base.{
  ℕ, suc, ◌+◌, ◌≡◌, ◌↔◌, refl, Bool, true, false, List, [], ◌∷◌, length, length-append, arith,
}
use arcflame.Agent.{Text, Try, done, failed, System}
use arcflame.Agent.Tuning.{
  TuningRequest, Log, Step, step, steps, run_steps, record_result, apply_tuning, is_empty,
}

-- The number of steps that a request asks for.
abbrev one_if : Bool → ℕ
one_if true = 1
one_if false = 0

abbrev pub requested : TuningRequest → ℕ
requested req =
    one_if req.set_performance_governor
    + (one_if req.set_hugepages
        + (one_if req.set_swappiness
            + (one_if req.set_io_scheduler
                + (one_if req.set_thp_mode + one_if req.disable_numa_balancing))))

abbrev entries : Log → ℕ
entries log = length log.changes + length log.errors

module _ (S : System) where
  open S use {State}

  record_result-entries :
      (message : Text) (log : Log) (r : Try (Unit {0}))
      → entries (record_result S message log r) ≡ suc (entries log)
  record_result-entries message log (done _) = rw (length-append) (omega arith)
  record_result-entries message log (failed e) = rw (length-append) (omega arith)

  step-entries :
      (b : Bool) (action : State → Try (Unit {0}) × State) (message : Text) (log : Log) (s : State)
      → entries (step S b action message log s).0 ≡ one_if b + entries log
  unfolding step
  step-entries false action message log s = omega arith
  step-entries true action message log s =
      omega (arith, record_result-entries message log (action s).0)

  -- How many of the steps are wanted.
  wanted_among : List (Step S) → ℕ
  wanted_among [] = 0
  wanted_among (t ∷ ts) = one_if t.wanted + wanted_among ts

  run_steps-entries :
      (ts : List (Step S)) (log : Log) (s : State)
      → entries (run_steps S ts log s).0 ≡ wanted_among ts + entries log
  unfolding run_steps wanted_among
  run_steps-entries [] log s = omega arith
  run_steps-entries (t ∷ ts) log s =
      let r = step S t.wanted t.action t.message log s in
      omega (arith, step-entries t.wanted t.action t.message log s, run_steps-entries ts r.0 r.1)

  is_empty_iff : (es : List Text) → (is_empty es ≡ true) ↔ (es ≡ [])
  is_empty_iff [] = ((λ h. refl), (λ h. refl))
  is_empty_iff (e ∷ es) = ((λ h. cc), (λ h. cc))

  -- `apply_tuning` accounts for every step that was asked for: each one left a change or an error,
  -- and `applied` says that no error was left.
  pub apply_tuning_accounts :
      (req : TuningRequest) (s : State)
      → let r = (apply_tuning S req s).0 in
        (length r.changes_made + length r.errors ≡ requested req)
        × ((r.applied ≡ true) ↔ (r.errors ≡ []))
  unfolding apply_tuning wanted_among
  apply_tuning_accounts req s = (
    omega (arith, run_steps-entries (steps S req) (record { changes = []; errors = [] }) s),
    is_empty_iff _,
  )
