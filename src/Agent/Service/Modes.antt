-- ===== src/Agent/Service/Modes.antt =====
-- What a performance mode does to the machine: `set_performance_mode` of
-- node-agent/src/network/grpc_server.rs with node-agent/src/overclocking/safe.rs and aggressive.rs.
use arcflame.Base.{◌≡◌, refl, Bool, true, false, List, [], Option, none, some}
use arcflame.Base.Text.{codes, ℤ}
use arcflame.Agent.{Text, System}
use arcflame.Agent.Tuning.{governor_args}
use arcflame.Agent.Overclocking.{
  apply_safe_tuning, apply_aggressive_tuning, disable_turbo, undervolt, raise_tdp, lock_clock,
  no_turbo_path, max_perf_path, args1, args2,
}
use arcflame.Agent.Service.{Mode, safe, aggressive, custom, mode_of, tune_for, set_performance_mode}

-- The commands that a mode may run.
pub data Runs (m : Option Mode) : Text → List Text → Type 0 where
  governor_safe : m ≡ some safe → Runs m (codes "cpupower") governor_args
  governor : m ≡ some aggressive → Runs m (codes "cpupower") governor_args
  probe_intel : m ≡ some aggressive → Runs m (codes "intel-undervolt") (args1 (codes "read"))
  core : m ≡ some aggressive → Runs m (codes "intel-undervolt") (args2 (codes "core") (codes "-50"))
  cache :
      m ≡ some aggressive → Runs m (codes "intel-undervolt") (args2 (codes "cache") (codes "-50"))
  apply : m ≡ some aggressive → Runs m (codes "intel-undervolt") (args1 (codes "apply"))
  probe_ryzen : m ≡ some aggressive → Runs m (codes "ryzenadj") (args1 (codes "-i"))
  tdp :
      m ≡ some aggressive
      → Runs m (codes "ryzenadj") (args2 (codes "--stapm-limit") (codes "35000"))
  probe_nvidia : m ≡ some aggressive → Runs m (codes "nvidia-smi") []
  power : m ≡ some aggressive → Runs m (codes "nvidia-smi") (args2 (codes "-pl") (codes "150"))
  clock :
      m ≡ some aggressive → Runs m (codes "nvidia-smi") (args2 (codes "-lgc") (codes "1500,1900"))

-- The modes that tune.
pub data Tunes : Option Mode → Type 0 where
  by_safe : Tunes (some safe)
  by_aggressive : Tunes (some aggressive)

-- The files that a mode may write, with what.
pub data Writes (m : Option Mode) : Text → Text → Type 0 where
  turbo : Tunes m → Writes m no_turbo_path (codes "1")
  perf : Tunes m → Writes m max_perf_path (codes "100")

governor_of : {m : Option Mode} → Tunes m → Runs m (codes "cpupower") governor_args
governor_of by_safe = governor_safe refl
governor_of by_aggressive = governor refl

module _ (S : System) (Q : S.State → Type 0) (m : Option Mode)
    (keep_read : (path : Text) (s : S.State) → Q s → Q (S.read_to_string path s).1)
    (keep_output : (command : Text) (args : List Text) (s : S.State)
      → Runs m command args
      → Q s
      → Q (S.output command args s).1)
    (keep_write : (path text : Text) (s : S.State)
      → Writes m path text
      → Q s
      → Q (S.write path text s).1) where
  disable_turbo-Keeps :
      (b : Bool) (changes : List Text) (s : S.State)
      → Tunes m
      → Q s
      → Q (disable_turbo S b changes s).1
  disable_turbo-Keeps false changes s tunes q = q
  disable_turbo-Keeps true changes s tunes q = keep_write _ _ s (turbo tunes) q

  apply_safe_tuning-Keeps : (s : S.State) → Tunes m → Q s → Q (apply_safe_tuning S s).1
  unfolding apply_safe_tuning
  apply_safe_tuning-Keeps s tunes q = keep_write max_perf_path (codes "100") _ (perf tunes) (
      disable_turbo-Keeps _ _ _ tunes
        (keep_read no_turbo_path _ (keep_output _ _ s (governor_of tunes) q)))

  undervolt-Keeps :
      (b : Bool) (changes : List Text) (s : S.State)
      → m ≡ some aggressive
      → Q s
      → Q (undervolt S b changes s).1
  undervolt-Keeps false changes s on q = q
  undervolt-Keeps true changes s on q =
      keep_output _ _ _ (apply on) (keep_output _ _ _ (cache on) (keep_output _ _ s (core on) q))

  raise_tdp-Keeps :
      (b : Bool) (changes : List Text) (s : S.State)
      → m ≡ some aggressive
      → Q s
      → Q (raise_tdp S b changes s).1
  raise_tdp-Keeps false changes s on q = q
  raise_tdp-Keeps true changes s on q = keep_output _ _ s (tdp on) q

  lock_clock-Keeps :
      (b : Bool) (changes : List Text) (s : S.State)
      → m ≡ some aggressive
      → Q s
      → Q (lock_clock S b changes s).1
  lock_clock-Keeps false changes s on q = q
  lock_clock-Keeps true changes s on q =
      keep_output _ _ _ (clock on) (keep_output _ _ s (power on) q)

  apply_aggressive_tuning-Keeps :
      (s : S.State) → Tunes m → m ≡ some aggressive → Q s → Q (apply_aggressive_tuning S s).1
  unfolding apply_aggressive_tuning
  apply_aggressive_tuning-Keeps s tunes on q = lock_clock-Keeps _ _ _ on (
      keep_output _ _ _ (probe_nvidia on) (
        raise_tdp-Keeps _ _ _ on (
          keep_output _ _ _ (probe_ryzen on) (
            undervolt-Keeps _ _ _ on
              (keep_output _ _ _ (probe_intel on) (apply_safe_tuning-Keeps s tunes q))))))

module _ (S : System) (Q : S.State → Type 0) where
  tune_for-Keeps :
      (m : Option Mode) (s : S.State)
      → ((path : Text) (t : S.State) → Q t → Q (S.read_to_string path t).1)
      → ((command : Text) (args : List Text) (t : S.State)
          → Runs m command args
          → Q t
          → Q (S.output command args t).1)
      → ((path text : Text) (t : S.State) → Writes m path text → Q t → Q (S.write path text t).1)
      → Q s
      → Q (tune_for S m s).1
  tune_for-Keeps (some safe) s reads outputs writes q =
      apply_safe_tuning-Keeps S Q (some safe) reads outputs writes s by_safe q
  tune_for-Keeps (some aggressive) s reads outputs writes q =
      apply_aggressive_tuning-Keeps S Q (some aggressive) reads outputs writes s by_aggressive refl
        q
  tune_for-Keeps (some custom) s reads outputs writes q = q
  tune_for-Keeps none s reads outputs writes q = q

  -- What holds of the machine, and is kept by reads, by the commands that the mode may run (`Runs`) and by
  -- the writes that it may make (`Writes`), still holds after `set_performance_mode`. Of commands, `Runs`
  -- has for the safe mode cpupower with the arguments that set the governor; for the aggressive mode this
  -- and those listed of intel-undervolt, ryzenadj and nvidia-smi. Of files, `Writes` has for both no_turbo
  -- and max_perf_pct of intel_pstate. For a number of the custom mode, or of no mode, they have nothing.
  pub set_performance_mode_keeps :
      (mode : ℤ) (s : S.State)
      → ((path : Text) (t : S.State) → Q t → Q (S.read_to_string path t).1)
      → ((command : Text) (args : List Text) (t : S.State)
          → Runs (mode_of mode) command args
          → Q t
          → Q (S.output command args t).1)
      → ((path text : Text) (t : S.State)
          → Writes (mode_of mode) path text
          → Q t
          → Q (S.write path text t).1)
      → Q s
      → Q (set_performance_mode S mode s).1
  unfolding set_performance_mode
  set_performance_mode_keeps mode s reads outputs writes q =
      tune_for-Keeps (mode_of mode) s reads outputs writes q
