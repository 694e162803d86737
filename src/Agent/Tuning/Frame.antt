-- ===== src/Agent/Tuning/Frame.antt =====
-- What `apply_tuning` of node-agent/src/tuning/mod.rs leaves alone.
use arcflame.Base.{◌≡◌, refl, Bool, true, false, List, [], ◌∷◌, ◌++◌, All}
use arcflame.Base.Text.{codes, contains}
use arcflame.Agent.{Text, Try, done, failed, System, trim}
use arcflame.Agent.Tuning.{
  TuningRequest, Log, Step, step, steps, run_steps, apply_tuning, set_performance_governor,
  pre_allocate, set_swappiness, set_thp_mode, disable_numa_balancing, set_device, set_devices,
  set_scheduler, write_if, if_offered, read_if, if_solid, set_listed, entries, scheduler_path,
  is_zero_text,
}

-- The files that a request asks to write.
pub data Asked (req : TuningRequest) : Text → Type 0 where
  pages : req.set_hugepages ≡ true → Asked req (codes "/proc/sys/vm/nr_hugepages")
  swap : req.set_swappiness ≡ true → Asked req (codes "/proc/sys/vm/swappiness")
  device :
      (name : Text)
      → req.set_io_scheduler ≡ true
      → Asked req (codes "/sys/block/" ++ (name ++ codes "/queue/scheduler"))
  huge : req.set_thp_mode ≡ true → Asked req (codes "/sys/kernel/mm/transparent_hugepage/enabled")
  numa : req.disable_numa_balancing ≡ true → Asked req (codes "/proc/sys/kernel/numa_balancing")

module _ (S : System) (req : TuningRequest) (Q : S.State → Type 0)
    (keep_read : (path : Text) (s : S.State) → Q s → Q (S.read_to_string path s).1)
    (keep_dir : (path : Text) (s : S.State) → Q s → Q (S.read_dir path s).1)
    (keep_output : (command : Text) (args : List Text) (s : S.State)
      → Q s
      → Q (S.output command args s).1)
    (keep_write : (path text : Text) (s : S.State)
      → Asked req path
      → Q s
      → Q (S.write path text s).1) where
  -- An action that keeps `Q`.
  abbrev Keeps : {A : Type 0} → (S.State → A × S.State) → Type 0
  Keeps m = (s : S.State) → Q s → Q (m s).1

  write_if-Keeps :
      (b : Bool) (scheduler name : Text)
      → req.set_io_scheduler ≡ true
      → Keeps (write_if S b scheduler name)
  write_if-Keeps false scheduler name on s q = q
  write_if-Keeps true scheduler name on s q = keep_write _ scheduler s (device name on) q

  if_offered-Keeps :
      (r : Try Text) (scheduler name : Text)
      → req.set_io_scheduler ≡ true
      → Keeps (if_offered S r scheduler name)
  if_offered-Keeps (failed e) scheduler name on s q = q
  if_offered-Keeps (done offered) scheduler name on s q =
      write_if-Keeps (contains scheduler offered) scheduler name on s q

  read_if-Keeps :
      (b : Bool) (scheduler name : Text)
      → req.set_io_scheduler ≡ true
      → Keeps (read_if S b scheduler name)
  read_if-Keeps false scheduler name on s q = q
  read_if-Keeps true scheduler name on s q =
      if_offered-Keeps (S.read_to_string (scheduler_path S name) s).0 scheduler name on
        (S.read_to_string (scheduler_path S name) s).1 (keep_read (scheduler_path S name) s q)

  if_solid-Keeps :
      (r : Try Text) (scheduler name : Text)
      → req.set_io_scheduler ≡ true
      → Keeps (if_solid S r scheduler name)
  if_solid-Keeps (failed e) scheduler name on s q = q
  if_solid-Keeps (done r) scheduler name on s q =
      read_if-Keeps (is_zero_text (trim r)) scheduler name on s q

  set_devices-Keeps :
      (scheduler : Text) (names : List Text) (applied : Bool)
      → req.set_io_scheduler ≡ true
      → Keeps (set_devices S scheduler names applied)
  unfolding set_devices set_device
  set_devices-Keeps scheduler [] applied on s q = q
  set_devices-Keeps scheduler (name ∷ names) applied on s q =
      set_devices-Keeps scheduler names _ on _
        (if_solid-Keeps _ scheduler name on _ (keep_read _ s q))

  set_listed-Keeps :
      (b : Bool) (scheduler : Text) → req.set_io_scheduler ≡ true → Keeps (set_listed S b scheduler)
  set_listed-Keeps false scheduler on s q = q
  set_listed-Keeps true scheduler on s q =
      set_devices-Keeps scheduler (entries S (S.read_dir (codes "/sys/block") s).0) false on
        (S.read_dir (codes "/sys/block") s).1 (keep_dir (codes "/sys/block") s q)

  step-Keeps :
      (b : Bool) (action : S.State → Try (Unit {0}) × S.State) (message : Text) (log : Log)
      → (b ≡ true → Keeps action)
      → Keeps (step S b action message log)
  unfolding step
  step-Keeps false action message log keeps s q = q
  step-Keeps true action message log keeps s q = keeps refl s q

  StepKeeps : Step S → Type 0
  StepKeeps t = t.wanted ≡ true → Keeps t.action

  run_steps-Keeps : (ts : List (Step S)) (log : Log) → All StepKeeps ts → Keeps (run_steps S ts log)
  unfolding run_steps StepKeeps
  run_steps-Keeps [] log keeps s q = q
  run_steps-Keeps (t ∷ ts) log keeps s q =
      run_steps-Keeps ts _ keeps.1 _ (step-Keeps t.wanted t.action t.message log keeps.0 s q)

  steps-Keeps : All StepKeeps (steps S req)
  unfolding StepKeeps set_performance_governor pre_allocate set_swappiness set_thp_mode
      disable_numa_balancing set_scheduler
  steps-Keeps = (
    λ on s q. keep_output _ _ s q,
    (
      λ on s q. keep_write _ _ s (pages on) q,
      (
        λ on s q. keep_write _ _ s (swap on) q,
        (
          λ on s q. set_listed-Keeps (S.exists (codes "/sys/block") s) req.io_scheduler on s q,
          (λ on s q. keep_write _ _ s (huge on) q, (λ on s q. keep_write _ _ s (numa on) q, tt)),
        ),
      ),
    ),
  )

  -- What holds of the machine, and is kept by reads, by commands, and by writes to the files that the
  -- request asks to write, still holds after `apply_tuning`: it writes no other file.
  pub apply_tuning_keeps : (s : S.State) → Q s → Q (apply_tuning S req s).1
  unfolding apply_tuning
  apply_tuning_keeps s q = run_steps-Keeps (steps S req) _ steps-Keeps s q
