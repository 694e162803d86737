-- ===== src/Agent/Tuning.antt =====
-- node-agent/src/tuning: `kernel.rs`, `hugepages.rs`, `io.rs`, and `apply_tuning` of `mod.rs`.
pub mod Laws
pub mod Queries
pub mod Frame
use arcflame.Base.{ℕ, ◌+◌, Bool, true, false, List, [], ◌∷◌, ◌++◌, ◌==◌, if◌then◌else◌}
use arcflame.Base.Text.{codes, contains}
use arcflame.Agent.{Text, Try, done, failed, map_err, Output, System, ◌>>=◌, pure, decimal, trim}

pub record TuningRequest : Type 0 where
  pub set_performance_governor : Bool
  pub set_hugepages : Bool
  pub hugepages_count : ℕ
  pub set_swappiness : Bool
  pub swappiness_value : ℕ
  pub set_io_scheduler : Bool
  pub io_scheduler : Text
  pub set_thp_mode : Bool
  pub thp_mode : Text
  pub disable_numa_balancing : Bool

pub record TuningResponse : Type 0 where
  pub applied : Bool
  pub changes_made : List Text
  pub errors : List Text

-- `changes` and `errors` of `apply_tuning`.
pub record Log : Type 0 where
  pub changes : List Text
  pub errors : List Text

abbrev pub governor_args : List Text
governor_args = codes "frequency-set" ∷ codes "-g" ∷ codes "performance" ∷ []

abbrev pub is_zero_text : Text → Bool
is_zero_text (c ∷ []) = c == b'0'
is_zero_text _ = false

abbrev is_empty : List Text → Bool
is_empty [] = true
is_empty (e ∷ es) = false

module _ (S : System) where
  open S use {State, exists, read_to_string, read_dir, write, output}

  abbrev governed : Try Output → Try (Unit {0})
  governed (failed e) = failed (codes "cpupower not found: " ++ e)
  governed (done o) =
      if o.success then done tt else failed (codes "Failed to set governor (need root?)")

  unfoldable pub set_performance_governor : State → Try (Unit {0}) × State
  set_performance_governor = do o ← output (codes "cpupower") governor_args; pure (governed o)

  unfoldable pub set_swappiness : ℕ → State → Try (Unit {0}) × State
  set_swappiness value = do
    r ← write (codes "/proc/sys/vm/swappiness") (decimal value)
    pure (map_err (codes "Failed to set swappiness: ") r)

  unfoldable pub set_thp_mode : Text → State → Try (Unit {0}) × State
  set_thp_mode mode = do
    r ← write (codes "/sys/kernel/mm/transparent_hugepage/enabled") mode
    pure (map_err (codes "Failed to set THP: ") r)

  unfoldable pub disable_numa_balancing : State → Try (Unit {0}) × State
  disable_numa_balancing = do
    r ← write (codes "/proc/sys/kernel/numa_balancing") (codes "0")
    pure (map_err (codes "Failed to disable NUMA balancing: ") r)

  unfoldable pub pre_allocate : ℕ → State → Try (Unit {0}) × State
  pre_allocate count = do
    r ← write (codes "/proc/sys/vm/nr_hugepages") (decimal count)
    pure (map_err (codes "Failed to allocate hugepages (need root?): ") r)

  -- One block device: a write of the scheduler if the device does not rotate and offers it. The
  -- result says whether the write succeeded.
  abbrev pub device_path : Text → Text → Text
  device_path name file = codes "/sys/block/" ++ (name ++ file)

  abbrev is_done : Try (Unit {0}) → Bool
  is_done (done _) = true
  is_done (failed e) = false

  abbrev pub scheduler_path : Text → Text
  scheduler_path name = device_path name (codes "/queue/scheduler")

  abbrev pub write_if : Bool → Text → Text → State → Bool × State
  write_if false scheduler name = pure false
  write_if true scheduler name = do w ← write (scheduler_path name) scheduler; pure (is_done w)

  abbrev pub if_offered : Try Text → Text → Text → State → Bool × State
  if_offered (failed e) scheduler name = pure false
  if_offered (done offered) scheduler name = write_if (contains scheduler offered) scheduler name

  abbrev pub read_if : Bool → Text → Text → State → Bool × State
  read_if false scheduler name = pure false
  read_if true scheduler name = do
    content ← read_to_string (scheduler_path name)
    if_offered content scheduler name

  abbrev pub if_solid : Try Text → Text → Text → State → Bool × State
  if_solid (failed e) scheduler name = pure false
  if_solid (done rotational) scheduler name =
      read_if (is_zero_text (trim rotational)) scheduler name

  unfoldable pub set_device : Text → Text → State → Bool × State
  set_device scheduler name = do
    rotational ← read_to_string (device_path name (codes "/queue/rotational"))
    if_solid rotational scheduler name

  -- The loop over the entries of `/sys/block`; `applied` is set by each success.
  unfoldable pub set_devices : Text → List Text → Bool → State → Bool × State
  set_devices scheduler [] applied = pure applied
  set_devices scheduler (name ∷ names) applied = do
    set ← set_device scheduler name
    set_devices scheduler names (if set then true else applied)

  abbrev pub entries : Try (List Text) → List Text
  entries (done names) = names
  entries (failed e) = []

  abbrev pub scheduler_result : Text → Bool → Try (Unit {0})
  scheduler_result scheduler true = done tt
  scheduler_result scheduler false = failed (codes "Failed to set I/O scheduler to " ++ scheduler)

  abbrev pub set_listed : Bool → Text → State → Try (Unit {0}) × State
  set_listed false scheduler = pure (failed (codes "No block devices found"))
  set_listed true scheduler = do
    names ← read_dir (codes "/sys/block")
    applied ← set_devices scheduler (entries names) false
    pure (scheduler_result scheduler applied)

  unfoldable pub set_scheduler : Text → State → Try (Unit {0}) × State
  unfolding set_devices set_device
  set_scheduler scheduler s = set_listed (exists (codes "/sys/block") s) scheduler s

  -- `match action { Ok(_) => changes.push(message), Err(e) => errors.push(e) }`
  abbrev pub record_result : Text → Log → Try (Unit {0}) → Log
  record_result message log (done _) = record log { changes = log.changes ++ (message ∷ []) }
  record_result message log (failed e) = record log { errors = log.errors ++ (e ∷ []) }

  -- One `if requested { match action { … } }`.
  pub record Step : Type 0 where
    pub wanted : Bool
    pub action : State → Try (Unit {0}) × State
    pub message : Text

  unfoldable pub step : Bool → (State → Try (Unit {0}) × State) → Text → Log → State → Log × State
  step false action message log = pure log
  step true action message log = do r ← action; pure (record_result message log r)

  unfoldable pub run_steps : List Step → Log → State → Log × State
  unfolding step
  run_steps [] log = pure log
  run_steps (t ∷ ts) log = step t.wanted t.action t.message log >>= run_steps ts

  -- The statements of `apply_tuning`, in order.
  abbrev pub steps : TuningRequest → List Step
  steps req =
      (record {
        wanted = req.set_performance_governor;
        action = set_performance_governor;
        message = codes "CPU governor → performance";
      })
      ∷ (record {
        wanted = req.set_hugepages;
        action = pre_allocate req.hugepages_count;
        message = codes "Hugepages: " ++ (decimal req.hugepages_count ++ codes " allocated");
      })
      ∷ (record {
        wanted = req.set_swappiness;
        action = set_swappiness req.swappiness_value;
        message = codes "Swappiness → " ++ decimal req.swappiness_value;
      })
      ∷ (record {
        wanted = req.set_io_scheduler;
        action = set_scheduler req.io_scheduler;
        message = codes "I/O scheduler → " ++ req.io_scheduler;
      })
      ∷ (record {
        wanted = req.set_thp_mode;
        action = set_thp_mode req.thp_mode;
        message = codes "THP mode → " ++ req.thp_mode;
      })
      ∷ (record {
        wanted = req.disable_numa_balancing;
        action = disable_numa_balancing;
        message = codes "NUMA balancing disabled";
      })
      ∷ []

  unfoldable pub apply_tuning : TuningRequest → State → TuningResponse × State
  unfolding run_steps
  apply_tuning req = do
    log ← run_steps (steps req) (record { changes = []; errors = [] })
    pure (record { applied = is_empty log.errors; changes_made = log.changes; errors = log.errors })
