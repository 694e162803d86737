-- ===== src/Agent/Overclocking.antt =====
-- node-agent/src/overclocking: the two ways to tune (`safe.rs`, `aggressive.rs`) and `monitor.rs`.
use arcflame.Base.{
  ℕ, Bool, true, false, List, [], ◌∷◌, ◌++◌, Option, none, some, ltb, if◌then◌else◌,
}
use arcflame.Base.Text.{codes, contains, parse_u64}
use arcflame.Agent.{
  Text, Try, done, failed, Output, System, ◌>>=◌, pure, trim, lines, Floats, split, nth, join,
  trim_end_matches,
}
use arcflame.Agent.Tuning.{governor_args, is_zero_text}

-- `match output { Ok(o) if o.status.success() => …, _ => … }`
abbrev pub succeeded : Try Output → Bool
succeeded (done o) = o.success
succeeded (failed e) = false

-- `if …  { changes.push(message) }`
abbrev pub push_if : Bool → Text → List Text → List Text
push_if true message changes = changes ++ (message ∷ [])
push_if false message changes = changes

abbrev pub no_turbo_path : Text
no_turbo_path = codes "/sys/devices/system/cpu/intel_pstate/no_turbo"

abbrev pub max_perf_path : Text
max_perf_path = codes "/sys/devices/system/cpu/intel_pstate/max_perf_pct"

abbrev pub is_zero_content : Try Text → Bool
is_zero_content (done content) = is_zero_text (trim content)
is_zero_content (failed e) = false

abbrev pub args1 : Text → List Text
args1 a = a ∷ []

abbrev pub args2 : Text → Text → List Text
args2 a b = a ∷ b ∷ []

abbrev pub message_safe : List Text → Text
message_safe changes = codes "Applied safe tuning: " ++ join (codes ", ") changes

abbrev pub message_aggressive : List Text → Text
message_aggressive changes = codes "Applied aggressive tuning: " ++ join (codes ", ") changes

module _ (S : System) where
  open S use {State, read_to_string, write, output}

  abbrev pub disable_turbo : Bool → List Text → State → List Text × State
  disable_turbo false changes = pure changes
  disable_turbo true changes = do
    _ ← write no_turbo_path (codes "1")
    pure (push_if true (codes "Turbo boost disabled") changes)

  unfoldable pub apply_safe_tuning : State → Try Text × State
  apply_safe_tuning = do
    o ← output (codes "cpupower") governor_args
    let changes = push_if (succeeded o) (codes "CPU governor → performance") []
    content ← read_to_string no_turbo_path
    changes' ← disable_turbo (is_zero_content content) changes
    _ ← write max_perf_path (codes "100")
    pure (done (message_safe changes'))

  abbrev pub undervolt : Bool → List Text → State → List Text × State
  undervolt false changes = pure changes
  undervolt true changes = do
    core ← output (codes "intel-undervolt") (args2 (codes "core") (codes "-50"))
    _ ← output (codes "intel-undervolt") (args2 (codes "cache") (codes "-50"))
    _ ← output (codes "intel-undervolt") (args1 (codes "apply"))
    pure (
        push_if true (codes "CPU undervolt -50mV (cache)")
          (push_if (succeeded core) (codes "CPU undervolt -50mV (core)") changes))

  abbrev pub raise_tdp : Bool → List Text → State → List Text × State
  raise_tdp false changes = pure changes
  raise_tdp true changes = do
    _ ← output (codes "ryzenadj") (args2 (codes "--stapm-limit") (codes "35000"))
    pure (push_if true (codes "Ryzen TDP increased to 35W") changes)

  abbrev pub lock_clock : Bool → List Text → State → List Text × State
  lock_clock false changes = pure changes
  lock_clock true changes = do
    _ ← output (codes "nvidia-smi") (args2 (codes "-pl") (codes "150"))
    _ ← output (codes "nvidia-smi") (args2 (codes "-lgc") (codes "1500,1900"))
    pure (push_if true (codes "NVIDIA GPU: power limit + clock locked") changes)

  unfoldable pub apply_aggressive_tuning : State → Try Text × State
  unfolding apply_safe_tuning
  apply_aggressive_tuning = do
    _ ← apply_safe_tuning
    intel ← output (codes "intel-undervolt") (args1 (codes "read"))
    changes₁ ← undervolt (succeeded intel) []
    ryzen ← output (codes "ryzenadj") (args1 (codes "-i"))
    changes₂ ← raise_tdp (succeeded ryzen) changes₁
    nvidia ← output (codes "nvidia-smi") []
    changes₃ ← lock_clock (succeeded nvidia) changes₂
    pure (done (message_aggressive changes₃))

  module _ (N : Floats) where
    open N use {F, parse_f64, of_nat, div}

    pub record OverclockingStatus : Type 0 where
      pub current_mode : Text
      pub temperature_celsius : F
      pub is_throttling : Bool
      pub cpu_freq_ghz : F
      pub gpu_freq_mhz : F
      pub uptime_seconds : ℕ

    abbrev pub number_in : Try Text → Option F
    number_in (done content) = parse_f64 (trim content)
    number_in (failed e) = none

    -- The first of the files that holds a number.
    unfoldable pub first_number : List Text → State → Option F × State
    first_number [] = pure none
    first_number (path ∷ paths) = read_to_string path >>= λ r. elim (number_in r) [
      | some n ↦ pure (some n)
      | none ↦ first_number paths
    ]

    abbrev pub temp_paths : List Text
    temp_paths =
        codes "/sys/class/thermal/thermal_zone0/temp"
        ∷ codes "/sys/class/hwmon/hwmon0/temp1_input"
        ∷ codes "/sys/class/hwmon/hwmon1/temp1_input"
        ∷ []

    abbrev value_of : Option Text → Option F
    value_of none = none
    value_of (some v) = parse_f64 (trim v)

    abbrev sensor_value : Text → Option F
    sensor_value line =
        if contains (codes "_input:") line then value_of (nth 1 (split b':' line)) else none

    -- The first line of `sensors -u` that holds an input's number.
    unfoldable pub first_sensor : List Text → Option F
    first_sensor [] = none
    first_sensor (l ∷ ls) = elim (sensor_value l) [ some n ↦ some n | none ↦ first_sensor ls ]

    abbrev sensors_in : Try Output → Option F
    sensors_in (done o) = first_sensor (lines o.stdout)
    sensors_in (failed e) = none

    abbrev or_zero : Option F → F
    or_zero none = of_nat 0
    or_zero (some x) = x

    abbrev pub or_sensors : Option F → State → F × State
    or_sensors (some millicelsius) = pure (div millicelsius (of_nat 1000))
    or_sensors none = do
      o ← output (codes "sensors") (args1 (codes "-u"))
      pure (or_zero (sensors_in o))

    unfoldable pub measure_temperature : State → F × State
    unfolding first_number
    measure_temperature = do n ← first_number temp_paths; or_sensors n

    abbrev is_positive : Option ℕ → Bool
    is_positive none = false
    is_positive (some count) = ltb 0 count

    abbrev count_in : Try Text → Option ℕ
    count_in (done content) = parse_u64 (trim content)
    count_in (failed e) = none

    unfoldable pub check_throttling : State → Bool × State
    check_throttling = do
      r ← read_to_string (codes "/sys/devices/system/cpu/cpu0/thermal_throttle/core_throttle_count")
      pure (is_positive (count_in r))

    abbrev in_ghz : Option F → F
    in_ghz none = of_nat 0
    in_ghz (some khz) = div khz (of_nat 1000000)

    unfoldable pub read_cpu_freq : State → F × State
    read_cpu_freq = do
      r ← read_to_string (codes "/sys/devices/system/cpu/cpu0/cpufreq/scaling_cur_freq")
      pure (in_ghz (number_in r))

    abbrev clock_in : Try Output → Option F
    clock_in (failed e) = none
    clock_in (done o) = elim (nth 0 (lines o.stdout)) [
      | none ↦ none
      | some line ↦ parse_f64 (trim_end_matches (codes " MHz") (trim line))
    ]

    unfoldable pub read_gpu_freq : State → F × State
    read_gpu_freq = do
      o ←
          output (codes "nvidia-smi")
            (args2 (codes "--query-gpu=clocks.current.graphics") (codes "--format=csv,noheader"))
      pure (or_zero (clock_in o))

    unfoldable pub get_status : State → OverclockingStatus × State
    unfolding measure_temperature check_throttling read_cpu_freq read_gpu_freq
    get_status = do
      temperature ← measure_temperature
      throttling ← check_throttling
      cpu_freq ← read_cpu_freq
      gpu_freq ← read_gpu_freq
      pure (record {
        current_mode = [];
        temperature_celsius = temperature;
        is_throttling = throttling;
        cpu_freq_ghz = cpu_freq;
        gpu_freq_mhz = gpu_freq;
        uptime_seconds = 0;
      })
