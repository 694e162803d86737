-- ===== src/Agent/Hardware/Cpu.antt =====
-- node-agent/src/hardware/cpu.rs.
use arcflame.Base.{ℕ, ◌%◌, ◌^◌, Bool, false, List, [], ◌∷◌, ◌++◌, Option, none, some}
use arcflame.Base.Text.{codes, contains, strip_prefix}
use arcflame.Agent.{Text, Try, done, failed, System, ◌>>=◌, pure, trim, lines, Floats}
use arcflame.Agent.Overclocking.{number_in}
use arcflame.Agent.Hardware.{Sysinfo, CpuInfo}

-- What the loop over /proc/cpuinfo sets.
pub record Scanned : Type 0 where
  pub model : Text
  pub has_avx2 : Bool
  pub has_avx512 : Bool
  pub has_neon : Bool

abbrev pub model_prefix : Text
model_prefix = codes "model name" ++ (9 ∷ codes ": ")

abbrev pub flags_prefix : Text
flags_prefix = codes "flags" ++ (9 ∷ 9 ∷ codes ": ")

abbrev pub features_prefix : Text
features_prefix = codes "Features" ++ (9 ∷ codes ": ")

abbrev pub set_model : Option Text → Scanned → Scanned
set_model none c = c
set_model (some model) c = record c { model = model }

abbrev pub set_flags : Option Text → Scanned → Scanned
set_flags none c = c
set_flags (some features) c = record c {
  has_avx2 = contains (codes "avx2") features;
  has_avx512 = contains (codes "avx512f") features;
}

abbrev pub set_features : Option Text → Scanned → Scanned
set_features none c = c
set_features (some features) c = record c { has_neon = contains (codes "neon") features }

unfoldable pub scan_line : Text → Scanned → Scanned
scan_line line c =
    set_features (strip_prefix features_prefix line)
      (set_flags (strip_prefix flags_prefix line) (set_model (strip_prefix model_prefix line) c))

unfoldable pub scan_lines : List Text → Scanned → Scanned
unfolding scan_line
scan_lines [] c = c
scan_lines (l ∷ ls) c = scan_lines ls (scan_line l c)

abbrev pub nothing_scanned : Scanned
nothing_scanned = record { model = []; has_avx2 = false; has_avx512 = false; has_neon = false }

abbrev scanned_in : Try Text → Scanned
scanned_in (done contents) = scan_lines (lines contents) nothing_scanned
scanned_in (failed e) = nothing_scanned

abbrev governor_in : Try Text → Text
governor_in (done gov) = trim gov
governor_in (failed e) = []

abbrev or_none : Option ℕ → ℕ
or_none none = 0
or_none (some n) = n

abbrev cpufreq : Text → Text
cpufreq file = codes "/sys/devices/system/cpu/cpu0/cpufreq/" ++ file

module _ (S : System) (N : Floats) (I : Sysinfo S.State) (arch : Text) where
  open S use {State, read_to_string}

  abbrev ghz : Option N.F → N.F
  ghz none = N.of_nat 0
  ghz (some khz) = N.div khz (N.of_nat 1000000)

  unfoldable pub detect_cpu : State → CpuInfo N × State
  unfolding scan_lines
  detect_cpu = do
    cpuinfo ← read_to_string (codes "/proc/cpuinfo")
    let c = scanned_in cpuinfo
    max_freq ← read_to_string (cpufreq (codes "cpuinfo_max_freq"))
    min_freq ← read_to_string (cpufreq (codes "cpuinfo_min_freq"))
    governor ← read_to_string (cpufreq (codes "scaling_governor"))
    pure (record {
      model = c.model;
      cores = or_none (I.physical_core_count I.new) % 2 ^ 32;
      threads = I.cpus I.new % 2 ^ 32;
      max_freq_ghz = ghz (number_in S N max_freq);
      min_freq_ghz = ghz (number_in S N min_freq);
      architecture = arch;
      has_avx2 = c.has_avx2;
      has_avx512 = c.has_avx512;
      has_neon = c.has_neon;
      governor = governor_in governor;
    })
