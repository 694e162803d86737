-- ===== src/Agent/Hardware/Gpu.antt =====
-- node-agent/src/hardware/gpu.rs, and `collect` of node-agent/src/hardware/mod.rs.
use arcflame.Base.{
  ℕ, zero, suc, ◌+◌, ◌*◌, ◌/◌, min, Bool, true, false, ◌&&◌, ◌||◌, List, [], ◌∷◌, ◌++◌, Option,
  none, some, map, leb, if◌then◌else◌,
}
use arcflame.Base.Text.{codes, contains, strip_prefix, parse_u64}
use arcflame.Agent.{
  Text, Try, done, failed, Output, System, ◌>>=◌, pure, trim, lines, split, nth, text_eq,
  trim_end_matches, Floats,
}
use arcflame.Agent.Overclocking.{number_in}
use arcflame.Agent.Hardware.{
  Sysinfo, GpuInfo, HardwareReport, detect_memory, disk_info, network_info,
}
use arcflame.Agent.Hardware.Cpu.{detect_cpu}

-- `to_lowercase`: no other character makes a part of the suffixes or of a number.
abbrev lower : ℕ → ℕ
lower c = if leb b'A' c && leb c b'Z' then c + 32 else c

abbrev ends_with : Text → Text → Bool
ends_with suffix [] = text_eq [] suffix
ends_with suffix (c ∷ cs) = text_eq (c ∷ cs) suffix || ends_with suffix cs

-- `split(": ")`, and the piece behind the first separator.
unfoldable pub after_colon : Text → Option Text
unfolding strip_prefix
after_colon [] = none
after_colon (c ∷ cs) = elim (strip_prefix (codes ": ") (c ∷ cs)) [
  | some rest ↦ some rest
  | none ↦ after_colon cs
]

-- The text up to the next separator.
unfoldable pub up_to_colon : Text → Text
unfolding strip_prefix
up_to_colon [] = []
up_to_colon (c ∷ cs) = elim (strip_prefix (codes ": ") (c ∷ cs)) [
  | some rest ↦ []
  | none ↦ c ∷ up_to_colon cs
]

-- `line.split(": ").nth(1).unwrap_or("AMD GPU")`
abbrev amd_name : Option Text → Text
amd_name none = codes "AMD GPU"
amd_name (some rest) = up_to_colon rest

abbrev text_or : Text → Option Text → Text
text_or d none = d
text_or d (some s) = s

abbrev is_amd_line : Text → Bool
is_amd_line line =
    contains (codes "VGA") line
    && (contains (codes "AMD") line || contains (codes "Advanced Micro") line)

abbrev vram_paths : List Text
vram_paths =
    codes "/sys/class/drm/card0/device/mem_info_vram_total"
    ∷ codes "/sys/class/drm/card1/device/mem_info_vram_total"
    ∷ []

abbrev bytes_in : Try Text → Option ℕ
bytes_in (done content) = parse_u64 (trim content)
bytes_in (failed e) = none

abbrev pub found {ℓ} : {A : Type ℓ} → Option A → List A
found none = []
found (some a) = a ∷ []

module _ (S : System) (N : Floats) where
  open S use {State, exists, read_to_string, output}

  abbrev number_or_zero : Option N.F → N.F
  number_or_zero none = N.of_nat 0
  number_or_zero (some n) = n

  -- The number in front of a unit, times 1024 so many times.
  abbrev scaled : ℕ → Text → Text → ℕ
  scaled times unit s =
      N.to_u64 (grow times (number_or_zero (N.parse_f64 (trim (trim_end_matches unit s)))))
    where
      grow : ℕ → N.F → N.F
      grow zero n = n
      grow (suc k) n = grow k (N.mul n (N.of_nat 1024))

  unfoldable pub parse_vram : Text → ℕ
  parse_vram s =
      let s' = map lower (trim s) in
      if ends_with (codes "mib") s'
      then scaled 2 (codes "mib") s'
      else if ends_with (codes "gib") s'
      then scaled 3 (codes "gib") s'
      else 0

  abbrev nvidia_gpu : Text → Text → Option Text → GpuInfo N
  nvidia_gpu name memory driver = record {
    name = name;
    vendor = codes "NVIDIA";
    driver = text_or (codes "unknown") driver;
    vram_bytes = parse_vram memory;
    available = true;
    compute_benchmark = N.of_nat 0;
  }

  -- The parts of a line of `nvidia-smi`, trimmed.
  abbrev pub gpu_of : List Text → Option (GpuInfo N)
  gpu_of [] = none
  gpu_of (name ∷ []) = none
  gpu_of (name ∷ memory ∷ rest) = some (nvidia_gpu name memory (nth 0 rest))

  unfoldable pub first_gpu : List Text → Option (GpuInfo N)
  unfolding parse_vram split
  first_gpu [] = none
  first_gpu (l ∷ ls) = elim (gpu_of (map trim (split b',' l))) [
    | some g ↦ some g
    | none ↦ first_gpu ls
  ]

  abbrev pub nvidia_in : Try Output → Option (GpuInfo N)
  nvidia_in (failed e) = none
  nvidia_in (done o) = if o.success then first_gpu (lines o.stdout) else none

  unfoldable pub detect_nvidia : State → Option (GpuInfo N) × State
  unfolding first_gpu
  detect_nvidia = do
    o ←
        output (codes "nvidia-smi") (
          codes "--query-gpu=name,memory.total,driver_version" ∷ codes "--format=csv,noheader" ∷ [])
    pure (nvidia_in o)

  -- The size in the first of the files that holds one.
  unfoldable pub first_size : List Text → State → ℕ × State
  first_size [] = pure 0
  first_size (path ∷ paths) = read_to_string path >>= λ r. elim (bytes_in r) [
    | some bytes ↦ pure bytes
    | none ↦ first_size paths
  ]

  unfoldable pub detect_amd_vram : State → ℕ × State
  unfolding first_size
  detect_amd_vram = first_size vram_paths

  abbrev amd_gpu : Text → ℕ → GpuInfo N
  amd_gpu name vram = record {
    name = name;
    vendor = codes "AMD";
    driver = codes "amdgpu";
    vram_bytes = vram;
    available = true;
    compute_benchmark = N.of_nat 0;
  }

  -- The name in the first line that is about an AMD display adapter.
  unfoldable pub amd_name_in : List Text → Option Text
  unfolding after_colon up_to_colon
  amd_name_in [] = none
  amd_name_in (l ∷ ls) =
      let rest = amd_name_in ls in if is_amd_line l then some (amd_name (after_colon l)) else rest

  abbrev amd_name_of : Try Output → Option Text
  amd_name_of (failed e) = none
  amd_name_of (done o) = amd_name_in (lines o.stdout)

  abbrev pub amd_with : Option Text → State → Option (GpuInfo N) × State
  amd_with none = pure none
  amd_with (some name) = do vram ← detect_amd_vram; pure (some (amd_gpu name vram))

  abbrev pub amd_if : Bool → State → Option (GpuInfo N) × State
  amd_if false = pure none
  amd_if true = do o ← output (codes "lspci") (codes "-nn" ∷ []); amd_with (amd_name_of o)

  unfoldable pub detect_amd : State → Option (GpuInfo N) × State
  unfolding detect_amd_vram amd_name_in
  detect_amd s = amd_if (exists (codes "/sys/module/amdgpu") s) s

  module _ (I : Sysinfo State) (arch : Text) where
    abbrev pub shared_memory : Option N.F → ℕ
    shared_memory none = 0
    shared_memory (some mhz) = min (I.total_memory I.new / 8) (2 * 1024 * 1024 * 1024)

    unfoldable pub detect_intel_vram : State → ℕ × State
    detect_intel_vram = do
      freq ← read_to_string (codes "/sys/class/drm/card0/gt_cur_freq_mhz")
      pure (shared_memory (number_in S N freq))

    abbrev intel_gpu : ℕ → GpuInfo N
    intel_gpu vram = record {
      name = codes "Intel Integrated Graphics";
      vendor = codes "Intel";
      driver = codes "i915";
      vram_bytes = vram;
      available = true;
      compute_benchmark = N.of_nat 0;
    }

    abbrev pub intel_if : Bool → State → Option (GpuInfo N) × State
    intel_if false = pure none
    intel_if true = do vram ← detect_intel_vram; pure (some (intel_gpu vram))

    unfoldable pub detect_intel : State → Option (GpuInfo N) × State
    unfolding detect_intel_vram
    detect_intel s = intel_if (exists (codes "/sys/module/i915") s) s

    unfoldable pub detect_gpus : State → List (GpuInfo N) × State
    unfolding detect_nvidia detect_amd detect_intel
    detect_gpus = do
      nvidia ← detect_nvidia
      amd ← detect_amd
      intel ← detect_intel
      pure (found nvidia ++ (found amd ++ found intel))

    unfoldable pub collect : State → HardwareReport N × State
    unfolding detect_cpu detect_gpus detect_memory network_info disk_info
    collect = do
      cpu ← detect_cpu S N I arch
      gpus ← detect_gpus
      memory ← detect_memory S I
      network ← network_info S
      pure (record {
        node_id = [];
        cpu = some cpu;
        gpus = gpus;
        memory = some memory;
        disk = some (disk_info S I N);
        network = some network;
        benchmark_score = N.of_nat 0;
      })
