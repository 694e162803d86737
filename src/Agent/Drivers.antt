-- ===== src/Agent/Drivers.antt =====
-- node-agent/src/drivers/check.rs: the audit of the graphics drivers and of missing firmware.
pub mod Laws
use arcflame.Base.{
  ℕ, Bool, true, false, ◌&&◌, ◌||◌, not, List, [], ◌∷◌, ◌++◌, Option, none, some, ◌==◌,
  if◌then◌else◌,
}
use arcflame.Base.Text.{codes, contains}
use arcflame.Agent.{
  text_eq, Text, Try, done, failed, Output, System, ◌>>=◌, pure, trim, lines, split_whitespace,
}

pub record DriverInfo : Type 0 where
  pub device : Text
  pub current_driver : Text
  pub latest_available : Text
  pub status : Text
  pub recommendation : Text

pub record DriverReport : Type 0 where
  pub drivers : List DriverInfo
  pub missing_firmware : List Text
  pub recommendations : List Text
  pub up_to_date : Bool

-- The three recommendations for NVIDIA, and the two for AMD.
abbrev pub nvidia_good : Text
nvidia_good = codes "NVIDIA proprietary driver detected — good"

abbrev pub nvidia_nouveau : Text
nvidia_nouveau =
    codes
      "Nouveau driver detected. Install NVIDIA proprietary driver for 2-5x faster inference: sudo apt install nvidia-driver-550"

abbrev pub nvidia_none : Text
nvidia_none =
    codes "No NVIDIA driver found. If you have an NVIDIA GPU: sudo apt install nvidia-driver-550"

abbrev pub amd_good : Text
amd_good = codes "AMDGPU driver active — good"

abbrev pub amd_legacy : Text
amd_legacy =
    codes
      "Legacy Radeon driver detected. Switch to AMDGPU for better performance: add 'amdgpu.si_support=1 amdgpu.cik_support=1' to kernel cmdline"

unfoldable pub nvidia_recommendations : DriverInfo → List Text
nvidia_recommendations info =
    if text_eq info.status (codes "proprietary")
    then nvidia_good ∷ []
    else if text_eq info.status (codes "nouveau")
    then nvidia_nouveau ∷ []
    else nvidia_none ∷ []

unfoldable pub amd_recommendations : DriverInfo → List Text
amd_recommendations info =
    if text_eq info.current_driver (codes "amdgpu")
    then amd_good ∷ []
    else if text_eq info.current_driver (codes "radeon")
    then amd_legacy ∷ []
    else []

abbrev pub found : Option DriverInfo → List DriverInfo
found none = []
found (some info) = info ∷ []

abbrev pub advice : (DriverInfo → List Text) → Option DriverInfo → List Text
advice f none = []
advice f (some info) = f info

abbrev first_or : Text → List Text → Text
first_or d [] = d
first_or d (l ∷ ls) = l

-- `amdgpu (…)` and `nvidia (…)`
abbrev in_brackets : Text → Text → Text
in_brackets name version = name ++ (codes " (" ++ (version ++ codes ")"))

abbrev pub nvidia_info : Text → DriverInfo
nvidia_info version = record {
  device = codes "NVIDIA GPU";
  current_driver = in_brackets (codes "nvidia") version;
  latest_available = codes "550+";
  status = codes "proprietary";
  recommendation = codes "Up-to-date";
}

abbrev pub nouveau_info : DriverInfo
nouveau_info = record {
  device = codes "NVIDIA GPU";
  current_driver = codes "nouveau (open source)";
  latest_available = codes "nvidia-550";
  status = codes "nouveau";
  recommendation = codes "Install proprietary driver for 2-5x faster inference";
}

abbrev pub amdgpu_info : Text → DriverInfo
amdgpu_info version = record {
  device = codes "AMD GPU";
  current_driver = in_brackets (codes "amdgpu") version;
  latest_available = codes "amdgpu (latest)";
  status = codes "open";
  recommendation = codes "Good — AMDGPU active";
}

abbrev pub radeon_info : DriverInfo
radeon_info = record {
  device = codes "AMD GPU";
  current_driver = codes "radeon (legacy)";
  latest_available = codes "amdgpu";
  status = codes "legacy";
  recommendation = codes "Switch to AMDGPU for 20-30% better performance";
}

abbrev intel_info : DriverInfo
intel_info = record {
  device = codes "Intel GPU";
  current_driver = codes "i915";
  latest_available = codes "i915";
  status = codes "open";
  recommendation = codes "Intel iGPU — limited performance for LLM";
}

-- The words of a line of the kernel log that name firmware.
firmware_words : List Text → List Text
firmware_words [] = []
firmware_words (w ∷ ws) =
    let rest = firmware_words ws in if contains (codes ".bin") w then w ∷ rest else rest

abbrev is_firmware_line : Text → Bool
is_firmware_line line =
    contains (codes "firmware") line
    && (contains (codes "failed") line || contains (codes "missing") line)

unfoldable pub firmware_of : List Text → List Text
unfolding firmware_words
firmware_of [] = []
firmware_of (line ∷ rest) =
    let more = firmware_of rest in
    if is_firmware_line line then firmware_words (split_whitespace line) ++ more else more

abbrev pub nouveau_loaded : Try Output → Option DriverInfo
nouveau_loaded (failed e) = none
nouveau_loaded (done o) = if contains (codes "nouveau") o.stdout then some nouveau_info else none

abbrev firmware_in : Try Output → List Text
firmware_in (failed e) = []
firmware_in (done o) = firmware_of (lines o.stdout)

abbrev pub version_or : Try Text → Text
version_or (done v) = trim v
version_or (failed e) = trim (codes "kernel-builtin")

abbrev pub query_args : List Text
query_args = codes "--query-gpu=driver_version" ∷ codes "--format=csv,noheader" ∷ []

abbrev pub driver_version : Output → Text
driver_version o = trim (first_or (codes "unknown") (lines o.stdout))

-- The driver that a successful `nvidia-smi` names.
abbrev pub proprietary : Try Output → Option DriverInfo
proprietary (failed e) = none
proprietary (done o) = if o.success then some (nvidia_info (driver_version o)) else none

module _ (S : System) where
  open S use {State, exists, read_to_string, output}

  -- What follows the answer of `nvidia-smi`.
  abbrev pub or_nouveau : Option DriverInfo → State → Option DriverInfo × State
  or_nouveau (some info) = pure (some info)
  or_nouveau none = output (codes "lsmod") [] >>= λ o. pure (nouveau_loaded o)

  unfoldable pub check_nvidia : State → Option DriverInfo × State
  check_nvidia = output (codes "nvidia-smi") query_args >>= λ o. or_nouveau (proprietary o)

  abbrev pub amd_found : Bool → Bool → State → Option DriverInfo × State
  amd_found true radeon = read_to_string (codes "/sys/module/amdgpu/version") >>= λ v.
      pure (some (amdgpu_info (version_or v)))
  amd_found false true = pure (some radeon_info)
  amd_found false false = pure none

  unfoldable pub check_amd : State → Option DriverInfo × State
  check_amd s =
      amd_found (exists (codes "/sys/module/amdgpu") s) (exists (codes "/sys/module/radeon") s) s

  unfoldable pub check_intel : State → Option DriverInfo × State
  check_intel s = (if exists (codes "/sys/module/i915") s then some intel_info else none, s)

  unfoldable pub check_missing_firmware : State → List Text × State
  check_missing_firmware = do o ← output (codes "dmesg") []; pure (firmware_in o)

  unfoldable pub audit : State → DriverReport × State
  unfolding check_nvidia check_amd check_intel check_missing_firmware
  audit = do
    nvidia ← check_nvidia
    amd ← check_amd
    intel ← check_intel
    missing ← check_missing_firmware
    pure (record {
      drivers = found nvidia ++ (found amd ++ found intel);
      missing_firmware = missing;
      recommendations = advice nvidia_recommendations nvidia ++ advice amd_recommendations amd;
      up_to_date = true;
    })
