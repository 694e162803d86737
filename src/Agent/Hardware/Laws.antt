-- ===== src/Agent/Hardware/Laws.antt =====
-- What the hardware report of node-agent/src/hardware says.
use arcflame.Base.{
  ◌≡◌, refl, ap, ◌∙◌, Bool, true, false, List, [], ◌∷◌, ◌++◌, Option, none, some, map,
  if◌then◌else◌,
}
use arcflame.Base.Text.{codes, strip_prefix}
use arcflame.Agent.{Text, Try, done, failed, Output, System, Floats, lines, trim, split}
use arcflame.Agent.Hardware.{Sysinfo, GpuInfo}
use arcflame.Agent.Hardware.Cpu.{
  Scanned, scan_line, scan_lines, set_model, set_flags, set_features, model_prefix, flags_prefix,
  features_prefix,
}
use arcflame.Agent.Hardware.Gpu.{
  found, gpu_of, first_gpu, nvidia_in, detect_nvidia, amd_with, amd_if, detect_amd, intel_if,
  detect_intel, detect_gpus,
}

abbrev or_later : Option Text → Option Text → Option Text
or_later earlier none = earlier
or_later earlier (some v) = some v

-- The rest of the last line that starts so.
abbrev pub last_with : Text → List Text → Option Text
last_with prefix [] = none
last_with prefix (l ∷ ls) = or_later (strip_prefix prefix l) (last_with prefix ls)

-- The later of two settings wins, and settings of different fields do not meet.
set_all : Option Text → Option Text → Option Text → Scanned → Scanned
set_all m f e c = set_features e (set_flags f (set_model m c))

features-model :
    (e m : Option Text) (c : Scanned)
    → set_model m (set_features e c) ≡ set_features e (set_model m c)
features-model none m c = refl
features-model (some v) none c = refl
features-model (some v) (some w) c = refl

features-flags :
    (e f : Option Text) (c : Scanned)
    → set_flags f (set_features e c) ≡ set_features e (set_flags f c)
features-flags none f c = refl
features-flags (some v) none c = refl
features-flags (some v) (some w) c = refl

flags-model :
    (f m : Option Text) (c : Scanned) → set_model m (set_flags f c) ≡ set_flags f (set_model m c)
flags-model none m c = refl
flags-model (some v) none c = refl
flags-model (some v) (some w) c = refl

model-model :
    (m m' : Option Text) (c : Scanned) → set_model m' (set_model m c) ≡ set_model (or_later m m') c
model-model m none c = refl
model-model none (some v) c = refl
model-model (some w) (some v) c = refl

flags-flags :
    (f f' : Option Text) (c : Scanned) → set_flags f' (set_flags f c) ≡ set_flags (or_later f f') c
flags-flags f none c = refl
flags-flags none (some v) c = refl
flags-flags (some w) (some v) c = refl

features-features :
    (e e' : Option Text) (c : Scanned)
    → set_features e' (set_features e c) ≡ set_features (or_later e e') c
features-features e none c = refl
features-features none (some v) c = refl
features-features (some w) (some v) c = refl

set_all-set_all :
    (m f e m' f' e' : Option Text) (c : Scanned)
    → set_all m' f' e' (set_all m f e c) ≡ set_all (or_later m m') (or_later f f') (or_later e e') c
unfolding set_all
set_all-set_all m f e m' f' e' c =
    ap (λ x. set_features e' (set_flags f' x))
      (features-model e m' (set_flags f (set_model m c))
        ∙ ap (set_features e)
            (flags-model f m' (set_model m c) ∙ ap (set_flags f) (model-model m m' c)))
    ∙ ap (set_features e') (features-flags e f' _ ∙ ap (set_features e) (flags-flags f f' _))
    ∙ features-features e e' _

-- The scan of /proc/cpuinfo takes the model, the flags and the features each from the last line that
-- has them, and keeps what was set before if none has.
pub scan_lines_last :
    (ls : List Text) (c : Scanned)
    → scan_lines ls c
      ≡ set_features
          (last_with features_prefix ls)
          (set_flags (last_with flags_prefix ls) (set_model (last_with model_prefix ls) c))
unfolding scan_lines scan_line set_all
scan_lines_last [] c = refl
scan_lines_last (l ∷ ls) c =
    scan_lines_last ls (scan_line l c)
    ∙ set_all-set_all (strip_prefix model_prefix l) (strip_prefix flags_prefix l)
        (strip_prefix features_prefix l) (last_with model_prefix ls) (last_with flags_prefix ls)
        (last_with features_prefix ls) c

module _ (S : System) (N : Floats) (I : Sysinfo S.State) (arch : Text) where
  abbrev pub vendors : List (GpuInfo N) → List Text
  vendors = map (λ (g : GpuInfo N). g.vendor)

  abbrev pub one_if : Bool → Text → List Text
  one_if b vendor = if b then vendor ∷ [] else []

  -- The GPU, if there is one, is of this vendor.
  abbrev pub HasVendor : Text → Option (GpuInfo N) → Type 0
  HasVendor vendor none = Unit {0}
  HasVendor vendor (some g) = g.vendor ≡ vendor

  gpu_of-HasVendor : (parts : List Text) → HasVendor (codes "NVIDIA") (gpu_of S N parts)
  gpu_of-HasVendor [] = tt
  gpu_of-HasVendor (name ∷ []) = tt
  gpu_of-HasVendor (name ∷ memory ∷ rest) = refl

  first-HasVendor :
      (vendor : Text) (o o' : Option (GpuInfo N))
      → HasVendor vendor o
      → HasVendor vendor o'
      → HasVendor vendor (elim o [ some g ↦ some g | none ↦ o' ])
  first-HasVendor vendor none o' h h' = h'
  first-HasVendor vendor (some g) o' h h' = h

  first_gpu-HasVendor : (ls : List Text) → HasVendor (codes "NVIDIA") (first_gpu S N ls)
  unfolding first_gpu
  first_gpu-HasVendor [] = tt
  first_gpu-HasVendor (l ∷ ls) =
      first-HasVendor (codes "NVIDIA") (gpu_of S N (map trim (split b',' l))) (first_gpu S N ls)
        (gpu_of-HasVendor (map trim (split b',' l))) (first_gpu-HasVendor ls)

  pub nvidia_in-HasVendor : (o : Try Output) → HasVendor (codes "NVIDIA") (nvidia_in S N o)
  nvidia_in-HasVendor (failed e) = tt
  nvidia_in-HasVendor (done o) = by_success o.success
    where
      by_success :
          (b : Bool)
          → HasVendor (codes "NVIDIA") (if b then first_gpu S N (lines o.stdout) else none)
      by_success true = first_gpu-HasVendor (lines o.stdout)
      by_success false = tt

  amd_with-HasVendor :
      (name : Option Text) (s : S.State) → HasVendor (codes "AMD") (amd_with S N name s).0
  amd_with-HasVendor none s = tt
  amd_with-HasVendor (some name) s = refl

  pub amd_if-HasVendor : (b : Bool) (s : S.State) → HasVendor (codes "AMD") (amd_if S N b s).0
  amd_if-HasVendor false s = tt
  amd_if-HasVendor true s = amd_with-HasVendor _ _

  intel_if-HasVendor :
      (b : Bool) (s : S.State) → HasVendor (codes "Intel") (intel_if S N I arch b s).0
  intel_if-HasVendor false s = tt
  intel_if-HasVendor true s = refl

  vendors-found :
      (vendor : Text) (o : Option (GpuInfo N))
      → HasVendor vendor o
      → (b : Bool) × (vendors (found o) ≡ one_if b vendor)
  vendors-found vendor none h = (false, refl)
  vendors-found vendor (some g) h = (true, ap (λ v. v ∷ []) h)

  vendors_append : (xs ys : List (GpuInfo N)) → vendors (xs ++ ys) ≡ vendors xs ++ vendors ys
  vendors_append [] ys = refl
  vendors_append (x ∷ xs) ys = ap (λ vs. x.vendor ∷ vs) (vendors_append xs ys)

  -- Whatever the machine has, the report names at most one GPU of each vendor, in the order NVIDIA, AMD,
  -- Intel.
  pub detect_gpus-vendors :
      (s : S.State)
      → (nvidia amd intel : Bool) × (vendors (detect_gpus S N I arch s).0
          ≡ one_if nvidia (codes "NVIDIA")
            ++ (one_if amd (codes "AMD") ++ one_if intel (codes "Intel")))
  unfolding detect_gpus detect_nvidia detect_amd detect_intel
  detect_gpus-vendors s =
      let nvidia = detect_nvidia S N s in
      let amd = detect_amd S N nvidia.1 in
      let intel = detect_intel S N I arch amd.1 in
      let (n, en) = vendors-found (codes "NVIDIA") nvidia.0 (nvidia_in-HasVendor _) in
      let (a, ea) = vendors-found (codes "AMD") amd.0 (amd_if-HasVendor _ nvidia.1) in
      let (i, ei) = vendors-found (codes "Intel") intel.0 (intel_if-HasVendor _ amd.1) in
      (
        n,
        a,
        i,
        vendors_append (found nvidia.0) (found amd.0 ++ found intel.0)
            ∙ rw (en, vendors_append (found amd.0) (found intel.0), ea, ei) refl,
      )
