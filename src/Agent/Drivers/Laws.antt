-- ===== src/Agent/Drivers/Laws.antt =====
-- What the audit of node-agent/src/drivers/check.rs recommends.
use arcflame.Base.{
  ◌≡◌, refl, ◌⊎◌, inl, inr, Bool, true, false, List, [], ◌∷◌, ◌++◌, Option, none, some, Mem,
  if◌then◌else◌,
}
use mathlib.Core.List.{mem-cons_self}
use arcflame.Base.Text.{codes, contains}
use arcflame.Agent.{Text, Try, done, failed, System, Output}
use arcflame.Agent.Drivers.{
  DriverInfo, nvidia_info, nouveau_info, amdgpu_info, radeon_info, nvidia_good, nvidia_nouveau,
  proprietary, nouveau_loaded, advice, nvidia_recommendations, amd_recommendations, check_nvidia,
  check_amd, check_intel, check_missing_firmware, audit, or_nouveau, amd_found, found, query_args,
  driver_version,
}

nvidia_info_advice :
    (version : Text) → nvidia_recommendations (nvidia_info version) ≡ nvidia_good ∷ []
unfolding nvidia_recommendations
nvidia_info_advice version = refl

nouveau_info_advice : nvidia_recommendations nouveau_info ≡ nvidia_nouveau ∷ []
unfolding nvidia_recommendations
nouveau_info_advice = refl

amdgpu_info_advice : (version : Text) → amd_recommendations (amdgpu_info version) ≡ []
unfolding amd_recommendations
amdgpu_info_advice version = refl

radeon_info_advice : amd_recommendations radeon_info ≡ []
unfolding amd_recommendations
radeon_info_advice = refl

-- What `check_nvidia` can find.
Nvidia : Option DriverInfo → Type 0
Nvidia found =
    (found ≡ none)
    ⊎ (((version : Text) × (found ≡ some (nvidia_info version))) ⊎ (found ≡ some nouveau_info))

-- The recommendations that are given: one about each of the two NVIDIA drivers, and no other.
abbrev pub Advised : List DriverInfo → List Text → Type 0
Advised drivers advised =
    (advised ≡ [])
    ⊎ (((version : Text) × Mem (nvidia_info version) drivers × (advised ≡ nvidia_good ∷ []))
        ⊎ (Mem nouveau_info drivers × (advised ≡ nvidia_nouveau ∷ [])))

Nvidia-Advised :
    (nvidia amd intel : Option DriverInfo)
    → Nvidia nvidia
    → advice amd_recommendations amd ≡ []
    → Advised
        (found nvidia ++ (found amd ++ found intel))
        (advice nvidia_recommendations nvidia ++ advice amd_recommendations amd)
unfolding Nvidia nvidia_recommendations
Nvidia-Advised nvidia amd intel (inl e) silent = rw (e, silent) (inl refl)
Nvidia-Advised nvidia amd intel (inr (inl (v, e))) silent =
    rw (e, silent) (inr (inl (v, mem-cons_self, refl)))
Nvidia-Advised nvidia amd intel (inr (inr e)) silent =
    rw (e, silent) (inr (inr (mem-cons_self, refl)))

module _ (S : System) where
  open S use {State, exists, read_to_string, output}

  nouveau-Nvidia : (o : Try Output) → Nvidia (nouveau_loaded o)
  unfolding Nvidia
  nouveau-Nvidia (failed e) = inl refl
  nouveau-Nvidia (done o) = by_case (contains (codes "nouveau") o.stdout)
    where
      by_case : (b : Bool) → Nvidia (if b then some nouveau_info else none)
      by_case true = inr (inr refl)
      by_case false = inl refl

  proprietary-Nvidia : (o : Try Output) (s : State) → Nvidia (or_nouveau S (proprietary o) s).0
  unfolding Nvidia
  proprietary-Nvidia (done o) s = by_case o.success
    where
      by_case :
          (b : Bool)
          → Nvidia (or_nouveau S (if b then some (nvidia_info (driver_version o)) else none) s).0
      by_case true = inr (inl (driver_version o, refl))
      by_case false = nouveau-Nvidia (output (codes "lsmod") [] s).0
  proprietary-Nvidia (failed e) s = nouveau-Nvidia (output (codes "lsmod") [] s).0

  amd_found_silent :
      (amdgpu radeon : Bool) (s : State)
      → advice amd_recommendations (amd_found S amdgpu radeon s).0 ≡ []
  unfolding amd_recommendations
  amd_found_silent true radeon s = refl
  amd_found_silent false true s = refl
  amd_found_silent false false s = refl

  -- Whatever the machine has, the audit recommends one thing at most: that the proprietary NVIDIA
  -- driver is good, or that nouveau be replaced, and then that driver is among those it reports. It
  -- recommends nothing about an AMD driver.
  pub audit_recommends : (s : State) → let r = (audit S s).0 in Advised r.drivers r.recommendations
  unfolding audit check_nvidia check_amd check_intel check_missing_firmware
  audit_recommends s =
      let o = output (codes "nvidia-smi") query_args s in
      Nvidia-Advised _ _ _ (proprietary-Nvidia o.0 o.1) (amd_found_silent _ _ _)
