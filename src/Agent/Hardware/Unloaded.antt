-- ===== src/Agent/Hardware/Unloaded.antt =====
-- The hardware report of node-agent/src/hardware when the handle of sysinfo has loaded nothing.
use arcflame.Base.{
  ◌≡◌, ◌≢◌, refl, sym, ◌∙◌, Bool, true, false, [], Option, none, some, All, All-append, arith,
}
use arcflame.Base.Text.{codes}
use arcflame.Agent.{Text, System, Floats}
use arcflame.Agent.Hardware.{Sysinfo, CpuInfo, DiskInfo, GpuInfo, disk_info}
use arcflame.Agent.Hardware.Cpu.{detect_cpu}
use arcflame.Agent.Hardware.Gpu.{
  found, detect_nvidia, detect_amd, detect_intel, detect_intel_vram, shared_memory, intel_if,
  detect_gpus, collect,
}
use arcflame.Agent.Hardware.Laws.{HasVendor, amd_if-HasVendor, nvidia_in-HasVendor}

module _ (S : System) (N : Floats) (I : Sysinfo S.State) (arch : Text) where
  -- An Intel GPU without memory.
  abbrev pub Unmeasured : GpuInfo N → Type 0
  Unmeasured g = g.vendor ≡ codes "Intel" → g.vram_bytes ≡ 0

  other-Unmeasured :
      (vendor : Text) (o : Option (GpuInfo N))
      → HasVendor S N I arch vendor o
      → vendor ≢ codes "Intel"
      → All Unmeasured (found o)
  other-Unmeasured vendor none is other = tt
  other-Unmeasured vendor (some g) is other = ((λ e. absurd (other (sym is ∙ e))), tt)

  shared_memory_unloaded :
      I.total_memory I.new ≡ 0 → (o : Option N.F) → shared_memory S N I arch o ≡ 0
  shared_memory_unloaded no_memory none = refl
  shared_memory_unloaded no_memory (some mhz) = omega arith

  intel_if-Unmeasured :
      I.total_memory I.new ≡ 0
      → (b : Bool) (s : S.State) → All Unmeasured (found (intel_if S N I arch b s).0)
  unfolding detect_intel_vram
  intel_if-Unmeasured no_memory false s = tt
  intel_if-Unmeasured no_memory true s = ((λ e. shared_memory_unloaded no_memory _), tt)

  detect_gpus-Unmeasured :
      I.total_memory I.new ≡ 0 → (s : S.State) → All Unmeasured (detect_gpus S N I arch s).0
  unfolding detect_gpus detect_nvidia detect_amd detect_intel
  detect_gpus-Unmeasured no_memory s =
      let nvidia = detect_nvidia S N s in
      let amd = detect_amd S N nvidia.1 in
      All-append Unmeasured (found nvidia.0) _
        (other-Unmeasured (codes "NVIDIA") nvidia.0 (nvidia_in-HasVendor S N I arch _) (λ e. cc))
        (All-append Unmeasured (found amd.0) _
          (other-Unmeasured (codes "AMD") amd.0 (amd_if-HasVendor S N I arch _ nvidia.1) (λ e. cc))
          (intel_if-Unmeasured no_memory _ amd.1))

  -- Of sysinfo it is documented that `System::new` and `Disks::new` load nothing. Then every hardware
  -- report says that the machine has no threads, that an Intel GPU has no memory, and that there is no
  -- disk space and no SSD, whatever the files and commands say.
  pub collect_unloaded :
      I.cpus I.new ≡ 0
      → I.total_memory I.new ≡ 0
      → I.new_disks ≡ []
      → (s : S.State)
      → let r = (collect S N I arch s).0 in
        ((c : CpuInfo N) × (r.cpu ≡ some c) × (c.threads ≡ 0))
        × All Unmeasured r.gpus
        × ((d : DiskInfo N) × (r.disk ≡ some d)
            × (d.total_bytes ≡ 0)
            × (d.available_bytes ≡ 0)
            × (d.is_ssd ≡ false))
  unfolding collect detect_cpu disk_info
  collect_unloaded no_cpus no_memory no_disks s = (
    (_, refl, rw no_cpus refl),
    detect_gpus-Unmeasured no_memory _,
    (_, refl, rw no_disks refl, rw no_disks refl, rw no_disks refl),
  )
