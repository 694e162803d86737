-- ===== src/Agent/Hardware.antt =====
-- node-agent/src/hardware: `memory.rs` and `mod.rs`; `cpu.rs` and `gpu.rs` are in the children.
pub mod Cpu
pub mod Gpu
pub mod Benchmark
pub mod Laws
pub mod Unloaded
use arcflame.Base.{
  ℕ, ◌+◌, ◌%◌, ◌^◌, Bool, true, false, not, ◌&&◌, ◌||◌, List, [], ◌∷◌, ◌++◌, Option, none, some,
  if◌then◌else◌,
}
use arcflame.Base.Text.{codes, contains, strip_prefix, parse_u64}
use arcflame.Agent.{
  Text, Try, done, failed, Output, System, ◌>>=◌, pure, trim, lines, split_whitespace, split, nth,
  Floats,
}
use arcflame.Agent.Tuning.Queries.{size_of_pages, count_of_pages}

pub record Disk : Type 0 where
  pub total_space : ℕ
  pub available_space : ℕ
  pub is_ssd : Bool

-- The library sysinfo: a handle holds what was loaded when it was made or refreshed.
pub record Sysinfo (S : Type 0) : Type 1 where
  pub Handle : Type 0
  pub new : Handle
  pub new_all : S → Handle
  pub refresh_memory : S → Handle → Handle
  pub physical_core_count : Handle → Option ℕ
  pub cpus : Handle → ℕ
  pub total_memory : Handle → ℕ
  pub available_memory : Handle → ℕ
  pub total_swap : Handle → ℕ
  pub free_swap : Handle → ℕ
  -- `Disks::new()`
  pub new_disks : List Disk

pub record CpuInfo (N : Floats) : Type 0 where
  pub model : Text
  pub cores : ℕ
  pub threads : ℕ
  pub max_freq_ghz : N.F
  pub min_freq_ghz : N.F
  pub architecture : Text
  pub has_avx2 : Bool
  pub has_avx512 : Bool
  pub has_neon : Bool
  pub governor : Text

pub record GpuInfo (N : Floats) : Type 0 where
  pub name : Text
  pub vendor : Text
  pub driver : Text
  pub vram_bytes : ℕ
  pub available : Bool
  pub compute_benchmark : N.F

pub record MemoryInfo : Type 0 where
  pub total_bytes : ℕ
  pub available_bytes : ℕ
  pub swap_total_bytes : ℕ
  pub swap_available_bytes : ℕ
  pub hugepage_size_kb : ℕ
  pub hugepages_total : ℕ
  pub hugepages_free : ℕ

pub record DiskInfo (N : Floats) : Type 0 where
  pub total_bytes : ℕ
  pub available_bytes : ℕ
  pub is_ssd : Bool
  pub read_speed_mbps : N.F
  pub write_speed_mbps : N.F

-- `links` is always empty.
pub record NetworkInfo : Type 0 where
  pub hostname : Text
  pub ip_addresses : List Text
  pub discovery_port : ℕ

pub record HardwareReport (N : Floats) : Type 0 where
  pub node_id : Text
  pub cpu : Option (CpuInfo N)
  pub gpus : List (GpuInfo N)
  pub memory : Option MemoryInfo
  pub disk : Option (DiskInfo N)
  pub network : Option NetworkInfo
  pub benchmark_score : N.F

-- `starts_with`
abbrev pub starts_with : Text → Text → Bool
starts_with prefix s = elim (strip_prefix prefix s) [ none ↦ false | some rest ↦ true ]

-- `starts_with` and `contains` as the loop over /proc/net/fib_trie applies them.
abbrev is_address : Text → Bool
is_address ip =
    contains (codes ".") ip
    && (not (starts_with (codes "127.") ip) && not (starts_with (codes "0.") ip))

abbrev first_piece : Text → Option Text → Text
first_piece ip none = ip
first_piece ip (some piece) = piece

-- The addresses of one line.
unfoldable pub address_in : Text → List Text
unfolding strip_prefix split
address_in line = elim (strip_prefix (codes "+-- ") (trim line)) [
  | none ↦ []
  | some ip ↦ if is_address ip then first_piece ip (nth 0 (split b'/' ip)) ∷ [] else []
]

unfoldable pub addresses_in : List Text → List Text
unfolding address_in
addresses_in [] = []
addresses_in (l ∷ ls) = address_in l ++ addresses_in ls

-- The free hugepages in /proc/meminfo.
unfoldable pub free_in_line : Text → Option ℕ
unfolding strip_prefix parse_u64
free_in_line l = elim (strip_prefix (codes "HugePages_Free:") l) [
  | none ↦ none
  | some s ↦ parse_u64 (trim s)
]

unfoldable pub first_free : List Text → Option ℕ
unfolding free_in_line
first_free [] = none
first_free (l ∷ ls) = elim (free_in_line l) [ some n ↦ some n | none ↦ first_free ls ]

abbrev free_pages : Try Text → ℕ
free_pages (failed e) = 0
free_pages (done c) = elim (first_free (lines c)) [ none ↦ 0 | some n ↦ n ]

abbrev sum_space : (Disk → ℕ) → List Disk → ℕ
sum_space space [] = 0
sum_space space (d ∷ ds) = (space d + sum_space space ds) % 2 ^ 64

abbrev any_ssd : List Disk → Bool
any_ssd [] = false
any_ssd (d ∷ ds) = d.is_ssd || any_ssd ds

-- The host's name, or `unknown`.
abbrev pub name_or_unknown : Try Text → Text
name_or_unknown (done s) = trim s
name_or_unknown (failed e) = codes "unknown"

abbrev words_of : Try Output → List Text
words_of (done o) = split_whitespace o.stdout
words_of (failed e) = []

abbrev trie_addresses : Try Text → List Text
trie_addresses (done content) = addresses_in (lines content)
trie_addresses (failed e) = []

module _ (S : System) where
  open S use {State, read_to_string, output}

  unfoldable pub hugepage_info : State → (ℕ × ℕ × ℕ) × State
  unfolding first_free
  hugepage_info = do
    meminfo ← read_to_string (codes "/proc/meminfo")
    count ← read_to_string (codes "/proc/sys/vm/nr_hugepages")
    meminfo' ← read_to_string (codes "/proc/meminfo")
    pure (size_of_pages meminfo, count_of_pages count, free_pages meminfo')

  abbrev pub or_trie : List Text → State → List Text × State
  or_trie (ip ∷ ips) = pure (ip ∷ ips)
  or_trie [] = do
    content ← read_to_string (codes "/proc/net/fib_trie")
    pure (trie_addresses content)

  unfoldable pub local_ip_addresses : State → List Text × State
  unfolding addresses_in
  local_ip_addresses = do o ← output (codes "hostname") (codes "-I" ∷ []); or_trie (words_of o)

  unfoldable pub network_info : State → NetworkInfo × State
  unfolding local_ip_addresses
  network_info = do
    name ← read_to_string (codes "/etc/hostname")
    ips ← local_ip_addresses
    pure (record { hostname = name_or_unknown name; ip_addresses = ips; discovery_port = 0 })

  module _ (I : Sysinfo State) where
    unfoldable pub detect_memory : State → MemoryInfo × State
    unfolding hugepage_info
    detect_memory s =
        let sys = I.refresh_memory s (I.new_all s) in
        (hugepage_info >>= λ (size, total, free). pure (record {
          total_bytes = I.total_memory sys;
          available_bytes = I.available_memory sys;
          swap_total_bytes = I.total_swap sys;
          swap_available_bytes = I.free_swap sys;
          hugepage_size_kb = size;
          hugepages_total = total;
          hugepages_free = free;
        }))
          s

    unfoldable pub disk_info : (N : Floats) → DiskInfo N
    disk_info N = record {
      total_bytes = sum_space (λ (d : Disk). d.total_space) I.new_disks;
      available_bytes = sum_space (λ (d : Disk). d.available_space) I.new_disks;
      is_ssd = any_ssd I.new_disks;
      read_speed_mbps = N.of_nat 0;
      write_speed_mbps = N.of_nat 0;
    }
