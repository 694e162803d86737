-- ===== src/Agent/Tuning/Queries.antt =====
-- `tune_all` of node-agent/src/tuning/kernel.rs, and the queries of node-agent/src/tuning/hugepages.rs.
use arcflame.Base.{ℕ, List, [], ◌∷◌, ◌++◌, Option, none, some}
use arcflame.Base.Text.{codes, strip_prefix, parse_u64}
use arcflame.Agent.{Text, Try, done, failed, System, ◌>>=◌, pure, trim, lines, trim_end_matches}
use arcflame.Agent.Tuning.{set_performance_governor, set_swappiness, disable_numa_balancing}

-- The number in the line `Hugepagesize:   2048 kB`.
unfoldable pub size_in_line : Text → Option ℕ
unfolding strip_prefix parse_u64 trim_end_matches
size_in_line l = elim (strip_prefix (codes "Hugepagesize:") l) [
  | none ↦ none
  | some s ↦ parse_u64 (trim_end_matches (codes " kB") (trim s))
]

-- `find_map`: the first line that holds the number.
unfoldable pub first_size : List Text → Option ℕ
unfolding size_in_line
first_size [] = none
first_size (l ∷ ls) = elim (size_in_line l) [ some n ↦ some n | none ↦ first_size ls ]

abbrev or_zero : Option ℕ → ℕ
or_zero none = 0
or_zero (some n) = n

abbrev pub size_of_pages : Try Text → ℕ
size_of_pages (failed e) = 0
size_of_pages (done c) = or_zero (first_size (lines c))

abbrev pub count_of_pages : Try Text → ℕ
count_of_pages (failed e) = 0
count_of_pages (done c) = or_zero (parse_u64 (trim c))

-- `if action.is_ok() { applied.push(message) }`
abbrev push_ok : Text → List Text → Try (Unit {0}) → List Text
push_ok message applied (done _) = applied ++ (message ∷ [])
push_ok message applied (failed e) = applied

module _ (S : System) where
  open S use {State, read_to_string}

  unfoldable pub get_hugepage_size : State → ℕ × State
  unfolding first_size
  get_hugepage_size = do c ← read_to_string (codes "/proc/meminfo"); pure (size_of_pages c)

  unfoldable pub get_current_count : State → ℕ × State
  unfolding parse_u64
  get_current_count = do
    c ← read_to_string (codes "/proc/sys/vm/nr_hugepages")
    pure (count_of_pages c)

  unfoldable pub tune_all : State → Try (List Text) × State
  unfolding set_performance_governor set_swappiness disable_numa_balancing
  tune_all = do
    governor ← set_performance_governor S
    let applied₁ = push_ok (codes "CPU governor → performance") [] governor
    swappiness ← set_swappiness S 10
    let applied₂ = push_ok (codes "Swappiness → 10") applied₁ swappiness
    numa ← disable_numa_balancing S
    pure (done (push_ok (codes "NUMA balancing disabled") applied₂ numa))
