-- ===== src/Agent/Hardware/Benchmark.antt =====
-- node-agent/src/hardware/benchmark.rs. The time that a loop takes is an argument; what the loop of the
-- processor computes is dropped.
use arcflame.Base.{ℕ, zero, suc, ◌%◌, List, [], ◌∷◌}
use arcflame.Agent.{Floats}

-- `details` is always empty.
pub record BenchmarkResult (N : Floats) : Type 0 where
  pub score : N.F
  pub tokens_per_second : N.F
  pub memory_bandwidth_gbps : N.F
  pub compute_flops : N.F

abbrev iterations : ℕ
iterations = 100000000

abbrev buffer_size : ℕ
buffer_size = 268435456

-- The bytes that the loop writes, from index `i` on.
unfoldable pub fill : ℕ → ℕ → List ℕ
fill zero i = []
fill (suc n) i = i % 256 ∷ fill n (suc i)

module _ (N : Floats) where
  unfoldable pub run_cpu_benchmark : N.F → BenchmarkResult N
  run_cpu_benchmark elapsed =
      let ops_per_sec = N.div (N.of_nat iterations) elapsed in
      record {
        score = N.div ops_per_sec (N.of_nat 1000000);
        tokens_per_second = N.of_nat 0;
        memory_bandwidth_gbps = N.of_nat 0;
        compute_flops = ops_per_sec;
      }

  unfoldable pub run_memory_benchmark : N.F → BenchmarkResult N
  run_memory_benchmark elapsed =
      let bytes_per_sec = N.div (N.of_nat buffer_size) elapsed in
      let gib = N.mul (N.mul (N.of_nat 1024) (N.of_nat 1024)) (N.of_nat 1024) in
      let bandwidth = N.div bytes_per_sec gib in
      record {
        score = bandwidth;
        tokens_per_second = N.of_nat 0;
        memory_bandwidth_gbps = bandwidth;
        compute_flops = N.of_nat 0;
      }
