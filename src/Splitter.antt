-- ===== src/Splitter.antt =====
-- The GGUF splitter, tools/gguf-splitter/src/main.rs: what its parts share.
pub mod Bytes
pub mod Reader
pub mod Header
pub mod Layers
pub mod Writer
pub mod Main
mod Tests
mod HeaderTests
mod RunTests
mod PlanTests
mod ReadTests
mod WholeTests
use arcflame.Base.{ℕ, ◌+◌, ◌*◌, ◌%◌, ◌^◌, List}
use arcflame.Base.Results.{Result}

-- The messages of `anyhow::bail!` and the errors that `?` passes on.
pub data Error : Type 0 where
  not_found too_small type_count invalid_utf8 zero_layers invalid_config io : Error
  bad_magic eof_u32 eof_u64 unknown_type name_overflow : ℕ → Error
  output_exists : List ℕ → Error

abbrev pub Outcome {ℓ} : Type ℓ → Type ℓ
Outcome A = Result Error A

-- `usize` and `u64` are 64 bits wide. The Makefile builds for release, where sums wrap.
abbrev pub add_u64 : ℕ → ℕ → ℕ
add_u64 a b = (a + b) % 2 ^ 64

abbrev pub add_u32 : ℕ → ℕ → ℕ
add_u32 a b = (a + b) % 2 ^ 32

abbrev pub mul_u32 : ℕ → ℕ → ℕ
mul_u32 a b = a * b % 2 ^ 32
