-- ===== src/Splitter/Writer/Sizes.antt =====
-- `compute_data_sizes`: the regions of the tensors tile the data section.
use mathlib.Core.Path.{subst}
use native.Mathlib.Decide.{ℕ_discrete}
use arcflame.Base.{
  ℕ, zero, suc, ◌+◌, ◌%◌, ◌^◌, ◌≤◌, ◌<◌, ◌≡◌, ◌≢◌, refl, ◌∙◌, List, [], ◌∷◌, All, length, get_or,
  set, replicate, length-set, length-replicate, get_or-set_self, get_or-set_ne, arith,
}
use arcflame.Splitter.Header.{TensorInfo}
use arcflame.Splitter.Writer.{
  sub_u64, offset_of, up_to, sort_by_key, fill_sizes, compute_data_sizes,
}
use arcflame.Splitter.Writer.Placement.{size_of}
use arcflame.Splitter.Writer.Sorting.{
  Distinct, Ascending, sort_by_key-All, sort_by_key-Distinct, sort_by_key-Ascending,
}

module _ (tensors : List TensorInfo) (data_start file_size : ℕ) where
  -- In this order each region ends where the next one begins, and the last at the end of the file.
  abbrev pub Tiles : List ℕ → List ℕ → Type 0
  Tiles sizes [] = Unit {0}
  Tiles sizes (i ∷ []) = data_start + offset_of tensors i + size_of sizes i ≡ file_size
  Tiles sizes (i ∷ j ∷ rest) =
      (offset_of tensors i + size_of sizes i ≡ offset_of tensors j) × Tiles sizes (j ∷ rest)

  -- The data of a tensor begins in the file.
  abbrev pub Begins : ℕ → Type 0
  Begins i = data_start + offset_of tensors i ≤ file_size

  fill_frame :
      (i : ℕ) (s sizes : List ℕ)
      → All (λ j. j ≢ i) s
      → get_or (fill_sizes tensors data_start file_size s sizes) i 0 ≡ get_or sizes i 0
  unfolding fill_sizes
  fill_frame i [] sizes absent = refl
  fill_frame i (j ∷ []) sizes absent = get_or-set_ne sizes j i _ 0 absent.0
  fill_frame i (j ∷ k ∷ rest) sizes absent =
      fill_frame i (k ∷ rest) _ absent.1 ∙ get_or-set_ne sizes j i _ 0 absent.0

  length-fill_sizes :
      (s sizes : List ℕ) → length (fill_sizes tensors data_start file_size s sizes) ≡ length sizes
  unfolding fill_sizes
  length-fill_sizes [] sizes = refl
  length-fill_sizes (i ∷ []) sizes = length-set sizes i _
  length-fill_sizes (i ∷ j ∷ rest) sizes = length-fill_sizes (j ∷ rest) _ ∙ length-set sizes i _

  module _ (small : file_size < 2 ^ 63) where
    fill-Tiles :
        (n : ℕ) (s sizes : List ℕ)
        → length sizes ≡ n
        → All (λ i. i < n) s
        → Distinct s
        → Ascending (offset_of tensors) s
        → All Begins s
        → Tiles (fill_sizes tensors data_start file_size s sizes) s
    unfolding fill_sizes
    fill-Tiles n [] sizes len bound distinct asc begins = tt
    fill-Tiles n (i ∷ []) sizes len bound distinct asc begins =
        rw
          (get_or-set_self sizes i (sub_u64 file_size ((data_start + offset_of tensors i) % 2 ^ 64))
            0 (omega arith))
          (omega arith)
    fill-Tiles n (i ∷ j ∷ rest) sizes len bound distinct asc begins =
        let gap = sub_u64 (offset_of tensors j) (offset_of tensors i) in
        (
          omega (
            arith,
            fill_frame i (j ∷ rest) (set sizes i gap) distinct.0,
            get_or-set_self sizes i gap 0 (omega arith),
          ),
          fill-Tiles n (j ∷ rest) (set sizes i gap) (length-set sizes i gap ∙ len) bound.1
              distinct.1 asc.1 begins.1,
        )

All-up_to : (P : ℕ → Type 0) (k n : ℕ) → ((i : ℕ) → k ≤ i → i < k + n → P i) → All P (up_to k n)
All-up_to P k zero h = tt
All-up_to P k (suc n) h = (
  h k (omega arith) (omega arith),
  All-up_to P (suc k) n (λ i lo hi. h i (omega arith) (omega arith)),
)

pub All-up_to_inv : (P : ℕ → Type 0) (k n i : ℕ) → All P (up_to k n) → k ≤ i → i < k + n → P i
All-up_to_inv P k zero i all lo hi = absurd (omega arith)
All-up_to_inv P k (suc n) i all lo hi = elim (ℕ_discrete k i) [
  | yes e ↦ subst P e all.0
  | no ne ↦ All-up_to_inv P (suc k) n i all.1 (omega arith) (omega arith)
]

up_to-Distinct : (k n : ℕ) → Distinct (up_to k n)
up_to-Distinct k zero = tt
up_to-Distinct k (suc n) =
    (All-up_to (λ j. j ≢ k) (suc k) n (λ i lo hi. λ e. omega arith), up_to-Distinct (suc k) n)

-- All indices, in the order of the offsets.
abbrev pub by_offset : List TensorInfo → List ℕ
by_offset tensors = sort_by_key (offset_of tensors) (up_to 0 (length tensors))

-- If the data of every tensor begins in a file of less than 2 ^ 63 bytes, the sizes that
-- `compute_data_sizes` returns, one for each tensor, tile the data section: in the order of the
-- offsets each region ends where the next begins, and the last one ends at the end of the file.
pub compute_data_sizes_tile :
    (tensors : List TensorInfo) (data_start file_size : ℕ)
    → file_size < 2 ^ 63
    → All (Begins tensors data_start file_size) (up_to 0 (length tensors))
    → (length (compute_data_sizes tensors data_start file_size) ≡ length tensors)
      × Tiles tensors data_start file_size
          (compute_data_sizes tensors data_start file_size)
          (by_offset tensors)
unfolding compute_data_sizes
compute_data_sizes_tile tensors data_start file_size small begins =
    let n = length tensors in
    let key = offset_of tensors in
    let len : length (replicate n 0) ≡ n = length-replicate n 0 in
    (
      length-fill_sizes tensors data_start file_size (by_offset tensors) (replicate n 0) ∙ len,
      fill-Tiles tensors data_start file_size small n (by_offset tensors) (replicate n 0) len
          (sort_by_key-All key (λ i. i < n) (up_to 0 n)
            (All-up_to (λ i. i < n) 0 n (λ i lo hi. omega arith)))
          (sort_by_key-Distinct key (up_to 0 n) (up_to-Distinct 0 n))
          (sort_by_key-Ascending key (up_to 0 n))
          (sort_by_key-All key (Begins tensors data_start file_size) (up_to 0 n) begins),
    )
