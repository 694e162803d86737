-- ===== src/Splitter/Writer/Regions.antt =====
-- The regions that `compute_data_sizes` finds lie in the file, and are packed in every shard.
use arcflame.Base.{
  ℕ, ◌+◌, ◌%◌, ◌^◌, ◌≤◌, ◌<◌, ◌≡◌, ◌≢◌, ◌⊎◌, inl, inr, List, [], ◌∷◌, All, length, arith,
}
use arcflame.Splitter.Header.{TensorInfo}
use arcflame.Splitter.Writer.{offset_of, up_to, sort_by_key, compute_data_sizes}
use arcflame.Splitter.Writer.Placement.{size_of, Packed, InFile}
use arcflame.Splitter.Writer.Sorting.{
  Distinct, Ascending, sort_by_key-All, sort_by_key-All_inv, sort_by_key-Distinct,
  sort_by_key-Ascending,
}
use arcflame.Splitter.Writer.Sizes.{
  Tiles, Begins, All-up_to_inv, by_offset, compute_data_sizes_tile,
}

module _ (tensors : List TensorInfo) (data_start file_size : ℕ) (sizes : List ℕ) where
  abbrev off : ℕ → ℕ
  off = offset_of tensors

  -- Its region lies in the file.
  abbrev pub Ends : ℕ → Type 0
  Ends i = data_start + off i + size_of sizes i ≤ file_size

  -- Its size is a multiple of 32, or no tensor lies behind it.
  abbrev PackedOrTop : List ℕ → ℕ → Type 0
  PackedOrTop s i = (size_of sizes i % 32 ≡ 0) ⊎ All (λ j. off j ≤ off i) s

  All-Ends :
      (s : List ℕ)
      → All (Begins tensors data_start file_size) s
      → Tiles tensors data_start file_size sizes s
      → All Ends s
  All-Ends [] begins tiles = tt
  All-Ends (i ∷ []) begins tiles = (omega arith, tt)
  All-Ends (i ∷ j ∷ s) begins tiles = (omega arith, All-Ends (j ∷ s) begins.1 tiles.1)

  more_top :
      (i : ℕ) (s t : List ℕ)
      → All (λ j. off i ≤ off j) t
      → All (PackedOrTop s) t
      → All (PackedOrTop (i ∷ s)) t
  more_top i s [] above all = tt
  more_top i s (k ∷ t) above all =
      (elim all.0 [ inl p ↦ inl p | inr top ↦ inr (above.0, top) ], more_top i s t above.1 all.1)

  All-PackedOrTop :
      (s : List ℕ)
      → All (λ i. off i % 32 ≡ 0) s
      → Ascending off s
      → Tiles tensors data_start file_size sizes s
      → All (PackedOrTop s) s
  All-PackedOrTop [] aligned asc tiles = tt
  All-PackedOrTop (i ∷ []) aligned asc tiles = (inr (omega arith, tt), tt)
  All-PackedOrTop (i ∷ j ∷ s) aligned asc tiles = (
    inl (omega arith),
    more_top i (j ∷ s) (j ∷ s) asc.0 (All-PackedOrTop (j ∷ s) aligned.1 asc.1 tiles.1),
  )

module _ (tensors : List TensorInfo) (data_start file_size : ℕ) (small : file_size < 2 ^ 63)
    (begins : All (Begins tensors data_start file_size) (up_to 0 (length tensors)))
    (aligned : All (λ i. offset_of tensors i % 32 ≡ 0) (up_to 0 (length tensors)))
    (apart : (i j : ℕ)
      → i < length tensors
      → j < length tensors
      → offset_of tensors i ≡ offset_of tensors j
      → i ≡ j) where
  abbrev sizes : List ℕ
  sizes = compute_data_sizes tensors data_start file_size

  each_packed :
      All (PackedOrTop tensors data_start file_size sizes (by_offset tensors)) (by_offset tensors)
  each_packed =
      All-PackedOrTop tensors data_start file_size sizes (by_offset tensors)
        (sort_by_key-All (offset_of tensors) (λ i. offset_of tensors i % 32 ≡ 0) _ aligned)
        (sort_by_key-Ascending (offset_of tensors) (up_to 0 (length tensors)))
        (compute_data_sizes_tile tensors data_start file_size small begins).1

  packed_index :
      (i j : ℕ)
      → i < length tensors
      → j < length tensors
      → offset_of tensors i ≤ offset_of tensors j
      → j ≢ i
      → size_of sizes i % 32 ≡ 0
  packed_index i j hi hj le ne =
      elim (All-up_to_inv (PackedOrTop tensors data_start file_size sizes (by_offset tensors)) 0
        (length tensors) i
        (sort_by_key-All_inv (offset_of tensors) _ (up_to 0 (length tensors)) each_packed)
        (omega arith) (omega arith)) [
          | inl p ↦ p
          | inr top ↦
              let below : offset_of tensors j ≤ offset_of tensors i =
                All-up_to_inv (λ k. offset_of tensors k ≤ offset_of tensors i) 0 (length tensors) j
                  (sort_by_key-All_inv (offset_of tensors) _ (up_to 0 (length tensors)) top)
                  (omega arith) (omega arith) in
              absurd (ne (apart j i hj hi (omega arith)))
        ]

  -- In any order that ascends by the offsets, all sizes but the last are multiples of 32.
  Ascending-Packed :
      (s : List ℕ)
      → All (λ i. i < length tensors) s
      → Distinct s
      → Ascending (offset_of tensors) s
      → Packed sizes s
  Ascending-Packed [] bound distinct asc = tt
  Ascending-Packed (i ∷ []) bound distinct asc = tt
  Ascending-Packed (i ∷ j ∷ s) bound distinct asc = (
    packed_index i j bound.0 bound.1.0 asc.0.0 distinct.0.0,
    Ascending-Packed (j ∷ s) bound.1 distinct.1 asc.1,
  )

  pub shard_Packed :
      (idxs : List ℕ)
      → All (λ i. i < length tensors) idxs
      → Distinct idxs
      → Packed sizes (sort_by_key (offset_of tensors) idxs)
  shard_Packed idxs bound distinct =
      Ascending-Packed (sort_by_key (offset_of tensors) idxs)
        (sort_by_key-All (offset_of tensors) (λ i. i < length tensors) idxs bound)
        (sort_by_key-Distinct (offset_of tensors) idxs distinct)
        (sort_by_key-Ascending (offset_of tensors) idxs)

  pub each_Ends : (i : ℕ) → i < length tensors → Ends tensors data_start file_size sizes i
  each_Ends i h =
      All-up_to_inv (Ends tensors data_start file_size sizes) 0 (length tensors) i
        (sort_by_key-All_inv (offset_of tensors) _ (up_to 0 (length tensors)) (
          All-Ends tensors data_start file_size sizes (by_offset tensors)
            (sort_by_key-All (offset_of tensors) (Begins tensors data_start file_size) _ begins)
            (compute_data_sizes_tile tensors data_start file_size small begins).1))
        (omega arith) (omega arith)

  pub shard_InFile :
      (idxs : List ℕ)
      → All (λ i. i < length tensors) idxs
      → All (InFile tensors sizes data_start) idxs
  shard_InFile [] bound = tt
  shard_InFile (i ∷ idxs) bound = (omega (arith, each_Ends i bound.0), shard_InFile idxs bound.1)
