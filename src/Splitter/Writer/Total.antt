-- ===== src/Splitter/Writer/Total.antt =====
-- `write_shard` gives a result.
use mathlib.Core.Path.{subst}
use arcflame.Base.{
  ℕ, ◌+◌, ◌-◌, ◌^◌, ◌<◌, ◌≤◌, ◌≡◌, refl, sym, List, [], ◌∷◌, ◌++◌, some, length, take, drop,
  get_elem?-lt, All, ◌==◌, Bool-cases, inl, inr, arith, ltb, le→ltb,
}
use arcflame.Base.Results.{ok}
use arcflame.Splitter.{add_u64}
use arcflame.Splitter.Bytes.{slice}
use arcflame.Splitter.Header.{TensorInfo}
use arcflame.Splitter.Writer.{
  align_up, offset_of, at_index, sort_by_key, Offsets, lookup, assign_offsets, write_data,
  write_info, write_infos, write_head, write_shard, padding,
}
use arcflame.Splitter.Writer.Head.{head_bytes}
use arcflame.Splitter.Writer.Sorting.{sort_by_key-All, sort_by_key-All_inv}
use arcflame.Splitter.Writer.Placement.{size_of, copy_chunk, at_index-get_or, offset_of-at_index}

at_index-lt : {A : Type 0} (xs : List A) (i : ℕ) → i < length xs → (x : A) × (at_index xs i ≡ ok x)
at_index-lt xs i h = let (x, e) = get_elem?-lt xs i h in (x, rw (e, at_index) refl)

-- The offset of an index that is placed stays known.
Placed-more :
    (i j cur : ℕ) (m : Offsets)
    → ((v : ℕ) × (lookup i m ≡ some v))
    → (v : ℕ) × (lookup i ((j, cur) ∷ m) ≡ some v)
Placed-more i j cur m (v, e) = elim (Bool-cases (j == i)) [
  | inl same ↦ (cur, rw same refl)
  | inr other ↦ (v, rw other e)
]

-- All indices of the list are known in the map, and all that were before still are.
Known : Offsets → ℕ → Type 0
Known m i = (v : ℕ) × (lookup i m ≡ some v)

assign_offsets_total :
    (sizes s : List ℕ) (cur : ℕ) (m : Offsets)
    → All (λ i. i < length sizes) s
    → (m' : Offsets) × (assign_offsets sizes s cur m ≡ ok m')
      × All (Known m') s
      × ((i : ℕ) → Known m i → Known m' i)
unfolding assign_offsets Known
assign_offsets_total sizes [] cur m bound = (m, refl, tt, λ i k. k)
assign_offsets_total sizes (i ∷ s) cur m bound =
    let (n, e) = at_index-lt sizes i bound.0 in
    let next = align_up (add_u64 cur n) 32 in
    let (m', run, known, keep) = assign_offsets_total sizes s next ((i, cur) ∷ m) bound.1 in
    (m', rw e run, (keep i (cur, ground arith), known), λ j k. keep j (Placed-more j i cur m k))

write_infos_total :
    (tensors : List TensorInfo) (m : Offsets) (s : List ℕ)
    → All (λ i. i < length tensors) s
    → All (Known m) s
    → (infos : List ℕ) × (write_infos tensors m s ≡ ok infos)
unfolding write_infos Known
write_infos_total tensors m [] bound known = ([], refl)
write_infos_total tensors m (i ∷ s) bound known =
    let (t, e) = at_index-lt tensors i bound.0 in
    let (v, e') = known.0 in
    let (more, run) = write_infos_total tensors m s bound.1 known.1 in
    (write_info t v ++ more, rw (e, e', run) refl)

module _ (tensors : List TensorInfo) (sizes mmap : List ℕ) (data_start : ℕ) where
  -- The data of a tensor lies in the file that is split.
  abbrev pub Holds : ℕ → Type 0
  Holds i = data_start + offset_of tensors i + size_of sizes i ≤ length mmap

  copy_total :
      (start n : ℕ)
      → start + n ≤ length mmap
      → length mmap < 2 ^ 63
      → (chunk : List ℕ) × (copy_chunk mmap start n ≡ ok chunk)
  unfolding slice
  copy_total start n inside small = elim (Bool-cases (ltb 0 n)) [
    | inl full ↦
        let e : add_u64 start n ≡ start + n = omega arith in
        (
          take (start + n - start) (drop start mmap),
          rw
              (
                full,
                e,
                le→ltb (start + n) start (omega arith),
                le→ltb (length mmap) (start + n) inside,
              )
              refl,
        )
    | inr empty ↦ ([], rw empty refl)
  ]

  write_data_total :
      (s : List ℕ)
      → length mmap < 2 ^ 63
      → All (λ i. i < length tensors) s
      → All (λ i. i < length sizes) s
      → All Holds s
      → (body : List ℕ) × (write_data tensors sizes mmap data_start s ≡ ok body)
  unfolding write_data
  write_data_total [] small bound sized holds = ([], refl)
  write_data_total (i ∷ s) small bound sized holds =
      let (t, e) = at_index-lt tensors i bound.0 in
      let (n, e') = at_index-lt sizes i sized.0 in
      let (more, run) = write_data_total s small bound.1 sized.1 holds.1 in
      let (chunk, copy) =
        copy_total (add_u64 data_start t.offset) n
          (omega (arith, offset_of-at_index tensors i e, at_index-get_or sizes i e', holds.0))
          small in
      (chunk ++ more, rw (e, e', copy, run) refl)

-- Let the indices name tensors of the file, one size stand for each tensor, and the data of each
-- chosen tensor lie in a file below 2 ^ 63 bytes. Then `write_shard` gives a shard: no index is out
-- of range, every new offset is found, and no slice panics.
pub write_shard_total :
    (version kv_count : ℕ) (idxs : List ℕ) (tensors : List TensorInfo) (sizes raw mmap : List ℕ)
    (data_start : ℕ)
    → length mmap < 2 ^ 63
    → length sizes ≡ length tensors
    → All (λ i. i < length tensors) idxs
    → All (Holds tensors sizes mmap data_start) idxs
    → (out : List ℕ) × (write_shard version kv_count idxs tensors sizes raw mmap data_start
        ≡ ok out)
unfolding write_shard write_head Known
write_shard_total version kv_count idxs tensors sizes raw mmap data_start small len bound holds =
    let sorted = sort_by_key (offset_of tensors) idxs in
    let ordered : All (λ i. i < length tensors) sorted =
      sort_by_key-All (offset_of tensors) (λ i. i < length tensors) idxs bound in
    let sized : All (λ i. i < length sizes) sorted =
      subst (λ n. All (λ i. i < n) sorted) (sym len) ordered in
    let (m, run_m, known, _) = assign_offsets_total sizes sorted 0 [] sized in
    let (infos, run_infos) =
      write_infos_total tensors m idxs bound
        (sort_by_key-All_inv (offset_of tensors) (Known m) idxs known) in
    let (body, run_body) =
      write_data_total tensors sizes mmap data_start sorted small ordered sized
        (sort_by_key-All (offset_of tensors) (Holds tensors sizes mmap data_start) idxs holds) in
    let head = head_bytes version (length idxs) kv_count (raw ++ infos) in
    (head ++ (padding (length head) ++ body), rw (run_m, run_infos, run_body) refl)
