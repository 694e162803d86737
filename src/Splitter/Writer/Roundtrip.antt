-- ===== src/Splitter/Writer/Roundtrip.antt =====
-- A shard that `write_shard` wrote, read back the way `main` reads a file.
use mathlib.Core.Path.{subst}
use arcflame.Base.{
  ℕ, ◌+◌, ◌^◌, ◌<◌, ◌≡◌, sym, ap, ◌∙◌, List, [], ◌∷◌, ◌++◌, some, length, All, length-append, arith,
  append-nil, length-replicate,
}
use arcflame.Base.Bits.{bit_and_clear}
use arcflame.Base.Results.{ok, >>=-eq-ok, ok-injective}
use arcflame.Splitter.{add_u64}
use arcflame.Splitter.Bytes.{At, At-left, At-right}
use arcflame.Splitter.Reader.Values.{Fits}
use arcflame.Splitter.Header.{TensorInfo, read_header, read_tensors}
use arcflame.Splitter.Writer.{
  align_up, sub_u64, sort_by_key, offset_of, at_index, Offsets, lookup, assign_offsets, write_data,
  write_head, write_infos, write_shard, padding,
}
use arcflame.Splitter.Writer.Align.{align_up_least}
use arcflame.Splitter.Writer.Infos.{IsTensor, moved, read_tensors-write_infos}
use arcflame.Splitter.Writer.Sorting.{
  Distinct, sort_by_key-All, sort_by_key-All_inv, sort_by_key-Distinct,
}
use arcflame.Splitter.Writer.Placement.{
  Packed, InFile, length-write_data, Restored, total, assign_offsets-Placed, write_data-Copied,
  All-Restored,
}
use arcflame.Splitter.Writer.Head.{head_bytes, length-head_bytes, read_header-At}

-- No new offset is wider than 64 bits.
align_up_small : (x : ℕ) → align_up x 32 < 2 ^ 64
unfolding align_up
align_up_small x = omega (arith, bit_and_clear (sub_u64 (add_u64 x 32) 1) (omega arith))

abbrev AreSmall : Offsets → Type 0
AreSmall m = (k v : ℕ) → lookup k m ≡ some v → v < 2 ^ 64

assign_offsets-AreSmall :
    (data_sizes s : List ℕ) (cur : ℕ) (m : Offsets) {m' : Offsets}
    → cur < 2 ^ 64
    → AreSmall m
    → assign_offsets data_sizes s cur m ≡ ok m'
    → AreSmall m'
unfolding assign_offsets
assign_offsets-AreSmall data_sizes [] cur m small all run = subst AreSmall (ok-injective run) all
assign_offsets-AreSmall data_sizes (i ∷ s) cur m small all run =
    let (n, found, run') = >>=-eq-ok (at_index data_sizes i) _ run in
    assign_offsets-AreSmall data_sizes s (align_up (add_u64 cur n) 32) ((i, cur) ∷ m)
      (align_up_small (add_u64 cur n)) (λ k v e. ground (arith, all k v)) run'

-- What a run of `write_shard` went through.
pub write_shard_parts :
    (version kv_count : ℕ) (idxs : List ℕ) (tensors : List TensorInfo) (sizes raw mmap : List ℕ)
    (data_start : ℕ) {out : List ℕ}
    → write_shard version kv_count idxs tensors sizes raw mmap data_start ≡ ok out
    → (m : Offsets) × (infos body : List ℕ) × (assign_offsets sizes
          (sort_by_key (offset_of tensors) idxs)
          0
          []
        ≡ ok m)
      × (write_infos tensors m idxs ≡ ok infos)
      × (write_data tensors sizes mmap data_start (sort_by_key (offset_of tensors) idxs) ≡ ok body)
      × (let head = head_bytes version (length idxs) kv_count (raw ++ infos) in
          head ++ (padding (length head) ++ body) ≡ out)
unfolding write_shard write_head
write_shard_parts version kv_count idxs tensors sizes raw mmap data_start run =
    let sorted = sort_by_key (offset_of tensors) idxs in
    let (m, run_m, run₁) = >>=-eq-ok (assign_offsets sizes sorted 0 []) _ run in
    let (head, run_head, run₂) =
      >>=-eq-ok (write_head version kv_count idxs tensors m raw) _ run₁ in
    let (infos, run_infos, same) = >>=-eq-ok (write_infos tensors m idxs) _ run_head in
    let (body, run_body, whole) =
      >>=-eq-ok (write_data tensors sizes mmap data_start sorted) _ run₂ in
    (m, infos, body, run_m, run_infos, run_body, rw (ok-injective same) (ok-injective whole))

pub padding-length : (pos : ℕ) → pos + 32 < 2 ^ 64 → pos + length (padding pos) ≡ align_up pos 32
unfolding padding
padding-length pos small =
    omega
      (arith, align_up_least pos small, length-replicate {A = ℕ} (sub_u64 (align_up pos 32) pos) 0)

module _ (version kv_count : ℕ) (idxs : List ℕ) (tensors : List TensorInfo)
    (sizes raw mmap : List ℕ) (data_start : ℕ) (out : List ℕ) (version_small : version < 2 ^ 32)
    (count_small : length idxs < 2 ^ 64) (kv_small : kv_count < 2 ^ 64)
    (well : All IsTensor tensors) (fits : Fits out) (m : Offsets) (infos body : List ℕ)
    (run_m : assign_offsets sizes (sort_by_key (offset_of tensors) idxs) 0 [] ≡ ok m)
    (run_infos : write_infos tensors m idxs ≡ ok infos)
    (run_body : write_data tensors sizes mmap data_start (sort_by_key (offset_of tensors) idxs)
      ≡ ok body)
    (whole : let head = head_bytes version (length idxs) kv_count (raw ++ infos) in
      head ++ (padding (length head) ++ body) ≡ out) where
  abbrev head : List ℕ
  head = head_bytes version (length idxs) kv_count (raw ++ infos)

  At-head : At out 0 head
  At-head = (padding (length head) ++ body, sym whole, omega arith)

  pub At-body : At out (length head + length (padding (length head))) body
  At-body = At-right out (length head) (padding (length head)) body (
      subst (λ p. At out p (padding (length head) ++ body)) zero_add
        (At-right out 0 head (padding (length head) ++ body)
          ([], sym whole ∙ sym (append-nil _), omega arith)))
    where
      zero_add : 0 + length head ≡ length head
      zero_add = omega arith

  -- The header, then the tensor infos behind the metadata.
  pub reread :
      (ts : List TensorInfo) × (read_header out
        ≡ ok (record {
          version = version;
          tensor_count = length idxs;
          metadata_kv_count = kv_count;
        }))
      × At out 24 raw
      × (moved tensors m idxs ≡ ok ts)
      × (read_tensors out (length idxs) (24 + length raw) ≡ ok (ts, length head))
  reread =
      let (bound, at_rest, header) =
        read_header-At out version (length idxs) kv_count (raw ++ infos) version_small count_small
          kv_small At-head in
      let at_infos : At out (24 + length raw) (infos ++ []) =
        rw (append-nil infos) (At-right out 24 raw infos at_rest) in
      let (ts, moves, reads) =
        read_tensors-write_infos out fits tensors m well
          (assign_offsets-AreSmall sizes _ 0 [] (omega arith) (λ k v e. absurd (ground arith))
            run_m)
          idxs (24 + length raw) infos [] run_infos at_infos in
      (
        ts,
        header,
        At-left out 24 raw infos at_rest,
        moves,
        reads
            ∙ ap (λ k. ok (ts, k))
                (omega (
                  arith,
                  length-append raw infos,
                  length-head_bytes version (length idxs) kv_count (raw ++ infos),
                )),
      )

  module _ (distinct : Distinct (sort_by_key (offset_of tensors) idxs))
      (packed : Packed sizes (sort_by_key (offset_of tensors) idxs))
      (inside : All (InFile tensors sizes data_start) (sort_by_key (offset_of tensors) idxs)) where
    head_small : length head + 32 < 2 ^ 64
    head_small = omega (arith, ap length whole, length-append head (padding (length head) ++ body))

    total_small : total sizes (sort_by_key (offset_of tensors) idxs) + 32 < 2 ^ 64
    total_small = omega (
      arith,
      ap length whole,
      length-append head (padding (length head) ++ body),
      length-append (padding (length head)) body,
      length-write_data tensors sizes mmap data_start _ inside run_body,
    )

    abbrev sorted : List ℕ
    sorted = sort_by_key (offset_of tensors) idxs

    restored : All (Restored tensors sizes mmap data_start m out (align_up (length head) 32)) sorted
    restored =
        All-Restored tensors sizes mmap data_start sorted m out (align_up (length head) 32) 0
          (assign_offsets-Placed sizes sorted 0 [] distinct packed (omega arith)
            (omega (arith, total_small)) run_m)
          (write_data-Copied tensors sizes mmap data_start sorted out [] _ inside run_body (
            rw (append-nil body, ← padding-length (length head) head_small)
              (subst (λ p. At out p body) (omega arith) At-body)))

-- Let `write_shard` have written some of a file's well-formed tensors, none twice, each with a region
-- that ends below 2 ^ 64, and let the size of each but the last in offset order be a multiple of 32.
-- The version and the counts fit in their fields, and the shard is below 2 ^ 63 bytes. Then the bytes
-- written are a GGUF file: the header reads back as given, the metadata stand behind it; behind them
-- `main` reads the chosen tensors, each unchanged but for its offset; and each tensor's bytes in the
-- source file stand in the shard at its new offset, counted from the end of the infos rounded up to 32.
pub write_shard_roundtrip :
    (version kv_count : ℕ) (idxs : List ℕ) (tensors : List TensorInfo) (sizes raw mmap : List ℕ)
    (data_start : ℕ) (out : List ℕ)
    → version < 2 ^ 32
    → length idxs < 2 ^ 64
    → kv_count < 2 ^ 64
    → All IsTensor tensors
    → Distinct idxs
    → Packed sizes (sort_by_key (offset_of tensors) idxs)
    → All (InFile tensors sizes data_start) idxs
    → Fits out
    → write_shard version kv_count idxs tensors sizes raw mmap data_start ≡ ok out
    → (m : Offsets) × (ts : List TensorInfo) × (pos : ℕ) × (read_header out
        ≡ ok (record {
          version = version;
          tensor_count = length idxs;
          metadata_kv_count = kv_count;
        }))
      × At out 24 raw
      × (moved tensors m idxs ≡ ok ts)
      × (read_tensors out (length idxs) (24 + length raw) ≡ ok (ts, pos))
      × All (Restored tensors sizes mmap data_start m out (align_up pos 32)) idxs
write_shard_roundtrip version kv_count idxs tensors sizes raw mmap data_start out hv hn hk well
      distinct packed inside fits run =
    let (m, infos, body, run_m, run_infos, run_body, whole) =
      write_shard_parts version kv_count idxs tensors sizes raw mmap data_start run in
    let (ts, header, metadata, moves, reads) =
      reread version kv_count idxs tensors sizes raw mmap data_start out hv hn hk well fits m infos
        body run_m run_infos run_body whole in
    let all =
      restored version kv_count idxs tensors sizes raw mmap data_start out hv hn hk well fits m
        infos body run_m run_infos run_body whole
        (sort_by_key-Distinct (offset_of tensors) idxs distinct) packed
        (sort_by_key-All (offset_of tensors) (InFile tensors sizes data_start) idxs inside) in
    let pos = length (head_bytes version (length idxs) kv_count (raw ++ infos)) in
    (
      m,
      ts,
      pos,
      header,
      metadata,
      moves,
      reads,
      sort_by_key-All_inv (offset_of tensors)
          (Restored tensors sizes mmap data_start m out (align_up pos 32)) idxs all,
    )
