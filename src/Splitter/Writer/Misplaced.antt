-- ===== src/Splitter/Writer/Misplaced.antt =====
-- What `write_shard` of tools/gguf-splitter/src/main.rs does to sizes that are no multiples of 32.
use mathlib.Core.Path.{subst}
use arcflame.Base.{
  ℕ, ◌+◌, ◌%◌, ◌^◌, ◌<◌, ◌≤◌, ◌≡◌, ◌≢◌, ap, ◌∙◌, List, [], ◌∷◌, ◌++◌, some, length, All,
  length-append, append-nil, arith,
}
use arcflame.Base.Results.{ok, >>=-eq-ok}
use arcflame.Splitter.{add_u64}
use arcflame.Splitter.Bytes.{At}
use arcflame.Splitter.Reader.Values.{Fits}
use arcflame.Splitter.Header.{TensorInfo, read_tensors}
use arcflame.Splitter.Writer.{
  align_up, sort_by_key, offset_of, at_index, Offsets, lookup, assign_offsets, write_shard, padding,
}
use arcflame.Splitter.Writer.Align.{align_up_least}
use arcflame.Splitter.Writer.Infos.{IsTensor, moved}
use arcflame.Splitter.Writer.Head.{head_bytes}
use arcflame.Splitter.Writer.Placement.{
  InFile, size_of, original, at_index-get_or, lookup_newest, assign_frame, write_data-Copied,
}
use arcflame.Splitter.Writer.Sorting.{Distinct, sort_by_key-All, sort_by_key-Distinct}
use arcflame.Splitter.Writer.Roundtrip.{write_shard_parts, reread, At-body, padding-length}

-- The second tensor is recorded behind the first, rounded up.
second_offset :
    (data_sizes : List ℕ) (i j : ℕ) (s : List ℕ) {m : Offsets}
    → size_of data_sizes i + 32 < 2 ^ 64
    → All (λ k. k ≢ j) s
    → assign_offsets data_sizes (i ∷ j ∷ s) 0 [] ≡ ok m
    → lookup j m ≡ some (align_up (size_of data_sizes i) 32)
unfolding assign_offsets
second_offset data_sizes i j s small apart run =
    let (n, found, run₁) = >>=-eq-ok (at_index data_sizes i) _ run in
    let (n', found', run₂) = >>=-eq-ok (at_index data_sizes j) _ run₁ in
    let size = at_index-get_or data_sizes i found in
    let e : add_u64 0 n ≡ size_of data_sizes i = omega (arith, size) in
    assign_frame data_sizes j s _ _ apart run₂
    ∙ lookup_newest j (align_up (add_u64 0 n) 32) ((i, 0) ∷ [])
    ∙ ap (λ k. some (align_up k 32)) e

strictly : (a v : ℕ) → a ≤ v → v % 32 ≡ 0 → a % 32 ≢ 0 → a < v
strictly a v above multiple odd = ground arith

-- Let `write_shard` have written well-formed tensors, none twice, each with a region that ends below
-- 2 ^ 64, and let the size of the first in offset order be no multiple of 32 and a second be behind it. The
-- version and the counts fit in their fields, and the shard is below 2 ^ 63 bytes. Then `main` reads
-- the chosen tensors from the shard, but the second stands in front of where its new offset says: at the
-- end of the first, while its offset is the end of the first rounded up to 32.
pub write_shard_misplaces :
    (version kv_count : ℕ) (idxs : List ℕ) (tensors : List TensorInfo) (sizes raw mmap : List ℕ)
    (data_start : ℕ) (out : List ℕ) (i j : ℕ) (rest : List ℕ)
    → version < 2 ^ 32
    → length idxs < 2 ^ 64
    → kv_count < 2 ^ 64
    → All IsTensor tensors
    → Distinct idxs
    → All (InFile tensors sizes data_start) idxs
    → Fits out
    → sort_by_key (offset_of tensors) idxs ≡ i ∷ j ∷ rest
    → size_of sizes i % 32 ≢ 0
    → size_of sizes i + 32 < 2 ^ 64
    → write_shard version kv_count idxs tensors sizes raw mmap data_start ≡ ok out
    → (m : Offsets) × (ts : List TensorInfo) × (pos v : ℕ) × (moved tensors m idxs ≡ ok ts)
      × (read_tensors out (length idxs) (24 + length raw) ≡ ok (ts, pos))
      × (lookup j m ≡ some v)
      × (size_of sizes i < v)
      × At out (align_up pos 32 + size_of sizes i) (original tensors sizes mmap data_start j)
write_shard_misplaces version kv_count idxs tensors sizes raw mmap data_start out i j rest hv hn hk
      well distinct inside fits order odd small run =
    let (m, infos, body, run_m, run_infos, run_body, whole) =
      write_shard_parts version kv_count idxs tensors sizes raw mmap data_start run in
    let (ts, header, metadata, moves, reads) =
      reread version kv_count idxs tensors sizes raw mmap data_start out hv hn hk well fits m infos
        body run_m run_infos run_body whole in
    let head = head_bytes version (length idxs) kv_count (raw ++ infos) in
    let apart : Distinct (i ∷ j ∷ rest) =
      subst Distinct order (sort_by_key-Distinct (offset_of tensors) idxs distinct) in
    let within : All (InFile tensors sizes data_start) (i ∷ j ∷ rest) =
      subst (All (InFile tensors sizes data_start)) order
        (sort_by_key-All (offset_of tensors) (InFile tensors sizes data_start) idxs inside) in
    let head_small : length head + 32 < 2 ^ 64 =
      omega (arith, ap length whole, length-append head (padding (length head) ++ body)) in
    let at_body : At out (align_up (length head) 32) (body ++ []) =
      rw (append-nil body, ← padding-length (length head) head_small)
        (At-body version kv_count idxs tensors sizes raw mmap data_start out hv hn hk well fits m
          infos body run_m run_infos run_body whole) in
    let copied =
      write_data-Copied tensors sizes mmap data_start (i ∷ j ∷ rest) out []
        (align_up (length head) 32) within (rw order at run_body) at_body in
    let (multiple, above, below) = align_up_least (size_of sizes i) small in
    (
      m,
      ts,
      length head,
      align_up (size_of sizes i) 32,
      moves,
      reads,
      second_offset sizes i j rest small apart.1.0 (rw order at run_m),
      strictly (size_of sizes i) (align_up (size_of sizes i) 32) above multiple odd,
      copied.2.0,
    )
