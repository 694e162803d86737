-- ===== src/Splitter/Main/Reread.antt =====
-- A shard that `write_shard` of tools/gguf-splitter/src/main.rs wrote is a model that `main` reads.
use mathlib.Core.Path.{subst}
use arcflame.Base.{
  ℕ, ◌+◌, ◌-◌, ◌*◌, ◌^◌, ◌<◌, ◌≤◌, ◌≡◌, refl, ◌∙◌, sym, true, false, List, ◌∷◌, ◌++◌, some, All,
  length, get_elem?, arith, some-injective,
}
use arcflame.Base.Results.{ok}
use arcflame.Splitter.Bytes.{At, At-right, to_le_bytes}
use arcflame.Splitter.Reader.Values.{Fits}
use arcflame.Splitter.Header.{TensorInfo, is_tensor_info_at, looks_like_name}
use arcflame.Splitter.Header.Metadata.{Entry, IsEntry, encode_entries}
use arcflame.Splitter.Writer.{sort_by_key, offset_of, Offsets, write_info, write_shard}
use arcflame.Splitter.Writer.Infos.{IsTensor, moved, write_infos_cons}
use arcflame.Splitter.Writer.Sorting.{Distinct}
use arcflame.Splitter.Writer.Placement.{Packed, InFile, Restored}
use arcflame.Splitter.Writer.Head.{read_header-At}
use arcflame.Splitter.Writer.Roundtrip.{write_shard_parts, write_shard_roundtrip}
use arcflame.Splitter.Main.{Model, read_model}
use arcflame.Splitter.Main.Read.{name-At, read_model-At}

-- The name of the first tensor of a shard stands right behind the metadata.
first_name-At :
    (version kv_count idx : ℕ) (rest : List ℕ) (tensors : List TensorInfo) (sizes raw mmap : List ℕ)
    (data_start : ℕ) (t : TensorInfo) (out : List ℕ)
    → version < 2 ^ 32
    → length (idx ∷ rest) < 2 ^ 64
    → kv_count < 2 ^ 64
    → get_elem? tensors idx ≡ some t
    → write_shard version kv_count (idx ∷ rest) tensors sizes raw mmap data_start ≡ ok out
    → At out (24 + length raw) (to_le_bytes 8 (length t.name) ++ t.name)
first_name-At version kv_count idx rest tensors sizes raw mmap data_start t out hv hn hk found run =
    let (m, infos, body, run_m, run_infos, run_body, whole) =
      write_shard_parts version kv_count (idx ∷ rest) tensors sizes raw mmap data_start run in
    let (u, v, more, found', known, run_more, same) =
      write_infos_cons tensors m idx rest run_infos in
    let (bound, at, header) =
      read_header-At out version (length (idx ∷ rest)) kv_count (raw ++ infos) hv hn hk
        (_, sym whole, omega arith) in
    let here : At out (24 + length raw) (write_info u v ++ more) =
      subst (At out (24 + length raw)) (sym same) (At-right out 24 raw infos at) in
    subst (λ (w : TensorInfo). At out (24 + length raw) (to_le_bytes 8 (length w.name) ++ w.name))
      (some-injective _ _ (sym found' ∙ found)) (name-At out (24 + length raw) u v more here)

-- Let `write_shard` have written some of a file's well-formed tensors behind metadata of eight bytes at
-- least, any entries that the format allows; no tensor twice, each with a region that ends below 2 ^ 64,
-- and the size of each but the last in offset order a multiple of 32. The version and the counts fit in
-- their fields, the shard is below 2 ^ 63 bytes, its first tensor has a short name that looks like a
-- tensor's, and nothing in the 32 bytes before the infos, at steps of four, looks like one. Then `main`
-- reads the shard as a model of its own: with the version and the metadata as given, the infos right
-- behind them, and the chosen tensors, unchanged but for their offsets; and each
-- tensor's bytes in the source file stand at that offset from where the model's data begin.
pub write_shard_reread :
    (version : ℕ) (kvs : List Entry) (idx : ℕ) (rest : List ℕ) (tensors : List TensorInfo)
    (sizes mmap : List ℕ) (data_start : ℕ) (t : TensorInfo) (out : List ℕ)
    → let idxs = idx ∷ rest in
      let metadata_end = 24 + length (encode_entries kvs) in
      version < 2 ^ 32
      → length idxs < 2 ^ 64
      → length kvs < 2 ^ 64
      → All IsEntry kvs
      → 32 ≤ metadata_end
      → All IsTensor tensors
      → get_elem? tensors idx ≡ some t
      → 0 < length t.name
      → length t.name < 256
      → looks_like_name t.name ≡ true
      → Distinct idxs
      → Packed sizes (sort_by_key (offset_of tensors) idxs)
      → All (InFile tensors sizes data_start) idxs
      → Fits out
      → ((k : ℕ) → k < 8 → is_tensor_info_at out (metadata_end - 32 + 4 * k) ≡ ok false)
      → write_shard version (length kvs) idxs tensors sizes (encode_entries kvs) mmap data_start
        ≡ ok out
      → (s : Model) × (m : Offsets) × (read_model out ≡ ok s)
        × (s.header ≡ record {
          version = version;
          tensor_count = length idxs;
          metadata_kv_count = length kvs;
        })
        × At out 24 (encode_entries kvs)
        × (s.info_start ≡ metadata_end)
        × (moved tensors m idxs ≡ ok s.tensors)
        × All (Restored tensors sizes mmap data_start m out s.data_start) idxs
write_shard_reread version kvs idx rest tensors sizes mmap data_start t out hv hn hk entries room
      well found some_name short looks distinct packed inside fits before run =
    let raw = encode_entries kvs in
    let (m, ts, pos, header, metadata, moves, reads, restored) =
      write_shard_roundtrip version (length kvs) (idx ∷ rest) tensors sizes raw mmap data_start out
        hv hn hk well distinct packed inside fits run in
    let at_name =
      first_name-At version (length kvs) idx rest tensors sizes raw mmap data_start t out hv hn hk
        found run in
    let read =
      read_model-At out _ kvs t.name ts pos fits header refl entries metadata some_name short looks
        room before at_name reads in
    (_, m, read, refl, metadata, refl, moves, restored)
