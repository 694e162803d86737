-- ===== src/Splitter/Main/Whole.antt =====
-- From a file to its shards and back: `main` of tools/gguf-splitter/src/main.rs with `--split` on an encoded
-- file, and then on the shards that it wrote.
use arcflame.Base.{
  ℕ, suc, ◌+◌, ◌-◌, ◌*◌, ◌^◌, ◌<◌, ◌≤◌, ◌≡◌, refl, sym, ◌⊎◌, inl, inr, Bool, true, false, not, ◌&&◌,
  ◌==◌, List, [], ◌∷◌, ◌++◌, All, Option, some, length, get_elem?-lt, All-get_elem?, append-nil,
  arith,
}
use arcflame.Base.Results.{ok}
use arcflame.Base.Text.{codes}
use arcflame.Splitter.{Outcome}
use arcflame.Splitter.Bytes.{At, At-left, slice-At}
use arcflame.Splitter.Reader.Values.{Fits}
use arcflame.Splitter.Header.{TensorInfo, is_tensor_info_at, looks_like_name}
use arcflame.Splitter.Header.Metadata.{Entry, IsEntry, encode_entries}
use arcflame.Splitter.Header.Lookup.{HasTextKey, text_under, get_metadata_string_finds}
use arcflame.Splitter.Layers.{ceil_div, shard, get_shard_tensor_indices}
use arcflame.Splitter.Writer.{Offsets}
use arcflame.Splitter.Writer.Infos.{moved}
use arcflame.Splitter.Writer.Head.{read_header-At}
use arcflame.Splitter.Writer.Placement.{Restored}
use arcflame.Splitter.Writer.Sorting.{Distinct}
use arcflame.Splitter.Main.{
  Args, Model, Job, ShardFile, Written, shards, read_model, prepare, shard_bytes, write_shards,
  main, choose_layers_per_shard,
}
use arcflame.Splitter.Main.Read.{
  encode_infos, encode_model, IsInfo, model_of, read_model-encode_model,
}
use arcflame.Splitter.Main.Reread.{write_shard_reread}
use arcflame.Splitter.Main.Restore.{IsSplittable, job_of, shard_bytes_total, shard_regions}
use arcflame.Splitter.Main.Split.{IsSplit, job_of-IsSplit}

-- A name that the search for the tensor infos takes for one.
abbrev pub HasName : TensorInfo → Type 0
HasName t = (0 < length t.name) × (length t.name < 256) × (looks_like_name t.name ≡ true)

-- Nothing in the 32 bytes before the infos looks like a tensor's info.
abbrev pub StartsClear : List Entry → List ℕ → Type 0
StartsClear kvs bytes =
    (k : ℕ)
    → k < 8
    → is_tensor_info_at bytes (24 + length (encode_entries kvs) - 32 + 4 * k) ≡ ok false

module _ (m : Model) (bytes : List ℕ) (kvs : List Entry) (data_sizes : List ℕ) where
  -- The shard is a model that `main` reads, with the metadata and these tensors.
  pub record IsModel (idxs : List ℕ) (out : List ℕ) : Type 0 where
    pub model : Model
    pub offsets : Offsets
    pub read : read_model out ≡ ok model
    pub header : model.header ≡ record {
      version = m.header.version;
      tensor_count = length idxs;
      metadata_kv_count = length kvs;
    }
    pub metadata : At out 24 (encode_entries kvs)
    pub info_start : model.info_start ≡ 24 + length (encode_entries kvs)
    pub tensors : moved m.tensors offsets idxs ≡ ok model.tensors
    pub restored :
        All (Restored m.tensors data_sizes bytes m.data_start offsets out model.data_start) idxs

  -- A file that has a tensor is such a model.
  abbrev pub ReadsBack : List ℕ → ShardFile → Type 0
  ReadsBack idxs f = (idxs ≡ []) ⊎ IsModel idxs f.1

module _ (m : Model) (bytes : List ℕ) (is : IsSplittable m bytes) (architecture : Option (List ℕ))
    (lps : ℕ) (kvs : List Entry) (entries : All IsEntry kvs)
    (room : 32 ≤ 24 + length (encode_entries kvs)) (count : m.header.metadata_kv_count ≡ length kvs)
    (named : All HasName m.tensors) where
  abbrev job : Job
  job = job_of m bytes architecture lps (encode_entries kvs)

  shard_bytes-ReadsBack :
      (i : ℕ) (idxs : List ℕ)
      → let s = shard m.num_layers lps (ceil_div m.num_layers lps) i in
        get_shard_tensor_indices job.groups s.first_layer s.last_layer s.has_lm_head ≡ ok idxs
        → All (λ j. j < length m.tensors) idxs
        → Distinct idxs
        → length idxs < 2 ^ 64
        → ((out : List ℕ) → shard_bytes job bytes i ≡ ok out → Fits out × StartsClear kvs out)
        → (out : List ℕ) × (shard_bytes job bytes i ≡ ok out)
          × ReadsBack m bytes kvs job.data_sizes idxs (suc i, out)
  shard_bytes-ReadsBack i [] found bound distinct few good =
      let (out, run, whole) =
        shard_bytes_total m bytes is architecture lps (encode_entries kvs) i [] found bound in
      (out, whole, inl refl)
  shard_bytes-ReadsBack i (idx ∷ rest) found bound distinct few good =
      let raw = encode_entries kvs in
      let (out, run, whole) =
        shard_bytes_total m bytes is architecture lps raw i (idx ∷ rest) found bound in
      let (packed, inside) =
        shard_regions m bytes is architecture lps raw (idx ∷ rest) bound distinct in
      let (t, here) = get_elem?-lt m.tensors idx bound.0 in
      let name = All-get_elem? HasName m.tensors idx named here in
      let (fits, clear) = good out whole in
      let kv_small : length kvs < 2 ^ 64 = omega (arith, is.entries, count) in
      let (s, offsets, read, header, metadata, start, tensors, restored) =
        write_shard_reread m.header.version kvs idx rest m.tensors job.data_sizes bytes m.data_start
          t out is.version few kv_small entries room is.well here name.0 name.1 name.2 distinct
          packed inside fits clear (rw (← count) run) in
      (
        out,
        whole,
        inr (record {
          model = s;
          offsets = offsets;
          read = read;
          header = header;
          metadata = metadata;
          info_start = start;
          tensors = tensors;
          restored = restored;
        }),
      )

-- What `prepare` makes of an encoded file.
prepare-encode_model :
    (args : Args) (config : Outcome (Option ℕ)) (version : ℕ) (kvs : List Entry)
    (ts : List TensorInfo) (body : List ℕ) (lps : ℕ)
    → let bytes = encode_model version kvs ts body in
      let m = model_of version kvs ts in
      Fits bytes
      → All IsEntry kvs
      → All HasTextKey kvs
      → At bytes 24 (encode_entries kvs)
      → choose_layers_per_shard args config m.num_layers ≡ ok lps
      → (lps == 0) ≡ false
      → prepare args config bytes m
        ≡ ok (
            job_of m bytes (text_under (codes "general.architecture") kvs) lps (encode_entries kvs))
unfolding prepare
prepare-encode_model args config version kvs ts body lps fits entries keys at chosen pos =
    let bytes = encode_model version kvs ts body in
    rw
      (
        get_metadata_string_finds bytes fits kvs 24 (codes "general.architecture") entries keys at,
        chosen,
        pos,
        slice-At bytes 24 (encode_entries kvs) at,
      )
      refl

-- Let a file below 2 ^ 63 bytes hold metadata of eight bytes at least, any entries that the format allows
-- whose keys are UTF-8, and the infos of tensors, one at least, with short names that look like tensors';
-- let its model be splittable: a layer at least and fewer than 2 ^ 31, a version and counts that fit in
-- their fields, well-formed infos, and regions that begin in the file, at multiples of 32 and no two at
-- the same offset. Let `main` choose a positive number of layers a shard below 2 ^ 32, with `--split` and
-- without `--list-tensors`; let no shard file stand in the way, or `--force` be given. In the file and in each shard nothing in the 32 bytes
-- before the infos, at steps of four, looks like one, and no shard reaches 2 ^ 63 bytes. Then `main` writes
-- all shards; they share out the tensors, each tensor in exactly one; and each that has a tensor is
-- itself a model that `main` reads: with the version and the metadata of the file, its tensors
-- unchanged but for their offsets, and the bytes of each tensor at its new offset.
pub main_splits :
    (args : Args) (config : Outcome (Option ℕ)) (exists : ℕ → Bool) (version : ℕ) (kvs : List Entry)
    (t : TensorInfo) (ts : List TensorInfo) (body : List ℕ) (lps : ℕ)
    → let bytes = encode_model version kvs (t ∷ ts) body in
      let m = model_of version kvs (t ∷ ts) in
      let job =
        job_of m bytes (text_under (codes "general.architecture") kvs) lps (encode_entries kvs) in
      Fits bytes
      → IsSplittable m bytes
      → All IsEntry kvs
      → All HasTextKey kvs
      → All IsInfo (t ∷ ts)
      → All HasName (t ∷ ts)
      → 32 ≤ 24 + length (encode_entries kvs)
      → StartsClear kvs bytes
      → choose_layers_per_shard args config m.num_layers ≡ ok lps
      → 0 < lps
      → lps < 2 ^ 32
      → args.list_tensors ≡ false
      → args.split ≡ true
      → ((n : ℕ) → (exists n && not args.force) ≡ false)
      → ((i : ℕ) (out : List ℕ)
          → i < job.num_shards
          → shard_bytes job bytes i ≡ ok out
          → Fits out × StartsClear kvs out)
      → (w : Written) × (main args (some bytes) config exists ≡ ok (shards w))
        × IsSplit (ReadsBack m bytes kvs job.data_sizes) job w
unfolding main
main_splits args config exists version kvs t ts body lps fits is entries keys infos named room clear
      chosen pos word unlisted split free good =
    let bytes = encode_model version kvs (t ∷ ts) body in
    let m = model_of version kvs (t ∷ ts) in
    let architecture = text_under (codes "general.architecture") kvs in
    let job = job_of m bytes architecture lps (encode_entries kvs) in
    let name = named.0 in
    let read =
      read_model-encode_model version kvs t ts body fits is.version is.tensors is.entries entries
        infos name.0 name.1 name.2 room clear in
    let (bound, at, header) =
      read_header-At bytes version (length (t ∷ ts)) (length kvs)
        (encode_entries kvs ++ (encode_infos (t ∷ ts) ++ body)) is.version is.tensors is.entries
        ([], sym (append-nil _), omega arith) in
    let prepared =
      prepare-encode_model args config version kvs (t ∷ ts) body lps fits entries keys
        (At-left bytes 24 (encode_entries kvs) (encode_infos (t ∷ ts) ++ body) at) chosen
        (ground arith) in
    (
      write_shards exists args.force job bytes job.num_shards 0,
      simp (read, unlisted, prepared, split),
      job_of-IsSplit m bytes is architecture lps (encode_entries kvs) exists args.force
          (ReadsBack m bytes kvs job.data_sizes) pos word free
          (λ i idxs below found bounded distinct few.
            shard_bytes-ReadsBack m bytes is architecture lps kvs entries room refl named i idxs
              found bounded distinct few (λ out whole. good i out below whole)),
    )
