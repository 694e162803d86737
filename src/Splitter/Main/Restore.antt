-- ===== src/Splitter/Main/Restore.antt =====
-- The shards that the loop of `main` of tools/gguf-splitter/src/main.rs writes restore their tensors.
use mathlib.Core.Path.{subst}
use arcflame.Base.{
  ℕ, zero, suc, ◌+◌, ◌%◌, ◌^◌, ◌<◌, ◌≤◌, ◌≡◌, refl, sym, Bool, false, not, ◌&&◌, List, [], ◌∷◌,
  ◌++◌, Option, All, length, length-append, arith,
}
use arcflame.Base.Results.{ok, >>=-eq-ok, ok-injective}
use arcflame.Splitter.Bytes.{At}
use arcflame.Splitter.Reader.Values.{Fits}
use arcflame.Splitter.Header.{TensorInfo, read_header, read_tensors}
use arcflame.Splitter.Layers.{
  shard, shard_indices_from, get_shard_tensor_indices, group_tensors_by_layer, ceil_div,
}
use arcflame.Splitter.Layers.Partition.{concat}
use arcflame.Splitter.Layers.Permuted.{All-append, Distinct-append}
use arcflame.Splitter.Writer.{
  align_up, sort_by_key, write_shard, offset_of, up_to, Offsets, compute_data_sizes,
}
use arcflame.Splitter.Writer.Infos.{IsTensor, moved}
use arcflame.Splitter.Writer.Placement.{Restored, Packed, InFile}
use arcflame.Splitter.Writer.Sorting.{Distinct}
use arcflame.Splitter.Writer.Sizes.{Begins, compute_data_sizes_tile}
use arcflame.Splitter.Writer.Regions.{each_Ends, shard_Packed, shard_InFile}
use arcflame.Splitter.Writer.Total.{Holds, write_shard_total}
use arcflame.Splitter.Writer.Roundtrip.{write_shard_roundtrip}
use arcflame.Splitter.Main.{Model, Job, ShardFile, shard_bytes, write_shards}

module _ (job : Job) (bytes : List ℕ) where
  -- The file reads back as a GGUF file with the metadata of the model and these tensors, each with the
  -- bytes that it had.
  abbrev pub Restores : List ℕ → ShardFile → Type 0
  Restores idxs f =
      (m : Offsets) × (ts : List TensorInfo) × (pos : ℕ) × (read_header f.1
        ≡ ok (record {
          version = job.model.header.version;
          tensor_count = length idxs;
          metadata_kv_count = job.model.header.metadata_kv_count;
        }))
      × At f.1 24 job.raw_metadata
      × (moved job.model.tensors m idxs ≡ ok ts)
      × (read_tensors f.1 (length idxs) (24 + length job.raw_metadata) ≡ ok (ts, pos))
      × All
          (Restored job.model.tensors job.data_sizes bytes job.model.data_start m f.1
            (align_up pos 32))
          idxs

-- The index lists and the files, one by one.
abbrev pub Each : (List ℕ → ShardFile → Type 0) → List (List ℕ) → List ShardFile → Type 0
Each Q [] [] = Unit {0}
Each Q [] (f ∷ fs) = ⊥
Each Q (idxs ∷ lists) [] = ⊥
Each Q (idxs ∷ lists) (f ∷ fs) = Q idxs f × Each Q lists fs

-- What a model must be for a split to be faithful: the fields fit, the infos are well formed, and the
-- regions begin in the file, at multiples of 32, no two at the same offset.
pub record IsSplittable (m : Model) (bytes : List ℕ) : Type 0 where
  pub version : m.header.version < 2 ^ 32
  pub entries : m.header.metadata_kv_count < 2 ^ 64
  pub layers : 0 < m.num_layers
  pub few_layers : m.num_layers < 2 ^ 31
  pub tensors : length m.tensors < 2 ^ 64
  pub well : All IsTensor m.tensors
  pub file : length bytes < 2 ^ 63
  pub begins : All (Begins m.tensors m.data_start (length bytes)) (up_to 0 (length m.tensors))
  pub aligned : All (λ i. offset_of m.tensors i % 32 ≡ 0) (up_to 0 (length m.tensors))
  pub apart :
      (i j : ℕ)
      → i < length m.tensors
      → j < length m.tensors
      → offset_of m.tensors i ≡ offset_of m.tensors j
      → i ≡ j

module _ (m : Model) (bytes : List ℕ) (architecture : Option (List ℕ)) (lps : ℕ)
    (raw : List ℕ) where
  abbrev pub job_of : Job
  job_of = record {
    model = m;
    architecture = architecture;
    layers_per_shard = lps;
    num_shards = ceil_div m.num_layers lps;
    groups = group_tensors_by_layer m.tensors m.num_layers;
    data_sizes = compute_data_sizes m.tensors m.data_start (length bytes);
    raw_metadata = raw;
  }

module _ (m : Model) (bytes : List ℕ) (is : IsSplittable m bytes) (architecture : Option (List ℕ))
    (lps : ℕ) (raw : List ℕ) where
  abbrev job : Job
  job = job_of m bytes architecture lps raw

  abbrev sizes : List ℕ
  sizes = compute_data_sizes m.tensors m.data_start (length bytes)

  holds :
      (idxs : List ℕ)
      → All (λ i. i < length m.tensors) idxs
      → All (Holds m.tensors sizes bytes m.data_start) idxs
  holds [] bound = tt
  holds (i ∷ idxs) bound = (
    each_Ends m.tensors m.data_start (length bytes) is.file is.begins is.aligned is.apart i bound.0,
    holds idxs bound.1,
  )

  -- One shard is written.
  pub shard_bytes_total :
      (i : ℕ) (idxs : List ℕ)
      → let s = shard m.num_layers lps (ceil_div m.num_layers lps) i in
        get_shard_tensor_indices job.groups s.first_layer s.last_layer s.has_lm_head ≡ ok idxs
        → All (λ j. j < length m.tensors) idxs
        → (out : List ℕ) × (write_shard m.header.version m.header.metadata_kv_count idxs m.tensors
              sizes raw bytes m.data_start
            ≡ ok out)
          × (shard_bytes job bytes i ≡ ok out)
  unfolding shard_bytes
  shard_bytes_total i idxs found bound =
      let (out, run) =
        write_shard_total m.header.version m.header.metadata_kv_count idxs m.tensors sizes raw bytes
          m.data_start is.file
          (compute_data_sizes_tile m.tensors m.data_start (length bytes) is.file is.begins).0 bound
          (holds idxs bound) in
      (out, run, rw found run)

  -- Its regions in the file.
  pub shard_regions :
      (idxs : List ℕ)
      → All (λ j. j < length m.tensors) idxs
      → Distinct idxs
      → Packed sizes (sort_by_key (offset_of m.tensors) idxs)
        × All (InFile m.tensors sizes m.data_start) idxs
  shard_regions idxs bound distinct = (
    shard_Packed m.tensors m.data_start (length bytes) is.file is.begins is.aligned is.apart idxs
        bound distinct,
    shard_InFile m.tensors m.data_start (length bytes) is.file is.begins is.aligned is.apart idxs
        bound,
  )

  -- It restores its tensors.
  pub shard_bytes-Restores :
      (i : ℕ) (idxs : List ℕ)
      → let s = shard m.num_layers lps (ceil_div m.num_layers lps) i in
        get_shard_tensor_indices job.groups s.first_layer s.last_layer s.has_lm_head ≡ ok idxs
        → All (λ j. j < length m.tensors) idxs
        → Distinct idxs
        → length idxs < 2 ^ 64
        → ((out : List ℕ) → shard_bytes job bytes i ≡ ok out → Fits out)
        → (out : List ℕ) × (shard_bytes job bytes i ≡ ok out) × Restores job bytes idxs (suc i, out)
  shard_bytes-Restores i idxs found bound distinct few fits =
      let (out, run, whole) = shard_bytes_total i idxs found bound in
      let (packed, inside) = shard_regions idxs bound distinct in
      (
        out,
        whole,
        write_shard_roundtrip m.header.version m.header.metadata_kv_count idxs m.tensors sizes raw
            bytes m.data_start out is.version few is.entries is.well distinct packed inside
            (fits out whole) run,
      )

-- The loop, if each of its shards is written with the property `Q`.
module _ (job : Job) (bytes : List ℕ) (exists : ℕ → Bool) (force : Bool)
    (free : (n : ℕ) → (exists n && not force) ≡ false) (num : ℕ) (Q : List ℕ → ShardFile → Type 0)
    (each : (i : ℕ) (idxs : List ℕ)
      → i < num
      → let s = shard job.model.num_layers job.layers_per_shard job.num_shards i in
        get_shard_tensor_indices job.groups s.first_layer s.last_layer s.has_lm_head ≡ ok idxs
        → All (λ j. j < length job.model.tensors) idxs
        → Distinct idxs
        → length idxs < 2 ^ 64
        → (out : List ℕ) × (shard_bytes job bytes i ≡ ok out) × Q idxs (suc i, out)) where
  pub write_shards-Each :
      (rounds i : ℕ) (lists : List (List ℕ))
      → shard_indices_from job.groups job.model.num_layers job.layers_per_shard job.num_shards
          rounds i
        ≡ ok lists
      → All (λ j. j < length job.model.tensors) (concat lists)
      → Distinct (concat lists)
      → length (concat lists) < 2 ^ 64
      → i + rounds ≤ num
      → let w = write_shards exists force job bytes rounds i in
        (w.result ≡ ok tt) × Each Q lists w.files
  unfolding shard_indices_from write_shards concat
  write_shards-Each zero i [] run bound distinct few room = (refl, tt)
  write_shards-Each zero i (idxs ∷ lists) run bound distinct few room = cc
  write_shards-Each (suc rounds) i lists run bound distinct few room =
      let s = shard job.model.num_layers job.layers_per_shard job.num_shards i in
      let (idxs, found, run₁) =
        >>=-eq-ok (get_shard_tensor_indices job.groups s.first_layer s.last_layer s.has_lm_head) _
          run in
      let (rest, more, run₂) =
        >>=-eq-ok
          (shard_indices_from job.groups job.model.num_layers job.layers_per_shard job.num_shards
            rounds (suc i))
          _ run₁ in
      let same : lists ≡ idxs ∷ rest = sym (ok-injective run₂) in
      let (bound₁, bound₂) =
        All-append _ idxs (concat rest)
          (subst (λ l. All (λ j. j < length job.model.tensors) (concat l)) same bound) in
      let (distinct₁, distinct₂) =
        Distinct-append idxs (concat rest) (subst (λ l. Distinct (concat l)) same distinct) in
      let few' : length (idxs ++ concat rest) < 2 ^ 64 =
        subst (λ l. length (concat l) < 2 ^ 64) same few in
      let size = length-append idxs (concat rest) in
      let (out, whole, holds_of) =
        each i idxs (omega arith) found bound₁ distinct₁ (omega (arith, few', size)) in
      let (ends, others) =
        write_shards-Each rounds (suc i) rest more bound₂ distinct₂ (omega (arith, few', size))
          (omega arith) in
      rw (same, write_shards, free (suc i), whole) (ends, (holds_of, others))
