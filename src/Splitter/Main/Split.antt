-- ===== src/Splitter/Main/Split.antt =====
-- A whole run of `main` of tools/gguf-splitter/src/main.rs with `--split`: what it writes restores
-- every tensor.
use mathlib.Core.Path.{subst}
use mathlib.Core.List.{Perm}
use arcflame.Base.{
  ℕ, suc, ◌^◌, ◌<◌, ◌≡◌, refl, sym, Bool, true, false, not, ◌&&◌, ◌==◌, List, All, Option, some,
  length, arith, if◌then◌else◌,
}
use arcflame.Base.Results.{ok, err, ◌>>=◌, >>=-eq-ok, ok-injective}
use arcflame.Base.Text.{codes}
use arcflame.Splitter.{Outcome, zero_layers}
use arcflame.Splitter.Reader.{get_metadata_string}
use arcflame.Splitter.Bytes.{slice}
use arcflame.Splitter.Reader.Values.{Fits}
use arcflame.Splitter.Layers.{ceil_div, shard, get_shard_tensor_indices}
use arcflame.Splitter.Layers.Partition.{
  concat, positions, positions-All, positions-Distinct, length-positions,
}
use arcflame.Splitter.Layers.Permuted.{All-Perm, Distinct-Perm, length-Perm}
use arcflame.Splitter.Layers.Shards.{shards_partition}
use arcflame.Splitter.Main.{
  Args, Model, Job, ShardFile, Written, shards, read_model, prepare, shard_bytes, write_shards,
  main, choose_layers_per_shard,
}
use arcflame.Splitter.Main.Restore.{
  Each, Restores, IsSplittable, job_of, shard_bytes-Restores, write_shards-Each,
}
use arcflame.Splitter.Writer.Sorting.{Distinct}

-- What `prepare` makes, where it succeeds.
pub prepare-job :
    (args : Args) (config : Outcome (Option ℕ)) (bytes : List ℕ) (m : Model) (job : Job)
    → prepare args config bytes m ≡ ok job
    → (architecture : Option (List ℕ)) × (lps : ℕ) × (raw : List ℕ) × (0 < lps)
      × (job ≡ job_of m bytes architecture lps raw)
unfolding prepare
prepare-job args config bytes m job run =
    let (architecture, text, run₁) =
      >>=-eq-ok
        (get_metadata_string bytes 24 m.header.metadata_kv_count (codes "general.architecture")) _
        run in
    let (lps, chosen, run₂) = >>=-eq-ok (choose_layers_per_shard args config m.num_layers) _ run₁ in
    by_zero architecture lps (lps == 0) refl run₂
  where
    by_zero :
        (architecture : Option (List ℕ)) (lps : ℕ) (b : Bool)
        → (lps == 0) ≡ b
        → (if b
            then err zero_layers
            else (do raw ← slice bytes 24 m.info_start; ok (job_of m bytes architecture lps raw)))
          ≡ ok job
        → (architecture : Option (List ℕ)) × (lps : ℕ) × (raw : List ℕ) × (0 < lps)
          × (job ≡ job_of m bytes architecture lps raw)
    by_zero architecture lps true e run = cc
    by_zero architecture lps false e run =
        let (raw, cut, run') = >>=-eq-ok (slice bytes 24 m.info_start) _ run in
        (architecture, lps, raw, ground arith, sym (ok-injective run'))

-- What a split leaves: the shards share out the tensors, and each file has the property `Q`.
abbrev pub IsSplit : (List ℕ → ShardFile → Type 0) → Job → Written → Type 0
IsSplit Q job w =
    (w.result ≡ ok tt)
    × ((lists : List (List ℕ)) × Perm (concat lists) (positions 0 job.model.tensors)
        × Each Q lists w.files)

abbrev pub IsRestored : Job → List ℕ → Written → Type 0
IsRestored job bytes w = IsSplit (Restores job bytes) job w

pub job_of-IsSplit :
    (m : Model) (bytes : List ℕ) (is : IsSplittable m bytes) (architecture : Option (List ℕ))
    (lps : ℕ) (raw : List ℕ) (exists : ℕ → Bool) (force : Bool) (Q : List ℕ → ShardFile → Type 0)
    → 0 < lps
    → lps < 2 ^ 32
    → ((n : ℕ) → (exists n && not force) ≡ false)
    → let job = job_of m bytes architecture lps raw in
      ((i : ℕ) (idxs : List ℕ)
        → i < job.num_shards
        → let s = shard m.num_layers lps job.num_shards i in
          get_shard_tensor_indices job.groups s.first_layer s.last_layer s.has_lm_head ≡ ok idxs
          → All (λ j. j < length m.tensors) idxs
          → Distinct idxs
          → length idxs < 2 ^ 64
          → (out : List ℕ) × (shard_bytes job bytes i ≡ ok out) × Q idxs (suc i, out))
      → IsSplit Q job (write_shards exists force job bytes job.num_shards 0)
job_of-IsSplit m bytes is architecture lps raw exists force Q pos word free each =
    let (lists, run, perm) =
      shards_partition m.tensors m.num_layers lps is.layers is.few_layers pos word in
    let num = ceil_div m.num_layers lps in
    let (ends, all) =
      write_shards-Each (job_of m bytes architecture lps raw) bytes exists force free num Q each num
        0 lists run
        (All-Perm (length m.tensors) perm
          (positions-All (λ i. i < length m.tensors) 0 m.tensors (λ j lo hi. omega arith)))
        (Distinct-Perm perm (positions-Distinct 0 m.tensors))
        (omega (arith, length-Perm perm, length-positions 0 m.tensors, is.tensors)) (omega arith) in
    (ends, (lists, perm, all))

-- Let `main` have read a model with a layer at least and fewer than 2 ^ 31, whose version and counts fit in
-- their fields, and whose well-formed tensors begin in a file below 2 ^ 63 bytes, at multiples of 32 and
-- no two at the same offset. Let it have prepared its job, with `--split` and without `--list-tensors`,
-- with fewer than 2 ^ 32 layers a shard; let no shard file stand in the way, or `--force` be given, and no
-- shard reach 2 ^ 63 bytes. Then `main` writes all shards, and the shards share out the tensors, each
-- tensor in exactly one: each file reads back as a GGUF file with the version, the number of entries and
-- the metadata bytes of the model, its tensors unchanged but for their offsets, and the bytes of each
-- tensor at its new offset.
pub main_restores :
    (args : Args) (bytes : List ℕ) (config : Outcome (Option ℕ)) (exists : ℕ → Bool) (m : Model)
    (job : Job)
    → read_model bytes ≡ ok m
    → prepare args config bytes m ≡ ok job
    → args.list_tensors ≡ false
    → args.split ≡ true
    → IsSplittable m bytes
    → job.layers_per_shard < 2 ^ 32
    → ((n : ℕ) → (exists n && not args.force) ≡ false)
    → ((i : ℕ) (out : List ℕ) → i < job.num_shards → shard_bytes job bytes i ≡ ok out → Fits out)
    → (w : Written) × (main args (some bytes) config exists ≡ ok (shards w))
      × IsRestored job bytes w
unfolding main
main_restores args bytes config exists m job read prepared unlisted split is word free fits =
    let (architecture, lps, raw, pos, made) = prepare-job args config bytes m job prepared in
    let word' : lps < 2 ^ 32 = subst (λ (j : Job). j.layers_per_shard < 2 ^ 32) made word in
    let w = write_shards exists args.force job bytes job.num_shards 0 in
    let fits' =
      subst
        (λ (j : Job).
          (i : ℕ) → i < j.num_shards → (out : List ℕ) → shard_bytes j bytes i ≡ ok out → Fits out)
        made (λ i below out whole. fits i out below whole) in
    (
      w,
      simp (read, unlisted, prepared, split),
      subst
          (λ (j : Job). IsRestored j bytes (write_shards exists args.force j bytes j.num_shards 0))
          (sym made)
          (job_of-IsSplit m bytes is architecture lps raw exists args.force
            (Restores (job_of m bytes architecture lps raw) bytes) pos word' free
            (λ i idxs below found bound distinct few.
              shard_bytes-Restores m bytes is architecture lps raw i idxs found bound distinct few
                (fits' i below))),
    )
