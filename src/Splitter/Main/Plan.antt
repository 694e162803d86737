-- ===== src/Splitter/Main/Plan.antt =====
-- The split plan of `main` of tools/gguf-splitter/src/main.rs, without `--split`.
use mathlib.Core.Path.{subst}
use arcflame.Base.{
  ℕ, zero, suc, ◌+◌, ◌-◌, ◌*◌, ◌^◌, ◌<◌, ◌≤◌, ◌≡◌, ap, sym, refl, Bool, length, true, false,
  if◌then◌else◌, List, [], ◌∷◌, Option, some, arith,
}
use arcflame.Base.Results.{ok}
use arcflame.Splitter.{Outcome}
use arcflame.Splitter.Layers.{Shard, ceil_div}
use arcflame.Splitter.Layers.Plan.{ceil_div_bounds, shard_inner, shard_final}
use arcflame.Splitter.Main.{
  Args, Model, Job, Output, plan, shards, read_model, prepare, plan_from, write_shards, main,
}
use arcflame.Splitter.Main.Restore.{job_of}
use arcflame.Splitter.Main.Split.{prepare-job}

-- The layers from `first` on, cut into rows of `lps`, the last of which may be shorter and takes the
-- tensors that belong to no layer.
pub data Tiles (num_layers lps : ℕ) : ℕ → List Shard → Type 0 where
  final :
      (first : ℕ)
      → first < num_layers
      → num_layers ≤ first + lps
      → Tiles num_layers lps first
          (record { first_layer = first; last_layer = num_layers - 1; has_lm_head = true } ∷ [])
  inner :
      (first : ℕ) {rest : List Shard}
      → first + lps < num_layers
      → Tiles num_layers lps (first + lps) rest
      → Tiles num_layers lps first
          (record { first_layer = first; last_layer = first + lps - 1; has_lm_head = false } ∷ rest)

module _ (job : Job) (small : job.model.num_layers < 2 ^ 31) (pos : 0 < job.layers_per_shard)
    (word : job.layers_per_shard < 2 ^ 32)
    (enough : job.model.num_layers ≤ job.num_shards * job.layers_per_shard)
    (tight : job.num_shards * job.layers_per_shard
      < job.model.num_layers + job.layers_per_shard) where
  plan_from-Tiles :
      (rounds i : ℕ)
      → i + suc rounds ≡ job.num_shards
      → Tiles job.model.num_layers job.layers_per_shard
          (i * job.layers_per_shard)
          (plan_from job (suc rounds) i)
  plan_from-Tiles zero i h =
      let lps = job.layers_per_shard in
      let (below, e) =
        shard_final job.model.num_layers lps job.num_shards small pos word enough tight i
          (omega arith) in
      let all : job.model.num_layers ≤ i * lps + lps = omega (arith, ap (λ (n : ℕ). n * lps) h) in
      rw e (final (i * lps) below all)
  plan_from-Tiles (suc rounds) i h =
      let lps = job.layers_per_shard in
      let (below, e) =
        shard_inner job.model.num_layers lps job.num_shards small pos word enough tight i
          (omega arith) in
      let next : suc i * lps ≡ i * lps + lps = omega arith in
      rw e (
        inner (i * lps) below (
          subst (λ first. Tiles job.model.num_layers lps first (plan_from job (suc rounds) (suc i)))
            next (plan_from-Tiles rounds (suc i) (omega arith))))

  -- The whole plan, for a model with a layer.
  plan-Tiles :
      (num : ℕ)
      → num ≡ job.num_shards
      → 0 < job.model.num_layers
      → Tiles job.model.num_layers job.layers_per_shard 0 (plan_from job job.num_shards 0)
  plan-Tiles zero e some_layer = absurd (omega (arith, ap (λ (n : ℕ). n * job.layers_per_shard) e))
  plan-Tiles (suc n) e some_layer =
      let start : 0 * job.layers_per_shard ≡ 0 = omega arith in
      subst
        (λ first.
          Tiles job.model.num_layers job.layers_per_shard first (plan_from job job.num_shards 0))
        start
        (subst
          (λ num.
            Tiles job.model.num_layers job.layers_per_shard (0 * job.layers_per_shard)
              (plan_from job num 0))
          e (plan_from-Tiles n 0 (omega arith)))

length-plan_from : (job : Job) (rounds i : ℕ) → length (plan_from job rounds i) ≡ rounds
length-plan_from job zero i = refl
length-plan_from job (suc rounds) i = ap suc (length-plan_from job rounds (suc i))

if-ok :
    (b : Bool) (x y : Output)
    → ◌≡◌ {A = Outcome Output} (if b then ok x else ok y) (ok (if b then x else y))
if-ok true x y = refl
if-ok false x y = refl

product_zero : (n b : ℕ) → n * b < b → n ≡ 0
product_zero zero b h = refl
product_zero (suc n) b h = absurd (omega arith)

module _ (args : Args) (bytes : List ℕ) (config : Outcome (Option ℕ)) (exists : ℕ → Bool)
    (m : Model) (job : Job) (read : read_model bytes ≡ ok m)
    (prepared : prepare args config bytes m ≡ ok job) (unlisted : args.list_tensors ≡ false) where
  -- Let `main` have read a model with a layer at least and fewer than 2 ^ 31 and prepared its job, without
  -- `--list-tensors` and without `--split`, with fewer than 2 ^ 32 layers a shard. Then it writes a plan
  -- of as many shards as the job has, that cuts the layers from 0 on into rows: each shard but the last
  -- has `layers_per_shard` layers and no LM head, the last has what is left, one layer at least,
  -- and the LM head.
  pub main_plans :
      args.split ≡ false
      → 0 < m.num_layers
      → m.num_layers < 2 ^ 31
      → job.layers_per_shard < 2 ^ 32
      → (ss : List Shard) × (main args (some bytes) config exists ≡ ok (plan ss))
        × (length ss ≡ job.num_shards)
        × Tiles m.num_layers job.layers_per_shard 0 ss
  unfolding main
  main_plans unsplit some_layer few word =
      let (architecture, lps, raw, pos, made) = prepare-job args config bytes m job prepared in
      let word' : lps < 2 ^ 32 = subst (λ (j : Job). j.layers_per_shard < 2 ^ 32) made word in
      let (enough, tight) = ceil_div_bounds m.num_layers lps pos in
      (
        plan_from job job.num_shards 0,
        simp (read, unlisted, prepared, unsplit),
        length-plan_from job job.num_shards 0,
        subst (λ (j : Job). Tiles m.num_layers j.layers_per_shard 0 (plan_from j j.num_shards 0))
            (sym made)
            (plan-Tiles (job_of m bytes architecture lps raw) few pos word' enough tight
              (ceil_div m.num_layers lps) refl some_layer),
      )

  -- Let `main` have read a model without a layer and prepared its job, without `--list-tensors`. Then it
  -- succeeds and leaves out every tensor: with `--split` no file is written, and without it the plan
  -- has no shard.
  pub main_without_layers :
      m.num_layers ≡ 0
      → main args (some bytes) config exists
        ≡ ok (if args.split then shards (record { files = []; result = ok tt }) else plan [])
  unfolding main write_shards
  main_without_layers none_left =
      let (architecture, lps, raw, pos, made) = prepare-job args config bytes m job prepared in
      let (enough, tight) = ceil_div_bounds m.num_layers lps pos in
      let empty : job.num_shards ≡ 0 =
        subst (λ (j : Job). j.num_shards ≡ 0) (sym made)
          (product_zero (ceil_div m.num_layers lps) lps (omega arith)) in
      rw (read, unlisted, prepared, empty) (if-ok args.split _ _)
