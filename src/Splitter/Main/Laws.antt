-- ===== src/Splitter/Main/Laws.antt =====
-- What `main` writes with `--split`, and what it never overwrites.
use arcflame.Base.{
  ℕ, zero, suc, ◌≤◌, ◌≡◌, ◌≢◌, ◌↔◌, refl, ap, Bool, true, false, not, ◌&&◌, List, [], ◌∷◌, All,
  length, arith,
}
use arcflame.Base.Results.{ok, err, panic, stuck}
use arcflame.Splitter.{Outcome}
use arcflame.Splitter.Main.{Job, ShardFile, Written, shard_bytes, write_shards}

module _ (exists : ℕ → Bool) (force : Bool) (job : Job) (bytes : List ℕ) where
  -- A file that may be created: it is new, or `--force` was given.
  abbrev pub MayWrite : ShardFile → Type 0
  MayWrite f = (exists f.0 && not force) ≡ false

  -- The files carry consecutive numbers from `i + 1` on, and each holds its shard's bytes.
  abbrev pub Consecutive : ℕ → List ShardFile → Type 0
  Consecutive i [] = Unit {0}
  Consecutive i (f ∷ fs) =
      (f.0 ≡ suc i) × (shard_bytes job bytes i ≡ ok f.1) × Consecutive (suc i) fs

  -- What holds of the files and the result of `rounds` rounds from `i` on.
  abbrev pub Complete : ℕ → ℕ → Written → Type 0
  Complete rounds i w =
      All MayWrite w.files
      × Consecutive i w.files
      × (length w.files ≤ rounds)
      × ((w.result ≡ ok tt) ↔ (length w.files ≡ rounds))

  Complete-stop :
      (rounds i : ℕ) (r : Outcome (Unit {0}))
      → r ≢ ok tt
      → Complete (suc rounds) i (record { files = []; result = r })
  Complete-stop rounds i r bad =
      (tt, tt, omega arith, ((λ e. absurd (bad e)), (λ e. absurd (omega arith))))

  Complete-write :
      (rounds i : ℕ) (out : List ℕ) (w : Written)
      → (exists (suc i) && not force) ≡ false
      → shard_bytes job bytes i ≡ ok out
      → Complete rounds (suc i) w
      → Complete (suc rounds) i (record { files = (suc i, out) ∷ w.files; result = w.result })
  Complete-write rounds i out w free run c = (
    (free, c.0),
    (refl, run, c.1),
    omega arith,
    ((λ e. ap suc (c.3.0 e)), (λ e. c.3.1 (omega arith))),
  )

  -- Whatever the outcome, each file that the loop wrote was new or `--force` was given; the files
  -- are the shards `i + 1`, `i + 2`, … with their bytes, none left out; and the loop ends well
  -- exactly when it wrote one for every round.
  pub write_shards-Complete :
      (rounds i : ℕ) → Complete rounds i (write_shards exists force job bytes rounds i)
  unfolding write_shards
  write_shards-Complete zero i = (tt, tt, omega arith, ((λ e. refl), (λ e. refl)))
  write_shards-Complete (suc rounds) i =
      by_case (exists (suc i) && not force) (shard_bytes job bytes i) refl refl
        (write_shards-Complete rounds (suc i))
    where
      by_case :
          (b : Bool) (r : Outcome (List ℕ))
          → (exists (suc i) && not force) ≡ b
          → shard_bytes job bytes i ≡ r
          → Complete rounds (suc i) (write_shards exists force job bytes rounds (suc i))
          → Complete (suc rounds) i (write_shards exists force job bytes (suc rounds) i)
      by_case true r eb er ih = rw (eb, write_shards) (Complete-stop rounds i _ (λ e. cc))
      by_case false (ok out) eb er ih =
          rw (eb, er, write_shards) (Complete-write rounds i out _ eb er ih)
      by_case false (err e) eb er ih =
          rw (eb, er, write_shards) (Complete-stop rounds i _ (λ p. cc))
      by_case false panic eb er ih = rw (eb, er, write_shards) (Complete-stop rounds i _ (λ p. cc))
      by_case false stuck eb er ih = rw (eb, er, write_shards) (Complete-stop rounds i _ (λ p. cc))
