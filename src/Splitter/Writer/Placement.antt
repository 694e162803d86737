-- ===== src/Splitter/Writer/Placement.antt =====
-- Where `write_shard` puts the data of each tensor, and where the new offsets say that it is.
use mathlib.Core.Path.{subst}
use arcflame.Base.{
  append_assoc, ℕ, zero, suc, ◌+◌, ◌-◌, ◌%◌, ◌^◌, ◌<◌, ◌≡◌, ◌≢◌, refl, sym, ap, ◌∙◌, List, [], ◌∷◌,
  ◌++◌, some, length, get_or, take, drop, All, length-append, length-take, length-drop, lt→ltb, ltb,
  if◌then◌else◌, arith,
}
use arcflame.Base.Results.{ok, >>=-eq-ok, ok-injective}
use arcflame.Splitter.{Outcome, add_u64}
use arcflame.Splitter.Bytes.{At, At-left, At-right, slice, slice-ok}
use arcflame.Splitter.Header.{TensorInfo}
use arcflame.Splitter.Writer.{
  align_up, offset_of, at_index, Offsets, lookup, assign_offsets, write_data,
}
use arcflame.Splitter.Writer.Align.{align_up_32}
use arcflame.Splitter.Writer.Sorting.{Distinct}

-- `at_index` finds what `get_or` returns.
pub at_index-get_or : (xs : List ℕ) (i : ℕ) {x : ℕ} → at_index xs i ≡ ok x → get_or xs i 0 ≡ x
at_index-get_or [] i h = cc
at_index-get_or (y ∷ xs) zero h = cc
at_index-get_or (y ∷ xs) (suc i) h = at_index-get_or xs i h

pub lookup_newest : (i cur : ℕ) (m : Offsets) → lookup i ((i, cur) ∷ m) ≡ some cur
lookup_newest i cur m = ground arith

-- A size that is a multiple of 32 needs no padding.
packed_next :
    (cur size n : ℕ)
    → size ≡ n
    → cur % 32 ≡ 0
    → size % 32 ≡ 0
    → cur + size + 32 < 2 ^ 64
    → align_up (add_u64 cur n) 32 ≡ cur + size
packed_next cur size n same aligned packed small =
    let e : add_u64 cur n ≡ cur + size = omega arith in
    rw e (align_up_32 (cur + size) small ∙ omega arith)

module _ (data_sizes : List ℕ) where
  abbrev pub size_of : ℕ → ℕ
  size_of i = get_or data_sizes i 0

  abbrev pub total : List ℕ → ℕ
  total [] = 0
  total (i ∷ is) = size_of i + total is

  -- All sizes but the last are multiples of 32.
  abbrev pub Packed : List ℕ → Type 0
  Packed [] = Unit {0}
  Packed (i ∷ []) = Unit {0}
  Packed (i ∷ j ∷ rest) = (size_of i % 32 ≡ 0) × Packed (j ∷ rest)

  -- `new_offsets` puts the tensors one behind the other, from `cur` on.
  abbrev pub Placed : Offsets → ℕ → List ℕ → Type 0
  Placed m cur [] = Unit {0}
  Placed m cur (i ∷ rest) = (lookup i m ≡ some cur) × Placed m (cur + size_of i) rest

  pub assign_frame :
      (i : ℕ) (s : List ℕ) (cur : ℕ) (m : Offsets) {m' : Offsets}
      → All (λ j. j ≢ i) s
      → assign_offsets data_sizes s cur m ≡ ok m'
      → lookup i m' ≡ lookup i m
  unfolding assign_offsets
  assign_frame i [] cur m absent run = cc
  assign_frame i (j ∷ s) cur m absent run =
      let (n, found, run') = >>=-eq-ok (at_index data_sizes j) _ run in
      assign_frame i s _ _ absent.1 run' ∙ ground (arith, absent.0)

  pub assign_offsets-Placed :
      (s : List ℕ) (cur : ℕ) (m : Offsets) {m' : Offsets}
      → Distinct s
      → Packed s
      → cur % 32 ≡ 0
      → cur + total s + 32 < 2 ^ 64
      → assign_offsets data_sizes s cur m ≡ ok m'
      → Placed m' cur s
  unfolding assign_offsets
  assign_offsets-Placed [] cur m distinct packed aligned small run = tt
  assign_offsets-Placed (i ∷ []) cur m distinct packed aligned small run =
      let (n, found, run') = >>=-eq-ok (at_index data_sizes i) _ run in
      (
        assign_frame i [] (align_up (add_u64 cur n) 32) ((i, cur) ∷ m) tt run'
            ∙ lookup_newest i cur m,
        tt,
      )
  assign_offsets-Placed (i ∷ j ∷ s) cur m {m'} distinct packed aligned small run =
      let (n, found, run') = >>=-eq-ok (at_index data_sizes i) _ run in
      let next : align_up (add_u64 cur n) 32 ≡ cur + size_of i =
        packed_next cur (size_of i) n (at_index-get_or data_sizes i found) aligned packed.0
          (omega arith) in
      (
        assign_frame i (j ∷ s) _ _ distinct.0 run' ∙ lookup_newest i cur m,
        subst (λ c. Placed m' c (j ∷ s)) next
            (assign_offsets-Placed (j ∷ s) (align_up (add_u64 cur n) 32) ((i, cur) ∷ m) distinct.1
              packed.1 (rw next (omega arith)) (rw next (omega arith)) run'),
      )

-- The copy of one tensor, where its start does not wrap.
abbrev pub copy_chunk : List ℕ → ℕ → ℕ → Outcome (List ℕ)
copy_chunk mmap start n = if ltb 0 n then slice mmap start (add_u64 start n) else ok []

copy_chunk_lem :
    (mmap : List ℕ) (start n : ℕ) {chunk : List ℕ}
    → start + n < 2 ^ 64
    → copy_chunk mmap start n ≡ ok chunk
    → (chunk ≡ take n (drop start mmap)) × (length (take n (drop start mmap)) ≡ n)
copy_chunk_lem mmap start zero small copy = (cc, refl)
copy_chunk_lem mmap start (suc n) {chunk} small copy =
    let e : add_u64 start (suc n) ≡ start + suc n = omega arith in
    let e' : start + suc n - start ≡ suc n = omega arith in
    let run : slice mmap start (start + suc n) ≡ ok chunk =
      rw (lt→ltb 0 (suc n) (omega arith), e) at copy in
    let (eq, lo, hi) = slice-ok mmap start (start + suc n) run in
    (rw e' at eq, omega (arith, length-take (suc n) (drop start mmap), length-drop start mmap))

pub offset_of-at_index :
    (tensors : List TensorInfo) (i : ℕ) {t : TensorInfo}
    → at_index tensors i ≡ ok t
    → offset_of tensors i ≡ t.offset
offset_of-at_index [] i h = cc
offset_of-at_index (y ∷ ts) zero h = ap (λ (r : TensorInfo). r.offset) (ok-injective h)
offset_of-at_index (y ∷ ts) (suc i) h = offset_of-at_index ts i h

-- The region of a tensor ends where no sum wraps.
abbrev pub InFile : List TensorInfo → List ℕ → ℕ → ℕ → Type 0
InFile tensors data_sizes data_start i =
    data_start + offset_of tensors i + size_of data_sizes i < 2 ^ 64

module _ (tensors : List TensorInfo) (data_sizes mmap : List ℕ) (data_start : ℕ) where
  -- The bytes of a tensor in the file that is split.
  abbrev pub original : ℕ → List ℕ
  original i = take (size_of data_sizes i) (drop (data_start + offset_of tensors i) mmap)

  -- The tensors of `s`, one behind the other, from `pos` on.
  abbrev pub Copied : List ℕ → ℕ → List ℕ → Type 0
  Copied whole pos [] = Unit {0}
  Copied whole pos (i ∷ rest) =
      At whole pos (original i)
      × (length (original i) ≡ size_of data_sizes i)
      × Copied whole (pos + size_of data_sizes i) rest

  chunk_original :
      (i : ℕ) (t : TensorInfo) (n : ℕ) (chunk : List ℕ)
      → InFile tensors data_sizes data_start i
      → offset_of tensors i ≡ t.offset
      → size_of data_sizes i ≡ n
      → copy_chunk mmap (add_u64 data_start t.offset) n ≡ ok chunk
      → (chunk ≡ original i) × (length (original i) ≡ size_of data_sizes i)
  chunk_original i t n chunk inside off size copy =
      let start : add_u64 data_start t.offset ≡ data_start + offset_of tensors i = omega arith in
      rw size
        (copy_chunk_lem mmap (data_start + offset_of tensors i) n (omega arith) (rw start at copy))

  write_data_cons :
      (i : ℕ) (s : List ℕ) {body : List ℕ}
      → InFile tensors data_sizes data_start i
      → write_data tensors data_sizes mmap data_start (i ∷ s) ≡ ok body
      → (more : List ℕ) × (write_data tensors data_sizes mmap data_start s ≡ ok more)
        × (original i ++ more ≡ body)
        × (length (original i) ≡ size_of data_sizes i)
  unfolding write_data
  write_data_cons i s inside run =
      let (t, found_t, run₁) = >>=-eq-ok (at_index tensors i) _ run in
      let (n, found_n, run₂) = >>=-eq-ok (at_index data_sizes i) _ run₁ in
      let (chunk, copy, run₃) =
        >>=-eq-ok (copy_chunk mmap (add_u64 data_start t.offset) n) _ run₂ in
      let (more, run₄, same) = >>=-eq-ok (write_data tensors data_sizes mmap data_start s) _ run₃ in
      let (eq, len) =
        chunk_original i t n chunk inside (offset_of-at_index tensors i found_t)
          (at_index-get_or data_sizes i found_n) copy in
      (more, run₄, rw (← eq) (ok-injective same), len)

  pub write_data-Copied :
      (s : List ℕ) (whole rest : List ℕ) (pos : ℕ) {body : List ℕ}
      → All (InFile tensors data_sizes data_start) s
      → write_data tensors data_sizes mmap data_start s ≡ ok body
      → At whole pos (body ++ rest)
      → Copied whole pos s
  write_data-Copied [] whole rest pos inside run at = tt
  write_data-Copied (i ∷ s) whole rest pos inside run at =
      let (more, run', same, len) = write_data_cons i s inside.0 run in
      let at' : At whole pos (original i ++ (more ++ rest)) =
        subst (At whole pos)
          (ap (λ xs. xs ++ rest) (sym same) ∙ append_assoc (original i) more rest) at in
      (
        At-left whole pos (original i) (more ++ rest) at',
        len,
        write_data-Copied s whole rest (pos + size_of data_sizes i) inside.1 run'
            (rw len at (At-right whole pos (original i) (more ++ rest) at')),
      )

  -- At its new offset, counted from `base`, stand the bytes that the tensor had in the source file.
  abbrev pub Restored : Offsets → List ℕ → ℕ → ℕ → Type 0
  Restored m whole base i =
      (v : ℕ) × (lookup i m ≡ some v)
      × At whole (base + v) (original i)
      × (length (original i) ≡ size_of data_sizes i)

  pub All-Restored :
      (s : List ℕ) (m : Offsets) (whole : List ℕ) (base cur : ℕ)
      → Placed data_sizes m cur s
      → Copied whole (base + cur) s
      → All (Restored m whole base) s
  All-Restored [] m whole base cur placed copied = tt
  All-Restored (i ∷ s) m whole base cur placed copied = (
    (cur, placed.0, copied.0, copied.1),
    All-Restored s m whole base (cur + size_of data_sizes i) placed.1
        (subst (λ p. Copied whole p s) (omega arith) copied.2),
  )

  -- As many bytes are written as the sizes say.
  pub length-write_data :
      (s : List ℕ) {body : List ℕ}
      → All (InFile tensors data_sizes data_start) s
      → write_data tensors data_sizes mmap data_start s ≡ ok body
      → length body ≡ total data_sizes s
  length-write_data [] inside run = unfold write_data in ap length (sym (ok-injective run))
  length-write_data (i ∷ s) inside run =
      let (more, run', same, len) = write_data_cons i s inside.0 run in
      omega
        (arith, ap length same, length-append (original i) more, length-write_data s inside.1 run')
