-- ===== src/Splitter/Writer/Infos.antt =====
-- Tensor infos written by `write_shard` are read back by the loop of `main`.
use mathlib.Core.Path.{subst}
use arcflame.Base.{
  append_assoc, sym, get_elem?, All-get_elem?, Option-cases, inl, inr, ℕ, zero, suc, ◌+◌, ◌*◌, ◌^◌,
  ◌<◌, ◌≤◌, ◌≡◌, refl, ap, ◌∙◌, true, List, [], ◌∷◌, ◌++◌, none, some, length, All, length-append,
  le→ltb, arith,
}
use arcflame.Base.Results.{ok, panic, ◌>>=◌, >>=-eq-ok}
use arcflame.Base.Text.{is_utf8}
use arcflame.Splitter.{Outcome}
use arcflame.Splitter.Bytes.{
  to_le_bytes, length-to_le_bytes, At, At-le, At-left, At-right, At-bound, slice-At,
}
use arcflame.Splitter.Reader.{read_u64}
use arcflame.Splitter.Reader.Values.{Fits, add_u64_fits, read_u32-At, read_u64-At}
use arcflame.Splitter.Header.{TensorInfo, read_many, read_tensor, read_tensors}
use arcflame.Splitter.Writer.{write_dims, write_info, write_infos, Offsets, lookup, at_index}

-- A tensor info that the fields of the format can hold.
pub record IsTensor (t : TensorInfo) : Type 0 where
  pub name_length : length t.name < 2 ^ 64
  pub name_utf8 : is_utf8 t.name ≡ true
  pub dims_length : t.n_dims ≡ length t.dims
  pub dims_small : All (λ d. d < 2 ^ 64) t.dims
  pub n_dims_small : t.n_dims < 2 ^ 32
  pub type_small : t.ggml_type < 2 ^ 32

length-write_dims : (ds : List ℕ) → length (write_dims ds) ≡ length ds + length ds * 7
unfolding write_dims
length-write_dims [] = omega arith
length-write_dims (d ∷ ds) = omega (
  arith,
  length-append (to_le_bytes 8 d) (write_dims ds),
  length-to_le_bytes 8 d,
  length-write_dims ds,
)

length-write_info :
    (t : TensorInfo) (new_off : ℕ)
    → length (write_info t new_off) ≡ 8 + length t.name + 4 + length (write_dims t.dims) + 4 + 8
unfolding write_info
length-write_info t new_off = omega (
  arith,
  length-append (to_le_bytes 8 (length t.name)) (
      t.name
      ++ (to_le_bytes 4 t.n_dims
          ++ (write_dims t.dims ++ (to_le_bytes 4 t.ggml_type ++ to_le_bytes 8 new_off)))),
  length-append t.name (
      to_le_bytes 4 t.n_dims
      ++ (write_dims t.dims ++ (to_le_bytes 4 t.ggml_type ++ to_le_bytes 8 new_off))),
  length-append (to_le_bytes 4 t.n_dims)
      (write_dims t.dims ++ (to_le_bytes 4 t.ggml_type ++ to_le_bytes 8 new_off)),
  length-append (write_dims t.dims) (to_le_bytes 4 t.ggml_type ++ to_le_bytes 8 new_off),
  length-append (to_le_bytes 4 t.ggml_type) (to_le_bytes 8 new_off),
  length-to_le_bytes 8 (length t.name),
  length-to_le_bytes 4 t.n_dims,
  length-to_le_bytes 4 t.ggml_type,
  length-to_le_bytes 8 new_off,
)

pub at_index-ok {ℓ} :
    {A : Type ℓ} (xs : List A) (i : ℕ) {x : A} → at_index xs i ≡ ok x → get_elem? xs i ≡ some x
at_index-ok [] i h = cc
at_index-ok (y ∷ xs) zero h = cc
at_index-ok (y ∷ xs) (suc i) h = at_index-ok xs i h

-- What a run of `write_infos` on one more index went through.
pub write_infos_cons :
    (tensors : List TensorInfo) (m : Offsets) (idx : ℕ) (idxs : List ℕ) {infos : List ℕ}
    → write_infos tensors m (idx ∷ idxs) ≡ ok infos
    → (t : TensorInfo) × (v : ℕ) × (more : List ℕ) × (get_elem? tensors idx ≡ some t)
      × (lookup idx m ≡ some v)
      × (write_infos tensors m idxs ≡ ok more)
      × (write_info t v ++ more ≡ infos)
unfolding write_infos
write_infos_cons tensors m idx idxs run =
    let (t, found, run₁) = >>=-eq-ok (at_index tensors idx) _ run in
    elim (Option-cases (lookup idx m)) [
      | inl e ↦ absurd (cc (rw e at run₁))
      | inr (v, e) ↦
          let (more, run₂, same) = >>=-eq-ok (write_infos tensors m idxs) _ (rw e at run₁) in
          (t, v, more, at_index-ok tensors idx found, e, run₂, cc)
    ]

-- The tensors of a shard, at their new offsets.
pub moved : List TensorInfo → Offsets → List ℕ → Outcome (List TensorInfo)
moved tensors m [] = ok []
moved tensors m (idx ∷ rest) = do
  t ← at_index tensors idx
  new_off ← elim (lookup idx m) [ none ↦ panic | some v ↦ ok v ]
  more ← moved tensors m rest
  ok (record t { offset = new_off } ∷ more)

moved_cons :
    (tensors : List TensorInfo) (m : Offsets) (idx v : ℕ) (idxs : List ℕ) {t : TensorInfo}
    {ts : List TensorInfo}
    → get_elem? tensors idx ≡ some t
    → lookup idx m ≡ some v
    → moved tensors m idxs ≡ ok ts
    → moved tensors m (idx ∷ idxs) ≡ ok (record t { offset = v } ∷ ts)
unfolding moved
moved_cons tensors m idx v idxs found known moves = ground arith

pub read_tensors-suc :
    (bytes : List ℕ) (n o : ℕ) {o' o'' : ℕ} {t : TensorInfo} {ts : List TensorInfo}
    → read_tensor bytes o ≡ ok (t, o')
    → read_tensors bytes n o' ≡ ok (ts, o'')
    → read_tensors bytes (suc n) o ≡ ok (t ∷ ts, o'')
unfolding read_tensors read_many
read_tensors-suc bytes n o one rest = rw (one, rest) refl

module _ (bytes : List ℕ) (fits : Fits bytes) where
  read_dims-At :
      (ds : List ℕ) (o : ℕ) (rest : List ℕ)
      → All (λ d. d < 2 ^ 64) ds
      → At bytes o (write_dims ds ++ rest)
      → read_many (length ds) (read_u64 bytes) o ≡ ok (ds, o + length (write_dims ds))
  unfolding read_many write_dims
  read_dims-At [] o rest small at = ap (λ k. ok ([], k)) (omega arith)
  read_dims-At (d ∷ ds) o rest small at =
      let at' : At bytes o (to_le_bytes 8 d ++ (write_dims ds ++ rest)) =
        subst (At bytes o) (append_assoc (to_le_bytes 8 d) (write_dims ds) rest) at in
      rw
        (
          read_u64-At bytes fits o d small.0 (At-left bytes o _ _ at'),
          read_dims-At ds (o + 8) rest small.1 (At-le bytes o 8 d _ at'),
        )
        (ap (λ k. ok (d ∷ ds, k))
          (omega (arith, length-append (to_le_bytes 8 d) (write_dims ds), length-to_le_bytes 8 d)))

  read_dims_of :
      (n o : ℕ) (ds rest : List ℕ)
      → n ≡ length ds
      → All (λ d. d < 2 ^ 64) ds
      → At bytes o (write_dims ds ++ rest)
      → read_many n (read_u64 bytes) o ≡ ok (ds, o + length (write_dims ds))
  read_dims_of n o ds rest e small at = rw e (read_dims-At ds o rest small at)

  -- In a file below 2 ^ 63 bytes, where the info of a well-formed tensor was written with a new
  -- offset below 2 ^ 64, `read_tensor` reads that tensor with that offset, and stops right behind it.
  pub read_tensor-write_info :
      (t : TensorInfo) (new_off o : ℕ)
      → IsTensor t
      → new_off < 2 ^ 64
      → At bytes o (write_info t new_off)
      → read_tensor bytes o ≡ ok (record t { offset = new_off }, o + length (write_info t new_off))
  unfolding read_tensor write_info
  read_tensor-write_info t new_off o w small at =
      let o₁ = o + 8 + length t.name in
      let o₂ = o₁ + 4 + length (write_dims t.dims) in
      let at_name = At-le bytes o 8 (length t.name) _ at in
      let at_count = At-right bytes (o + 8) t.name _ at_name in
      let at_dims = At-le bytes o₁ 4 t.n_dims _ at_count in
      let at_type = At-right bytes (o₁ + 4) (write_dims t.dims) _ at_dims in
      let at_offset = At-le bytes o₂ 4 t.ggml_type _ at_type in
      let bound : o + 8 + length t.name ≤ length bytes =
        At-bound bytes (o + 8) t.name (At-left bytes (o + 8) t.name _ at_name) in
      rw
        (
          read_u64-At bytes fits o (length t.name) w.name_length (At-left bytes o _ _ at),
          add_u64_fits (o + 8) (length t.name) (omega arith),
          le→ltb (length bytes) (o + 8 + length t.name) bound,
          slice-At bytes (o + 8) t.name (At-left bytes (o + 8) t.name _ at_name),
          w.name_utf8,
          read_u32-At bytes fits o₁ t.n_dims w.n_dims_small (At-left bytes o₁ _ _ at_count),
          read_dims_of t.n_dims (o₁ + 4) t.dims _ w.dims_length w.dims_small at_dims,
          read_u32-At bytes fits o₂ t.ggml_type w.type_small (At-left bytes o₂ _ _ at_type),
          read_u64-At bytes fits (o₂ + 4) new_off small at_offset,
        )
        (ap (λ k. ok (record t { offset = new_off }, k))
          (omega (arith, length-write_info t new_off)))

  module _ (tensors : List TensorInfo) (m : Offsets) (well : All IsTensor tensors)
      (small : (k v : ℕ) → lookup k m ≡ some v → v < 2 ^ 64) where
    -- Where the infos of a shard were written, the loop of `main` reads those tensors, each at its
    -- new offset.
    pub read_tensors-write_infos :
        (idxs : List ℕ) (o : ℕ) (infos rest : List ℕ)
        → write_infos tensors m idxs ≡ ok infos
        → At bytes o (infos ++ rest)
        → (ts : List TensorInfo) × (moved tensors m idxs ≡ ok ts)
          × (read_tensors bytes (length idxs) o ≡ ok (ts, o + length infos))
    unfolding write_infos moved read_tensors read_many
    read_tensors-write_infos [] o infos rest run at =
        let e : [] ≡ infos = cc in ([], refl, rw (← e) (ap (λ k. ok ([], k)) (omega arith)))
    read_tensors-write_infos (idx ∷ idxs) o infos rest run at =
        let (t, v, more, found, known, run', same) = write_infos_cons tensors m idx idxs run in
        let at' : At bytes o (write_info t v ++ (more ++ rest)) =
          subst (At bytes o)
            (ap (λ xs. xs ++ rest) (sym same) ∙ append_assoc (write_info t v) more rest) at in
        let (ts, moves, reads) =
          read_tensors-write_infos idxs (o + length (write_info t v)) more rest run'
            (At-right bytes o (write_info t v) (more ++ rest) at') in
        (
          record t { offset = v } ∷ ts,
          moved_cons tensors m idx v idxs found known moves,
          read_tensors-suc bytes (length idxs) o
                (read_tensor-write_info t v o (All-get_elem? IsTensor tensors idx well found)
                  (small idx v known) (At-left bytes o (write_info t v) (more ++ rest) at'))
                reads
              ∙ ap (λ k. ok (record t { offset = v } ∷ ts, k))
                  (omega (arith, ap length same, length-append (write_info t v) more)),
        )
