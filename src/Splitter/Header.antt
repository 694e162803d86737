-- ===== src/Splitter/Header.antt =====
-- How `main` of tools/gguf-splitter/src/main.rs reads a file: header, metadata, tensor infos.
pub mod Metadata
pub mod Lookup
pub mod Start
use arcflame.Base.{
  ℕ, zero, suc, ◌+◌, ◌-◌, ◌/◌, Bool, true, false, ◌&&◌, ◌||◌, List, [], ◌∷◌, length, ltb, leb, ◌==◌,
  if◌then◌else◌,
}
use arcflame.Base.Results.{ok, err, ◌>>=◌}
use arcflame.Base.Text.{codes, contains, is_utf8}
use arcflame.Splitter.{Outcome, add_u64, too_small, bad_magic, name_overflow, invalid_utf8}
use arcflame.Splitter.Bytes.{from_le_bytes, slice}
use arcflame.Splitter.Reader.{read_u32, read_u64, repeat, skip}

pub record TensorInfo : Type 0 where
  pub name : List ℕ
  pub n_dims : ℕ
  pub dims : List ℕ
  pub ggml_type : ℕ
  pub offset : ℕ

pub record Header : Type 0 where
  pub version : ℕ
  pub tensor_count : ℕ
  pub metadata_kv_count : ℕ

-- `0x46554747`, the bytes "GGUF"
abbrev pub magic_number : ℕ
magic_number = 0x46554747

unfoldable pub read_header : List ℕ → Outcome Header
read_header bytes = if ltb (length bytes) 24 then err too_small else (do
  magic ← slice bytes 0 4
  if from_le_bytes magic == magic_number
      then (do
        version ← slice bytes 4 8
        tensor_count ← slice bytes 8 16
        kv_count ← slice bytes 16 24
        ok (record {
          version = from_le_bytes version;
          tensor_count = from_le_bytes tensor_count;
          metadata_kv_count = from_le_bytes kv_count;
        }))
      else err (bad_magic (from_le_bytes magic)))

-- One round of the loop over the metadata: key, type, value.
unfoldable pub skip_entry : List ℕ → ℕ → Outcome ℕ
skip_entry bytes metadata_end = do
  (key_len, o) ← read_u64 bytes metadata_end
  (value_type, o') ← read_u32 bytes (add_u64 o key_len)
  skip bytes o' value_type

unfoldable pub skip_metadata : List ℕ → ℕ → Outcome ℕ
skip_metadata bytes metadata_kv_count = repeat metadata_kv_count (skip_entry bytes) 24

-- What the search for the first tensor info takes for a tensor's name.
unfoldable pub looks_like_name : List ℕ → Bool
looks_like_name nm =
    contains (codes ".") nm
    || contains (codes "weight") nm
    || contains (codes "bias") nm
    || contains (codes "norm") nm
    || contains (codes "embd") nm
    || contains (codes "rope") nm
    || contains (codes "freq") nm
    || contains (codes "tok_embd") nm

unfoldable pub is_tensor_info_at : List ℕ → ℕ → Outcome Bool
is_tensor_info_at bytes candidate =
    if ltb (length bytes) (add_u64 candidate 8) then ok false else (do
      len ← slice bytes candidate (add_u64 candidate 8)
      let nl = from_le_bytes len
      let name_end = add_u64 (add_u64 candidate 8) nl
      if ltb 0 nl && ltb nl 256 && leb name_end (length bytes)
          then (do nm ← slice bytes (add_u64 candidate 8) name_end; ok (looks_like_name nm))
          else ok false)

-- The candidates are four bytes apart; `best` stays if none fits.
unfoldable pub search_start : List ℕ → ℕ → ℕ → ℕ → Outcome ℕ
search_start bytes best zero candidate = ok best
search_start bytes best (suc rounds) candidate = is_tensor_info_at bytes candidate >>= λ found.
    elim found [ true ↦ ok candidate | false ↦ search_start bytes best rounds (candidate + 4) ]

-- `(best.saturating_sub(32)..best + 32).step_by(4)`
unfoldable pub tensor_info_start : List ℕ → ℕ → Outcome ℕ
tensor_info_start bytes metadata_end =
    let first = metadata_end - 32 in
    search_start bytes metadata_end ((add_u64 metadata_end 32 - first + 3) / 4) first

-- `for _ in 0..n { out.push(item(&mut offset)?); }`
unfoldable pub read_many {ℓ} : {A : Type ℓ} → ℕ → (ℕ → Outcome (A × ℕ)) → ℕ → Outcome (List A × ℕ)
read_many zero item offset = ok ([], offset)
read_many (suc n) item offset = do
  (x, o) ← item offset
  (xs, o') ← read_many n item o
  ok (x ∷ xs, o')

unfoldable pub read_tensor : List ℕ → ℕ → Outcome (TensorInfo × ℕ)
read_tensor bytes offset = do
  (name_len, o) ← read_u64 bytes offset
  if ltb (length bytes) (add_u64 o name_len) then err (name_overflow o) else (do
    name ← slice bytes o (add_u64 o name_len)
    if is_utf8 name
        then (do
          (n_dims, o₁) ← read_u32 bytes (add_u64 o name_len)
          (dims, o₂) ← read_many n_dims (read_u64 bytes) o₁
          (ggml_type, o₃) ← read_u32 bytes o₂
          (tensor_offset, o₄) ← read_u64 bytes o₃
          ok (
            record {
              name = name;
              n_dims = n_dims;
              dims = dims;
              ggml_type = ggml_type;
              offset = tensor_offset;
            },
            o₄,
          ))
        else err invalid_utf8)

-- `Vec::with_capacity` has no counterpart here: for a count that is too large for the memory it panics or
-- aborts where this reads on to the end of the file, and errs.
unfoldable pub read_tensors : List ℕ → ℕ → ℕ → Outcome (List TensorInfo × ℕ)
read_tensors bytes tensor_count = read_many tensor_count (read_tensor bytes)
