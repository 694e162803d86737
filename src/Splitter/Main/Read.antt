-- ===== src/Splitter/Main/Read.antt =====
-- The reading part of `main` of tools/gguf-splitter/src/main.rs on a file that the format allows.
use mathlib.Core.Path.{subst}
use arcflame.Base.{
  ℕ, ◌+◌, ◌-◌, ◌*◌, ◌^◌, ◌<◌, ◌≤◌, ◌≡◌, refl, ap, ◌∙◌, sym, true, false, List, [], ◌∷◌, ◌++◌, All,
  length, length-append, append_assoc, append-nil, arith,
}
use arcflame.Base.Results.{ok}
use arcflame.Splitter.Bytes.{At, At-left, At-right, to_le_bytes}
use arcflame.Splitter.Reader.Values.{Fits}
use arcflame.Splitter.Header.{
  TensorInfo, Header, read_header, is_tensor_info_at, looks_like_name, read_tensors, read_many,
}
use arcflame.Splitter.Header.Metadata.{Entry, IsEntry, encode_entries, skip_metadata_entries}
use arcflame.Splitter.Header.Start.{tensor_info_start_finds}
use arcflame.Splitter.Layers.{count_layers}
use arcflame.Splitter.Writer.{align_up, write_info}
use arcflame.Splitter.Writer.Infos.{IsTensor, read_tensor-write_info, read_tensors-suc}
use arcflame.Splitter.Writer.Head.{head_bytes, read_header-At}
use arcflame.Splitter.Main.{Model, read_model}

abbrev pub encode_infos : List TensorInfo → List ℕ
encode_infos [] = []
encode_infos (t ∷ ts) = write_info t t.offset ++ encode_infos ts

-- A file: the header, the metadata, the infos, and what is behind them.
abbrev pub encode_model : ℕ → List Entry → List TensorInfo → List ℕ → List ℕ
encode_model version kvs tensors body =
    head_bytes version (length tensors) (length kvs)
      (encode_entries kvs ++ (encode_infos tensors ++ body))

-- A tensor info that is written as it is.
abbrev pub IsInfo : TensorInfo → Type 0
IsInfo t = IsTensor t × (t.offset < 2 ^ 64)

read_tensors-encode_infos :
    (bytes : List ℕ)
    → Fits bytes
    → (ts : List TensorInfo) (o : ℕ) → All IsInfo ts
    → At bytes o (encode_infos ts)
    → read_tensors bytes (length ts) o ≡ ok (ts, o + length (encode_infos ts))
unfolding read_tensors read_many
read_tensors-encode_infos bytes fits [] o all at = ap (λ k. ok ([], k)) (omega arith)
read_tensors-encode_infos bytes fits (t ∷ ts) o all at =
    read_tensors-suc bytes (length ts) o
      (read_tensor-write_info bytes fits t t.offset o all.0.0 all.0.1
        (At-left bytes o (write_info t t.offset) (encode_infos ts) at))
      (read_tensors-encode_infos bytes fits ts (o + length (write_info t t.offset)) all.1
        (At-right bytes o (write_info t t.offset) (encode_infos ts) at))
    ∙ ap (λ k. ok (t ∷ ts, k))
        (omega (arith, length-append (write_info t t.offset) (encode_infos ts)))

pub name-At :
    (bytes : List ℕ) (o : ℕ) (t : TensorInfo) (offset : ℕ) (rest : List ℕ)
    → At bytes o (write_info t offset ++ rest)
    → At bytes o (to_le_bytes 8 (length t.name) ++ t.name)
unfolding write_info
name-At bytes o t offset rest at = At-left bytes o (to_le_bytes 8 (length t.name) ++ t.name) _ (
    subst (At bytes o) (sym (append_assoc (to_le_bytes 8 (length t.name)) t.name _))
      (At-left bytes o (write_info t offset) rest at))

-- Where entries and tensor infos stand behind a header, the search for the infos finds them.
pub read_model-At :
    (bytes : List ℕ) (h : Header) (kvs : List Entry) (name : List ℕ) (ts : List TensorInfo)
    (pos : ℕ)
    → let metadata_end = 24 + length (encode_entries kvs) in
      Fits bytes
      → read_header bytes ≡ ok h
      → h.metadata_kv_count ≡ length kvs
      → All IsEntry kvs
      → At bytes 24 (encode_entries kvs)
      → 0 < length name
      → length name < 256
      → looks_like_name name ≡ true
      → 32 ≤ metadata_end
      → ((k : ℕ) → k < 8 → is_tensor_info_at bytes (metadata_end - 32 + 4 * k) ≡ ok false)
      → At bytes metadata_end (to_le_bytes 8 (length name) ++ name)
      → read_tensors bytes h.tensor_count metadata_end ≡ ok (ts, pos)
      → read_model bytes
        ≡ ok (record {
          header = h;
          tensors = ts;
          info_start = metadata_end;
          data_start = align_up pos 32;
          num_layers = count_layers ts;
        })
unfolding read_model
read_model-At bytes h kvs name ts pos fits header count entries at some_name short looks room before
      at_name reads =
    rw
      (
        header,
        count,
        skip_metadata_entries bytes fits kvs entries at,
        tensor_info_start_finds bytes fits (24 + length (encode_entries kvs)) name room before
            some_name short looks at_name,
        reads,
      )
      refl

-- What `main` knows of an encoded file.
abbrev pub model_of : ℕ → List Entry → List TensorInfo → Model
model_of version kvs tensors =
    let info_start = 24 + length (encode_entries kvs) in
    record {
      header = record {
        version = version;
        tensor_count = length tensors;
        metadata_kv_count = length kvs;
      };
      tensors = tensors;
      info_start = info_start;
      data_start = align_up (info_start + length (encode_infos tensors)) 32;
      num_layers = count_layers tensors;
    }

-- `main` reads back the model that is encoded in a file below 2 ^ 63 bytes: the version and the counts
-- fit in their fields, the metadata are any entries that the format allows, of eight bytes at least, and
-- the tensor infos are well formed, at least one. The first has a short name that looks like a tensor's,
-- and nothing in the 32 bytes before the infos, at steps of four, looks like one.
pub read_model-encode_model :
    (version : ℕ) (kvs : List Entry) (t : TensorInfo) (ts : List TensorInfo) (body : List ℕ)
    → let bytes = encode_model version kvs (t ∷ ts) body in
      let metadata_end = 24 + length (encode_entries kvs) in
      Fits bytes
      → version < 2 ^ 32
      → length (t ∷ ts) < 2 ^ 64
      → length kvs < 2 ^ 64
      → All IsEntry kvs
      → All IsInfo (t ∷ ts)
      → 0 < length t.name
      → length t.name < 256
      → looks_like_name t.name ≡ true
      → 32 ≤ metadata_end
      → ((k : ℕ) → k < 8 → is_tensor_info_at bytes (metadata_end - 32 + 4 * k) ≡ ok false)
      → read_model bytes ≡ ok (model_of version kvs (t ∷ ts))
read_model-encode_model version kvs t ts body fits hv ht hk entries infos some_name short looks room
      before =
    let bytes = encode_model version kvs (t ∷ ts) body in
    let metadata = encode_entries kvs in
    let (bound, at, header) =
      read_header-At bytes version (length (t ∷ ts)) (length kvs)
        (metadata ++ (encode_infos (t ∷ ts) ++ body)) hv ht hk
        ([], sym (append-nil _), omega arith) in
    let at_infos : At bytes (24 + length metadata) (encode_infos (t ∷ ts)) =
      At-left bytes (24 + length metadata) (encode_infos (t ∷ ts)) body
        (At-right bytes 24 metadata (encode_infos (t ∷ ts) ++ body) at) in
    read_model-At bytes
      (record { version = version; tensor_count = length (t ∷ ts); metadata_kv_count = length kvs })
      kvs t.name (t ∷ ts) (24 + length metadata + length (encode_infos (t ∷ ts))) fits header refl
      entries (At-left bytes 24 metadata (encode_infos (t ∷ ts) ++ body) at) some_name short looks
      room before (name-At bytes (24 + length metadata) t t.offset (encode_infos ts) at_infos)
      (read_tensors-encode_infos bytes fits (t ∷ ts) (24 + length metadata) infos at_infos)
