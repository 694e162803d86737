-- ===== src/Splitter/Header/Metadata.antt =====
-- The metadata of tools/gguf-splitter/src/main.rs: the loop of `main` that steps over it.
use arcflame.Base.{
  ℕ, ◌+◌, ◌^◌, ◌<◌, ◌≡◌, ap, ◌∙◌, List, [], ◌∷◌, ◌++◌, All, length, length-append, arith,
}
use arcflame.Base.Results.{ok}
use arcflame.Splitter.{add_u64}
use arcflame.Splitter.Bytes.{to_le_bytes, length-to_le_bytes, At, At-left, At-right, At-bound}
use arcflame.Splitter.Reader.{read_u32, read_u64, repeat, skip}
use arcflame.Splitter.Reader.Values.{
  Fits, add_u64_fits, Value, value_type, encode, IsValue, read_u32-At, read_u64-At,
}
use arcflame.Splitter.Reader.Skip.{skip_encoded}
use arcflame.Splitter.Header.{skip_entry, skip_metadata}

-- A key and its value.
abbrev pub Entry : Type 0
Entry = List ℕ × Value

abbrev pub encode_entry : Entry → List ℕ
encode_entry kv =
    to_le_bytes 8 (length kv.0) ++ (kv.0 ++ (to_le_bytes 4 (value_type kv.1) ++ encode kv.1))

abbrev pub encode_entries : List Entry → List ℕ
encode_entries [] = []
encode_entries (kv ∷ kvs) = encode_entry kv ++ encode_entries kvs

abbrev pub IsEntry : Entry → Type 0
IsEntry kv = (length kv.0 < 2 ^ 64) × (value_type kv.1 < 2 ^ 32) × IsValue kv.1

module _ (bytes : List ℕ) (fits : Fits bytes) where
  -- Where the parts of an entry stand.
  pub At-key :
      (o : ℕ) (kv : Entry)
      → At bytes o (encode_entry kv)
      → At bytes (o + 8) (kv.0 ++ (to_le_bytes 4 (value_type kv.1) ++ encode kv.1))
  At-key o kv at = rw (length-to_le_bytes 8 (length kv.0)) at (
      At-right bytes o (to_le_bytes 8 (length kv.0))
        (kv.0 ++ (to_le_bytes 4 (value_type kv.1) ++ encode kv.1)) at)

  At-type :
      (o : ℕ) (kv : Entry)
      → At bytes o (encode_entry kv)
      → At bytes (o + 8 + length kv.0) (to_le_bytes 4 (value_type kv.1) ++ encode kv.1)
  At-type o kv at = At-right bytes (o + 8) kv.0 _ (At-key o kv at)

  pub At-value :
      (o : ℕ) (kv : Entry)
      → At bytes o (encode_entry kv)
      → At bytes (o + 8 + length kv.0 + 4) (encode kv.1)
  At-value o kv at =
      rw (length-to_le_bytes 4 (value_type kv.1)) at
        (At-right bytes (o + 8 + length kv.0) (to_le_bytes 4 (value_type kv.1)) _ (At-type o kv at))

  pub length-encode_entry :
      (kv : Entry) → length (encode_entry kv) ≡ 8 + length kv.0 + 4 + length (encode kv.1)
  length-encode_entry kv = omega (
    arith,
    length-append (to_le_bytes 8 (length kv.0))
        (kv.0 ++ (to_le_bytes 4 (value_type kv.1) ++ encode kv.1)),
    length-append kv.0 (to_le_bytes 4 (value_type kv.1) ++ encode kv.1),
    length-append (to_le_bytes 4 (value_type kv.1)) (encode kv.1),
    length-to_le_bytes 8 (length kv.0),
    length-to_le_bytes 4 (value_type kv.1),
  )

  pub read_key :
      (o : ℕ) (kv : Entry)
      → IsEntry kv
      → At bytes o (encode_entry kv)
      → read_u64 bytes o ≡ ok (length kv.0, o + 8)
  read_key o kv is_entry at =
      read_u64-At bytes fits o (length kv.0) is_entry.0 (At-left bytes o _ _ at)

  pub key_end :
      (o : ℕ) (kv : Entry)
      → At bytes o (encode_entry kv)
      → add_u64 (o + 8) (length kv.0) ≡ o + 8 + length kv.0
  key_end o kv at =
      add_u64_fits (o + 8) (length kv.0)
        (omega (arith, At-bound bytes o (encode_entry kv) at, length-encode_entry kv))

  pub read_type :
      (o : ℕ) (kv : Entry)
      → IsEntry kv
      → At bytes o (encode_entry kv)
      → read_u32 bytes (o + 8 + length kv.0) ≡ ok (value_type kv.1, o + 8 + length kv.0 + 4)
  read_type o kv is_entry at =
      read_u32-At bytes fits (o + 8 + length kv.0) (value_type kv.1) is_entry.1
        (At-left bytes (o + 8 + length kv.0) _ _ (At-type o kv at))

  pub skip_one :
      (o : ℕ) (kv : Entry)
      → IsEntry kv
      → At bytes o (encode_entry kv)
      → skip bytes (o + 8 + length kv.0 + 4) (value_type kv.1) ≡ ok (o + length (encode_entry kv))
  skip_one o kv is_entry at =
      skip_encoded bytes fits kv.1 (o + 8 + length kv.0 + 4) is_entry.2 (At-value o kv at)
      ∙ ap ok (omega (arith, length-encode_entry kv))

  skip_entry-At :
      (o : ℕ) (kv : Entry)
      → IsEntry kv
      → At bytes o (encode_entry kv)
      → skip_entry bytes o ≡ ok (o + length (encode_entry kv))
  unfolding skip_entry
  skip_entry-At o kv is_entry at =
      rw (read_key o kv is_entry at, key_end o kv at, read_type o kv is_entry at)
        (skip_one o kv is_entry at)

  skip_entries :
      (kvs : List Entry) (o : ℕ)
      → All IsEntry kvs
      → At bytes o (encode_entries kvs)
      → repeat (length kvs) (skip_entry bytes) o ≡ ok (o + length (encode_entries kvs))
  unfolding repeat
  skip_entries [] o all at = ap ok (omega arith)
  skip_entries (kv ∷ kvs) o all at =
      rw (skip_entry-At o kv all.0 (At-left bytes o (encode_entry kv) _ at)) (
        skip_entries kvs (o + length (encode_entry kv)) all.1
          (At-right bytes o (encode_entry kv) (encode_entries kvs) at)
        ∙ ap ok (omega (arith, length-append (encode_entry kv) (encode_entries kvs))))

-- The loop of `main` over the metadata steps over exactly the encoded entries behind the header,
-- and ends where the tensor infos begin. The file is below 2 ^ 63 bytes; keys, values and the
-- entries are any that the format allows.
pub skip_metadata_entries :
    (bytes : List ℕ)
    → Fits bytes
    → (kvs : List Entry) → All IsEntry kvs
    → At bytes 24 (encode_entries kvs)
    → skip_metadata bytes (length kvs) ≡ ok (24 + length (encode_entries kvs))
unfolding skip_metadata
skip_metadata_entries bytes fits kvs all at = skip_entries bytes fits kvs 24 all at
