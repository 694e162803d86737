-- ===== src/Splitter/Header/Lookup.antt =====
-- `get_metadata_string` of tools/gguf-splitter/src/main.rs, which looks a key up in the metadata.
use arcflame.Base.{
  ℕ, suc, ◌+◌, ◌≡◌, refl, sym, ap, ◌∙◌, ◌⊎◌, inl, inr, Bool-cases, true, false, List, [], ◌∷◌, ◌++◌,
  All, Option, none, some, length, arith, ◌==◌, if◌then◌else◌,
}
use arcflame.Base.Results.{ok}
use arcflame.Base.Text.{is_utf8}
use arcflame.Splitter.Bytes.{
  to_le_bytes, length-to_le_bytes, slice-At, At, At-left, At-right, At-bound,
}
use arcflame.Splitter.Reader.{fixed_width, bytes_eq, text_at, get_metadata_string}
use arcflame.Splitter.Reader.Values.{
  Fits, add_u64_fits, Value, scalar, text, array, encode, read_u64-At,
}
use arcflame.Splitter.Header.Metadata.{
  Entry, encode_entry, encode_entries, IsEntry, At-key, At-value, read_key, key_end, read_type,
  skip_one,
}

-- The text under a key: the value of the first entry with that key, if it is a text in UTF-8.
abbrev as_text : Value → Option (List ℕ)
as_text (scalar tag bs) = none
as_text (text s) = if is_utf8 s then some s else none
as_text (array element_type vs) = none

abbrev pub text_under : List ℕ → List Entry → Option (List ℕ)
text_under key [] = none
text_under key (kv ∷ kvs) = if bytes_eq kv.0 key then as_text kv.1 else text_under key kvs

abbrev pub HasTextKey : Entry → Type 0
HasTextKey kv = is_utf8 kv.0 ≡ true

module _ (bytes : List ℕ) (fits : Fits bytes) where
  text_at-At :
      (o : ℕ) (s : List ℕ)
      → At bytes o s
      → text_at bytes o (o + length s) ≡ ok (if is_utf8 s then some s else none)
  text_at-At o s at = rw (slice-At bytes o s at) refl

  not_text : (tag w : ℕ) → fixed_width tag ≡ some w → (tag == 8) ≡ false
  unfolding fixed_width
  not_text tag w h = ground arith

  get_text :
      (fuel o : ℕ) (target : List ℕ) (kv : Entry)
      → IsEntry kv
      → HasTextKey kv
      → bytes_eq kv.0 target ≡ true
      → At bytes o (encode_entry kv)
      → get_metadata_string bytes o (suc fuel) target ≡ ok (as_text kv.1)
  unfolding get_metadata_string encode
  get_text fuel o target (k, scalar tag bs) is_entry key same at =
      let kv : Entry = (k, scalar tag bs) in
      rw
        (
          read_key bytes fits o kv is_entry at,
          key_end bytes fits o kv at,
          text_at-At (o + 8) k
              (At-left bytes (o + 8) k (to_le_bytes 4 tag ++ bs) (At-key bytes fits o kv at)),
          key,
          key_end bytes fits o kv at,
          read_type bytes fits o kv is_entry at,
          same,
          not_text tag (length bs) is_entry.2,
        )
        refl
  get_text fuel o target (k, array t vs) is_entry key same at =
      let kv : Entry = (k, array t vs) in
      rw
        (
          read_key bytes fits o kv is_entry at,
          key_end bytes fits o kv at,
          text_at-At (o + 8) k (At-left bytes (o + 8) k _ (At-key bytes fits o kv at)),
          key,
          key_end bytes fits o kv at,
          read_type bytes fits o kv is_entry at,
          same,
        )
        refl
  get_text fuel o target (k, text s) is_entry key same at =
      let kv : Entry = (k, text s) in
      let start = o + 8 + length k + 4 in
      let here : At bytes start (to_le_bytes 8 (length s) ++ s) = At-value bytes fits o kv at in
      let there : At bytes (start + 8) s =
        rw (length-to_le_bytes 8 (length s)) at
          (At-right bytes start (to_le_bytes 8 (length s)) s here) in
      rw
        (
          read_key bytes fits o kv is_entry at,
          key_end bytes fits o kv at,
          text_at-At (o + 8) k (At-left bytes (o + 8) k _ (At-key bytes fits o kv at)),
          key,
          key_end bytes fits o kv at,
          read_type bytes fits o kv is_entry at,
          same,
          read_u64-At bytes fits start (length s) is_entry.2 (At-left bytes start _ s here),
          add_u64_fits (start + 8) (length s) (omega (arith, At-bound bytes (start + 8) s there)),
        )
        (text_at-At (start + 8) s there)

  get_later :
      (fuel o : ℕ) (target : List ℕ) (kv : Entry)
      → IsEntry kv
      → HasTextKey kv
      → bytes_eq kv.0 target ≡ false
      → At bytes o (encode_entry kv)
      → get_metadata_string bytes o (suc fuel) target
        ≡ get_metadata_string bytes (o + length (encode_entry kv)) fuel target
  unfolding get_metadata_string
  get_later fuel o target kv is_entry key other at =
      rw
        (
          read_key bytes fits o kv is_entry at,
          key_end bytes fits o kv at,
          text_at-At (o + 8) kv.0 (At-left bytes (o + 8) kv.0 _ (At-key bytes fits o kv at)),
          key,
          key_end bytes fits o kv at,
          read_type bytes fits o kv is_entry at,
          other,
          skip_one bytes fits o kv is_entry at,
        )
        refl

  -- In a file below 2 ^ 63 bytes, the look-up in encoded entries whose keys are UTF-8 gives the
  -- text under the key: the value of the first entry with that key, if it is a text in UTF-8, and
  -- nothing if no entry has the key, or the first that has it holds another type or other bytes.
  pub get_metadata_string_finds :
      (kvs : List Entry) (o : ℕ) (key : List ℕ)
      → All IsEntry kvs
      → All HasTextKey kvs
      → At bytes o (encode_entries kvs)
      → get_metadata_string bytes o (length kvs) key ≡ ok (text_under key kvs)
  unfolding get_metadata_string
  get_metadata_string_finds [] o key all keys at = refl
  get_metadata_string_finds (kv ∷ kvs) o key all keys at = by_key (Bool-cases (bytes_eq kv.0 key)) (
      get_metadata_string_finds kvs (o + length (encode_entry kv)) key all.1 keys.1
        (At-right bytes o (encode_entry kv) (encode_entries kvs) at))
    where
      here : At bytes o (encode_entry kv)
      here = At-left bytes o (encode_entry kv) (encode_entries kvs) at

      by_key :
          ((bytes_eq kv.0 key) ≡ true) ⊎ ((bytes_eq kv.0 key) ≡ false)
          → get_metadata_string bytes (o + length (encode_entry kv)) (length kvs) key
            ≡ ok (text_under key kvs)
          → get_metadata_string bytes o (length (kv ∷ kvs)) key ≡ ok (text_under key (kv ∷ kvs))
      by_key (inl same) ih =
          get_text (length kvs) o key kv all.0 keys.0 same here
          ∙ ap (λ b. ok (if b then as_text kv.1 else text_under key kvs)) (sym same)
      by_key (inr other) ih =
          get_later (length kvs) o key kv all.0 keys.0 other here
          ∙ ih
          ∙ ap (λ b. ok (if b then as_text kv.1 else text_under key kvs)) (sym other)
