-- ===== src/Splitter/Header/Start.antt =====
-- Where `main` of tools/gguf-splitter/src/main.rs takes the tensor infos to begin.
use mathlib.Core.Path.{subst}
use arcflame.Base.{
  ℕ, zero, suc, ◌+◌, ◌-◌, ◌*◌, ◌≤◌, ◌<◌, ◌≡◌, refl, sym, ap, ◌∙◌, true, false, List, ◌++◌, length,
  length-append, append_assoc, leb, lt→ltb, le→ltb, arith,
}
use arcflame.Base.Results.{ok}
use arcflame.Splitter.Bytes.{
  to_le_bytes, from_le_bytes-to_le_bytes, length-to_le_bytes, slice-At, slice-le, At, At-left,
  At-le, At-bound,
}
use arcflame.Splitter.Reader.Values.{Fits, add_u64_fits, scalar, encode}
use arcflame.Splitter.Header.{looks_like_name, is_tensor_info_at, search_start, tensor_info_start}
use arcflame.Splitter.Header.Metadata.{encode_entry, length-encode_entry}

le→leb : (a b : ℕ) → a ≤ b → leb a b ≡ true
le→leb a b h = ground arith

-- A text that is short and looks like a name, with its length in front, is taken for a tensor info.
is_tensor_info_at-At :
    (bytes : List ℕ)
    → Fits bytes
    → (o : ℕ) (name : List ℕ) → 0 < length name
    → length name < 256
    → looks_like_name name ≡ true
    → At bytes o (to_le_bytes 8 (length name) ++ name)
    → is_tensor_info_at bytes o ≡ ok true
unfolding is_tensor_info_at
is_tensor_info_at-At bytes fits o name some_name short looks at =
    let bound : o + 8 + length name ≤ length bytes = omega (
      arith,
      At-bound bytes o (to_le_bytes 8 (length name) ++ name) at,
      length-append (to_le_bytes 8 (length name)) name,
      length-to_le_bytes 8 (length name),
    ) in
    rw
      (
        add_u64_fits o 8 (omega arith),
        le→ltb (length bytes) (o + 8) (omega arith),
        slice-le bytes o 8 (length name) name at,
        from_le_bytes-to_le_bytes 8 (length name) (omega arith),
        lt→ltb 0 (length name) some_name,
        lt→ltb (length name) 256 short,
        add_u64_fits (o + 8) (length name) (omega arith),
        le→leb (o + 8 + length name) (length bytes) bound,
        slice-At bytes (o + 8) name (At-le bytes o 8 (length name) name at),
        looks,
      )
      refl

-- The search passes over candidates that are no tensor info, and takes the first that is one.
search_start_first :
    (bytes : List ℕ) (best n rounds first : ℕ)
    → ((k : ℕ) → k < n → is_tensor_info_at bytes (first + 4 * k) ≡ ok false)
    → is_tensor_info_at bytes (first + 4 * n) ≡ ok true
    → n < rounds
    → search_start bytes best rounds first ≡ ok (first + 4 * n)
unfolding search_start
search_start_first bytes best n zero first before found more = absurd (omega arith)
search_start_first bytes best zero (suc rounds) first before found more =
    let e : first + 4 * 0 ≡ first = omega arith in rw (rw e at found) (ap ok (sym e))
search_start_first bytes best (suc n) (suc rounds) first before found more =
    let e : first + 4 * 0 ≡ first = omega arith in
    let e' : first + 4 * suc n ≡ first + 4 + 4 * n = omega arith in
    rw (rw e at (before 0 (omega arith))) (
      search_start_first bytes best n rounds (first + 4)
        (λ k less.
          subst (λ o. is_tensor_info_at bytes o ≡ ok false) (omega arith)
            (before (suc k) (omega arith)))
        (rw e' at found) (omega arith)
      ∙ ap ok (sym e'))

-- In a file below 2 ^ 63 bytes, `main` finds the tensor infos right behind the metadata, if the first
-- of them has a short name that looks like a tensor's, and nothing in the 32 bytes before, at steps
-- of four, does.
pub tensor_info_start_finds :
    (bytes : List ℕ)
    → Fits bytes
    → (metadata_end : ℕ) (name : List ℕ) → 32 ≤ metadata_end
    → ((k : ℕ) → k < 8 → is_tensor_info_at bytes (metadata_end - 32 + 4 * k) ≡ ok false)
    → 0 < length name
    → length name < 256
    → looks_like_name name ≡ true
    → At bytes metadata_end (to_le_bytes 8 (length name) ++ name)
    → tensor_info_start bytes metadata_end ≡ ok metadata_end
unfolding tensor_info_start
tensor_info_start_finds bytes fits metadata_end name room before some_name short looks at =
    let e : metadata_end - 32 + 4 * 8 ≡ metadata_end = omega arith in
    let bound : metadata_end ≤ length bytes = omega (arith, At-bound bytes metadata_end _ at) in
    let found : is_tensor_info_at bytes metadata_end ≡ ok true =
      is_tensor_info_at-At bytes fits metadata_end name some_name short looks at in
    search_start_first bytes metadata_end 8 _ (metadata_end - 32) before
      (subst (λ o. is_tensor_info_at bytes o ≡ ok true) (sym e) found) (omega arith)
    ∙ ap ok e

-- In a file below 2 ^ 63 bytes, if the last metadata entry has four bytes under type 4, a `u32`, and a
-- key of sixteen bytes that looks like a name, then `main` takes that entry, 32 bytes before the end
-- of the metadata, for the first tensor info, whatever stands behind it.
pub tensor_info_start_mistakes :
    (bytes : List ℕ)
    → Fits bytes
    → (o : ℕ) (key value : List ℕ) → length key ≡ 16
    → length value ≡ 4
    → looks_like_name key ≡ true
    → At bytes o (encode_entry (key, scalar 4 value))
    → tensor_info_start bytes (o + length (encode_entry (key, scalar 4 value))) ≡ ok o
unfolding tensor_info_start encode
tensor_info_start_mistakes bytes fits o key value len len' looks at =
    let end = o + length (encode_entry (key, scalar 4 value)) in
    let e : end - 32 + 4 * 0 ≡ o =
      omega (arith, length-encode_entry bytes fits (key, scalar 4 value)) in
    let found : is_tensor_info_at bytes o ≡ ok true =
      is_tensor_info_at-At bytes fits o key (omega arith) (omega arith) looks (
        At-left bytes o (to_le_bytes 8 (length key) ++ key) (to_le_bytes 4 4 ++ value) (
          subst (At bytes o)
            (sym (append_assoc (to_le_bytes 8 (length key)) key (to_le_bytes 4 4 ++ value))) at)) in
    search_start_first bytes end 0 _ (end - 32) (λ k less. absurd (omega arith))
      (subst (λ p. is_tensor_info_at bytes p ≡ ok true) (sym e) found) (omega arith)
    ∙ ap ok e
