-- ===== src/Splitter/Reader/Skip.antt =====
-- `skip_value` on the encodings of metadata values.
use arcflame.Base.{
  ℕ, zero, suc, ◌+◌, ◌^◌, ◌≤◌, ◌<◌, ◌≡◌, refl, ap, ◌∙◌, List, ◌++◌, some, length, length-append,
  arith,
}
use arcflame.Base.Results.{ok}
use arcflame.Splitter.Bytes.{to_le_bytes, length-to_le_bytes, At, At-left, At-right, At-bound}
use arcflame.Splitter.Reader.{fixed_width, repeat, skip_value, skip}
use arcflame.Splitter.Reader.Values.{
  Fits, add_u64_fits, Value, Values, scalar, text, array, nil, cons, value_type, count, encode,
  encode_all, IsValue, AreValues, depth, depth_all, read_u32-At, read_u64-At,
}

module _ (bytes : List ℕ) (fits : Fits bytes) where
  skip_scalar :
      (fuel o tag w : ℕ)
      → fixed_width tag ≡ some w
      → o + w < 2 ^ 64
      → skip_value (suc fuel) bytes o tag ≡ ok (o + w)
  unfolding skip_value
  skip_scalar fuel o tag w e h = rw (e, skip_value, add_u64_fits o w h) refl

  skip_text :
      (fuel o : ℕ) (s : List ℕ)
      → length s < 2 ^ 64
      → At bytes o (to_le_bytes 8 (length s) ++ s)
      → skip_value (suc fuel) bytes o 8 ≡ ok (o + (8 + length s))
  unfolding skip_value fixed_width
  skip_text fuel o s small at =
      rw
        (
          read_u64-At bytes fits o (length s) small (At-left bytes o _ s at),
          add_u64_fits (o + 8) (length s) (
              omega (
                arith,
                At-bound bytes o (to_le_bytes 8 (length s) ++ s) at,
                length-append (to_le_bytes 8 (length s)) s,
                length-to_le_bytes 8 (length s),
              )),
        )
        (ap ok (omega arith))

  At-count :
      (o element_type n : ℕ) (elements : List ℕ)
      → At bytes o (to_le_bytes 4 element_type ++ (to_le_bytes 8 n ++ elements))
      → At bytes (o + 4) (to_le_bytes 8 n ++ elements)
  At-count o element_type n elements at =
      rw (length-to_le_bytes 4 element_type) at
        (At-right bytes o (to_le_bytes 4 element_type) (to_le_bytes 8 n ++ elements) at)

  At-elements :
      (o element_type n : ℕ) (elements : List ℕ)
      → At bytes o (to_le_bytes 4 element_type ++ (to_le_bytes 8 n ++ elements))
      → At bytes (o + 4 + 8) elements
  At-elements o element_type n elements at =
      rw (length-to_le_bytes 8 n) at
        (At-right bytes (o + 4) (to_le_bytes 8 n) elements (At-count o element_type n elements at))

  -- The header of an array, read; its elements are left.
  skip_array :
      (fuel o element_type n : ℕ) (elements : List ℕ)
      → element_type < 2 ^ 32
      → n < 2 ^ 64
      → At bytes o (to_le_bytes 4 element_type ++ (to_le_bytes 8 n ++ elements))
      → skip_value (suc fuel) bytes o 9
        ≡ repeat n (λ o'. skip_value fuel bytes o' element_type) (o + 4 + 8)
  unfolding skip_value fixed_width
  skip_array fuel o element_type n elements small_type small at =
      rw
        (
          read_u32-At bytes fits o element_type small_type
              (At-left bytes o _ (to_le_bytes 8 n ++ elements) at),
          read_u64-At bytes fits (o + 4) n small
              (At-left bytes (o + 4) _ elements (At-count o element_type n elements at)),
        )
        refl

  -- Where an encoded value of at most the given depth stands, `skip_value` stops right behind it.
  mutual
    unfolding repeat encode

    skip_value-At :
        (v : Value) (fuel o : ℕ)
        → IsValue v
        → depth v < fuel
        → At bytes o (encode v)
        → skip_value fuel bytes o (value_type v) ≡ ok (o + length (encode v))
    skip_value-At v zero o is_value deep at = absurd (omega arith)
    skip_value-At (scalar tag bs) (suc fuel) o is_value deep at =
        skip_scalar fuel o tag (length bs) is_value (omega (arith, At-bound bytes o bs at))
    skip_value-At (text s) (suc fuel) o is_value deep at =
        skip_text fuel o s is_value at
        ∙ ap (λ k. ok (o + k))
            (omega
              (arith, length-append (to_le_bytes 8 (length s)) s, length-to_le_bytes 8 (length s)))
    skip_value-At (array element_type vs) (suc fuel) o is_value deep at =
        skip_array fuel o element_type (count vs) (encode_all vs) is_value.0 is_value.1 at
        ∙ repeat-At vs element_type fuel (o + 4 + 8) is_value.2 (omega arith)
            (At-elements o element_type (count vs) (encode_all vs) at)
        ∙ ap ok (
            omega (
              arith,
              length-append (to_le_bytes 4 element_type)
                  (to_le_bytes 8 (count vs) ++ encode_all vs),
              length-append (to_le_bytes 8 (count vs)) (encode_all vs),
              length-to_le_bytes 4 element_type,
              length-to_le_bytes 8 (count vs),
            ))

    repeat-At :
        (vs : Values) (element_type fuel o : ℕ)
        → AreValues element_type vs
        → depth_all vs < fuel
        → At bytes o (encode_all vs)
        → repeat (count vs) (λ o'. skip_value fuel bytes o' element_type) o
          ≡ ok (o + length (encode_all vs))
    repeat-At nil element_type fuel o are_values deep at = ap ok (omega arith)
    repeat-At (cons v vs) element_type fuel o are_values deep at =
        let step : skip_value fuel bytes o element_type ≡ ok (o + length (encode v)) =
          rw are_values.0 at (
            skip_value-At v fuel o are_values.1 (omega arith)
              (At-left bytes o (encode v) (encode_all vs) at)) in
        rw step (
          repeat-At vs element_type fuel (o + length (encode v)) are_values.2 (omega arith)
            (At-right bytes o (encode v) (encode_all vs) at)
          ∙ ap ok (omega (arith, length-append (encode v) (encode_all vs))))

mutual
  unfolding encode

  depth-le : (v : Value) → depth v ≤ length (encode v)
  depth-le (scalar tag bs) = omega arith
  depth-le (text s) = omega arith
  depth-le (array element_type vs) = omega (
    arith,
    length-append (to_le_bytes 4 element_type) (to_le_bytes 8 (count vs) ++ encode_all vs),
    length-append (to_le_bytes 8 (count vs)) (encode_all vs),
    length-to_le_bytes 4 element_type,
    depth_all-le vs,
  )

  depth_all-le : (vs : Values) → depth_all vs ≤ length (encode_all vs)
  depth_all-le nil = omega arith
  depth_all-le (cons v vs) =
      omega (arith, depth-le v, depth_all-le vs, length-append (encode v) (encode_all vs))

-- In a file below 2 ^ 63 bytes, `skip_value` steps over exactly one encoded value, of any type and
-- with arrays nested to any depth: it ends behind the value's last byte, without an error.
pub skip_encoded :
    (bytes : List ℕ)
    → Fits bytes
    → (v : Value) (o : ℕ) → IsValue v
    → At bytes o (encode v)
    → skip bytes o (value_type v) ≡ ok (o + length (encode v))
skip_encoded bytes fits v o is_value at =
    skip_value-At bytes fits v (suc (length bytes)) o is_value
      (omega (arith, depth-le v, At-bound bytes o (encode v) at)) at
