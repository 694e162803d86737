-- ===== src/Splitter/Reader/Values.antt =====
-- The GGUF encoding of numbers and metadata values, and the readers on it.
use arcflame.Base.{
  ℕ, suc, ◌+◌, max, ◌^◌, ◌≤◌, ◌<◌, ◌≡◌, refl, List, [], ◌++◌, some, length, le→ltb, arith,
}
use arcflame.Base.Results.{ok}
use arcflame.Splitter.{add_u64}
use arcflame.Splitter.Bytes.{
  to_le_bytes, length-to_le_bytes, from_le_bytes-to_le_bytes, At, At-bound, slice-At,
}
use arcflame.Splitter.Reader.{read_u32, read_u64, fixed_width}

-- A slice holds at most `isize::MAX` bytes.
abbrev pub Fits : List ℕ → Type 0
Fits bytes = length bytes < 2 ^ 63

pub add_u64_fits : (a b : ℕ) → a + b < 2 ^ 64 → add_u64 a b ≡ a + b
add_u64_fits a b h = omega arith

-- A metadata value: a scalar with its tag and bytes, a text, or an array of values of one type.
mutual
  pub data Value : Type 0 where
    scalar : ℕ → List ℕ → Value
    text : List ℕ → Value
    array : ℕ → Values → Value

  pub data Values : Type 0 where
    nil : Values
    cons : Value → Values → Values

abbrev pub value_type : Value → ℕ
value_type (scalar tag bs) = tag
value_type (text s) = 8
value_type (array element_type vs) = 9

abbrev pub count : Values → ℕ
count nil = 0
count (cons v vs) = suc (count vs)

unfoldable mutual
  pub encode : Value → List ℕ
  encode (scalar tag bs) = bs
  encode (text s) = to_le_bytes 8 (length s) ++ s
  encode (array element_type vs) =
      to_le_bytes 4 element_type ++ (to_le_bytes 8 (count vs) ++ encode_all vs)

  pub encode_all : Values → List ℕ
  encode_all nil = []
  encode_all (cons v vs) = encode v ++ encode_all vs

-- The tags and lengths of the format, and how deep arrays stand in arrays.
abbrev mutual
  pub IsValue : Value → Type 0
  IsValue (scalar tag bs) = fixed_width tag ≡ some (length bs)
  IsValue (text s) = length s < 2 ^ 64
  IsValue (array element_type vs) =
      (element_type < 2 ^ 32) × (count vs < 2 ^ 64) × AreValues element_type vs

  pub AreValues : ℕ → Values → Type 0
  AreValues element_type nil = Unit {0}
  AreValues element_type (cons v vs) =
      (value_type v ≡ element_type) × IsValue v × AreValues element_type vs

abbrev mutual
  pub depth : Value → ℕ
  depth (scalar tag bs) = 0
  depth (text s) = 0
  depth (array element_type vs) = suc (depth_all vs)

  pub depth_all : Values → ℕ
  depth_all nil = 0
  depth_all (cons v vs) = max (depth v) (depth_all vs)

module _ (bytes : List ℕ) (fits : Fits bytes) where
  -- `read_u32` reads back what `to_le_bytes` wrote.
  pub read_u32-At :
      (o v : ℕ) → v < 2 ^ 32 → At bytes o (to_le_bytes 4 v) → read_u32 bytes o ≡ ok (v, o + 4)
  unfolding read_u32
  read_u32-At o v small at =
      let len : length (to_le_bytes 4 v) ≡ 4 = length-to_le_bytes 4 v in
      let bound : o + length (to_le_bytes 4 v) ≤ length bytes = At-bound bytes o _ at in
      rw
        (
          add_u64_fits o 4 (omega arith),
          le→ltb (length bytes) (o + 4) (omega arith),
          rw len at (slice-At bytes o (to_le_bytes 4 v) at),
          from_le_bytes-to_le_bytes 4 v small,
        )
        refl

  pub read_u64-At :
      (o v : ℕ) → v < 2 ^ 64 → At bytes o (to_le_bytes 8 v) → read_u64 bytes o ≡ ok (v, o + 8)
  unfolding read_u64
  read_u64-At o v small at =
      let len : length (to_le_bytes 8 v) ≡ 8 = length-to_le_bytes 8 v in
      let bound : o + length (to_le_bytes 8 v) ≤ length bytes = At-bound bytes o _ at in
      rw
        (
          add_u64_fits o 8 (omega arith),
          le→ltb (length bytes) (o + 8) (omega arith),
          rw len at (slice-At bytes o (to_le_bytes 8 v) at),
          from_le_bytes-to_le_bytes 8 v small,
        )
        refl
