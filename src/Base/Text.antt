-- ===== src/Base/Text.antt =====
-- What the program uses of Rust's `str`, over the bytes of a text: validity, prefixes, searches and
-- the parsing of decimal numbers.
use Prim.Native.Nat.{ℕ, zero, suc, ◌+◌, ◌-◌, ◌*◌, ◌^◌}
use Prim.Native.Char.{code}
use Prim.Native.String.{String}
use mathlib.Core.Bool.{Bool, true, false, ◌&&◌}
use mathlib.Core.Option
use mathlib.Core.Option.{Option, none, some}
use mathlib.Core.List.{List, [], ◌∷◌}
use arcflame.Base.Tests.{ltb, leb, ◌==◌, if◌then◌else◌}

-- Integers: `pos n` is `n`, and `negsuc n` is `-(n + 1)`.
pub data ℤ : Type 0 where
  pos : ℕ → ℤ
  negsuc : ℕ → ℤ

abbrev pub negate : ℕ → ℤ
negate zero = pos zero
negate (suc n) = negsuc n

-- The bytes of an ASCII literal.
abbrev pub codes : String → List ℕ
codes String.[] = []
codes (String.◌∷◌ c s) = code c ∷ codes s

-- How many bytes follow a leading byte, and the range of the first of them (Unicode, table 3-7).
abbrev lead : ℕ → Option (ℕ × ℕ × ℕ)
lead b =
    if ltb b 0x80
    then some (0, 0, 0)
    else if ltb b 0xc2
    then none
    else if ltb b 0xe0
    then some (1, 0x80, 0xbf)
    else if b == 0xe0
    then some (2, 0xa0, 0xbf)
    else if b == 0xed
    then some (2, 0x80, 0x9f)
    else if ltb b 0xf0
    then some (2, 0x80, 0xbf)
    else if b == 0xf0
    then some (3, 0x90, 0xbf)
    else if ltb b 0xf4
    then some (3, 0x80, 0xbf)
    else if b == 0xf4
    then some (3, 0x80, 0x8f)
    else none

utf8_scan : ℕ → ℕ → ℕ → List ℕ → Bool
utf8_scan waiting lo hi [] = waiting == 0
utf8_scan zero lo hi (b ∷ bs) = elim (lead b) [
  | none ↦ false
  | some (n, lo', hi') ↦ utf8_scan n lo' hi' bs
]
utf8_scan (suc waiting) lo hi (b ∷ bs) = leb lo b && leb b hi && utf8_scan waiting 0x80 0xbf bs

-- `str::from_utf8` accepts the bytes.
unfoldable pub is_utf8 : List ℕ → Bool
unfolding utf8_scan
is_utf8 bytes = utf8_scan 0 0 0 bytes

-- `str::strip_prefix`
unfoldable pub strip_prefix : List ℕ → List ℕ → Option (List ℕ)
strip_prefix [] text = some text
strip_prefix (p ∷ ps) [] = none
strip_prefix (p ∷ ps) (c ∷ cs) = if p == c then strip_prefix ps cs else none

-- `str::contains`
unfoldable pub contains : List ℕ → List ℕ → Bool
unfolding strip_prefix
contains part [] = elim (strip_prefix part []) [ some _ ↦ true | none ↦ false ]
contains part (c ∷ cs) = elim (strip_prefix part (c ∷ cs)) [
  | some _ ↦ true
  | none ↦ contains part cs
]

-- `str::find` of one ASCII character
unfoldable pub find : ℕ → List ℕ → Option ℕ
find c [] = none
find c (d ∷ ds) = if d == c then some 0 else Option.map suc (find c ds)

-- The digits of a number that is at most `top`; a larger number is an error, as is any other byte.
unfoldable pub parse_digits : ℕ → ℕ → List ℕ → Option ℕ
parse_digits top acc [] = some acc
parse_digits top acc (c ∷ cs) =
    let acc' = acc * 10 + (c - b'0') in
    let rest = parse_digits top acc' cs in
    if leb b'0' c && leb c b'9' && leb acc' top then rest else none

-- `from_str` wants a digit at least.
abbrev pub parse_number : ℕ → List ℕ → Option ℕ
parse_number top [] = none
parse_number top (c ∷ cs) = parse_digits top 0 (c ∷ cs)

-- `str::parse::<u32>`: one `+` may stand in front.
unfoldable pub parse_u32 : List ℕ → Option ℕ
unfolding parse_digits
parse_u32 [] = none
parse_u32 (c ∷ cs) =
    if c == b'+' then parse_number (2 ^ 32 - 1) cs else parse_number (2 ^ 32 - 1) (c ∷ cs)

-- `str::parse::<u64>`
unfoldable pub parse_u64 : List ℕ → Option ℕ
unfolding parse_digits
parse_u64 [] = none
parse_u64 (c ∷ cs) =
    if c == b'+' then parse_number (2 ^ 64 - 1) cs else parse_number (2 ^ 64 - 1) (c ∷ cs)

-- The magnitude of a number with a sign, at most `top` above or `2 ^ 31` below.
parse_minus : List ℕ → Option ℤ
parse_minus cs = Option.map negate (parse_number (2 ^ 31) cs)

-- `str::parse::<i32>`: one `+` or `-` may stand in front.
unfoldable pub parse_i32 : List ℕ → Option ℤ
unfolding parse_digits parse_minus
parse_i32 [] = none
parse_i32 (c ∷ cs) =
    if c == b'-'
    then parse_minus cs
    else Option.map pos
        (if c == b'+' then parse_number (2 ^ 31 - 1) cs else parse_number (2 ^ 31 - 1) (c ∷ cs))
