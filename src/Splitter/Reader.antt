-- ===== src/Splitter/Reader.antt =====
-- `read_u32`, `read_u64`, `skip_value` and `get_metadata_string` of tools/gguf-splitter/src/main.rs.
-- A `&mut usize` offset is passed in, and handed back with the result.
pub mod Values
pub mod Skip
use arcflame.Base.{
  ℕ, zero, suc, Bool, true, false, ◌||◌, ◌&&◌, List, [], ◌∷◌, Option, none, some, ltb, ◌==◌,
  if◌then◌else◌, length,
}
use arcflame.Base.Results.{ok, err, panic, stuck, ◌>>=◌}
use arcflame.Base.Text.{is_utf8}
use arcflame.Splitter.{Outcome, add_u64, eof_u32, eof_u64, type_count, unknown_type}
use arcflame.Splitter.Bytes.{from_le_bytes, slice}

unfoldable pub read_u32 : List ℕ → ℕ → Outcome (ℕ × ℕ)
read_u32 bytes offset =
    if ltb (length bytes) (add_u64 offset 4)
    then err (eof_u32 offset)
    else slice bytes offset (add_u64 offset 4) >>= λ b. ok (from_le_bytes b, add_u64 offset 4)

unfoldable pub read_u64 : List ℕ → ℕ → Outcome (ℕ × ℕ)
read_u64 bytes offset =
    if ltb (length bytes) (add_u64 offset 8)
    then err (eof_u64 offset)
    else slice bytes offset (add_u64 offset 8) >>= λ b. ok (from_le_bytes b, add_u64 offset 8)

-- The arms of `skip_value` that add a constant.
unfoldable pub fixed_width : ℕ → Option ℕ
fixed_width t =
    if t == 0 || t == 1 || t == 7
    then some 1
    else if t == 2 || t == 3
    then some 2
    else if t == 4 || t == 5 || t == 6
    then some 4
    else if t == 10 || t == 11 || t == 12
    then some 8
    else none

-- `for _ in 0..n { step(&mut offset)?; }`
unfoldable pub repeat : ℕ → (ℕ → Outcome ℕ) → ℕ → Outcome ℕ
repeat zero step offset = ok offset
repeat (suc n) step offset = step offset >>= λ offset'. repeat n step offset'

-- The fuel bounds the depth of the recursion, which is the nesting of arrays.
unfoldable pub skip_value : ℕ → List ℕ → ℕ → ℕ → Outcome ℕ
skip_value zero bytes offset value_type = stuck
skip_value (suc fuel) bytes offset value_type = elim (fixed_width value_type) [
  | some width ↦ ok (add_u64 offset width)
  | none ↦
      if value_type == 8
      then (do (len, offset') ← read_u64 bytes offset; ok (add_u64 offset' len))
      else if value_type == 9
      then (do
        (element_type, offset') ← read_u32 bytes offset
        (arr_len, offset'') ← read_u64 bytes offset'
        repeat arr_len (λ o. skip_value fuel bytes o element_type) offset'')
      else if value_type == 13
      then err type_count
      else err (unknown_type value_type)
]

-- Nested arrays take twelve bytes a level, so the length of the file bounds their depth.
abbrev pub skip : List ℕ → ℕ → ℕ → Outcome ℕ
skip bytes = skip_value (suc (length bytes)) bytes

-- `e.ok()?` in a function that returns an `Option`.
abbrev ok? {ℓ κ} :
    {A : Type ℓ} {B : Type κ} → Outcome A → (A → Outcome (Option B)) → Outcome (Option B)
ok? (ok a) f = f a
ok? (err e) f = ok none
ok? panic f = panic
ok? stuck f = stuck

abbrev pub bytes_eq : List ℕ → List ℕ → Bool
bytes_eq [] [] = true
bytes_eq (a ∷ as') (b ∷ bs) = a == b && bytes_eq as' bs
bytes_eq _ _ = false

-- `String::from_utf8(data[start..end].to_vec()).ok()`
abbrev pub text_at : List ℕ → ℕ → ℕ → Outcome (Option (List ℕ))
text_at bytes start end = slice bytes start end >>= λ s. ok (if is_utf8 s then some s else none)

unfoldable pub get_metadata_string : List ℕ → ℕ → ℕ → List ℕ → Outcome (Option (List ℕ))
get_metadata_string bytes offset zero target_key = ok none
get_metadata_string bytes offset (suc kv_count) target_key =
    ok? (read_u64 bytes offset) λ (key_len, o). text_at bytes o (add_u64 o key_len) >>= λ found.
    elim found [
      | none ↦ ok none
      | some key ↦ ok? (read_u32 bytes (add_u64 o key_len)) λ (value_type, o').
          elim (bytes_eq key target_key) [
            | true ↦
                if value_type == 8
                then (ok? (read_u64 bytes o')
                    λ (str_len, o''). text_at bytes o'' (add_u64 o'' str_len))
                else ok none
            | false ↦
                ok? (skip bytes o' value_type)
                  λ o''. get_metadata_string bytes o'' kv_count target_key
          ]
    ]
