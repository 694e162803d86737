-- ===== src/Splitter/Writer/Head.antt =====
-- The head of a file: what `write_shard` writes first and `main` reads first.
use arcflame.Base.{
  ℕ, ◌+◌, ◌^◌, ◌<◌, ◌≤◌, ◌≡◌, refl, List, ◌++◌, length, length-append, le→ltb, arith,
}
use arcflame.Base.Results.{ok}
use arcflame.Splitter.Bytes.{
  to_le_bytes, from_le_bytes-to_le_bytes, length-to_le_bytes, At, At-le, slice-le,
}
use arcflame.Splitter.Header.{magic_number, read_header}

-- The fixed part of a file, then `rest`.
abbrev pub head_bytes : ℕ → ℕ → ℕ → List ℕ → List ℕ
head_bytes version count kv_count rest =
    to_le_bytes 4 magic_number
    ++ (to_le_bytes 4 version ++ (to_le_bytes 8 count ++ (to_le_bytes 8 kv_count ++ rest)))

pub length-head_bytes :
    (version count kv_count : ℕ) (rest : List ℕ)
    → length (head_bytes version count kv_count rest) ≡ 24 + length rest
length-head_bytes version count kv_count rest = omega (
  arith,
  length-append (to_le_bytes 4 magic_number)
      (to_le_bytes 4 version ++ (to_le_bytes 8 count ++ (to_le_bytes 8 kv_count ++ rest))),
  length-append (to_le_bytes 4 version) (to_le_bytes 8 count ++ (to_le_bytes 8 kv_count ++ rest)),
  length-append (to_le_bytes 8 count) (to_le_bytes 8 kv_count ++ rest),
  length-append (to_le_bytes 8 kv_count) rest,
  length-to_le_bytes 4 magic_number,
  length-to_le_bytes 4 version,
  length-to_le_bytes 8 count,
  length-to_le_bytes 8 kv_count,
)

pub read_header-At :
    (bytes : List ℕ) (version count kv_count : ℕ) (rest : List ℕ)
    → version < 2 ^ 32
    → count < 2 ^ 64
    → kv_count < 2 ^ 64
    → At bytes 0 (head_bytes version count kv_count rest)
    → (24 ≤ length bytes)
      × At bytes 24 rest
      × (read_header bytes
          ≡ ok (record { version = version; tensor_count = count; metadata_kv_count = kv_count }))
unfolding read_header
read_header-At bytes version count kv_count rest hv hc hk at =
    let at_version : At bytes 4 _ = At-le bytes 0 4 magic_number _ at in
    let at_count : At bytes 8 _ = At-le bytes 4 4 version _ at_version in
    let at_kv : At bytes 16 _ = At-le bytes 8 8 count _ at_count in
    let at_rest : At bytes 24 rest = At-le bytes 16 8 kv_count rest at_kv in
    let bound : 24 ≤ length bytes = at_rest.2 in
    (
      bound,
      at_rest,
      rw
          (
            le→ltb (length bytes) 24 bound,
            slice-le bytes 0 4 magic_number _ at,
            from_le_bytes-to_le_bytes 4 magic_number (omega arith),
            slice-le bytes 4 4 version _ at_version,
            slice-le bytes 8 8 count _ at_count,
            slice-le bytes 16 8 kv_count _ at_kv,
            from_le_bytes-to_le_bytes 4 version hv,
            from_le_bytes-to_le_bytes 8 count hc,
            from_le_bytes-to_le_bytes 8 kv_count hk,
          )
          refl,
    )
