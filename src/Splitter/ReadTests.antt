-- ===== src/Splitter/ReadTests.antt =====
-- What `main` of tools/gguf-splitter/src/main.rs reads: an encoded file, and a shard that it wrote.
use arcflame.Base.{
  ℕ, zero, suc, All, ◌+◌, ◌-◌, ◌*◌, ◌≤◌, ◌≡◌, refl, true, false, List, [], ◌∷◌, ◌++◌, replicate,
  length, arith,
}
use arcflame.Base.Text.{codes, strip_prefix, contains}
use arcflame.Base.Results.{ok}
use arcflame.Splitter.Bytes.{At, slice, from_le_bytes, to_le_bytes}
use arcflame.Splitter.Reader.Values.{Fits, text, encode}
use arcflame.Splitter.Header.Metadata.{Entry, IsEntry, encode_entries}
use arcflame.Splitter.Header.{is_tensor_info_at, looks_like_name}
use arcflame.Splitter.Writer.{
  align_up, write_shard, assign_offsets, sort_by_key, write_head, Offsets, write_infos, write_data,
  write_info, write_dims, padding,
}
use arcflame.Splitter.Writer.Infos.{moved}
use arcflame.Splitter.Writer.Placement.{Restored}
use arcflame.Splitter.Main.{Model, read_model}
use arcflame.Splitter.Main.Read.{encode_model, model_of, read_model-encode_model}
use arcflame.Splitter.Main.Whole.{StartsClear}
use arcflame.Splitter.Main.Reread.{write_shard_reread}
use arcflame.Splitter.RunTests.{weight, tiny_model, tiny_file, weight-IsTensor, both_utf8}

abbrev pub name_entry : List Entry
name_entry = (codes "name", text (codes "tiny")) ∷ []

abbrev named_file : List ℕ
named_file = encode_model 3 name_entry tiny_model.tensors (replicate 64 7)

pub name_entry-IsEntry : All IsEntry name_entry
unfolding encode
name_entry-IsEntry = ((omega arith, omega arith, omega arith), tt)

-- What holds of the eight candidates.
pub eight_clear :
    (bytes : List ℕ)
    → All
        (λ k.
          is_tensor_info_at bytes (24 + length (encode_entries name_entry) - 32 + 4 * k) ≡ ok false)
        (0 ∷ 1 ∷ 2 ∷ 3 ∷ 4 ∷ 5 ∷ 6 ∷ 7 ∷ [])
    → StartsClear name_entry bytes
eight_clear bytes all zero less = all.0
eight_clear bytes all (suc zero) less = all.1.0
eight_clear bytes all (suc (suc zero)) less = all.1.1.0
eight_clear bytes all (suc (suc (suc zero))) less = all.1.1.1.0
eight_clear bytes all (suc (suc (suc (suc zero)))) less = all.1.1.1.1.0
eight_clear bytes all (suc (suc (suc (suc (suc zero))))) less = all.1.1.1.1.1.0
eight_clear bytes all (suc (suc (suc (suc (suc (suc zero)))))) less = all.1.1.1.1.1.1.0
eight_clear bytes all (suc (suc (suc (suc (suc (suc (suc zero))))))) less = all.1.1.1.1.1.1.1.0
eight_clear bytes all (suc (suc (suc (suc (suc (suc (suc (suc k)))))))) less = absurd (omega arith)

named_no_candidate : StartsClear name_entry named_file
unfolding is_tensor_info_at slice from_le_bytes to_le_bytes write_info write_dims encode
    looks_like_name contains strip_prefix
named_no_candidate =
    eight_clear named_file (refl, (refl, (refl, (refl, (refl, (refl, (refl, (refl, tt))))))))

named_file-Fits : Fits named_file
unfolding to_le_bytes write_info write_dims encode
named_file-Fits = omega arith

pub named_room : 32 ≤ 24 + length (encode_entries name_entry)
unfolding to_le_bytes encode
named_room = omega arith

pub weight_name : looks_like_name (codes "blk.0.w") ≡ true
unfolding looks_like_name contains strip_prefix
weight_name = refl

read_model-encode_model_example :
    read_model named_file ≡ ok (model_of 3 name_entry tiny_model.tensors)
read_model-encode_model_example =
    read_model-encode_model 3 name_entry (weight (codes "blk.0.w") 0)
      (weight (codes "blk.1.w") 32 ∷ []) (replicate 64 7) named_file-Fits (omega arith)
      (omega arith) (omega arith) name_entry-IsEntry
      (
        (weight-IsTensor (codes "blk.0.w") 0 refl both_utf8.0, omega arith),
        ((weight-IsTensor (codes "blk.1.w") 32 refl both_utf8.1, omega arith), tt),
      )
      (omega arith) (omega arith) weight_name named_room named_no_candidate

abbrev named_shard : List ℕ
named_shard =
    encode_model 3 name_entry (weight (codes "blk.1.w") 0 ∷ []) (replicate 5 0 ++ replicate 32 9)

named_shard_run :
    write_shard 3 1
      (1 ∷ [])
      tiny_model.tensors
      (32 ∷ 32 ∷ [])
      (encode_entries name_entry)
      tiny_file
      128
    ≡ ok named_shard
unfolding write_shard assign_offsets sort_by_key write_head write_infos write_data slice to_le_bytes
    write_info write_dims align_up padding encode
named_shard_run = refl

shard_no_candidate : StartsClear name_entry named_shard
unfolding is_tensor_info_at slice from_le_bytes to_le_bytes write_info write_dims encode
    looks_like_name contains strip_prefix
shard_no_candidate =
    eight_clear named_shard (refl, (refl, (refl, (refl, (refl, (refl, (refl, (refl, tt))))))))

named_shard-Fits : Fits named_shard
unfolding to_le_bytes write_info write_dims encode
named_shard-Fits = omega arith

pub last_name : looks_like_name (codes "blk.1.w") ≡ true
unfolding looks_like_name contains strip_prefix
last_name = refl

abbrev one_tensor : List ℕ
one_tensor = 1 ∷ []

write_shard_reread_example :
    (s : Model) × (m : Offsets) × (read_model named_shard ≡ ok s)
    × (s.header ≡ record { version = 3; tensor_count = 1; metadata_kv_count = 1 })
    × At named_shard 24 (encode_entries name_entry)
    × (s.info_start ≡ 24 + length (encode_entries name_entry))
    × (moved tiny_model.tensors m one_tensor ≡ ok s.tensors)
    × All
        (Restored tiny_model.tensors (32 ∷ 32 ∷ []) tiny_file 128 m named_shard s.data_start)
        one_tensor
unfolding sort_by_key
write_shard_reread_example =
    write_shard_reread 3 name_entry 1 [] tiny_model.tensors (32 ∷ 32 ∷ []) tiny_file 128
      (weight (codes "blk.1.w") 32) named_shard (omega arith) (omega arith) (omega arith)
      name_entry-IsEntry named_room
      (
        weight-IsTensor (codes "blk.0.w") 0 refl both_utf8.0,
        (weight-IsTensor (codes "blk.1.w") 32 refl both_utf8.1, tt),
      )
      refl (omega arith) (omega arith) last_name (tt, tt) tt (omega arith, tt) named_shard-Fits
      shard_no_candidate named_shard_run
