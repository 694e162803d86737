-- ===== src/Splitter/Writer.antt =====
-- `align_up`, `compute_data_sizes` and `write_shard` of tools/gguf-splitter/src/main.rs. A shard
-- file is the list of the bytes that were written to it.
pub mod Align
pub mod Infos
pub mod Sorting
pub mod Placement
pub mod Sizes
pub mod Regions
pub mod Head
pub mod Roundtrip
pub mod Misplaced
pub mod Total
use arcflame.Base.{
  ℕ, zero, suc, ◌+◌, ◌-◌, ◌%◌, ◌^◌, List, [], ◌∷◌, ◌++◌, Option, none, some, length, get_elem?,
  get_or, set, map, replicate, ltb, leb, ◌==◌, if◌then◌else◌,
}
use arcflame.Base.Bits.{bit_and}
use arcflame.Base.Results.{ok, panic, ◌>>=◌}
use arcflame.Splitter.{Outcome, add_u64}
use arcflame.Splitter.Bytes.{to_le_bytes, slice}
use arcflame.Splitter.Header.{TensorInfo, magic_number}

abbrev pub sub_u64 : ℕ → ℕ → ℕ
sub_u64 a b = (a + 2 ^ 64 - b) % 2 ^ 64

-- `align_up` and `align_up_u64`: `!(align - 1)` is `2 ^ 64 - align` on 64 bits.
unfoldable pub align_up : ℕ → ℕ → ℕ
align_up x align = bit_and (sub_u64 (add_u64 x align) 1) (2 ^ 64 - 1 - sub_u64 align 1)

-- The stable sort of `slice::sort_by_key`.
unfoldable pub insert_by : (ℕ → ℕ) → ℕ → List ℕ → List ℕ
insert_by key i [] = i ∷ []
insert_by key i (j ∷ js) = if leb (key i) (key j) then i ∷ j ∷ js else j ∷ insert_by key i js

unfoldable pub sort_by_key : (ℕ → ℕ) → List ℕ → List ℕ
unfolding insert_by
sort_by_key key [] = []
sort_by_key key (i ∷ is) = insert_by key i (sort_by_key key is)

-- `xs[i]`
abbrev pub at_index {ℓ} : {A : Type ℓ} → List A → ℕ → Outcome A
at_index xs i = elim (get_elem? xs i) [ none ↦ panic | some x ↦ ok x ]

-- The sort key `tensors[i].offset`; the indices that are sorted are in range.
abbrev pub offset_of : List TensorInfo → ℕ → ℕ
offset_of [] i = 0
offset_of (t ∷ ts) zero = t.offset
offset_of (t ∷ ts) (suc i) = offset_of ts i

abbrev pub up_to : ℕ → ℕ → List ℕ
up_to i zero = []
up_to i (suc n) = i ∷ up_to (suc i) n

-- The loop of `compute_data_sizes` over the sorted indices.
unfoldable pub fill_sizes : List TensorInfo → ℕ → ℕ → List ℕ → List ℕ → List ℕ
fill_sizes tensors tensor_data_start file_size [] sizes = sizes
fill_sizes tensors tensor_data_start file_size (i ∷ []) sizes =
    set sizes i (sub_u64 file_size (add_u64 tensor_data_start (offset_of tensors i)))
fill_sizes tensors tensor_data_start file_size (i ∷ j ∷ rest) sizes =
    fill_sizes tensors tensor_data_start file_size (j ∷ rest)
      (set sizes i (sub_u64 (offset_of tensors j) (offset_of tensors i)))

unfoldable pub compute_data_sizes : List TensorInfo → ℕ → ℕ → List ℕ
unfolding fill_sizes sort_by_key
compute_data_sizes tensors tensor_data_start file_size =
    let n = length tensors in
    fill_sizes tensors tensor_data_start file_size (sort_by_key (offset_of tensors) (up_to 0 n))
      (replicate n 0)

-- `HashMap<usize, u64>`: the newest entry of a key counts.
abbrev pub Offsets : Type 0
Offsets = List (ℕ × ℕ)

abbrev pub lookup : ℕ → Offsets → Option ℕ
lookup k [] = none
lookup k ((j, v) ∷ m) = if j == k then some v else lookup k m

-- The loop that fills `new_offsets`.
unfoldable pub assign_offsets : List ℕ → List ℕ → ℕ → Offsets → Outcome Offsets
assign_offsets data_sizes [] cur m = ok m
assign_offsets data_sizes (idx ∷ rest) cur m = at_index data_sizes idx >>= λ size.
    assign_offsets data_sizes rest (align_up (add_u64 cur size) 32) ((idx, cur) ∷ m)

unfoldable pub write_dims : List ℕ → List ℕ
write_dims [] = []
write_dims (d ∷ ds) = to_le_bytes 8 d ++ write_dims ds

-- What is written for one tensor info.
unfoldable pub write_info : TensorInfo → ℕ → List ℕ
write_info t new_off =
    to_le_bytes 8 (length t.name)
    ++ (t.name
        ++ (to_le_bytes 4 t.n_dims
            ++ (write_dims t.dims ++ (to_le_bytes 4 t.ggml_type ++ to_le_bytes 8 new_off))))

unfoldable pub write_infos : List TensorInfo → Offsets → List ℕ → Outcome (List ℕ)
write_infos tensors m [] = ok []
write_infos tensors m (idx ∷ rest) = do
  t ← at_index tensors idx
  new_off ← elim (lookup idx m) [ none ↦ panic | some v ↦ ok v ]
  more ← write_infos tensors m rest
  ok (write_info t new_off ++ more)

-- The raw copy of the tensor data, in the order of the original offsets.
unfoldable pub write_data : List TensorInfo → List ℕ → List ℕ → ℕ → List ℕ → Outcome (List ℕ)
write_data tensors data_sizes mmap data_start [] = ok []
write_data tensors data_sizes mmap data_start (idx ∷ rest) = do
  t ← at_index tensors idx
  size ← at_index data_sizes idx
  let start = add_u64 data_start t.offset
  chunk ← if ltb 0 size then slice mmap start (add_u64 start size) else ok []
  more ← write_data tensors data_sizes mmap data_start rest
  ok (chunk ++ more)

-- The shard's header, metadata and tensor infos.
unfoldable pub write_head : ℕ → ℕ → List ℕ → List TensorInfo → Offsets → List ℕ → Outcome (List ℕ)
write_head version metadata_kv_count tensor_indices tensors m raw_metadata =
    write_infos tensors m tensor_indices >>= λ infos. ok (
      to_le_bytes 4 magic_number
      ++ (to_le_bytes 4 version
          ++ (to_le_bytes 8 (length tensor_indices)
              ++ (to_le_bytes 8 metadata_kv_count ++ (raw_metadata ++ infos)))))

unfoldable pub padding : ℕ → List ℕ
padding pos = replicate (sub_u64 (align_up pos 32) pos) 0

unfoldable pub write_shard :
    ℕ → ℕ → List ℕ → List TensorInfo → List ℕ → List ℕ → List ℕ → ℕ → Outcome (List ℕ)
write_shard version metadata_kv_count tensor_indices tensors data_sizes raw_metadata mmap
      data_start =
    do
      let sorted = sort_by_key (offset_of tensors) tensor_indices
      new_offsets ← assign_offsets data_sizes sorted 0 []
      head ← write_head version metadata_kv_count tensor_indices tensors new_offsets raw_metadata
      body ← write_data tensors data_sizes mmap data_start sorted
      ok (head ++ (padding (length head) ++ body))
