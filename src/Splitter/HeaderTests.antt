-- ===== src/Splitter/HeaderTests.antt =====
-- Runs of the splitter's reading part at concrete inputs.
use arcflame.Base.{ℕ, ◌+◌, ◌≡◌, refl, true, List, [], ◌∷◌, ◌++◌, length, All, replicate, arith}
use arcflame.Base.Text.{codes, is_utf8, contains, strip_prefix}
use arcflame.Base.Results.{ok}
use arcflame.Splitter.Bytes.{At, to_le_bytes}
use arcflame.Splitter.Reader.{fixed_width, get_metadata_string}
use arcflame.Splitter.Reader.Values.{scalar, text, array, nil, cons, encode}
use arcflame.Splitter.Header.{skip_metadata, tensor_info_start, looks_like_name}
use arcflame.Splitter.Header.Start.{tensor_info_start_mistakes}
use arcflame.Splitter.Header.Metadata.{
  Entry, IsEntry, encode_entry, encode_entries, skip_metadata_entries,
}
use arcflame.Splitter.Header.Lookup.{HasTextKey, text_under, get_metadata_string_finds}
use arcflame.Splitter.Tests.{small_u32, small_u64}

-- A text, and an array of an array of one byte.
abbrev two_entries : List Entry
two_entries =
    (codes "name", text (codes "tiny"))
    ∷ (codes "list", array 9 (cons (array 0 (cons (scalar 0 (5 ∷ [])) nil)) nil))
    ∷ []

abbrev entries_file : List ℕ
entries_file =
    replicate 24 0
    ++ (small_u64 4
        ++ (codes "name"
            ++ (small_u32 8
                ++ (small_u64 4
                    ++ (codes "tiny"
                        ++ (small_u64 4
                            ++ (codes "list"
                                ++ (small_u32 9
                                    ++ (small_u32 9
                                        ++ (small_u64 1
                                            ++ (small_u32 0 ++ (small_u64 1 ++ (5 ∷ [])))))))))))))

two_entries-At : At entries_file 24 (encode_entries two_entries)
unfolding encode to_le_bytes
two_entries-At = ([], refl, omega arith)

two_entries-IsEntry : All IsEntry two_entries
unfolding fixed_width
two_entries-IsEntry = (
  (omega arith, omega arith, omega arith),
  (
    (
      omega arith,
      omega arith,
      (omega arith, omega arith, (refl, (omega arith, omega arith, (refl, refl, tt)), tt)),
    ),
    tt,
  ),
)

two_entries-HasTextKey : All HasTextKey two_entries
unfolding is_utf8
two_entries-HasTextKey = (refl, (refl, tt))

skip_metadata_entries_example :
    skip_metadata entries_file 2 ≡ ok (24 + length (encode_entries two_entries))
skip_metadata_entries_example =
    skip_metadata_entries entries_file (omega arith) two_entries two_entries-IsEntry two_entries-At

get_metadata_string_finds_example :
    get_metadata_string entries_file 24 2 (codes "name")
    ≡ ok (text_under (codes "name") two_entries)
get_metadata_string_finds_example =
    get_metadata_string_finds entries_file (omega arith) two_entries 24 (codes "name")
      two_entries-IsEntry two_entries-HasTextKey two_entries-At

-- Metadata that ends with the number of words that the model knows.
abbrev vocab_file : List ℕ
vocab_file =
    replicate 24 0 ++ (small_u64 16 ++ (codes "llama.vocab_size" ++ (small_u32 4 ++ small_u32 9)))

vocab_file-At : At vocab_file 24 (encode_entry (codes "llama.vocab_size", scalar 4 (small_u32 9)))
unfolding encode to_le_bytes
vocab_file-At = ([], refl, omega arith)

vocab_key : looks_like_name (codes "llama.vocab_size") ≡ true
unfolding looks_like_name contains strip_prefix
vocab_key = refl

tensor_info_start_mistakes_example :
    tensor_info_start vocab_file
      (24 + length (encode_entry (codes "llama.vocab_size", scalar 4 (small_u32 9))))
    ≡ ok 24
tensor_info_start_mistakes_example =
    tensor_info_start_mistakes vocab_file (omega arith) 24 (codes "llama.vocab_size") (small_u32 9)
      refl refl vocab_key vocab_file-At
