-- ===== src/PatternSearch/Examples.antt =====
-- tools/analyze/pattern.go: the search on small files, and the theorems at concrete inputs.
use agent_tool.Base.{
  ◌≡◌, refl, [], ◌∷◌, true, false, Bytes, bytes_eq, codes, replicate, length, take,
}
use agent_tool.Base.Int.{pos}
use agent_tool.PatternSearch.{
  fields, drop_empty, fields_from, parse_tokens, hex_byte, hex_digit, search_chunk, matches_at,
  match_pattern, Pattern, parsed, invalid_hex_byte, parse_hex_pattern, op_pattern_search, hits_at,
  search_file, pattern_overlap, pattern_chunk_size, positions, clamp_results,
}
use agent_tool.PatternSearch.Text.{exactly}
use agent_tool.PatternSearch.Windows.{offsets, is_reported}
use agent_tool.PatternSearch.Whole.{op_pattern_search-offsets}

abbrev mz_any : Pattern
mz_any = record { bytes = 0x4d ∷ (0x5a ∷ (0 ∷ [])); mask = true ∷ (true ∷ (false ∷ [])) }

parses : parse_hex_pattern (codes " 4d 5A ?? ") ≡ parsed mz_any
unfolding parse_hex_pattern fields drop_empty fields_from parse_tokens bytes_eq hex_byte hex_digit
parses = refl

refuses_half_bytes : parse_hex_pattern (codes "4D 5") ≡ invalid_hex_byte 1 (codes "5")
unfolding parse_hex_pattern fields drop_empty fields_from parse_tokens bytes_eq hex_byte hex_digit
refuses_half_bytes = refl

abbrev small_file : Bytes
small_file = 0 ∷ (0x4d ∷ (0x5a ∷ (0x4d ∷ (0x5a ∷ (1 ∷ [])))))

finds_all : op_pattern_search small_file (codes "4d 5a ?") (pos 0) ≡ hits_at (1 ∷ (3 ∷ []))
unfolding op_pattern_search clamp_results parse_hex_pattern fields drop_empty fields_from
    parse_tokens bytes_eq hex_byte hex_digit search_file search_chunk matches_at match_pattern
finds_all = refl

finds_the_first : op_pattern_search small_file (codes "4d 5a ?") (pos 1) ≡ hits_at (1 ∷ [])
unfolding op_pattern_search clamp_results parse_hex_pattern fields drop_empty fields_from
    parse_tokens bytes_eq hex_byte hex_digit search_file search_chunk matches_at match_pattern
finds_the_first = refl

-- With chunks of eight bytes that reach two further, two equal bytes at nine are passed over.
abbrev two_bytes : Pattern
two_bytes = exactly (7 ∷ (7 ∷ []))

passes_over :
    search_file 8 2 two_bytes 100 13 (replicate 13 7) 0 0
    ≡ 0 ∷ (1 ∷ (2 ∷ (3 ∷ (4 ∷ (5 ∷ (6 ∷ (7 ∷ (8 ∷ (10 ∷ (11 ∷ []))))))))))
unfolding search_file search_chunk matches_at match_pattern
passes_over = refl

op_pattern_search-offsets_example :
    op_pattern_search small_file (codes "4d 5a ?") (pos 0)
    ≡ hits_at (
        take (clamp_results (pos 0)) (
          offsets
            (is_reported pattern_chunk_size pattern_overlap mz_any small_file)
            0
            (positions mz_any (length small_file))))
unfolding parse_hex_pattern fields drop_empty fields_from parse_tokens bytes_eq hex_byte hex_digit
op_pattern_search-offsets_example =
    op_pattern_search-offsets small_file (codes "4d 5a ?") (pos 0) mz_any refl
