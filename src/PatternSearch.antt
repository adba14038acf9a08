-- ===== src/PatternSearch.antt =====
-- tools/analyze/pattern.go: the search of a binary file for hex bytes with wildcards. A file is
-- its bytes, all readable, and a hit is its offset: the virtual address, the section and the hex
-- bytes printed next to it are left out.
pub mod Text
pub mod Windows
pub mod Whole
pub mod Examples
use agent_tool.Base.Int.{ℤ, pos_part}
use agent_tool.Base.{
  ℕ, zero, suc, ◌+◌, ◌-◌, ◌*◌, ◌/◌, ◌%◌, Bool, true, false, not, ◌&&◌, ◌||◌, List, [], ◌∷◌, ◌++◌,
  Option, none, some, ltb, leb, ◌==◌, if◌then◌else◌, ◌>>=◌, Bytes, codes, length, take, drop,
  bytes_eq, join, is_space, min,
}

abbrev pub default_pattern_max_results : ℕ
default_pattern_max_results = 100

abbrev pub max_pattern_max_results : ℕ
max_pattern_max_results = 500

abbrev pub pattern_chunk_size : ℕ
pattern_chunk_size = 4 * 1024 * 1024

abbrev pub pattern_overlap : ℕ
pattern_overlap = 256

-- `strings.Fields`, for white space in ASCII.
abbrev pub start_field : ℕ → List Bytes → List Bytes
start_field c [] = (c ∷ []) ∷ []
start_field c (f ∷ fs) = (c ∷ f) ∷ fs

-- The fields of a text, the first one empty where it starts with white space.
unfoldable pub fields_from : Bytes → List Bytes
fields_from [] = [] ∷ []
fields_from (c ∷ s) =
    let rest = fields_from s in if is_space c then [] ∷ rest else start_field c rest

unfoldable pub drop_empty : List Bytes → List Bytes
drop_empty [] = []
drop_empty ([] ∷ fs) = drop_empty fs
drop_empty ((c ∷ f) ∷ fs) = (c ∷ f) ∷ drop_empty fs

unfoldable pub fields : Bytes → List Bytes
fields s = drop_empty (fields_from s)

-- `hex.DecodeString` of a text that gives one byte.
unfoldable pub hex_digit : ℕ → Option ℕ
hex_digit c =
    if leb b'0' c && leb c b'9'
    then some (c - b'0')
    else if leb b'a' c && leb c b'f'
    then some (c - b'a' + 10)
    else if leb b'A' c && leb c b'F'
    then some (c - b'A' + 10)
    else none

unfoldable pub hex_byte : Bytes → Option ℕ
hex_byte (a ∷ b ∷ []) = hex_digit a >>= (λ hi. hex_digit b >>= (λ lo. some (16 * hi + lo)))
hex_byte _ = none

-- A pattern: the bytes, and for each whether it must match.
pub record Pattern : Type 0 where
  pub bytes : Bytes
  pub mask : List Bool

-- What `parseHexPattern` returns, its errors included.
pub data PatternResult : Type 0 where
  empty_pattern pattern_too_long : PatternResult
  invalid_hex_byte : ℕ → Bytes → PatternResult
  parsed : Pattern → PatternResult

abbrev pub is_wildcard : Bytes → Bool
is_wildcard tok = bytes_eq tok (codes "??") || bytes_eq tok (codes "?")

abbrev pub put_first : ℕ → Bool → PatternResult → PatternResult
put_first b m (parsed p) = parsed (record { bytes = b ∷ p.bytes; mask = m ∷ p.mask })
put_first b m r = r

-- The loop over the tokens.
unfoldable pub parse_tokens : ℕ → List Bytes → PatternResult
parse_tokens i [] = parsed (record { bytes = []; mask = [] })
parse_tokens i (tok ∷ toks) =
    let rest = parse_tokens (suc i) toks in
    if is_wildcard tok
    then put_first 0 false rest
    else elim (hex_byte tok) [ none ↦ invalid_hex_byte i tok | some b ↦ put_first b true rest ]

unfoldable pub parse_hex_pattern : Bytes → PatternResult
parse_hex_pattern pattern =
    let tokens = fields pattern in
    if length tokens == 0
    then empty_pattern
    else if leb pattern_overlap (length tokens)
    then pattern_too_long
    else parse_tokens 0 tokens

-- `matchPattern`: the caller gives as many bytes as the pattern has.
unfoldable pub match_pattern : Bytes → Bytes → List Bool → Bool
match_pattern (d ∷ ds) (p ∷ ps) (m ∷ ms) =
    let rest = match_pattern ds ps ms in if m && not (d == p) then false else rest
match_pattern ds ps ms = true

-- `matchPattern(chunk[i:i+patLen], patternBytes, mask)`.
unfoldable pub matches_at : Pattern → Bytes → ℕ → Bool
matches_at pat chunk i = match_pattern (take (length pat.bytes) (drop i chunk)) pat.bytes pat.mask

-- The number of the positions `i <= len(chunk)-patLen`.
abbrev pub positions : Pattern → ℕ → ℕ
positions pat len = suc len - length pat.bytes

-- The search by chunks of `size` bytes that reach `overlap` bytes further.
module _ (size overlap : ℕ) (pat : Pattern) (max_res : ℕ) where
  -- The loop over the positions of a chunk, `n` of them to come: the offsets it reports.
  unfoldable pub search_chunk : ℕ → Bytes → ℕ → ℕ → ℕ → List ℕ
  search_chunk zero chunk file_offset i found = []
  search_chunk (suc n) chunk file_offset i found =
      let next = search_chunk n chunk file_offset (suc i) found in
      let rest = search_chunk n chunk file_offset (suc i) (suc found) in
      if ltb 0 file_offset && ltb i overlap
      then next
      else if matches_at pat chunk i
      then (file_offset + i) ∷ (if leb max_res (suc found) then [] else rest)
      else next

  -- The loop over the chunks of a file.
  unfoldable pub search_file : ℕ → Bytes → ℕ → ℕ → List ℕ
  search_file zero file file_offset found = []
  search_file (suc f) file file_offset found =
      let chunk = take (min (size + overlap) (length file - file_offset)) (drop file_offset file) in
      let hits = search_chunk (positions pat (length chunk)) chunk file_offset 0 found in
      let rest = search_file f file (file_offset + size) (found + length hits) in
      if ltb file_offset (length file) && ltb found max_res then hits ++ rest else []

-- `hex.EncodeToString`, and `formatHexSpaced` of it, which is printed with a hit.
abbrev pub hex_char : ℕ → ℕ
hex_char n = if ltb n 10 then b'0' + n else b'a' + (n - 10)

unfoldable pub encode_hex : Bytes → Bytes
encode_hex [] = []
encode_hex (b ∷ bs) = hex_char (b / 16) ∷ (hex_char (b % 16) ∷ encode_hex bs)

unfoldable pub pairs : Bytes → List Bytes
pairs (a ∷ b ∷ s) = (a ∷ b ∷ []) ∷ pairs s
pairs (a ∷ []) = (a ∷ []) ∷ []
pairs [] = []

unfoldable pub format_hex_spaced : Bytes → Bytes
format_hex_spaced h = join (pairs h) (codes " ")

-- The default and the limit for `max_results`.
unfoldable pub clamp_results : ℤ → ℕ
clamp_results n =
    let k = pos_part n in
    if k == 0
    then default_pattern_max_results
    else if ltb max_pattern_max_results k
    then max_pattern_max_results
    else k

-- `opPatternSearch` on a file that can be read: the offsets it prints, or the error of the pattern.
-- A chunk takes at least a byte, so as many rounds as the file has bytes are enough.
pub data SearchResult : Type 0 where
  bad_pattern : PatternResult → SearchResult
  hits_at : List ℕ → SearchResult

unfoldable pub op_pattern_search : Bytes → Bytes → ℤ → SearchResult
op_pattern_search file pattern max_results = elim (parse_hex_pattern pattern) [
  | parsed pat ↦ hits_at (
      search_file pattern_chunk_size pattern_overlap pat (clamp_results max_results) (length file)
        file 0 0)
  | e ↦ bad_pattern e
]
