-- ===== src/LineEnding.antt =====
-- common/lineending.go, and the line-ending functions of common/fileutil.go. The three newline forms
-- are constructors; the empty string, where the source uses it for "no newline", is `none`.
pub mod Cursor
pub mod Offsets
pub mod Normalise
pub mod Cache
pub mod Newlines
pub mod Majority
pub mod Stateless
pub mod Dominant
pub mod Examples
use mathlib.Core.List.{flat_map}
use agent_tool.Base.{
  ℕ, zero, suc, ◌+◌, ◌-◌, Bool, true, false, not, ◌&&◌, ◌||◌, List, [], ◌∷◌, ◌++◌, map, Option,
  none, some, ltb, leb, ◌==◌, if◌then◌else◌, Bytes, length, get_elem?, take, drop, replace_crlf,
}

pub data Ending : Type 0 where
  lf crlf cr : Ending

abbrev pub ending_text : Ending → Bytes
ending_text lf = b'\n' ∷ []
ending_text crlf = b'\r' ∷ b'\n' ∷ []
ending_text cr = b'\r' ∷ []

abbrev pub ending_eq : Ending → Ending → Bool
ending_eq lf lf = true
ending_eq crlf crlf = true
ending_eq cr cr = true
ending_eq _ _ = false

pub record Counts : Type 0 where
  pub lf_count : ℕ
  pub crlf_count : ℕ
  pub cr_count : ℕ
  pub first : Option Ending

abbrev note : Option Ending → Ending → Option Ending
note none e = some e
note (some f) e = some f

abbrev pub count_one : Ending → Counts → Counts
count_one lf c = record c { lf_count = c.lf_count + 1; first = note c.first lf }
count_one crlf c = record c { crlf_count = c.crlf_count + 1; first = note c.first crlf }
count_one cr c = record c { cr_count = c.cr_count + 1; first = note c.first cr }

abbrev pub count_byte : ℕ → Counts → Counts
count_byte b c = if b == b'\n' then count_one lf c else if b == b'\r' then count_one cr c else c

abbrev pub is_pair : ℕ → ℕ → Bool
is_pair b d = b == b'\r' && d == b'\n'

-- The loop of `AnalyzeLineEndings`.
unfoldable pub count_from : Counts → Bytes → Counts
count_from c [] = c
count_from c (b ∷ []) = count_byte b c
count_from c (b ∷ d ∷ s) = elim (is_pair b d) [
  | true ↦ count_from (count_one crlf c) s
  | false ↦ count_from (count_byte b c) (d ∷ s)
]

abbrev pub no_counts : Counts
no_counts = record { lf_count = 0; crlf_count = 0; cr_count = 0; first = none }

abbrev is_first : Option Ending → Ending → Bool
is_first none e = false
is_first (some f) e = ending_eq e f

-- One round of the loop over the candidates.
abbrev consider : Option Ending → Ending → ℕ → Ending × ℕ → Ending × ℕ
consider first e count best =
    if ltb best.1 count || count == best.1 && is_first first e then (e, count) else best

unfoldable pub dominant_of : Counts → Ending
dominant_of c =
    (consider c.first cr c.cr_count
      (consider c.first lf c.lf_count (consider c.first crlf c.crlf_count (lf, 0)))).0

pub data Kind : Type 0 where
  no_newline only_lf only_crlf only_cr mixed : Kind

-- The name of the kind; "Mixed" where more than one form occurs.
unfoldable pub kind_of : Counts → Kind
kind_of c =
    if ltb 0 c.lf_count
    then (if ltb 0 c.crlf_count || ltb 0 c.cr_count then mixed else only_lf)
    else if ltb 0 c.crlf_count
    then (if ltb 0 c.cr_count then mixed else only_crlf)
    else if ltb 0 c.cr_count
    then only_cr
    else no_newline

pub record LineEndingInfo : Type 0 where
  pub kind : Kind
  pub dominant : Ending
  pub counts : Counts

unfoldable pub analyze_line_endings : Bytes → LineEndingInfo
unfolding count_from dominant_of kind_of
analyze_line_endings content =
    let c = count_from no_counts content in
    record { kind = kind_of c; dominant = dominant_of c; counts = c }

unfoldable pub detect_line_ending : Bytes → Ending
unfolding analyze_line_endings
detect_line_ending content = (analyze_line_endings content).dominant

-- `strings.ReplaceAll(content, "\r", "\n")`.
unfoldable pub replace_cr : Bytes → Bytes
replace_cr = map (λ c. if c == b'\r' then b'\n' else c)

-- `strings.ReplaceAll(content, "\n", target)`.
unfoldable pub replace_lf : Bytes → Bytes → Bytes
replace_lf target = flat_map (λ c. if c == b'\n' then target else c ∷ [])

-- `NormalizeLineEndings`.
unfoldable pub normalize_line_endings : Bytes → Ending → Bytes
normalize_line_endings content lf = replace_cr (replace_crlf content)
normalize_line_endings content e = replace_lf (ending_text e) (replace_cr (replace_crlf content))

abbrev pub to_lf : ℕ → ℕ
to_lf c = if c == b'\r' then b'\n' else c

-- The loop of `NewLineEndingMap` that builds `Norm`.
unfoldable pub normalized : Bytes → Bytes
normalized [] = []
normalized (c ∷ []) = to_lf c ∷ []
normalized (c ∷ d ∷ s) = elim (is_pair c d) [
  | true ↦ b'\n' ∷ normalized s
  | false ↦ to_lf c ∷ normalized (d ∷ s)
]

-- `LineEndingMap`, with the position that offset translation keeps.
pub record LineEndingMap : Type 0 where
  pub original : Bytes
  pub norm : Bytes
  pub dominant : Ending
  pub cur_norm : ℕ
  pub cur_orig : ℕ

unfoldable pub contains_byte : ℕ → Bytes → Bool
contains_byte b [] = false
contains_byte b (c ∷ s) = c == b || contains_byte b s

unfoldable pub new_line_ending_map : Bytes → LineEndingMap
new_line_ending_map content = record {
  original = content;
  norm = if contains_byte b'\r' content then normalized content else content;
  dominant = detect_line_ending content;
  cur_norm = 0;
  cur_orig = 0;
}

-- How many bytes of the original the byte at `p` of the view stands for. The loop that asks never
-- reads past the end.
abbrev pub pair_at : Bytes → Bool
pair_at [] = false
pair_at (c ∷ []) = false
pair_at (c ∷ d ∷ s) = is_pair c d

-- `for m.curNorm < norm`, with the rounds left.
unfoldable pub walk : Bytes → ℕ → ℕ → ℕ
walk original zero p = p
walk original (suc k) p = walk original k (if pair_at (drop p original) then p + 2 else p + 1)

-- `OrigOffset` for an offset that is not negative: the offset and the moved map.
unfoldable pub orig_offset : LineEndingMap → ℕ → ℕ × LineEndingMap
orig_offset m n =
    let norm = if ltb (length m.norm) n then length m.norm else n in
    let start = if ltb norm m.cur_norm then 0 else m.cur_norm in
    let from = if ltb norm m.cur_norm then 0 else m.cur_orig in
    let p = walk m.original (norm - start) from in
    if length m.norm == length m.original
    then (norm, m)
    else (p, record m { cur_norm = norm; cur_orig = p })
