-- ===== src/LineEnding/Dominant.antt =====
-- common/fileutil.go, `AnalyzeLineEndings`: what the counts and the dominant form mean.
use agent_tool.Base.{
  ℕ, suc, ◌+◌, ◌≤◌, false, [], ◌∷◌, ◌≡◌, inl, inr, arith, ◌==◌, if◌then◌else◌, Bool-cases, Bytes,
}
use agent_tool.LineEnding.Normalise.{normalized-normalize_line_endings}
use agent_tool.LineEnding.{
  Ending, lf, crlf, cr, Counts, no_counts, count_from, count_byte, count_one, dominant_of,
  analyze_line_endings, detect_line_ending, is_pair, to_lf, normalized, normalize_line_endings,
}

abbrev pub form_count : Counts → Ending → ℕ
form_count c lf = c.lf_count
form_count c crlf = c.crlf_count
form_count c cr = c.cr_count

abbrev pub total : Counts → ℕ
total c = c.lf_count + c.crlf_count + c.cr_count

-- The newlines of a text that has no CR.
abbrev pub newlines : Bytes → ℕ
newlines [] = 0
newlines (c ∷ s) = if c == b'\n' then suc (newlines s) else newlines s

total-count_byte :
    (b : ℕ) (c : Counts) (s : Bytes)
    → total (count_byte b c) + newlines s ≡ total c + newlines (to_lf b ∷ s)
total-count_byte b c s = elim (Bool-cases (b == b'\n')) [
  | inl nl ↦ let no_r : (b == b'\r') ≡ false = ground arith in rw (nl, no_r) (rw nl (omega arith))
  | inr other ↦ elim (Bool-cases (b == b'\r')) [
    | inl r ↦ rw (other, r) (omega arith)
    | inr plain ↦ rw (other, plain) (rw other (omega arith))
  ]
]

total-count_from :
    (c : Counts) (s : Bytes) → total (count_from c s) ≡ total c + newlines (normalized s)
unfolding count_from normalized
total-count_from c [] = omega arith
total-count_from c (b ∷ []) = let r = total-count_byte b c [] in omega (arith, r)
total-count_from c (b ∷ d ∷ s) = elim (Bool-cases (is_pair b d)) [
  | inl pair ↦
      let r = total-count_from (count_one crlf c) s in
      rw (pair, count_from, normalized) (omega (arith, r))
  | inr single ↦
      let r = total-count_from (count_byte b c) (d ∷ s) in
      let q = total-count_byte b c (normalized (d ∷ s)) in
      rw (single, count_from, normalized) (omega (arith, r, q))
]

-- Every newline is counted once: the counts of the three forms add up to the number of newlines of
-- the content with LF newlines.
pub total-analyze_line_endings :
    (content : Bytes)
    → total (analyze_line_endings content).counts ≡ newlines (normalize_line_endings content lf)
unfolding analyze_line_endings
total-analyze_line_endings content =
    let r = total-count_from no_counts content in
    rw (← normalized-normalize_line_endings content) (omega (arith, r))

form_count-dominant_of : (c : Counts) (e : Ending) → form_count c e ≤ form_count c (dominant_of c)
unfolding dominant_of
form_count-dominant_of c lf = ground arith
form_count-dominant_of c crlf = ground arith
form_count-dominant_of c cr = ground arith

-- No form of newline occurs more often than the dominant one.
pub form_count-detect_line_ending :
    (content : Bytes) (e : Ending)
    → form_count (analyze_line_endings content).counts e
      ≤ form_count (analyze_line_endings content).counts (detect_line_ending content)
unfolding analyze_line_endings detect_line_ending
form_count-detect_line_ending content e = form_count-dominant_of (count_from no_counts content) e
