-- ===== src/LineEnding/Examples.antt =====
-- Runs of the line-ending functions, and the theorems at concrete inputs.
use mathlib.Core.List.{flat_map}
use agent_tool.Base.Int.{ℤ, pos, negsuc}
use agent_tool.Base.{replace_crlf, ℕ, ◌-◌, List, [], ◌∷◌, map, ◌≡◌, refl, Bytes, codes, take, drop}
use agent_tool.LineEnding.{
  lf, crlf, cr, analyze_line_endings, detect_line_ending, normalize_line_endings, normalized,
  new_line_ending_map, orig_offset, mixed, replace_lf, replace_cr, contains_byte, count_from,
  dominant_of, kind_of,
}
use agent_tool.LineEnding.Normalise.{norm-new_line_ending_map}
use agent_tool.LineEnding.Offsets.{orig_offset_lem, IsTracking, new_line_ending_map-IsTracking}
use agent_tool.LineEnding.Newlines.{newlines_in}
use agent_tool.LineEnding.Majority.{IsMajority}
use agent_tool.LineEnding.Cursor.{
  new_line_ending_cursor, at, span_majority, tally_span, terminator, rescan, keep_found, scan_from,
  kind_at, is_byte, is_byte_before, behind_newline, settle, move_to,
}
use agent_tool.LineEnding.Stateless.{at_each, ending_at, at_each-new_line_ending_cursor}

-- A CRLF, an LF, a CR and a CRLF.
abbrev text : Bytes
text = codes "a\r\nb\nc\rd\r\n"

detect_crlf : detect_line_ending text ≡ crlf
unfolding detect_line_ending analyze_line_endings count_from dominant_of kind_of
detect_crlf = refl

kind_mixed : (analyze_line_endings text).kind ≡ mixed
unfolding detect_line_ending analyze_line_endings count_from dominant_of kind_of
kind_mixed = refl

to_lf_all : normalize_line_endings text lf ≡ codes "a\nb\nc\nd\n"
unfolding normalize_line_endings replace_lf flat_map replace_cr replace_crlf
to_lf_all = refl

to_crlf_all : normalize_line_endings text crlf ≡ codes "a\r\nb\r\nc\r\nd\r\n"
unfolding normalize_line_endings replace_lf flat_map replace_cr replace_crlf
to_crlf_all = refl

norm-new_line_ending_map_example : (new_line_ending_map text).norm ≡ normalize_line_endings text lf
norm-new_line_ending_map_example = norm-new_line_ending_map text

orig_offset_lem_example :
    (normalized (take (orig_offset (new_line_ending_map text) 4).0 text)
      ≡ take 4 (new_line_ending_map text).norm)
    × (normalized (drop (orig_offset (new_line_ending_map text) 4).0 text)
        ≡ drop 4 (new_line_ending_map text).norm)
    × IsTracking (orig_offset (new_line_ending_map text) 4).1
unfolding new_line_ending_map
orig_offset_lem_example =
    orig_offset_lem (new_line_ending_map text) 4 (new_line_ending_map-IsTracking text)

-- Forwards, backwards and forwards again.
abbrev queries : List (ℤ × ℤ)
queries = (negsuc 3, pos 1) ∷ (pos 3, pos 4) ∷ (pos 0, negsuc 0) ∷ (pos 0, pos 8) ∷ []

at_each-new_line_ending_cursor_example :
    (at_each (new_line_ending_cursor text) queries
      ≡ map (λ (q : ℤ × ℤ). ending_at (new_line_ending_cursor text) q.0 q.1) queries)
    × ((start end : ℕ)
        → IsMajority (newlines_in text start (end - start) start) (span_majority text start end))
at_each-new_line_ending_cursor_example = at_each-new_line_ending_cursor text queries

asked :
    at_each
      (new_line_ending_cursor text)
      ((negsuc 3, pos 1) ∷ (pos 3, pos 4) ∷ (pos 0, negsuc 0) ∷ (pos 5, pos 7) ∷ [])
    ≡ crlf ∷ lf ∷ crlf ∷ cr ∷ []
unfolding at_each at new_line_ending_cursor contains_byte span_majority tally_span terminator rescan
    keep_found scan_from kind_at is_byte is_byte_before behind_newline settle move_to
    detect_line_ending analyze_line_endings count_from dominant_of kind_of
asked = refl
