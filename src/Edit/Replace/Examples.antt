-- ===== src/Edit/Replace/Examples.antt =====
-- Runs of `Replace`, and the theorems at concrete inputs.
use mathlib.Core.List.{flat_map}
use agent_tool.Base.{
  ◌≡◌, refl, [], true, false, arith, Bytes, codes, index, has_prefix, replace_crlf,
}
use agent_tool.LineEnding.{
  new_line_ending_map, normalized, contains_byte, detect_line_ending, analyze_line_endings,
  count_from, dominant_of, kind_of, orig_offset, walk, normalize_line_endings, replace_cr,
  replace_lf,
}
use agent_tool.LineEnding.Cursor.{
  new_line_ending_cursor, at, span_majority, tally_span, terminator, rescan, keep_found, scan_from,
  kind_at, is_byte, is_byte_before, behind_newline, settle, move_to, final, last_newline,
}
use agent_tool.Edit.{IndentStyle}
use agent_tool.Edit.Replace.{
  ReplaceResult, applied, apply_spans, count_occurrences, count_hits, next_hit, at_line_start,
  splice_all, splice, write_hit, put_text, local_text,
}
use agent_tool.Edit.Replace.Hits.{count_hits_enough}
use agent_tool.Edit.Replace.Outcome.{Outcome}

abbrev crlf_file : Bytes
crlf_file = codes "a\r\n\tb\r\nc\n"

abbrev tabs : IndentStyle
tabs = record { use_tabs = true; indent_size = 4 }

-- The new line takes the newline of its place.
abbrev edited : ReplaceResult
edited =
    apply_spans (new_line_ending_map crlf_file) (new_line_ending_cursor crlf_file) (codes "b\nc")
      (codes "x\ny\nz") false false

edits_crlf : edited ≡ applied (codes "a\r\n\tx\r\ny\r\nz\n") 1
unfolding apply_spans count_occurrences count_hits next_hit new_line_ending_map contains_byte
    normalized index splice_all splice write_hit orig_offset walk put_text local_text
    normalize_line_endings at new_line_ending_cursor has_prefix replace_crlf at_line_start
    behind_newline final is_byte is_byte_before keep_found kind_at last_newline move_to rescan
    scan_from settle terminator span_majority tally_span analyze_line_endings count_from
    detect_line_ending dominant_of kind_of replace_cr replace_lf flat_map
edits_crlf = refl

-- A text that is taken out between a CR and an LF leaves one newline of the two.
joined :
    apply_spans
      (new_line_ending_map (codes "a\rX\nb"))
      (new_line_ending_cursor (codes "a\rX\nb"))
      (codes "X")
      []
      false
      false
    ≡ applied (codes "a\r\nb") 1
unfolding apply_spans count_occurrences count_hits next_hit new_line_ending_map contains_byte
    normalized index splice_all splice write_hit orig_offset walk put_text local_text
    normalize_line_endings at new_line_ending_cursor has_prefix replace_crlf at_line_start
    behind_newline final is_byte is_byte_before keep_found kind_at last_newline move_to rescan
    scan_from settle terminator span_majority tally_span analyze_line_endings count_from
    detect_line_ending dominant_of kind_of replace_cr replace_lf flat_map
joined = refl

count_hits_enough_example :
    count_hits 4 (codes "aba") (codes "a") false 0 ≡ count_hits 5 (codes "aba") (codes "a") false 0
count_hits_enough_example =
    count_hits_enough 4 (codes "aba") (codes "a") false 0 (omega arith) (omega arith)
