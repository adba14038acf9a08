-- ===== src/TextDiff/Examples.antt =====
-- Runs of the printer, and the theorems at concrete inputs.
use mathlib.Core.List.{flat_map}
use agent_tool.Base.Decimal.{decimal}
use agent_tool.Base.{
  List, [], ◌∷◌, ◌≡◌, refl, map, ℕ, All, arith, Bytes, codes, split, replace_crlf, has_prefix,
}
use agent_tool.Patch.Parse.{Parsed, parse_unified_diff, is_file_header}
use agent_tool.Patch.{Hunk, SrcLine, Applied, apply_hunk, invalid_start}
use agent_tool.TextDiff.Misplaced.{insertion, insertion_refused}
use agent_tool.TextDiff.Parse.{group_hunk, IsReadable}
use agent_tool.TextDiff.Text.{IsOneLine, parse_unified_diff-unified}
use agent_tool.Patch.Hunks.{target_texts}
use agent_tool.TextDiff.{
  Tag, Group, slice, split_lines, unified, unified_lines, hunk_header, group_body, op_lines,
  range_line,
}

abbrev old : List Bytes
old = codes "a" ∷ codes "b" ∷ []

abbrev new : List Bytes
new = codes "a" ∷ codes "B" ∷ []

abbrev swap : Group
swap = record {
  first = record { tag = Tag.equal; i1 = 0; i2 = 1; j1 = 0; j2 = 1 };
  others = record { tag = Tag.replace; i1 = 1; i2 = 2; j1 = 1; j2 = 2 } ∷ [];
}

split_lines_crlf : split_lines (codes "a\r\nb\n") ≡ old
unfolding split_lines split replace_crlf
split_lines_crlf = refl

unified-swap :
    unified (codes "x") (codes "y") old new (swap ∷ [])
    ≡ codes "--- x\n+++ y\n@@ -1,2 +1,2 @@\n a\n-b\n+B\n"
unfolding unified unified_lines hunk_header group_body op_lines range_line decimal flat_map
unified-swap = refl

swap-IsReadable : IsReadable old new swap
unfolding is_file_header has_prefix range_line
swap-IsReadable = record {
  src_start_fits = omega arith;
  src_count_fits = omega arith;
  dst_start_fits = omega arith;
  dst_count_fits = omega arith;
  plain = (refl, (refl, (refl, tt)));
}

old-IsOneLine : All IsOneLine old
old-IsOneLine = ground arith

new-IsOneLine : All IsOneLine new
new-IsOneLine = ground arith

parse_unified_diff-unified_example :
    parse_unified_diff (unified (codes "x") (codes "y") old new (swap ∷ []))
    ≡ Parsed.ok (map (group_hunk old new) (swap ∷ []))
parse_unified_diff-unified_example =
    parse_unified_diff-unified (codes "x") (codes "y") old new (swap ∷ []) (ground arith)
      (ground arith) old-IsOneLine new-IsOneLine (swap-IsReadable, tt)

insertion-IsReadable : IsReadable [] new (insertion 0 0 2)
unfolding is_file_header has_prefix range_line
insertion-IsReadable = record {
  src_start_fits = omega arith;
  src_count_fits = omega arith;
  dst_start_fits = omega arith;
  dst_count_fits = omega arith;
  plain = (refl, (refl, tt));
}

insertion_refused_example :
    (h : Hunk) × (parse_unified_diff (unified (codes "x") (codes "y") [] new (insertion 0 0 2 ∷ []))
      ≡ Parsed.ok (h ∷ []))
    × (target_texts h.lines ≡ slice new 0 2)
    × ((dominant : Bytes) (n : ℕ) (ls : List SrcLine)
        → apply_hunk dominant n h ls ≡ Applied.err (invalid_start n 0))
insertion_refused_example =
    insertion_refused (codes "x") (codes "y") [] new 0 2 (ground arith) (ground arith) tt
      new-IsOneLine insertion-IsReadable
