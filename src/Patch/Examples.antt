-- ===== src/Patch/Examples.antt =====
-- Runs of the patch tool, and the theorems at concrete inputs.
use agent_tool.Base.{
  List, [], ◌∷◌, ◌≡◌, refl, arith, Bytes, codes, All, split, trim_right, trim_left, replace_crlf,
  has_prefix, bytes_eq,
}
use agent_tool.Patch.Hunks.{texts}
use agent_tool.Patch.Parse.{parse_unified_diff, after, Parsed}
use agent_tool.Patch.Refine.{
  Fits, Replaces, apply_hunk_complete, apply_hunk_sound, apply_hunk-invert, invert, IsContextHunk,
}
use agent_tool.Patch.Split.{render-split_keeping_terminators}
use agent_tool.Patch.{
  Op, keep, delete, insert, HunkLine, Hunk, SrcLine, ok, err, mismatch, lf, crlf, apply_hunk,
  apply_backwards, verify, build, render, ends_with_newline, split_keeping_terminators,
  patch_content,
}

abbrev hunk_line : Op → Bytes → HunkLine
hunk_line o t = record { op = o; text = t }

-- Replaces "b" by "B" in the second line.
abbrev swap_b : Hunk
swap_b = record {
  src_start = 1;
  src_count = 2;
  dst_start = 1;
  dst_count = 2;
  lines =
      hunk_line keep (codes "a") ∷ hunk_line delete (codes "b") ∷ hunk_line insert (codes "B") ∷ [];
}

abbrev context_hunk : Hunk
context_hunk = record swap_b {
  lines = hunk_line keep (codes "a") ∷ hunk_line keep (codes "b") ∷ [];
}

abbrev mixed : Bytes
mixed = codes "a\r\nb\nc"

abbrev mixed_lines : List SrcLine
mixed_lines =
    record { text = codes "a"; term = crlf }
    ∷ record { text = codes "b"; term = lf }
    ∷ record { text = codes "c"; term = [] }
    ∷ []

abbrev swapped_lines : List SrcLine
swapped_lines =
    record { text = codes "a"; term = crlf }
    ∷ record { text = codes "B"; term = lf }
    ∷ record { text = codes "c"; term = [] }
    ∷ []

split-mixed : split_keeping_terminators mixed ≡ mixed_lines
unfolding split_keeping_terminators
split-mixed = refl

swap_b_applied : apply_hunk crlf 1 swap_b mixed_lines ≡ ok swapped_lines
unfolding apply_hunk verify build bytes_eq
swap_b_applied = refl

patched : patch_content crlf mixed (swap_b ∷ []) ≡ ok (codes "a\r\nB\nc")
unfolding patch_content split_keeping_terminators apply_backwards apply_hunk verify build bytes_eq
    render ends_with_newline
patched = refl

refused : patch_content crlf (codes "x\n") (swap_b ∷ []) ≡ err (mismatch 1 1)
unfolding patch_content split_keeping_terminators apply_backwards apply_hunk verify build bytes_eq
refused = refl

parsed :
    parse_unified_diff (codes "--- x\n+++ y\n@@ -1,2 +1,2 @@ f\n a\n-b\n+B\n\\ No newline\n")
    ≡ Parsed.ok (swap_b ∷ [])
unfolding parse_unified_diff split trim_right trim_left replace_crlf has_prefix after
parsed = refl

-- A deletion of "-- b" is printed "--- b", and is lost.
deletion_lost :
    parse_unified_diff (codes "@@ -1,2 +1 @@\n a\n--- b\n")
    ≡ Parsed.ok (
        record {
          src_start = 1;
          src_count = 2;
          dst_start = 1;
          dst_count = 1;
          lines = hunk_line keep (codes "a") ∷ [];
        }
        ∷ [])
unfolding parse_unified_diff split trim_right trim_left replace_crlf has_prefix after
deletion_lost = refl

swap_b-Fits : Fits swap_b mixed_lines
swap_b-Fits = record { starts = omega arith; within = omega arith; stands = refl }

render-split_keeping_terminators_example :
    render (ends_with_newline mixed) lf (split_keeping_terminators mixed) ≡ mixed
render-split_keeping_terminators_example = render-split_keeping_terminators lf mixed

apply_hunk_complete_example :
    (ls' : List SrcLine) × (apply_hunk crlf 1 swap_b mixed_lines ≡ ok ls')
    × Replaces swap_b mixed_lines ls'
apply_hunk_complete_example = apply_hunk_complete crlf 1 swap_b mixed_lines swap_b-Fits

apply_hunk_sound_example : Fits swap_b mixed_lines × Replaces swap_b mixed_lines swapped_lines
apply_hunk_sound_example = apply_hunk_sound crlf 1 swap_b mixed_lines swapped_lines swap_b_applied

apply_hunk-invert_example :
    (ls'' : List SrcLine) × (apply_hunk crlf 1 (invert swap_b) swapped_lines ≡ ok ls'')
    × (texts ls'' ≡ texts mixed_lines)
apply_hunk-invert_example =
    apply_hunk-invert crlf 1 swap_b mixed_lines swapped_lines refl swap_b_applied

context_fits : All (IsContextHunk (split_keeping_terminators mixed)) (context_hunk ∷ [])
unfolding split_keeping_terminators
context_fits =
    (((refl, (refl, tt)), record { starts = omega arith; within = omega arith; stands = refl }), tt)
