-- ===== src/BinDiff/Examples.antt =====
-- tools/analyze/bindiff.go: small files, and the theorem at a concrete input.
use agent_tool.Base.Int.{pos}
use agent_tool.Base.{◌≡◌, refl, [], ◌∷◌, Bytes, take, length, min}
use agent_tool.BinDiff.{op_bin_diff, diff_files, diff_chunk, note, clamp_max}
use agent_tool.BinDiff.Plain.{differences, op_bin_diff-differences}

abbrev file_a : Bytes
file_a = 1 ∷ (2 ∷ (3 ∷ (4 ∷ [])))

abbrev file_b : Bytes
file_b = 1 ∷ (9 ∷ (8 ∷ []))

shows_the_first : op_bin_diff file_a file_b (pos 1) ≡ record {
  rows = record { offset = 1; byte_a = 2; byte_b = 9 } ∷ [];
  found = 1;
  total_diffs = 2;
}
unfolding op_bin_diff diff_files diff_chunk note clamp_max
shows_the_first = refl

op_bin_diff-differences_example : op_bin_diff file_a file_b (pos 1) ≡ record {
  rows = take (clamp_max (pos 1)) (differences 0 file_a file_b);
  found = min (clamp_max (pos 1)) (length (differences 0 file_a file_b));
  total_diffs = length (differences 0 file_a file_b);
}
op_bin_diff-differences_example = op_bin_diff-differences file_a file_b (pos 1)
