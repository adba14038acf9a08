-- ===== src/Capture/Examples.antt =====
-- Runs of the capture, and the theorems at concrete inputs.
use mathlib.Core.List.{flatten}
use agent_tool.Base.{List, [], ◌∷◌, ◌≡◌, refl, true, Bytes, codes, arith}
use agent_tool.Base.Decimal.{decimal}
use agent_tool.Base.Utf8.{to_valid_utf8, IsUtf8, done, char, rune_len}
use agent_tool.Capture.{
  Mode, empty_capture, write_all, result, fill_head, fill_tail, head_limit, tail_limit,
}
use agent_tool.Capture.Stream.{Holds, write_all_lem}

abbrev chunks : List Bytes
chunks = codes "hel" ∷ codes "lo" ∷ []

cut_short :
    result (write_all (empty_capture 4 Mode.head_tail) chunks)
    ≡ (codes "he\n...[truncated; original_bytes=5; retained_bytes=4]...\nlo", 5, true)
unfolding result write_all fill_head fill_tail head_limit tail_limit to_valid_utf8 decimal
cut_short = refl

chunks-IsUtf8 : IsUtf8 (flatten chunks)
unfolding rune_len flatten
chunks-IsUtf8 = char _ _ (omega arith) (
    char _ _ (omega arith)
      (char _ _ (omega arith) (char _ _ (omega arith) (char _ _ (omega arith) done))))

write_all_lem_example :
    Holds 4 Mode.head_tail (write_all (empty_capture 4 Mode.head_tail) chunks) (flatten chunks)
write_all_lem_example = write_all_lem 4 Mode.head_tail chunks
