-- ===== src/BinDiff.antt =====
-- tools/analyze/bindiff.go: the comparison of two files by chunks. The files can be read to their ends;
-- the texts around the rows are left out.
pub mod Plain
pub mod Examples
use agent_tool.Base.Int.{ℤ, pos_part}
use agent_tool.Base.{
  ℕ, zero, suc, ◌+◌, ◌-◌, ◌*◌, Bool, true, false, List, [], ◌∷◌, ◌++◌, ltb, ◌==◌, if◌then◌else◌,
  Bytes, length, take, drop, min,
}

abbrev pub default_diff_max_results : ℕ
default_diff_max_results = 100

abbrev pub max_diff_max_results : ℕ
max_diff_max_results = 500

abbrev pub diff_chunk_size : ℕ
diff_chunk_size = 64 * 1024

-- A row: the offset and the two bytes.
pub record Row : Type 0 where
  pub offset : ℕ
  pub byte_a : ℕ
  pub byte_b : ℕ

-- The rows written, `found` and `totalDiffs`.
pub record Diff : Type 0 where
  pub rows : List Row
  pub found : ℕ
  pub total_diffs : ℕ

module _ (max_res : ℕ) where
  -- What the loop does at a difference.
  unfoldable pub note : ℕ → ℕ → ℕ → Diff → Diff
  note at_offset a b d =
      let total = suc d.total_diffs in
      if ltb d.found max_res
      then record {
        rows = d.rows ++ (record { offset = at_offset; byte_a = a; byte_b = b } ∷ []);
        found = suc d.found;
        total_diffs = total;
      }
      else record d { total_diffs = total }

  -- The loop over the bytes that both chunks have.
  unfoldable pub diff_chunk : ℕ → Bytes → Bytes → Diff → Diff
  diff_chunk at_offset [] bs d = d
  diff_chunk at_offset (a ∷ as') [] d = d
  diff_chunk at_offset (a ∷ as') (b ∷ bs) d =
      diff_chunk (suc at_offset) as' bs (if a == b then d else note at_offset a b d)

  -- The loop over the chunks of `size` bytes, up to the length of the shorter file.
  unfoldable pub diff_files : ℕ → ℕ → ℕ → ℕ → Bytes → Bytes → Diff → Diff
  diff_files zero size compare_len off as' bs d = d
  diff_files (suc f) size compare_len off as' bs d =
      let read_len = min size (compare_len - off) in
      let d' = diff_chunk off (take read_len (drop off as')) (take read_len (drop off bs)) d in
      let rest = diff_files f size compare_len (off + size) as' bs d' in
      if ltb off compare_len then rest else d

unfoldable pub clamp_max : ℤ → ℕ
clamp_max n =
    let k = pos_part n in
    if k == 0
    then default_diff_max_results
    else if ltb max_diff_max_results k
    then max_diff_max_results
    else k

-- `opBinDiff` on files that can be read. Each round takes at least a byte.
unfoldable pub op_bin_diff : Bytes → Bytes → ℤ → Diff
op_bin_diff as' bs max_results =
    let compare_len = min (length as') (length bs) in
    diff_files (clamp_max max_results) compare_len diff_chunk_size compare_len 0 as' bs
      (record { rows = []; found = 0; total_diffs = 0 })
