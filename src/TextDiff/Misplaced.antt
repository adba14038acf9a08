-- ===== src/TextDiff/Misplaced.antt =====
-- The header of an empty source range, and where the patch tool puts such a hunk.
use agent_tool.Base.{
  ℕ, ◌+◌, ◌-◌, ◌≤◌, ◌<◌, List, [], ◌∷◌, ◌++◌, append-nil, ◌≡◌, refl, ap, ◌∙◌, arith, Bytes, length,
  All, take, drop,
}
use agent_tool.Patch.Hunks.{texts, source_texts, target_texts}
use agent_tool.Patch.Refine.{apply_hunk_complete}
use agent_tool.Patch.{Op, Hunk, SrcLine, ok, err, invalid_start, apply_hunk}
use agent_tool.Patch.Parse
use agent_tool.Patch.Parse.{parse_unified_diff}
use agent_tool.TextDiff.Parse.{group_hunk, as_lines, IsReadable}
use agent_tool.TextDiff.Text.{IsOneLine, parse_unified_diff-unified}
use agent_tool.TextDiff.{Tag, Group, slice, range_line, unified}

-- One insertion of `b[j1:j2]` behind the first `i` lines, with no context.
abbrev pub insertion : ℕ → ℕ → ℕ → Group
insertion i j1 j2 = record {
  first = record { tag = Tag.insert; i1 = i; i2 = i; j1 = j1; j2 = j2 };
  others = [];
}

source_texts-added : (xs : List Bytes) → source_texts (as_lines Op.insert xs) ≡ []
source_texts-added [] = refl
source_texts-added (x ∷ xs) = source_texts-added xs

target_texts-added : (xs : List Bytes) → target_texts (as_lines Op.insert xs) ≡ xs
target_texts-added [] = refl
target_texts-added (x ∷ xs) = ap (◌∷◌ x) (target_texts-added xs)

range_line_empty : (i : ℕ) → range_line i i ≡ i
unfolding range_line
range_line_empty i = ground arith

zero_refused :
    (dominant : Bytes) (n : ℕ) (h : Hunk) (ls : List SrcLine)
    → h.src_start ≡ 0
    → apply_hunk dominant n h ls ≡ err (invalid_start n 0)
unfolding apply_hunk
zero_refused dominant n h ls e = rw (e, apply_hunk)

module _ (a b : List Bytes) (i j1 j2 : ℕ) (dominant : Bytes) (n : ℕ) (ls : List SrcLine) where
  abbrev added : Hunk
  added = group_hunk a b (insertion i j1 j2)

  line : added.src_start ≡ i
  line = range_line_empty i

  nothing_expected : source_texts added.lines ≡ []
  nothing_expected = rw append-nil (source_texts-added (slice b j1 j2))

  insertion_at_zero : i ≡ 0 → apply_hunk dominant n added ls ≡ err (invalid_start n 0)
  insertion_at_zero e = zero_refused dominant n added ls (line ∙ e)

  -- An insertion behind the first `i` lines, with `i` positive and no context lines, is put by the
  -- patch tool behind the first `i - 1` lines.
  pub insertion_misplaced :
      i ≤ length ls
      → 0 < i
      → (new : List SrcLine) × (texts new ≡ slice b j1 j2)
        × (apply_hunk dominant n (group_hunk a b (insertion i j1 j2)) ls
            ≡ ok (take (i - 1) ls ++ (new ++ drop (i - 1) ls)))
  insertion_misplaced within h =
      let (ls', applied, r) =
        (apply_hunk_complete dominant n added ls (record {
          starts = rw line h;
          within = rw line (omega arith);
          stands = rw nothing_expected refl;
        })) in
      let stop : i - 1 + 0 ≡ i - 1 = omega arith in
      (
        r.new,
        r.new_texts ∙ rw append-nil (target_texts-added (slice b j1 j2)),
        applied ∙ ap ok (r.result_is ∙ rw (line, nothing_expected, stop) refl),
      )

-- What textdiff prints for lines that are added before the first one without context, as it does for
-- an empty file, the patch tool parses to one hunk and refuses to apply to any file, since its line
-- number is 0. The numbers must fit an `int`, no name and no line may have a CR or an LF in it, and no
-- added line may begin with "++".
pub insertion_refused :
    (name_a name_b : Bytes) (a b : List Bytes) (j1 j2 : ℕ)
    → IsOneLine name_a
    → IsOneLine name_b
    → All IsOneLine a
    → All IsOneLine b
    → IsReadable a b (insertion 0 j1 j2)
    → (h : Hunk) × (parse_unified_diff (unified name_a name_b a b (insertion 0 j1 j2 ∷ []))
        ≡ Parse.ok (h ∷ []))
      × (target_texts h.lines ≡ slice b j1 j2)
      × ((dominant : Bytes) (n : ℕ) (ls : List SrcLine)
          → apply_hunk dominant n h ls ≡ err (invalid_start n 0))
insertion_refused name_a name_b a b j1 j2 old new plain_a plain_b r = (
  group_hunk a b (insertion 0 j1 j2),
  parse_unified_diff-unified name_a name_b a b (insertion 0 j1 j2 ∷ []) old new plain_a plain_b
      (r, tt),
  rw append-nil (target_texts-added (slice b j1 j2)),
  λ dominant n ls. insertion_at_zero a b 0 j1 j2 dominant n ls refl,
)
