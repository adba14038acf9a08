-- ===== src/TextDiff.antt =====
-- internal/textdiff/textdiff.go: the printer of unified diffs. The grouped opcodes come from
-- go-difflib, which is not part of the repository: they are an argument.
pub mod Parse
pub mod Text
pub mod Misplaced
pub mod Examples
use mathlib.Core.List.{flat_map}
use agent_tool.Base.{
  ℕ, zero, suc, ◌+◌, ◌-◌, Bool, true, false, List, [], ◌∷◌, ◌++◌, map, ◌==◌, if◌then◌else◌, Bytes,
  codes, length, take, drop, split, replace_crlf,
}
use agent_tool.Base.Decimal.{decimal}

-- `strings.Split` leaves an empty last part behind a final newline, which is cut off.
unfoldable pub drop_last_empty : List Bytes → List Bytes
drop_last_empty [] = []
drop_last_empty ([] ∷ []) = []
drop_last_empty ((c ∷ l) ∷ []) = (c ∷ l) ∷ []
drop_last_empty (l ∷ k ∷ ls) = l ∷ drop_last_empty (k ∷ ls)

-- `SplitLines`.
unfoldable pub split_lines : Bytes → List Bytes
unfolding drop_last_empty
split_lines [] = []
split_lines (c ∷ s) = drop_last_empty (split (replace_crlf (c ∷ s)) b'\n')

pub data Tag : Type 0 where
  equal delete insert replace : Tag

pub record OpCode : Type 0 where
  pub tag : Tag
  pub i1 : ℕ
  pub i2 : ℕ
  pub j1 : ℕ
  pub j2 : ℕ

-- The line number that `formatRange` prints: one more than `start`, but `start` for an empty range.
unfoldable pub range_line : ℕ → ℕ → ℕ
range_line start stop = if stop - start == 0 then start else start + 1

unfoldable pub format_range : ℕ → ℕ → Bytes
format_range start stop = decimal (range_line start stop) ++ (b',' ∷ decimal (stop - start))

abbrev pub slice {ℓ} : {A : Type ℓ} → List A → ℕ → ℕ → List A
slice xs i j = take (j - i) (drop i xs)

-- `writeLines`, without the newline behind each line.
abbrev pub prefixed : ℕ → List Bytes → List Bytes
prefixed c = map (λ l. c ∷ l)

-- The lines of one opcode.
unfoldable pub op_lines : List Bytes → List Bytes → OpCode → List Bytes
op_lines a b op = elim op.tag [
  | equal ↦ prefixed b' ' (slice a op.i1 op.i2)
  | delete ↦ prefixed b'-' (slice a op.i1 op.i2)
  | insert ↦ prefixed b'+' (slice b op.j1 op.j2)
  | replace ↦ prefixed b'-' (slice a op.i1 op.i2) ++ prefixed b'+' (slice b op.j1 op.j2)
]

abbrev pub last_op : OpCode → List OpCode → OpCode
last_op op [] = op
last_op op (next ∷ ops) = last_op next ops

-- A group of opcodes is not empty.
pub record Group : Type 0 where
  pub first : OpCode
  pub others : List OpCode

abbrev pub group_end : Group → OpCode
group_end g = last_op g.first g.others

unfoldable pub hunk_header : Group → Bytes
unfolding format_range
hunk_header g =
    codes "@@ -"
    ++ (format_range g.first.i1 (group_end g).i2
        ++ (codes " +" ++ (format_range g.first.j1 (group_end g).j2 ++ codes " @@")))

unfoldable pub group_body : List Bytes → List Bytes → Group → List Bytes
unfolding op_lines
group_body a b g = flat_map (op_lines a b) (g.first ∷ g.others)

-- The lines of `Unified`.
unfoldable pub unified_lines : Bytes → Bytes → List Bytes → List Bytes → List Group → List Bytes
unified_lines name_a name_b a b groups =
    (codes "--- " ++ name_a)
    ∷ (codes "+++ " ++ name_b)
    ∷ flat_map (λ g. hunk_header g ∷ group_body a b g) groups

-- `Unified`: each line with its newline.
unfoldable pub unified : Bytes → Bytes → List Bytes → List Bytes → List Group → Bytes
unified name_a name_b a b groups =
    flat_map (λ l. l ++ b'\n' ∷ []) (unified_lines name_a name_b a b groups)
