-- ===== src/Edit/Replace.antt =====
-- tools/edit/replace.go: `Replace` with its passes, on the LF view of a file.
pub mod Hits
pub mod Spans
pub mod Outcome
pub mod Examples
use agent_tool.Base.{
  ℕ, zero, suc, ◌+◌, ◌-◌, Bool, true, false, not, ◌&&◌, ◌||◌, List, [], ◌∷◌, ◌++◌, map, Option,
  none, some, ltb, leb, ◌==◌, if◌then◌else◌, Bytes, length, take, drop, split, index, bytes_eq,
  trim_space, is_some,
}
use agent_tool.LineEnding.{
  lf, normalize_line_endings, LineEndingMap, new_line_ending_map, orig_offset, contains_byte,
}
use agent_tool.LineEnding.Cursor.{LineEndingCursor, new_line_ending_cursor, at_offsets, is_byte}
use agent_tool.Edit.{
  IndentStyle, starts_with, leading, convert_indent, spaces_to_tabs, tabs_to_spaces, add_tabs,
  remove_tabs, normalize_indent, bool_eq,
}
use agent_tool.Edit.Detect.{detect_indent_from_content, has_leading_spaces, any_line}

-- `ReplaceResult`: the two messages for text that is not there, the ambiguous hits, or the new
-- content and the number of hits.
pub data ReplaceResult : Type 0 where
  not_found indentation_differs : ReplaceResult
  ambiguous : ℕ → ReplaceResult
  applied : Bytes → ℕ → ReplaceResult

-- `hasLeadingWhitespace`.
abbrev pub has_leading_whitespace : Bytes → Bool
has_leading_whitespace s = starts_with b'\t' s || starts_with b' ' s

-- `pos == 0 || s[pos-1] == '\n'`.
unfoldable pub at_line_start : Bytes → ℕ → Bool
at_line_start s zero = true
at_line_start s (suc pos) = is_byte s pos b'\n'

-- `if lineStart && pos != 0 && s[pos-1] != '\n' { continue }`.
abbrev pub is_rejected : Bool → Bytes → ℕ → Bool
is_rejected line_start s pos = line_start && not (at_line_start s pos)

-- `i+len(sub) <= len(s)` and the `strings.Index` behind it: the position of the next hit.
unfoldable pub next_hit : Bytes → Bytes → ℕ → Option ℕ
next_hit s sub i =
    if ltb (length s) (i + length sub)
    then none
    else elim (index (drop i s) sub) [ none ↦ none | some k ↦ some (i + k) ]

-- The loop of `countOccurrences`, which without `lineStart` is that of `strings.Count`.
unfoldable pub count_hits : ℕ → Bytes → Bytes → Bool → ℕ → ℕ
count_hits zero s sub line_start i = 0
count_hits (suc f) s sub line_start i = elim (next_hit s sub i) [
  | none ↦ 0
  | some pos ↦
      let rest = count_hits f s sub line_start (pos + length sub) in
      if is_rejected line_start s pos then rest else suc rest
]

-- `countOccurrences`. Each round passes at least a byte.
unfoldable pub count_occurrences : Bytes → Bytes → Bool → ℕ
count_occurrences s [] line_start = 0
count_occurrences s (c ∷ sub) line_start = count_hits (suc (length s)) s (c ∷ sub) line_start 0

-- The variables of the loop of `applySpans`, with the map and its `region`.
pub record Splice : Type 0 where
  pub line_map : LineEndingMap
  pub region : LineEndingCursor
  pub out : Bytes
  pub prev : ℕ

-- `LocalLineEnding` and the conversion of the new text for a hit.
unfoldable pub local_text : Bytes → ℕ → ℕ → Splice → Bytes × Splice
local_text new start end st =
    let a = orig_offset st.line_map start in
    let b = orig_offset a.1 end in
    let e = at_offsets st.region a.0 b.0 in
    (normalize_line_endings new e.0, record st { line_map = b.1; region = e.1 })

abbrev pub is_fixed : Bytes → Bool
is_fixed new = not (contains_byte b'\r' new || contains_byte b'\n' new)

unfoldable pub put_text : Bytes → ℕ → ℕ → Splice → Bytes × Splice
put_text new start end st = if is_fixed new then (new, st) else local_text new start end st

-- The writes for one hit.
unfoldable pub write_hit : Bytes → Bytes → ℕ → Splice → Splice
write_hit old new pos st =
    let a = orig_offset st.line_map pos in
    let kept = take (a.0 - st.prev) (drop st.prev st.line_map.original) in
    let p = put_text new pos (pos + length old) (record st { line_map = a.1 }) in
    let b = orig_offset p.1.line_map (pos + length old) in
    record p.1 { line_map = b.1; out = st.out ++ (kept ++ p.0); prev = b.0 }

-- The loop of `applySpans`.
unfoldable pub splice : ℕ → Bytes → Bytes → Bool → Bool → ℕ → Splice → Splice
splice zero old new line_start all i st = st
splice (suc f) old new line_start all i st = elim (next_hit st.line_map.norm old i) [
  | none ↦ st
  | some pos ↦
      let skip = splice f old new line_start all (pos + length old) st in
      let st' = write_hit old new pos st in
      let more = splice f old new line_start all (pos + length old) st' in
      if is_rejected line_start st.line_map.norm pos then skip else if all then more else st'
]

unfoldable pub splice_all : LineEndingMap → LineEndingCursor → Bytes → Bytes → Bool → Bool → Bytes
splice_all m region old new line_start all =
    let st =
      splice (suc (length m.norm)) old new line_start all 0
        (record { line_map = m; region = region; out = []; prev = 0 }) in
    st.out ++ drop st.prev st.line_map.original

-- `applySpans`.
unfoldable pub apply_spans :
    LineEndingMap → LineEndingCursor → Bytes → Bytes → Bool → Bool → ReplaceResult
apply_spans m region old new line_start all =
    let count = count_occurrences m.norm old line_start in
    if count == 0
    then not_found
    else if not all && ltb 1 count
    then ambiguous count
    else applied (splice_all m region old new line_start all) count

-- What one of the passes searches for, and puts in its place.
pub record Needle : Type 0 where
  pub old : Bytes
  pub new : Bytes
  pub line_start : Bool

abbrev pub found_in : Bytes → Bytes → Bool
found_in norm old = ltb 0 (count_occurrences norm old false)

abbrev pub needle_if : Bytes → Bytes → Bytes → Option Needle
needle_if norm old new =
    if found_in norm old then some (record { old = old; new = new; line_start = false }) else none

infixr 30 ◌or_else◌
abbrev pub ◌or_else◌ : Option Needle → Option Needle → Option Needle
none or_else n = n
some m or_else n = some m

abbrev same_style : IndentStyle → IndentStyle → Bool
same_style a b = bool_eq a.use_tabs b.use_tabs && a.indent_size == b.indent_size

-- Pass 1: the text as it is, `force` with the indentation of the new text converted. For the empty
-- text the source ends here, since strings.Count is positive and applySpans then finds nothing;
-- here no pass finds it, with the same result.
unfoldable pub direct : List ℕ → Bytes → Bytes → Bytes → Bytes → IndentStyle → Bool → Option Needle
direct order norm old new raw_new style force =
    let new_style = detect_indent_from_content order raw_new in
    let final_new =
      if force && not (same_style new_style style)
      then convert_indent new new_style style
      else new in
    let line_start = has_leading_whitespace old in
    if ltb 0 (count_occurrences norm old line_start)
    then some (record { old = old; new = final_new; line_start = line_start })
    else none

-- Pass 2: both texts in the style of the file.
unfoldable pub converted : List ℕ → Bytes → Bytes → Bytes → Bytes → IndentStyle → Option Needle
converted order norm old new raw_old style =
    let src = detect_indent_from_content order raw_old in
    if bool_eq src.use_tabs style.use_tabs
    then none
    else needle_if norm (convert_indent old src style) (convert_indent new src style)

-- Pass 3: spaces become tabs of the size of the file.
unfoldable pub tabbed : Bytes → Bytes → Bytes → IndentStyle → Option Needle
tabbed norm old new style =
    if style.use_tabs && has_leading_spaces old
    then needle_if norm (spaces_to_tabs old style.indent_size)
        (spaces_to_tabs new style.indent_size)
    else none

abbrev pub sizes : List ℕ
sizes = 2 ∷ 3 ∷ 4 ∷ 5 ∷ 6 ∷ 7 ∷ 8 ∷ []

-- The loop of pass 4: tabs of any size.
unfoldable pub tabbed_sizes : List ℕ → Bytes → Bytes → Bytes → Option Needle
tabbed_sizes [] norm old new = none
tabbed_sizes (n ∷ ns) norm old new =
    let rest = tabbed_sizes ns norm old new in
    if bytes_eq (spaces_to_tabs old n) old
    then rest
    else (needle_if norm (spaces_to_tabs old n) (spaces_to_tabs new n) or_else rest)

-- The loop of pass 5: tabs become spaces.
unfoldable pub spaced_sizes : List ℕ → Bytes → Bytes → Bytes → Option Needle
spaced_sizes [] norm old new = none
spaced_sizes (n ∷ ns) norm old new =
    needle_if norm (tabs_to_spaces old n) (tabs_to_spaces new n)
    or_else spaced_sizes ns norm old new

-- `hasLeadingTabs`.
unfoldable pub has_leading_tabs : Bytes → Bool
has_leading_tabs text = any_line (starts_with b'\t') (split text b'\n')

-- The loop of `findMinLeadingTabs`; `min < 0` is `none`.
unfoldable pub min_tabs : List Bytes → Option ℕ → Option ℕ
min_tabs [] m = m
min_tabs (l ∷ ls) m = min_tabs ls (
    if bytes_eq (trim_space l) [] then m else elim m [
      | none ↦ some (leading b'\t' l)
      | some k ↦ if ltb (leading b'\t' l) k then some (leading b'\t' l) else some k
    ])

unfoldable pub find_min_leading_tabs : Bytes → ℕ
find_min_leading_tabs s = elim (min_tabs (split s b'\n') none) [ none ↦ 0 | some k ↦ k ]

pub record Candidate : Type 0 where
  pub base_tabs : ℕ
  pub count : ℕ

abbrev abs_dist : ℕ → ℕ → ℕ
abs_dist a b = if ltb b a then a - b else b - a

-- The choice between the best candidate so far and the next.
unfoldable pub better_depth : ℕ → Candidate → Candidate → Candidate
better_depth min_old c best =
    if c.count == 1 && not (best.count == 1)
    then c
    else if bool_eq (c.count == 1) (best.count == 1)
        && ltb (abs_dist c.base_tabs min_old) (abs_dist best.base_tabs min_old)
    then c
    else best

unfoldable pub best_depth : ℕ → List Candidate → Candidate → Candidate
best_depth min_old [] best = best
best_depth min_old (c ∷ cs) best = best_depth min_old cs (better_depth min_old c best)

-- The candidates for the depths from `base` on.
unfoldable pub depth_candidates : ℕ → ℕ → ℕ → Bytes → Bytes → List Candidate
depth_candidates zero base min_old norm stripped_old = []
depth_candidates (suc k) base min_old norm stripped_old =
    let count = count_occurrences norm (add_tabs stripped_old base) false in
    let rest = depth_candidates k (base + 1) min_old norm stripped_old in
    if base == min_old || count == 0
    then rest
    else record { base_tabs = base; count = count } ∷ rest

-- The texts at the best depth. A depth below 0 is 0.
unfoldable pub pick_depth : ℕ → ℕ → Bytes → Bytes → List Candidate → Option Needle
pick_depth min_old min_new stripped_old stripped_new [] = none
pick_depth min_old min_new stripped_old stripped_new (c ∷ cs) =
    let best = best_depth min_old cs c in
    some (record {
      old = add_tabs stripped_old best.base_tabs;
      new = add_tabs stripped_new (best.base_tabs + min_new - min_old);
      line_start = false;
    })

-- Pass 6: another depth of tabs.
unfoldable pub other_depth : Bytes → Bytes → Bytes → Option Needle
other_depth norm old new =
    let min_old = find_min_leading_tabs old in
    let min_new = find_min_leading_tabs new in
    pick_depth min_old min_new (remove_tabs old min_old) (remove_tabs new min_new)
      (depth_candidates 11 0 min_old norm (remove_tabs old min_old))

-- The passes in their order.
unfoldable pub choose : List ℕ → Bytes → Bytes → Bytes → IndentStyle → Bool → Option Needle
choose order norm raw_old raw_new style force =
    let old = normalize_line_endings raw_old lf in
    let new = normalize_line_endings raw_new lf in
    direct order norm old new raw_new style force
    or_else converted order norm old new raw_old style
    or_else tabbed norm old new style
    or_else (if style.use_tabs && has_leading_spaces old
        then tabbed_sizes sizes norm old new
        else none)
    or_else (if not style.use_tabs && has_leading_tabs old
        then spaced_sizes sizes norm old new
        else none)
    or_else (if style.use_tabs && has_leading_tabs old then other_depth norm old new else none)

-- Pass 7, the diagnosis.
unfoldable pub diagnose : Bytes → Bytes → ReplaceResult
diagnose norm old =
    if not (bytes_eq (normalize_indent old) [])
      && is_some (index (normalize_indent norm) (normalize_indent old))
    then indentation_differs
    else not_found

-- The end of `Replace`: the edit of the pass that found something, or the diagnosis.
unfoldable pub run_needle : Bytes → Bytes → Bool → Option Needle → ReplaceResult
run_needle content raw_old all none =
    diagnose (new_line_ending_map content).norm (normalize_line_endings raw_old lf)
run_needle content raw_old all (some n) =
    apply_spans (new_line_ending_map content) (new_line_ending_cursor content) n.old n.new
      n.line_start all

-- `Replace`.
unfoldable pub replace : List ℕ → Bytes → Bytes → Bytes → Bool → IndentStyle → Bool → ReplaceResult
replace order content raw_old raw_new all style force =
    run_needle content raw_old all
      (choose order (new_line_ending_map content).norm raw_old raw_new style force)
