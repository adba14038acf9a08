-- ===== src/Edit/Detect.antt =====
-- tools/edit/indent.go: the detection of an indentation style from a text. A line that fills the
-- buffer of bufio.Scanner ends the scan. The order in which Go visits a map is an argument.
use agent_tool.Base.{
  ℕ, ◌+◌, ◌-◌, Bool, true, false, not, ◌&&◌, ◌||◌, List, [], ◌∷◌, ltb, leb, ◌==◌, if◌then◌else◌,
  Bytes, length, take, split,
}
use agent_tool.Edit.{IndentStyle, stripped, leading}

-- `\s` of package regexp.
abbrev is_regexp_space : ℕ → Bool
is_regexp_space c = c == b' ' || (c == 9 || (c == 10 || (c == 12 || c == 13)))

abbrev starts_visible : Bytes → Bool
starts_visible [] = false
starts_visible (c ∷ s) = not (is_regexp_space c)

-- `reLeadingSpaces.MatchString` for one line.
unfoldable pub leading_spaces_match : Bytes → Bool
leading_spaces_match line = leb 2 (leading b' ' line) && starts_visible (stripped b' ' line)

unfoldable pub any_line : (Bytes → Bool) → List Bytes → Bool
any_line p [] = false
any_line p (l ∷ ls) = p l || any_line p ls

-- `HasLeadingSpaces`.
unfoldable pub has_leading_spaces : Bytes → Bool
has_leading_spaces text = any_line leading_spaces_match (split text b'\n')

abbrev drop_cr : Bytes → Bytes
drop_cr [] = []
drop_cr (c ∷ []) = if c == b'\r' then [] else c ∷ []
drop_cr (c ∷ d ∷ s) = c ∷ drop_cr (d ∷ s)

-- The lines that bufio.Scanner gives.
unfoldable pub scan_lines : List Bytes → List Bytes
scan_lines [] = []
scan_lines ([] ∷ []) = []
scan_lines (l ∷ ls) =
    let rest = scan_lines ls in if ltb (length l) 65536 then drop_cr l ∷ rest else []

pub record LinesSeen : Type 0 where
  pub tab_lines : ℕ
  pub space_lines : ℕ
  pub space_diffs : List ℕ
  pub prev_spaces : ℕ

abbrev pub no_lines_seen : LinesSeen
no_lines_seen = record { tab_lines = 0; space_lines = 0; space_diffs = []; prev_spaces = 0 }

-- A difference counts if it is 1 to 8.
abbrev note_diff : ℕ → ℕ → List ℕ → List ℕ
note_diff spaces prev diffs =
    if ltb prev spaces && leb (spaces - prev) 8 then (spaces - prev) ∷ diffs else diffs

-- The body of the loop of `detectIndentFromContent`.
unfoldable pub see_line : Bytes → LinesSeen → LinesSeen
see_line [] seen = seen
see_line (c ∷ s) seen =
    if c == b'\t'
    then record seen { tab_lines = seen.tab_lines + 1 }
    else if c == b' ' && leading_spaces_match (c ∷ s)
    then record seen {
      space_lines = seen.space_lines + 1;
      space_diffs = note_diff (leading b' ' (c ∷ s)) seen.prev_spaces seen.space_diffs;
      prev_spaces = leading b' ' (c ∷ s);
    }
    else record seen { prev_spaces = 0 }

unfoldable pub see_lines : List Bytes → LinesSeen → LinesSeen
see_lines [] seen = seen
see_lines (l ∷ ls) seen = see_lines ls (see_line l seen)

unfoldable pub times : ℕ → List ℕ → ℕ
times d [] = 0
times d (e ∷ es) = (if e == d then 1 else 0) + times d es

-- The loop over `spaceDiffs`, in the order that the map is visited.
unfoldable pub frequent_diff : List ℕ → List ℕ → ℕ → ℕ → ℕ
frequent_diff diffs [] best count = best
frequent_diff diffs (d ∷ order) best count =
    if ltb count (times d diffs)
    then frequent_diff diffs order d (times d diffs)
    else frequent_diff diffs order best count

-- `detectIndentFromContent`.
unfoldable pub detect_indent_from_content : List ℕ → Bytes → IndentStyle
detect_indent_from_content order content =
    let seen = see_lines (take 100 (scan_lines (split content b'\n'))) no_lines_seen in
    if ltb 0 seen.tab_lines && leb seen.space_lines seen.tab_lines
    then record { use_tabs = true; indent_size = 4 }
    else record { use_tabs = false; indent_size = frequent_diff seen.space_diffs order 4 0 }

-- The body of the loop of `detectTabsFromContent`.
unfoldable pub count_indented : List Bytes → ℕ × ℕ → ℕ × ℕ
count_indented [] n = n
count_indented ([] ∷ ls) n = count_indented ls n
count_indented ((c ∷ s) ∷ ls) (tabs, spaces) = count_indented ls (
    if c == b'\t'
    then (tabs + 1, spaces)
    else if leading_spaces_match (c ∷ s)
    then (tabs, spaces + 1)
    else (tabs, spaces))

unfoldable pub detect_tabs_from_content : Bytes → Bool
detect_tabs_from_content content =
    let n = count_indented (take 100 (scan_lines (split content b'\n'))) (0, 0) in
    ltb 0 n.0 && ltb n.1 n.0

-- `hasSpaceIndentation`.
unfoldable pub has_space_indentation : Bytes → Bool
has_space_indentation content =
    any_line leading_spaces_match (take 100 (scan_lines (split content b'\n')))
