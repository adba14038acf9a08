-- ===== src/OutputCompact.antt =====
-- common/outputcompact.go: the folding of repeated diagnostics in the output of a command.
pub mod Folds
pub mod Whole
pub mod Examples
use agent_tool.Base.Decimal.{decimal}
use agent_tool.Base.{
  ℕ, zero, suc, ◌+◌, ◌-◌, Bool, true, false, ◌&&◌, ◌||◌, List, [], ◌∷◌, ◌++◌, map, Option, none,
  some, ltb, leb, ◌==◌, if◌then◌else◌, is_some, Bytes, codes, length, take, drop, bytes_eq,
  has_prefix, split, join, index, trim_space, replace_crlf,
}

-- `strings.ToLower`, for ASCII.
abbrev pub lower_byte : ℕ → ℕ
lower_byte c = if leb b'A' c && leb c b'Z' then c + 32 else c

-- `NormalizeOutputView`: the view, or none if there is no such view.
unfoldable pub normalize_output_view : Bytes → Option Bytes
normalize_output_view view =
    let v = map lower_byte (trim_space view) in
    if bytes_eq v []
    then some (codes "compact")
    else if bytes_eq v (codes "compact") || bytes_eq v (codes "raw")
    then some v
    else none

-- The regular expression of the line-ending warnings of git: a prefix, a path that is not empty, and
-- one of four messages, which differ in their ends.
abbrev pub warning_prefix : Bytes
warning_prefix = codes "warning: in the working copy of "

abbrev pub warning_messages : List Bytes
warning_messages =
    codes "LF will be replaced by LF the next time Git touches it"
    ∷ (codes "LF will be replaced by CRLF the next time Git touches it"
        ∷ (codes "CRLF will be replaced by LF the next time Git touches it"
            ∷ (codes "CRLF will be replaced by CRLF the next time Git touches it" ∷ [])))

-- What is before a suffix.
unfoldable pub before_suffix : Bytes → Bytes → Option Bytes
before_suffix s suffix =
    let n = length s - length suffix in
    if leb (length suffix) (length s) && bytes_eq (drop n s) suffix then some (take n s) else none

unfoldable pub find_message : Bytes → List Bytes → Option (Bytes × Bytes)
find_message s [] = none
find_message s (m ∷ ms) =
    let rest = find_message s ms in
    elim (before_suffix s (codes ", " ++ m)) [
      | none ↦ rest
      | some path ↦ if bytes_eq path [] then rest else some (path, m)
    ]

-- `parseGitLineEndingWarning`: the path and the message.
unfoldable pub parse_git_line_ending_warning : Bytes → Option (Bytes × Bytes)
parse_git_line_ending_warning line =
    let t = trim_space line in
    if has_prefix t warning_prefix
    then find_message (drop (length warning_prefix) t) warning_messages
    else none

-- `formatGitLineEndingGroup`.
unfoldable pub format_git_line_ending_group : Bytes → List Bytes → Bytes
format_git_line_ending_group message paths =
    codes "warning: "
    ++ (message
        ++ (codes " for "
            ++ (decimal (length paths)
                ++ (codes " working-copy files: "
                    ++ (join (take 3 paths) (codes ", ")
                        ++ (if ltb 3 (length paths)
                            then codes " ... (+" ++ (decimal (length paths - 3) ++ codes " more)")
                            else []))))))

-- `isDiagnosticLine`.
abbrev pub diagnostic_prefixes : List Bytes
diagnostic_prefixes =
    codes "warning:"
    ∷ (codes "warn:"
        ∷ (codes "error:"
            ∷ (codes "fatal:"
                ∷ (codes "note:"
                    ∷ (codes "[warning]"
                        ∷ (codes "[warn]"
                            ∷ (codes "[error]" ∷ (codes "[fatal]" ∷ (codes "[note]" ∷ [])))))))))

abbrev pub diagnostic_markers : List Bytes
diagnostic_markers =
    codes ": warning:"
    ∷ (codes ": warn:" ∷ (codes ": error:" ∷ (codes ": fatal:" ∷ (codes ": note:" ∷ []))))

unfoldable pub any_holds : (Bytes → Bool) → List Bytes → Bool
any_holds test [] = false
any_holds test (x ∷ xs) = let rest = any_holds test xs in if test x then true else rest

unfoldable pub is_diagnostic_line : Bytes → Bool
is_diagnostic_line line =
    let l = map lower_byte (trim_space line) in
    any_holds (has_prefix l) diagnostic_prefixes
    || any_holds (λ m. is_some (index l m)) diagnostic_markers

-- The paths of the warnings with this message that follow.
abbrev pub same_message : Bytes → Option (Bytes × Bytes) → Option Bytes
same_message message none = none
same_message message (some (path, m)) = if bytes_eq m message then some path else none

unfoldable pub following_paths : Bytes → List Bytes → List Bytes
following_paths message [] = []
following_paths message (line ∷ lines) =
    let rest = following_paths message lines in
    elim (same_message message (parse_git_line_ending_warning line)) [
      | none ↦ []
      | some path ↦ path ∷ rest
    ]

-- How many lines follow that are equal to this one.
unfoldable pub following_equal : Bytes → List Bytes → ℕ
following_equal line [] = 0
following_equal line (l ∷ lines) =
    let rest = following_equal line lines in if bytes_eq l line then suc rest else 0

-- The lines written, and the counts `Groups` and `OmittedLines`.
pub record Folded : Type 0 where
  pub out : List Bytes
  pub groups : ℕ
  pub omitted : ℕ

abbrev pub put_group : Bytes → ℕ → Folded → Folded
put_group line count r = record {
  out = line ∷ r.out;
  groups = suc r.groups;
  omitted = count + r.omitted;
}

abbrev pub put_lines : List Bytes → Folded → Folded
put_lines lines r = record r { out = lines ++ r.out }

-- `fmt.Sprintf("%s [x%d]", lines[i], count)`.
unfoldable pub repeated_text : Bytes → ℕ → Bytes
repeated_text line count = line ++ (codes " [x" ++ (decimal count ++ codes "]"))

-- The paths of a group that starts with this warning, if it has more than one.
abbrev pub group_of : Bytes → Bytes → List Bytes → Option (Bytes × List Bytes)
group_of message path [] = none
group_of message path (p ∷ ps) = some (message, path ∷ (p ∷ ps))

abbrev pub group_at : List Bytes → Option (Bytes × Bytes) → Option (Bytes × List Bytes)
group_at lines none = none
group_at lines (some (path, message)) = group_of message path (following_paths message lines)

unfoldable pub warning_group : Bytes → List Bytes → Option (Bytes × List Bytes)
warning_group line lines = group_at lines (parse_git_line_ending_warning line)

-- The loop of `CompactDiagnosticOutput`. Each round takes at least a line.
unfoldable pub fold_lines : ℕ → List Bytes → Folded
fold_lines f [] = record { out = []; groups = 0; omitted = 0 }
fold_lines zero (line ∷ lines) = record { out = []; groups = 0; omitted = 0 }
fold_lines (suc f) (line ∷ lines) = elim (warning_group line lines) [
  | some (message, paths) ↦
      put_group (format_git_line_ending_group message paths) (length paths - 1)
        (fold_lines f (drop (length paths - 1) lines))
  | none ↦
      let n = following_equal line lines in
      let rest = fold_lines f (drop n lines) in
      if ltb 0 n && is_diagnostic_line line
      then put_group (repeated_text line (suc n)) n rest
      else put_lines (line ∷ take n lines) rest
]

-- `OutputCompaction`.
pub record OutputCompaction : Type 0 where
  pub text : Bytes
  pub compacted : Bool
  pub input_lines : ℕ
  pub output_lines : ℕ
  pub omitted_lines : ℕ
  pub groups : ℕ

unfoldable pub ends_in_newline : Bytes → Bool
ends_in_newline [] = false
ends_in_newline (c ∷ []) = c == b'\n'
ends_in_newline (c ∷ d ∷ s) = ends_in_newline (d ∷ s)

unfoldable pub without_last : List Bytes → List Bytes
without_last [] = []
without_last (l ∷ []) = []
without_last (l ∷ m ∷ ls) = l ∷ without_last (m ∷ ls)

abbrev pub input_lines_of : Bytes → List Bytes
input_lines_of s = if ends_in_newline s then without_last (split s b'\n') else split s b'\n'

-- `CompactDiagnosticOutput` on text that is not empty.
unfoldable pub compact_lines : Bytes → OutputCompaction
compact_lines text =
    let normalized = replace_crlf text in
    let lines = input_lines_of normalized in
    let r = fold_lines (length lines) lines in
    record {
      text = join r.out (codes "\n") ++ (if ends_in_newline normalized then codes "\n" else []);
      compacted = ltb 0 r.groups;
      input_lines = length lines;
      output_lines = length r.out;
      omitted_lines = r.omitted;
      groups = r.groups;
    }

unfoldable pub compact_diagnostic_output : Bytes → OutputCompaction
compact_diagnostic_output [] = record {
  text = [];
  compacted = false;
  input_lines = 0;
  output_lines = 0;
  omitted_lines = 0;
  groups = 0;
}
compact_diagnostic_output (c ∷ s) = compact_lines (c ∷ s)
