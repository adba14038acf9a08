-- ===== src/Edit.antt =====
-- tools/edit/indent.go and the indentation functions of tools/edit/replace.go: conversion of the
-- white space at the start of lines. Sizes are not negative.
pub mod Lines
pub mod Indent
pub mod Detect
pub mod Replace
pub mod Examples
use agent_tool.Base.{
  ℕ, zero, suc, ◌+◌, ◌-◌, ◌*◌, ◌/◌, ◌%◌, Bool, true, false, not, ◌&&◌, ◌||◌, List, [], ◌∷◌, ◌++◌,
  map, ltb, leb, ◌==◌, if◌then◌else◌, Bytes, length, take, drop, replicate, split, join, trim_left,
  trim_space, min,
}

pub record IndentStyle : Type 0 where
  pub use_tabs : Bool
  pub indent_size : ℕ

-- `strings.TrimLeft(line, " ")` and how many bytes it cuts off, for any byte.
unfoldable pub stripped : ℕ → Bytes → Bytes
unfolding trim_left
stripped c line = trim_left (λ b. b == c) line

unfoldable pub leading : ℕ → Bytes → ℕ
leading c line = length line - length (stripped c line)

-- `strings.Join` of the lines, each changed.
unfoldable pub on_lines : (Bytes → Bytes) → Bytes → Bytes
on_lines f text = join (map f (split text b'\n')) (b'\n' ∷ [])

abbrev pub default_size : ℕ → ℕ
default_size n = if n == 0 then 4 else n

abbrev pub starts_with : ℕ → Bytes → Bool
starts_with c [] = false
starts_with c (b ∷ s) = b == c

-- The body of the loop of `SpacesToTabs`.
unfoldable pub spaces_to_tabs_line : ℕ → Bytes → Bytes
spaces_to_tabs_line n line =
    let spaces = leading b' ' line in
    if not (starts_with b' ' line) || ltb spaces 2
    then line
    else replicate (spaces / n) b'\t' ++ (replicate (spaces % n) b' ' ++ stripped b' ' line)

unfoldable pub spaces_to_tabs : Bytes → ℕ → Bytes
spaces_to_tabs text n = on_lines (spaces_to_tabs_line (default_size n)) text

-- The body of the loop of `TabsToSpaces`.
unfoldable pub tabs_to_spaces_line : ℕ → Bytes → Bytes
tabs_to_spaces_line n line =
    if starts_with b'\t' line
    then replicate (leading b'\t' line * n) b' ' ++ stripped b'\t' line
    else line

unfoldable pub tabs_to_spaces : Bytes → ℕ → Bytes
tabs_to_spaces text n = on_lines (tabs_to_spaces_line (default_size n)) text

-- The body of the loop of `RescaleSpaces`.
unfoldable pub rescale_line : ℕ → ℕ → Bytes → Bytes
rescale_line src dst line =
    let spaces = leading b' ' line in
    if starts_with b' ' line
    then replicate (spaces / src * dst + spaces % src) b' ' ++ stripped b' ' line
    else line

unfoldable pub rescale_spaces : Bytes → ℕ → ℕ → Bytes
rescale_spaces text src dst =
    if src == 0 || dst == 0 || src == dst then text else on_lines (rescale_line src dst) text

abbrev pub bool_eq : Bool → Bool → Bool
bool_eq true b = b
bool_eq false b = not b

unfoldable pub convert_indent : Bytes → IndentStyle → IndentStyle → Bytes
convert_indent text src dst =
    if bool_eq src.use_tabs dst.use_tabs && src.indent_size == dst.indent_size
    then text
    else if src.use_tabs && not dst.use_tabs
    then tabs_to_spaces text dst.indent_size
    else if not src.use_tabs && dst.use_tabs
    then spaces_to_tabs text src.indent_size
    else if not (src.indent_size == dst.indent_size) && ltb 0 src.indent_size
    then rescale_spaces text src.indent_size dst.indent_size
    else text

-- `shiftTabs` for a positive and for a negative shift.
unfoldable pub add_tabs : Bytes → ℕ → Bytes
add_tabs text zero = text
add_tabs text (suc d) = on_lines (λ l. replicate (suc d) b'\t' ++ l) text

unfoldable pub remove_tabs_line : ℕ → Bytes → Bytes
remove_tabs_line d line = drop (min d (leading b'\t' line)) line

unfoldable pub remove_tabs : Bytes → ℕ → Bytes
remove_tabs text zero = text
remove_tabs text (suc d) = on_lines (remove_tabs_line (suc d)) text

-- `normalizeIndent`.
unfoldable pub normalize_indent : Bytes → Bytes
unfolding trim_left
normalize_indent text = on_lines (λ l. trim_left (λ b. b == b' ' || b == b'\t') l) text
