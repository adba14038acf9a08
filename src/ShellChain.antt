-- ===== src/ShellChain.antt =====
-- tools/bash/chainops.go: the split of a command at its top-level `&&` and `||`; with
-- `buildPSChainOps` and the quoting of delegated commands of tools/bash/shell_windows.go.
pub mod Pieces
pub mod Plain
pub mod Literal
pub mod Examples
use agent_tool.Base.{
  ℕ, zero, suc, ◌-◌, Bool, true, false, not, ◌&&◌, ◌||◌, List, [], ◌∷◌, ◌++◌, ltb, ◌==◌,
  if◌then◌else◌, Bytes, codes, length, bytes_eq, trim_space,
}

abbrev pub backslash : ℕ
backslash = 92

abbrev pub single_quote : ℕ
single_quote = 39

abbrev pub double_quote : ℕ
double_quote = 34

-- `chainSegment` and `chainParse`.
pub record ChainSegment : Type 0 where
  pub text : Bytes
  pub op : Bytes

pub record ChainParse : Type 0 where
  pub segments : List ChainSegment
  pub has_nested_ops : Bool

unfoldable pub has_chain_ops : ChainParse → Bool
has_chain_ops p = ltb 1 (length p.segments)

unfoldable pub needs_delegation : ChainParse → Bool
needs_delegation p = p.has_nested_ops

unfoldable pub any_empty : List ChainSegment → Bool
any_empty [] = false
any_empty (s ∷ segments) =
    let rest = any_empty segments in if bytes_eq s.text [] then true else rest

unfoldable pub has_empty_segment : ChainParse → Bool
has_empty_segment p = any_empty p.segments

-- The variables of the loop of `parseChainOps`.
pub record Scan : Type 0 where
  pub segments : List ChainSegment
  pub buf : Bytes
  pub has_nested_ops : Bool
  pub in_single : Bool
  pub in_double : Bool
  pub paren_depth : ℕ

unfoldable pub new_scan : Scan
new_scan = record {
  segments = [];
  buf = [];
  has_nested_ops = false;
  in_single = false;
  in_double = false;
  paren_depth = 0;
}

-- `buf.WriteByte(ch)`.
unfoldable pub write_byte : ℕ → Scan → Scan
write_byte ch st = record st { buf = st.buf ++ (ch ∷ []) }

-- The quotes.
unfoldable pub track_single : ℕ → Scan → Scan
track_single ch st =
    if ch == single_quote && not st.in_double
    then record st { in_single = not st.in_single }
    else st

unfoldable pub track_double : ℕ → Scan → Scan
track_double ch st =
    if ch == double_quote && not st.in_single
    then record st { in_double = not st.in_double }
    else st

abbrev pub is_outside : Scan → Bool
is_outside st = not st.in_single && not st.in_double

-- The parentheses.
unfoldable pub track_parens : ℕ → Scan → Scan
track_parens ch st =
    if ch == b'('
    then record st { paren_depth = suc st.paren_depth }
    else if ch == b')' && ltb 0 st.paren_depth
    then record st { paren_depth = st.paren_depth - 1 }
    else st

unfoldable pub track : ℕ → Scan → Scan
track ch st =
    let quoted = track_double ch (track_single ch st) in
    if is_outside quoted then track_parens ch quoted else quoted

-- `pair == "&&" || pair == "||"`.
abbrev pub is_chain_op : ℕ → ℕ → Bool
is_chain_op ch next = ch == b'&' && next == b'&' || ch == b'|' && next == b'|'

-- A split at the operator of `ch` and the byte behind it.
unfoldable pub cut : ℕ → ℕ → Scan → Scan
cut ch next st = record st {
  segments = st.segments ++ (record { text = trim_space st.buf; op = ch ∷ (next ∷ []) } ∷ []);
  buf = [];
}

-- A round that has a byte behind `ch`: whether that byte is taken too.
unfoldable pub round : ℕ → ℕ → Scan → Scan × Bool
round ch next st =
    let st' = track ch st in
    if ch == backslash && not st.in_single
    then (write_byte next (write_byte ch st), true)
    else if is_outside st' && is_chain_op ch next
    then if st'.paren_depth == 0
      then (cut ch next st', true)
      else (write_byte ch (record st' { has_nested_ops = true }), false)
    else (write_byte ch st', false)

-- What follows the loop.
unfoldable pub finish_parse : Scan → ChainParse
finish_parse st = record {
  segments = st.segments ++ (record { text = trim_space st.buf; op = [] } ∷ []);
  has_nested_ops = st.has_nested_ops;
}

-- The loop of `parseChainOps`.
unfoldable pub scan_command : Scan → Bytes → Scan
scan_command st [] = st
scan_command st (ch ∷ []) = write_byte ch (track ch st)
scan_command st (ch ∷ next ∷ s) =
    let r = round ch next st in
    let behind = scan_command r.0 s in
    let at_next = scan_command r.0 (next ∷ s) in if r.1 then behind else at_next

unfoldable pub parse_chain_ops : Bytes → ChainParse
parse_chain_ops cmd = finish_parse (scan_command new_scan cmd)

-- `hasChainOps`.
unfoldable pub command_has_chain_ops : Bytes → Bool
command_has_chain_ops cmd = has_chain_ops (parse_chain_ops cmd)

-- The loop of `buildPSChainOps`, behind a segment with the operator `op`.
unfoldable pub ps_rest : Bytes → List ChainSegment → Bytes
ps_rest op [] = []
ps_rest op (s ∷ segments) =
    (if bytes_eq op (codes "&&")
      then codes "; if($global:LASTEXITCODE -eq 0){ "
      else codes "; if($global:LASTEXITCODE -ne 0){ ")
    ++ (s.text ++ (codes " }" ++ ps_rest s.op segments))

-- `buildPSChainOps`, on the segments of a parse, of which there is at least one.
unfoldable pub build_ps_chain_ops : List ChainSegment → Bytes
build_ps_chain_ops [] = []
build_ps_chain_ops (s ∷ segments) =
    codes "$global:LASTEXITCODE=0; " ++ (s.text ++ ps_rest s.op segments)

-- `strings.ReplaceAll(command, "'", "''")`.
unfoldable pub escape_quotes : Bytes → Bytes
escape_quotes [] = []
escape_quotes (c ∷ s) =
    let rest = escape_quotes s in
    if c == single_quote then single_quote ∷ (single_quote ∷ rest) else c ∷ rest

unfoldable pub delegate_to_git_bash : Bytes → Bytes → Bytes
delegate_to_git_bash command gb_path =
    codes "& '" ++ (gb_path ++ (codes "' -c '" ++ (escape_quotes command ++ codes "'")))

unfoldable pub delegate_to_cmd_exe : Bytes → Bytes
delegate_to_cmd_exe command = codes "& cmd /c '" ++ (escape_quotes command ++ codes "'")
