-- ===== src/OutputLimit.antt =====
-- common/outputlimit.go: the limits on what a tool answers. A text is the list of its code points.
pub mod Laws
pub mod Examples
use agent_tool.Base.Int.{ℤ, pos, negsuc}
use agent_tool.Base.Decimal.{decimal}
use agent_tool.Base.{
  ℕ, zero, suc, ◌+◌, ◌-◌, ◌*◌, Bool, true, false, List, [], ◌∷◌, ◌++◌, Option, none, some, ltb, leb,
  ◌==◌, if◌then◌else◌, Bytes, codes, length, take,
}

abbrev pub Runes : Type 0
Runes = List ℕ

-- `strings.Count(text, "\n")` and `strings.HasSuffix(text, "\n")`.
unfoldable pub count_newlines : Runes → ℕ
count_newlines [] = 0
count_newlines (c ∷ s) = let rest = count_newlines s in if c == b'\n' then suc rest else rest

unfoldable pub has_newline_suffix : Runes → Bool
has_newline_suffix [] = false
has_newline_suffix (c ∷ []) = c == b'\n'
has_newline_suffix (c ∷ d ∷ s) = has_newline_suffix (d ∷ s)

-- `TextLineCount`.
unfoldable pub text_line_count : Runes → ℕ
text_line_count [] = 0
text_line_count (c ∷ s) =
    let count = count_newlines (c ∷ s) in if has_newline_suffix (c ∷ s) then count else suc count

-- `TruncateRunes`: the text, and whether it was cut.
unfoldable pub truncate_runes : Runes → ℤ → Runes → Runes × Bool
truncate_runes text (negsuc n) suffix = (text, false)
truncate_runes text (pos max_runes) suffix =
    if leb (length text) max_runes
    then (text, false)
    else if max_runes == 0
    then ([], true)
    else if leb max_runes (length suffix)
    then (take max_runes text, true)
    else (take (max_runes - length suffix) text ++ suffix, true)

-- The text of the builder, and `*used`.
pub record Budget : Type 0 where
  pub sb : Runes
  pub used : ℕ

abbrev pub put_fragment : Budget → Runes → Budget
put_fragment b text = record { sb = b.sb ++ text; used = b.used + length text }

-- `AppendWithinRuneBudget`. Without a positive limit everything fits.
unfoldable pub append_within_rune_budget : Budget → Runes → ℤ → Budget × Bool
append_within_rune_budget b text (negsuc n) = (put_fragment b text, true)
append_within_rune_budget b text (pos max_runes) =
    if ltb 0 max_runes
    then if ltb max_runes (b.used + length text) then (b, false) else (put_fragment b text, true)
    else (put_fragment b text, true)

-- The content of a result: text, or something else such as an image.
pub data Content : Type 0 where
  text_content : Runes → Content
  other_content : Bytes → Content

unfoldable pub total_runes : List Content → ℕ
total_runes [] = 0
total_runes (text_content t ∷ cs) = length t + total_runes cs
total_runes (other_content b ∷ cs) = total_runes cs

unfoldable pub limit_suffix : ℕ → ℕ → Runes
limit_suffix total max_runes =
    codes "\n[truncated=true; original_chars="
    ++ (decimal total
        ++ (codes "; limit="
            ++ (decimal max_runes ++ codes "; narrow the request or use paging parameters]")))

-- The loop of `LimitToolResultText`, with `remaining` and `markerWritten`.
unfoldable pub limit_contents : Runes → List Content → ℕ → Bool → List Content
limit_contents suffix [] remaining marker = []
limit_contents suffix (other_content b ∷ cs) remaining marker =
    other_content b ∷ limit_contents suffix cs remaining marker
limit_contents suffix (text_content t ∷ cs) remaining true = limit_contents suffix cs remaining true
limit_contents suffix (text_content t ∷ cs) remaining false =
    let kept = text_content t ∷ limit_contents suffix cs (remaining - length t) false in
    let cut =
      text_content (truncate_runes t (pos remaining) suffix).0
      ∷ limit_contents suffix cs remaining true in
    if ltb (length t + length suffix) remaining then kept else cut

-- `LimitToolResultText` with a positive limit, on a result that is there.
unfoldable pub limit_result : List Content → ℕ → List Content × Bool
limit_result cs max_runes =
    let total = total_runes cs in
    if leb total max_runes
    then (cs, false)
    else (limit_contents (limit_suffix total max_runes) cs max_runes false, true)

unfoldable pub limit_tool_result_text : Option (List Content) → ℤ → Option (List Content) × Bool
limit_tool_result_text none max_runes = (none, false)
limit_tool_result_text (some cs) (negsuc n) = (some cs, false)
limit_tool_result_text (some cs) (pos max_runes) =
    if max_runes == 0
    then (some cs, false)
    else (let r = limit_result cs max_runes in (some r.0, r.1))
