-- ===== src/OutputLimit/Examples.antt =====
-- common/outputlimit.go: small texts, and the theorems at concrete inputs.
use agent_tool.Base.Int.{pos}
use agent_tool.Base.{◌≡◌, ◌≤◌, refl, Bool, true, false, List, [], ◌∷◌, some, arith, codes, ltb}
use agent_tool.OutputLimit.{
  text_line_count, count_newlines, has_newline_suffix, truncate_runes, Content, text_content,
  total_runes, limit_contents, limit_tool_result_text, Budget,
}
use agent_tool.OutputLimit.Laws.{
  others, limit_tool_result_text_lem, append_all, append_all-IsWithin, IsWithin,
}

two_lines : text_line_count (codes "a\nb\n") ≡ 2
unfolding text_line_count count_newlines has_newline_suffix
two_lines = refl

truncates : truncate_runes (codes "abcdef") (pos 4) (codes "..") ≡ (codes "ab..", true)
unfolding truncate_runes
truncates = refl

-- The first text fits what remains but leaves no room for the mark: it is kept as it is, and the
-- second one is left out without a word.
abbrev two_texts : List Content
two_texts = text_content (codes "abcd") ∷ (text_content (codes "efgh") ∷ [])

drops_silently : limit_contents (codes "...") two_texts 5 false ≡ text_content (codes "abcd") ∷ []
unfolding limit_contents truncate_runes
drops_silently = refl

limit_tool_result_text_lem_example :
    (left : List Content) × (cut : Bool) × (limit_tool_result_text (some two_texts) (pos 5)
      ≡ (some left, cut))
    × (total_runes left ≤ 5)
    × (others left ≡ others two_texts)
    × (cut ≡ ltb 5 (total_runes two_texts))
    × (cut ≡ false → left ≡ two_texts)
limit_tool_result_text_lem_example = limit_tool_result_text_lem two_texts 5 (omega arith)

abbrev empty_budget : Budget
empty_budget = record { sb = []; used = 0 }

append_all-IsWithin_example :
    IsWithin 4 (append_all empty_budget (codes "abc" ∷ (codes "de" ∷ (codes "f" ∷ []))) (pos 4))
append_all-IsWithin_example =
    append_all-IsWithin empty_budget (codes "abc" ∷ (codes "de" ∷ (codes "f" ∷ []))) 4 (omega arith)
      (refl, omega arith)
