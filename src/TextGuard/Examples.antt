-- ===== src/TextGuard/Examples.antt =====
-- common/textguard.go: small texts, and the theorems at concrete inputs.
use agent_tool.Base.{ℕ, ◌≡◌, ◌≤◌, ◌<◌, refl, Bool, true, false, List, [], ◌∷◌, length}
use agent_tool.TextGuard.{
  rune_error, count_rune, line_of_first, replacement_char_count, is_bound_at, walk_back,
  safe_cut_index,
}
use agent_tool.TextGuard.Laws.{safe_cut_index_lem}

-- No combining marks.
abbrev no_marks : ℕ → Bool
no_marks r = false

abbrev joined : List ℕ
joined = b'a' ∷ (0x1f468 ∷ (0x200d ∷ (0x1f469 ∷ [])))

cuts_before_the_joined : safe_cut_index no_marks joined 3 ≡ 1
unfolding safe_cut_index walk_back is_bound_at
cuts_before_the_joined = refl

second_line : replacement_char_count (b'a' ∷ (b'\n' ∷ (rune_error ∷ (rune_error ∷ [])))) ≡ (2, 2)
unfolding replacement_char_count count_rune line_of_first
second_line = refl

safe_cut_index_lem_example :
    (safe_cut_index no_marks joined 3 ≤ 3)
    × (safe_cut_index no_marks joined 3 ≤ length joined)
    × ((k : ℕ)
        → safe_cut_index no_marks joined 3 < k
        → k ≤ 3
        → k < length joined
        → is_bound_at no_marks joined k ≡ true)
    × (3 < length joined → is_bound_at no_marks joined (safe_cut_index no_marks joined 3) ≡ false)
    × (length joined ≤ 3 → safe_cut_index no_marks joined 3 ≡ length joined)
safe_cut_index_lem_example = safe_cut_index_lem no_marks joined 3
