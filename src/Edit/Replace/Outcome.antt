-- ===== src/Edit/Replace/Outcome.antt =====
-- tools/edit/replace.go: the outcomes of `applySpans` and of `Replace`.
use agent_tool.Base.{ℕ, ◌<◌, Bool, false, Option, none, some, Bytes, ◌≡◌, ◌⊎◌}
use agent_tool.Edit.Replace.{
  ReplaceResult, not_found, indentation_differs, ambiguous, applied, count_occurrences,
}
use agent_tool.Edit.Replace.{Needle, Candidate}
use agent_tool.Edit.{add_tabs}
use agent_tool.Edit.Replace.Spans.{Replaced}

-- What an edit may do, with `count` hits: say that there is none, refuse because there are several,
-- or replace all of them. Several hits are replaced only if `all` is set.
pub Edits : Bytes → Bytes → Bytes → Bool → ℕ → ReplaceResult → Type 0
Edits old new s all count not_found = count ≡ 0
Edits old new s all count indentation_differs = ⊥
Edits old new s all count (ambiguous n) = (all ≡ false) × (n ≡ count) × (1 < count)
Edits old new s all count (applied t n) =
    (n ≡ count) × (0 < count) × (all ≡ false → count ≡ 1) × Replaced old new s t n

-- A pass that finds something has a hit in the view.
FindsIn : Bytes → Option Needle → Type 0
FindsIn norm none = Unit {0}
FindsIn norm (some n) = 0 < count_occurrences norm n.old n.line_start

-- A candidate depth has hits.
HasHits : Bytes → Bytes → Candidate → Type 0
HasHits norm stripped_old c = 0 < count_occurrences norm (add_tabs stripped_old c.base_tabs) false

-- The outcomes of `Replace`, by what the passes find.
pub Outcome : Bytes → Bool → Bytes → Option Needle → ReplaceResult → Type 0
Outcome content all norm none r = (r ≡ not_found) ⊎ (r ≡ indentation_differs)
Outcome content all norm (some n) r =
    (0 < count_occurrences norm n.old n.line_start)
    × Edits n.old n.new content all (count_occurrences norm n.old n.line_start) r
