-- ===== src/OutputCompact/Whole.antt =====
-- common/outputcompact.go: the text of a compacted output.
use agent_tool.Base.{
  ℕ, ◌+◌, ◌≡◌, refl, sym, ap, ◌∙◌, true, false, List, [], ◌∷◌, ◌++◌, inl, inr, arith, ◌==◌,
  if◌then◌else◌, Bool-cases, Bytes, codes, length, split, join, replace_crlf, append-nil,
  append_assoc,
}
use agent_tool.OutputCompact.{
  fold_lines, compact_lines, compact_diagnostic_output, ends_in_newline, without_last,
  input_lines_of,
}
use agent_tool.OutputCompact.Folds.{Folds, fold_lines-IsFolded}

split-cases : (s : Bytes) → (l : Bytes) × (ls : List Bytes) × (split s b'\n' ≡ l ∷ ls)
unfolding split
split-cases [] = ([], [], refl)
split-cases (c ∷ s) =
    let (l, ls, e) = split-cases s in
    elim (Bool-cases (c == b'\n')) [
      | inl h ↦ ([], split s b'\n', rw h refl)
      | inr h ↦ (c ∷ l, ls, rw (h, e) refl)
    ]

join-cons_first :
    (c : ℕ) (l : Bytes) (ls : List Bytes)
    → join ((c ∷ l) ∷ ls) (codes "\n") ≡ c ∷ join (l ∷ ls) (codes "\n")
unfolding join
join-cons_first c l [] = refl
join-cons_first c l (m ∷ ls) = refl

join-split : (s : Bytes) → join (split s b'\n') (codes "\n") ≡ s
unfolding split join
join-split [] = refl
join-split (c ∷ s) =
    let (l, ls, e) = split-cases s in
    let ih : join (l ∷ ls) (codes "\n") ≡ s = rw e at (join-split s) in
    elim (Bool-cases (c == b'\n')) [
      | inl h ↦ let nl : c ≡ b'\n' = ground arith in rw (h, e, nl) (ap (◌∷◌ b'\n') ih)
      | inr h ↦ rw (h, e) (join-cons_first c l ls ∙ ap (◌∷◌ c) ih)
    ]

without_last-snoc : (ls : List Bytes) (l : Bytes) → without_last (ls ++ (l ∷ [])) ≡ ls
unfolding without_last
without_last-snoc [] l = refl
without_last-snoc (m ∷ []) l = refl
without_last-snoc (m ∷ n ∷ ls) l = ap (◌∷◌ m) (without_last-snoc (n ∷ ls) l)

-- A newline at the end gives a last line that is empty.
split_ends :
    (s : Bytes)
    → ends_in_newline s ≡ true
    → (l : Bytes) × (ls : List Bytes) × (split s b'\n' ≡ (l ∷ ls) ++ ([] ∷ []))
unfolding ends_in_newline split
split_ends [] h = ground arith
split_ends (c ∷ []) h = ([], [], rw h refl)
split_ends (c ∷ d ∷ s) h =
    let (l, ls, e) = split_ends (d ∷ s) h in
    elim (Bool-cases (c == b'\n')) [
      | inl nl ↦ ([], l ∷ ls, rw (nl, e) refl)
      | inr other ↦ (c ∷ l, ls, rw (other, e) refl)
    ]

join-snoc :
    (l : Bytes) (ls : List Bytes)
    → join ((l ∷ ls) ++ ([] ∷ [])) (codes "\n") ≡ join (l ∷ ls) (codes "\n") ++ codes "\n"
unfolding join
join-snoc l [] = refl
join-snoc l (m ∷ ls) =
    let nl = codes "\n" in
    ap (λ z. l ++ (nl ++ z)) (join-snoc m ls) ∙ sym (append_assoc l (nl ++ join (m ∷ ls) nl) nl)

abbrev pub trailing : Bytes → Bytes
trailing s = if ends_in_newline s then codes "\n" else []

join-input_lines_of : (s : Bytes) → join (input_lines_of s) (codes "\n") ++ trailing s ≡ s
join-input_lines_of s = elim (Bool-cases (ends_in_newline s)) [
  | inr e ↦ rw (e, append-nil (join (split s b'\n') (codes "\n"))) (join-split s)
  | inl e ↦
      let (l, ls, is) = split_ends s e in
      rw (e, is, without_last-snoc (l ∷ ls) []) (sym (join-snoc l ls) ∙ rw is at (join-split s))
]

-- The text of a compacted output that is not empty is made of its lines after an admissible folding,
-- and the counts say how many lines there were, how many are left and, as their difference, how many
-- are not.
pub compact_diagnostic_output-Folds :
    (c : ℕ) (s : Bytes)
    → (out : List Bytes) × Folds (input_lines_of (replace_crlf (c ∷ s))) out
      × ((compact_diagnostic_output (c ∷ s)).text
          ≡ join out (codes "\n") ++ trailing (replace_crlf (c ∷ s)))
      × ((compact_diagnostic_output (c ∷ s)).input_lines
          ≡ length (input_lines_of (replace_crlf (c ∷ s))))
      × ((compact_diagnostic_output (c ∷ s)).output_lines ≡ length out)
      × ((compact_diagnostic_output (c ∷ s)).output_lines
            + (compact_diagnostic_output (c ∷ s)).omitted_lines
          ≡ (compact_diagnostic_output (c ∷ s)).input_lines)
unfolding compact_diagnostic_output compact_lines
compact_diagnostic_output-Folds c s =
    let lines = input_lines_of (replace_crlf (c ∷ s)) in
    let (h, count, same) = fold_lines-IsFolded (length lines) lines (omega arith) in
    ((fold_lines (length lines) lines).out, h, refl, refl, refl, count)

-- An output that is not compacted is shown as it is, but for its newlines.
pub compact_diagnostic_output_same :
    (s : Bytes)
    → (compact_diagnostic_output s).compacted ≡ false
    → (compact_diagnostic_output s).text ≡ replace_crlf s
unfolding compact_diagnostic_output compact_lines replace_crlf
compact_diagnostic_output_same [] h = refl
compact_diagnostic_output_same (c ∷ s) h =
    let n = replace_crlf (c ∷ s) in
    let lines = input_lines_of n in
    let (folds, count, same) = fold_lines-IsFolded (length lines) lines (omega arith) in
    ap (λ z. join z (codes "\n") ++ trailing n) (same (ground (arith, h))) ∙ join-input_lines_of n
