-- ===== src/OutputCompact/Folds.antt =====
-- common/outputcompact.go: which lines are folded, and the counts of lines.
use mathlib.Core.Path.{subst, ap₂}
use agent_tool.Base.{
  ℕ, zero, suc, ◌+◌, ◌-◌, ◌≤◌, ◌<◌, ◌≡◌, refl, sym, ap, ◌∙◌, true, false, ◌&&◌, List, [], ◌∷◌, ◌++◌,
  map, Option, none, some, inl, inr, arith, ltb, Bool-cases, Option-cases, List-cases, Bytes,
  length, take, drop, replicate, bytes_eq, bytes_eq_iff, take-append-drop, length-append,
  length-take, length-drop, length-map,
}
use agent_tool.OutputCompact.{
  parse_git_line_ending_warning, format_git_line_ending_group, is_diagnostic_line, same_message,
  following_paths, following_equal, Folded, put_group, put_lines, repeated_text, warning_group,
  fold_lines,
}

abbrev pub with_message : Bytes → Bytes → Option (Bytes × Bytes)
with_message message path = some (path, message)

-- What folding may do with lines: keep them, write a diagnostic that stands several times in turn once
-- with its number, and write several warnings of git with one message as one line with their paths.
pub data Folds : List Bytes → List Bytes → Type 0 where
  nothing : Folds [] []
  kept :
      {lines out : List Bytes} (line : Bytes) → Folds lines out → Folds (line ∷ lines) (line ∷ out)
  repeated :
      {lines out : List Bytes} (line : Bytes) (n : ℕ)
      → is_diagnostic_line line ≡ true
      → Folds lines out
      → Folds (replicate (suc (suc n)) line ++ lines) (repeated_text line (suc (suc n)) ∷ out)
  warned :
      {lines out : List Bytes} (run : List Bytes) (message : Bytes) (paths : List Bytes)
      → map parse_git_line_ending_warning run ≡ map (with_message message) paths
      → 1 < length paths
      → Folds lines out
      → Folds (run ++ lines) (format_git_line_ending_group message paths ∷ out)

same_message_lem :
    (message path : Bytes) (o : Option (Bytes × Bytes))
    → same_message message o ≡ some path
    → o ≡ some (path, message)
same_message_lem message path none h = ground arith
same_message_lem message path (some (p, m)) h = elim (Bool-cases (bytes_eq m message)) [
  | inr e ↦ let bad = rw e at h in ground arith
  | inl e ↦
      let same = rw e at h in
      let e' = (bytes_eq_iff m message).0 e in let e'' : p ≡ path = ground arith in cc (e', e'')
]

following_paths_end :
    (message line : Bytes) (lines : List Bytes)
    → same_message message (parse_git_line_ending_warning line) ≡ none
    → following_paths message (line ∷ lines) ≡ []
unfolding following_paths
following_paths_end message line lines e = rw (following_paths, e) refl

following_paths_more :
    (message line path : Bytes) (lines : List Bytes)
    → same_message message (parse_git_line_ending_warning line) ≡ some path
    → following_paths message (line ∷ lines) ≡ path ∷ following_paths message lines
unfolding following_paths
following_paths_more message line path lines e = rw (following_paths, e) refl

-- The warnings that follow are the first lines.
following_paths_lem :
    (message : Bytes) (lines : List Bytes)
    → map parse_git_line_ending_warning (take (length (following_paths message lines)) lines)
      ≡ map (with_message message) (following_paths message lines)
unfolding following_paths
following_paths_lem message [] = refl
following_paths_lem message (line ∷ lines) =
    elim (Option-cases (same_message message (parse_git_line_ending_warning line))) [
      | inl e ↦ rw (following_paths_end message line lines e) refl
      | inr (path, e) ↦
          let parsed = same_message_lem message path (parse_git_line_ending_warning line) e in
          rw (following_paths_more message line path lines e)
            (ap₂ ◌∷◌ parsed (following_paths_lem message lines))
    ]

following_equal_lem :
    (line : Bytes) (lines : List Bytes)
    → take (following_equal line lines) lines ≡ replicate (following_equal line lines) line
unfolding following_equal
following_equal_lem line [] = refl
following_equal_lem line (l ∷ lines) = elim (Bool-cases (bytes_eq l line)) [
  | inl e ↦
      let same = (bytes_eq_iff l line).0 e in
      rw (e, same) (ap (◌∷◌ line) (following_equal_lem line lines))
  | inr e ↦ rw e refl
]

Folds-put_lines : (ls lines out : List Bytes) → Folds lines out → Folds (ls ++ lines) (ls ++ out)
Folds-put_lines [] lines out h = h
Folds-put_lines (l ∷ ls) lines out h = kept l (Folds-put_lines ls lines out h)

-- The group that starts with a line: the paths, and that the lines behind it carry them.
warning_group_lem :
    (line : Bytes) (lines : List Bytes) (message : Bytes) (paths : List Bytes)
    → warning_group line lines ≡ some (message, paths)
    → (map parse_git_line_ending_warning (line ∷ take (length paths - 1) lines)
        ≡ map (with_message message) paths)
      × (1 < length paths)
unfolding warning_group
warning_group_lem line lines message paths h =
    elim (Option-cases (parse_git_line_ending_warning line)) [
      | inl e ↦ let bad = rw e at h in ground arith
      | inr ((path, m), e) ↦ elim (List-cases (following_paths m lines)) [
        | inl f ↦ let bad = rw (e, f) at h in ground arith
        | inr (p, ps, f) ↦
            let same = rw (e, f) at h in
            let same_m : m ≡ message = ground arith in
            let same_p : path ∷ (p ∷ ps) ≡ paths = ground arith in
            let size : length (path ∷ (p ∷ ps)) - 1 ≡ length (p ∷ ps) = omega arith in
            let parsed = e ∙ ap (λ z. some (path, z)) same_m in
            let more = rw f at (following_paths_lem m lines) in
            let more' =
              subst
                (λ x.
                  map parse_git_line_ending_warning (take (length (p ∷ ps)) lines)
                  ≡ map (with_message x) (p ∷ ps))
                same_m more in
            subst
              (λ qs.
                (map parse_git_line_ending_warning (line ∷ take (length qs - 1) lines)
                  ≡ map (with_message message) qs)
                × (1 < length qs))
              same_p (rw size (ap₂ ◌∷◌ parsed more'), omega arith)
      ]
    ]

-- The rounds of the loop.
fold_group :
    (f : ℕ) (line : Bytes) (lines : List Bytes) (message : Bytes) (paths : List Bytes)
    → warning_group line lines ≡ some (message, paths)
    → fold_lines (suc f) (line ∷ lines)
      ≡ put_group
          (format_git_line_ending_group message paths)
          (length paths - 1)
          (fold_lines f (drop (length paths - 1) lines))
unfolding fold_lines
fold_group f line lines message paths e = rw (fold_lines, e) refl

fold_repeated :
    (f : ℕ) (line : Bytes) (lines : List Bytes)
    → warning_group line lines ≡ none
    → (ltb 0 (following_equal line lines) && is_diagnostic_line line) ≡ true
    → fold_lines (suc f) (line ∷ lines)
      ≡ put_group
          (repeated_text line (suc (following_equal line lines)))
          (following_equal line lines)
          (fold_lines f (drop (following_equal line lines) lines))
unfolding fold_lines
fold_repeated f line lines e e' = rw (fold_lines, e, e') refl

fold_kept :
    (f : ℕ) (line : Bytes) (lines : List Bytes)
    → warning_group line lines ≡ none
    → (ltb 0 (following_equal line lines) && is_diagnostic_line line) ≡ false
    → fold_lines (suc f) (line ∷ lines)
      ≡ put_lines
          (line ∷ take (following_equal line lines) lines)
          (fold_lines f (drop (following_equal line lines) lines))
unfolding fold_lines
fold_kept f line lines e e' = rw (fold_lines, e, e') refl

following_equal_le : (line : Bytes) (lines : List Bytes) → following_equal line lines ≤ length lines
unfolding following_equal
following_equal_le line [] = omega arith
following_equal_le line (l ∷ lines) = elim (Bool-cases (bytes_eq l line)) [
  | inl e ↦ rw e (omega (arith, following_equal_le line lines))
  | inr e ↦ rw e (omega arith)
]

-- What folding makes of lines: an admissible result, whose lines and omitted ones are as many as there
-- were, and which is unchanged if there is no group.
abbrev pub IsFolded : List Bytes → Folded → Type 0
IsFolded lines r =
    Folds lines r.out × (length r.out + r.omitted ≡ length lines) × (r.groups ≡ 0 → r.out ≡ lines)

fold_group-IsFolded :
    (line : Bytes) (lines : List Bytes) (message : Bytes) (paths : List Bytes) (r : Folded)
    → warning_group line lines ≡ some (message, paths)
    → IsFolded (drop (length paths - 1) lines) r
    → IsFolded
        (line ∷ lines)
        (put_group (format_git_line_ending_group message paths) (length paths - 1) r)
fold_group-IsFolded line lines message paths r e (h, count, same) =
    let k = length paths - 1 in
    let (run, more) = warning_group_lem line lines message paths e in
    let a = length-map parse_git_line_ending_warning (line ∷ take k lines) in
    let b = length-map (with_message message) paths in
    let g = length-drop k lines in
    let c : length (map parse_git_line_ending_warning (line ∷ take k lines))
        ≡ length (map (with_message message) paths) =
      ap length run in
    let d = length-take k lines in
    let back : (line ∷ take k lines) ++ drop k lines ≡ line ∷ lines =
      ap (◌∷◌ line) (take-append-drop k lines) in
    (
      subst (λ ls. Folds ls (format_git_line_ending_group message paths ∷ r.out)) back
          (warned (line ∷ take k lines) message paths run more h),
      omega arith,
      λ z. absurd (omega arith),
    )

fold_repeated-IsFolded :
    (line : Bytes) (lines : List Bytes) (r : Folded)
    → (ltb 0 (following_equal line lines) && is_diagnostic_line line) ≡ true
    → IsFolded (drop (following_equal line lines) lines) r
    → IsFolded (line ∷ lines) (
        put_group
          (repeated_text line (suc (following_equal line lines)))
          (following_equal line lines)
          r)
fold_repeated-IsFolded line lines r e (h, count, same) =
    let n = following_equal line lines in
    let le = following_equal_le line lines in
    let g = length-drop n lines in
    let some_more : 0 < n = ground arith in
    let diagnostic : is_diagnostic_line line ≡ true = ground arith in
    let size : n ≡ suc (n - 1) = omega arith in
    let back : line ∷ (replicate n line ++ drop n lines) ≡ line ∷ lines = ap (◌∷◌ line) (
      ap (λ xs. xs ++ drop n lines) (sym (following_equal_lem line lines))
      ∙ take-append-drop n lines) in
    (
      subst (λ ls. Folds ls (repeated_text line (suc n) ∷ r.out)) back
          (subst
            (λ m.
              Folds (replicate (suc m) line ++ drop n lines) (repeated_text line (suc m) ∷ r.out))
            (sym size) (repeated line (n - 1) diagnostic h)),
      omega arith,
      λ z. absurd (omega arith),
    )

fold_kept-IsFolded :
    (line : Bytes) (lines : List Bytes) (n : ℕ) (r : Folded)
    → n ≤ length lines
    → IsFolded (drop n lines) r
    → IsFolded (line ∷ lines) (put_lines (line ∷ take n lines) r)
fold_kept-IsFolded line lines n r le (h, count, same) =
    let g = length-drop n lines in
    let d = length-take n lines in
    let a = length-append (take n lines) r.out in
    let back : (line ∷ take n lines) ++ drop n lines ≡ line ∷ lines =
      ap (◌∷◌ line) (take-append-drop n lines) in
    (
      subst (λ ls. Folds ls ((line ∷ take n lines) ++ r.out)) back
          (Folds-put_lines (line ∷ take n lines) (drop n lines) r.out h),
      omega arith,
      λ z. rw (same z) back,
    )

pub fold_lines-IsFolded :
    (f : ℕ) (lines : List Bytes) → length lines ≤ f → IsFolded lines (fold_lines f lines)
unfolding fold_lines
fold_lines-IsFolded f [] h = (nothing, refl, λ z. refl)
fold_lines-IsFolded zero (line ∷ lines) h = absurd (omega arith)
fold_lines-IsFolded (suc f) (line ∷ lines) h =
    let n = following_equal line lines in
    let ih : (k : ℕ) → IsFolded (drop k lines) (fold_lines f (drop k lines)) =
      λ k. fold_lines-IsFolded f (drop k lines) (omega (arith, length-drop k lines)) in
    elim (Option-cases (warning_group line lines)) [
      | inr ((message, paths), e) ↦
          subst (IsFolded (line ∷ lines)) (sym (fold_group f line lines message paths e))
            (fold_group-IsFolded line lines message paths _ e (ih (length paths - 1)))
      | inl e ↦ elim (Bool-cases (ltb 0 n && is_diagnostic_line line)) [
        | inl e' ↦
            subst (IsFolded (line ∷ lines)) (sym (fold_repeated f line lines e e'))
              (fold_repeated-IsFolded line lines _ e' (ih n))
        | inr e' ↦
            subst (IsFolded (line ∷ lines)) (sym (fold_kept f line lines e e'))
              (fold_kept-IsFolded line lines n _ (following_equal_le line lines) (ih n))
      ]
    ]
