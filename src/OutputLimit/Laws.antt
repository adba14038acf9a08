-- ===== src/OutputLimit/Laws.antt =====
-- common/outputlimit.go: the number of lines, and what the limits keep.
use mathlib.Core.Path.{subst}
use agent_tool.Base.Int.{ℤ, pos}
use agent_tool.Base.{
  ℕ, suc, ◌+◌, ◌-◌, ◌≤◌, ◌<◌, ◌≡◌, refl, sym, ap, ◌∙◌, Bool, true, false, List, [], ◌∷◌, some, inl,
  inr, arith, ltb, leb, ◌==◌, if◌then◌else◌, Bool-cases, length, take, length-take, length-append,
}
use agent_tool.OutputLimit.{
  Runes, count_newlines, has_newline_suffix, text_line_count, truncate_runes, Content, text_content,
  other_content, total_runes, limit_contents, limit_suffix, limit_result, limit_tool_result_text,
  Budget, append_within_rune_budget, put_fragment,
}

-- The lines that a reader of lines gives: each up to a newline, and a last one without.
abbrev start_line : ℕ → List Runes → List Runes
start_line c [] = (c ∷ []) ∷ []
start_line c (l ∷ ls) = (c ∷ l) ∷ ls

unfoldable pub read_lines : Runes → List Runes
read_lines [] = []
read_lines (c ∷ s) = let rest = read_lines s in if c == b'\n' then [] ∷ rest else start_line c rest

read_lines-cons :
    (c : ℕ) (s : Runes) → (l : Runes) × (ls : List Runes) × (read_lines (c ∷ s) ≡ l ∷ ls)
unfolding read_lines
read_lines-cons c s = elim (Bool-cases (c == b'\n')) [
  | inl e ↦ ([], read_lines s, rw e refl)
  | inr e ↦ rw e (start (read_lines s))
]
  where
    start : (ls : List Runes) → (m : Runes) × (ms : List Runes) × (start_line c ls ≡ m ∷ ms)
    start [] = (c ∷ [], [], refl)
    start (l ∷ ls) = (c ∷ l, ls, refl)

-- The count of the lines of a text is the number of lines that a reader of lines gives.
pub text_line_count-read_lines : (t : Runes) → text_line_count t ≡ length (read_lines t)
unfolding text_line_count count_newlines has_newline_suffix read_lines
text_line_count-read_lines [] = refl
text_line_count-read_lines (c ∷ []) = elim (Bool-cases (c == b'\n')) [
  | inl e ↦ rw e refl
  | inr e ↦ rw e refl
]
text_line_count-read_lines (c ∷ d ∷ s) =
    let ih = text_line_count-read_lines (d ∷ s) in
    let (l, ls, e') = read_lines-cons d s in
    let n : length (read_lines (d ∷ s)) ≡ length (l ∷ ls) = ap length e' in
    elim (Bool-cases (c == b'\n')) [
      | inl e ↦ elim (Bool-cases (has_newline_suffix (d ∷ s))) [
        | inl f ↦ rw (e, f) (ap suc (rw f at ih))
        | inr f ↦ rw (e, f) (ap suc (rw f at ih))
      ]
      | inr e ↦ rw (e, e') (ih ∙ n)
    ]

-- The length of a text that is cut.
length-truncate_runes :
    (t : Runes) (n : ℕ) (suffix : Runes) → length (truncate_runes t (pos n) suffix).0 ≤ n
unfolding truncate_runes
length-truncate_runes t n suffix = elim (Bool-cases (leb (length t) n)) [
  | inl e ↦ rw e (ground arith)
  | inr e ↦ elim (Bool-cases (n == 0)) [
    | inl z ↦ rw (e, z) (omega arith)
    | inr z ↦ elim (Bool-cases (leb n (length suffix))) [
      | inl f ↦ rw (e, z, f) (omega (arith, length-take n t))
      | inr f ↦
          let a = length-append (take (n - length suffix) t) suffix in
          let b = length-take (n - length suffix) t in
          let c : length suffix < n = ground arith in rw (e, z, f) (omega arith)
    ]
  ]
]

-- What is no text.
unfoldable pub others : List Content → List Content
others [] = []
others (text_content t ∷ cs) = others cs
others (other_content b ∷ cs) = other_content b ∷ others cs

limit_contents_bound :
    (suffix : Runes) (cs : List Content) (n : ℕ) (m : Bool)
    → total_runes (limit_contents suffix cs n m) ≤ (if m then 0 else n)
unfolding limit_contents total_runes
limit_contents_bound suffix [] n m = omega arith
limit_contents_bound suffix (other_content b ∷ cs) n m = limit_contents_bound suffix cs n m
limit_contents_bound suffix (text_content t ∷ cs) n true = limit_contents_bound suffix cs n true
limit_contents_bound suffix (text_content t ∷ cs) n false =
    elim (Bool-cases (ltb (length t + length suffix) n)) [
      | inl e ↦
          let fits : length t + length suffix < n = ground arith in
          rw e (omega (arith, limit_contents_bound suffix cs (n - length t) false, fits))
      | inr e ↦
          rw e
            (omega (arith, limit_contents_bound suffix cs n true, length-truncate_runes t n suffix))
    ]

limit_contents-others :
    (suffix : Runes) (cs : List Content) (n : ℕ) (m : Bool)
    → others (limit_contents suffix cs n m) ≡ others cs
unfolding limit_contents others
limit_contents-others suffix [] n m = refl
limit_contents-others suffix (other_content b ∷ cs) n m =
    ap (◌∷◌ (other_content b)) (limit_contents-others suffix cs n m)
limit_contents-others suffix (text_content t ∷ cs) n true = limit_contents-others suffix cs n true
limit_contents-others suffix (text_content t ∷ cs) n false =
    elim (Bool-cases (ltb (length t + length suffix) n)) [
      | inl e ↦ rw e (limit_contents-others suffix cs (n - length t) false)
      | inr e ↦ rw e (limit_contents-others suffix cs n true)
    ]

-- With a positive limit on a result that is there, the texts of what is left have at most that many
-- code points together, everything else is kept in its order, and the answer is that something was
-- left out exactly if there were more code points; otherwise nothing changes.
pub limit_tool_result_text_lem :
    (cs : List Content) (n : ℕ)
    → 0 < n
    → (left : List Content) × (cut : Bool) × (limit_tool_result_text (some cs) (pos n)
        ≡ (some left, cut))
      × (total_runes left ≤ n)
      × (others left ≡ others cs)
      × (cut ≡ ltb n (total_runes cs))
      × (cut ≡ false → left ≡ cs)
unfolding limit_tool_result_text limit_result
limit_tool_result_text_lem cs n h =
    let p : (n == 0) ≡ false = ground arith in
    elim (Bool-cases (leb (total_runes cs) n)) [
      | inl e ↦
          let f : ltb n (total_runes cs) ≡ false = ground arith in
          (cs, false, rw (p, e) refl, ground arith, refl, sym f, λ _. refl)
      | inr e ↦
          let f : ltb n (total_runes cs) ≡ true = ground arith in
          let suffix = limit_suffix (total_runes cs) n in
          (
            limit_contents suffix cs n false,
            true,
            rw (p, e) refl,
            limit_contents_bound suffix cs n false,
            limit_contents-others suffix cs n false,
            sym f,
            λ bad. ground (arith, bad),
          )
    ]

-- Fragments appended one after the other, as long as they fit.
unfoldable pub append_all : Budget → List Runes → ℤ → Budget
append_all b [] n = b
append_all b (t ∷ ts) n = append_all (append_within_rune_budget b t n).0 ts n

append_refused :
    (b : Budget) (t : Runes) (n : ℕ)
    → ltb n (b.used + length t) ≡ true
    → 0 < n
    → append_within_rune_budget b t (pos n) ≡ (b, false)
unfolding append_within_rune_budget
append_refused b t n f h = let p : ltb 0 n ≡ true = ground arith in rw (p, f) refl

append_taken :
    (b : Budget) (t : Runes) (n : ℕ)
    → ltb n (b.used + length t) ≡ false
    → 0 < n
    → append_within_rune_budget b t (pos n) ≡ (put_fragment b t, true)
unfolding append_within_rune_budget
append_taken b t n f h = let p : ltb 0 n ≡ true = ground arith in rw (p, f) refl

-- Whether the number of code points is counted right and within the limit.
abbrev pub IsWithin : ℕ → Budget → Type 0
IsWithin n b = (b.used ≡ length b.sb) × (b.used ≤ n)

-- Whatever fragments are appended, the count stays right and the text within the limit.
pub append_all-IsWithin :
    (b : Budget) (ts : List Runes) (n : ℕ)
    → 0 < n
    → IsWithin n b
    → IsWithin n (append_all b ts (pos n))
unfolding append_all
append_all-IsWithin b [] n h within = within
append_all-IsWithin b (t ∷ ts) n h (e, lt) = elim (Bool-cases (ltb n (b.used + length t))) [
  | inl f ↦
      subst (λ (r : Budget × Bool). IsWithin n (append_all r.0 ts (pos n)))
        (sym (append_refused b t n f h)) (append_all-IsWithin b ts n h (e, lt))
  | inr f ↦
      subst (λ (r : Budget × Bool). IsWithin n (append_all r.0 ts (pos n)))
        (sym (append_taken b t n f h))
        (append_all-IsWithin (put_fragment b t) ts n h
          (omega (arith, length-append b.sb t, e), ground arith))
]
