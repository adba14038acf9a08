-- ===== src/Edit/Indent.antt =====
-- tools/edit/indent.go and replace.go: the conversions of indentation.
use native.Mathlib.Nat.{mul-div_cancel, mul-mod_left, mul-le-mul_right}
use mathlib.Core.Path.{ap₂}
use agent_tool.Base.{
  ℕ, zero, suc, ◌-◌, ◌*◌, ◌≤◌, ◌<◌, true, false, List, [], ◌∷◌, ◌++◌, ltb, ◌==◌, Bytes, length,
  replicate, split, trim_left, All, min, ◌≡◌, refl, sym, ap, ◌∙◌, inl, inr, arith, Bool-cases,
  length-append, drop-append_exact,
}
use agent_tool.LineEnding.{contains_byte}
use agent_tool.Edit.{
  stripped, leading, default_size, starts_with, spaces_to_tabs_line, spaces_to_tabs,
  tabs_to_spaces_line, tabs_to_spaces, add_tabs, remove_tabs_line, remove_tabs,
}
use agent_tool.Edit.Lines.{IsLine, on_lines-on_lines, on_lines_id}

length-replicate : (n : ℕ) (c : ℕ) → length (replicate n c) ≡ n
length-replicate zero c = refl
length-replicate (suc n) c = ap suc (length-replicate n c)

stripped-replicate : (c n : ℕ) (s : Bytes) → stripped c (replicate n c ++ s) ≡ stripped c s
unfolding stripped trim_left
stripped-replicate c zero s = refl
stripped-replicate c (suc n) s =
    let same : (c == c) ≡ true = ground arith in rw same (stripped-replicate c n s)

stripped_id : (c : ℕ) (s : Bytes) → starts_with c s ≡ false → stripped c s ≡ s
unfolding stripped trim_left
stripped_id c [] h = refl
stripped_id c (b ∷ s) h = rw h refl

length-stripped : (c : ℕ) (s : Bytes) → length (stripped c s) ≤ length s
unfolding stripped trim_left
length-stripped c [] = omega arith
length-stripped c (b ∷ s) = ground (arith, length-stripped c s)

-- A line is its first bytes `c` and the rest.
leading-append-stripped : (c : ℕ) (s : Bytes) → replicate (leading c s) c ++ stripped c s ≡ s
unfolding leading stripped trim_left
leading-append-stripped c [] = refl
leading-append-stripped c (b ∷ s) = elim (Bool-cases (b == c)) [
  | inl same ↦
      let e : b ≡ c = ground arith in
      let shorter = length-stripped c s in
      let count : suc (length s) - length (stripped c s) ≡ suc (length s - length (stripped c s)) =
        omega (arith, shorter) in
      rw (same, count) (ap₂ ◌∷◌ (sym e) (leading-append-stripped c s))
  | inr other ↦
      let none_left : suc (length s) - suc (length s) ≡ 0 = omega arith in
      rw (other, none_left) refl
]

leading-replicate :
    (c n : ℕ) (s : Bytes) → starts_with c s ≡ false → leading c (replicate n c ++ s) ≡ n
unfolding leading
leading-replicate c n s h =
    rw (stripped-replicate c n s, stripped_id c s h)
      (omega (arith, length-append (replicate n c) s, length-replicate n c))

IsLine-replicate :
    (n c : ℕ) (s : Bytes) → (c == b'\n') ≡ false → IsLine s → IsLine (replicate n c ++ s)
unfolding contains_byte
IsLine-replicate zero c s other h = h
IsLine-replicate (suc n) c s other h = rw other (IsLine-replicate n c s other h)

IsLine-stripped : (c : ℕ) (s : Bytes) → IsLine s → IsLine (stripped c s)
unfolding contains_byte stripped trim_left
IsLine-stripped c [] h = h
IsLine-stripped c (b ∷ s) h = elim (Bool-cases (b == b'\n')) [
  | inl nl ↦ absurd (ground (arith, nl, h))
  | inr other ↦ elim (Bool-cases (b == c)) [
    | inl same ↦ rw same (IsLine-stripped c s (rw other at h))
    | inr apart ↦ rw apart h
  ]
]

remove_tabs_line-replicate : (d : ℕ) (l : Bytes) → remove_tabs_line d (replicate d b'\t' ++ l) ≡ l
unfolding remove_tabs_line leading
remove_tabs_line-replicate d l =
    let all = length-append (replicate d b'\t') l in
    let front = length-replicate d b'\t' in
    let shorter = length-stripped b'\t' l in
    let count : min d (length (replicate d b'\t' ++ l) - length (stripped b'\t' l)) ≡ d =
      omega (arith, all, front, shorter) in
    rw (stripped-replicate b'\t' d l, count) (drop-append_exact d (replicate d b'\t') l front)

All-any : (P : Bytes → Type 0) → ((l : Bytes) → P l) → (ls : List Bytes) → All P ls
All-any P h [] = tt
All-any P h (l ∷ ls) = (h l, All-any P h ls)

-- Removing as many tabs as were added in front of every line gives the text back.
pub remove_tabs-add_tabs : (text : Bytes) (d : ℕ) → remove_tabs (add_tabs text d) d ≡ text
unfolding add_tabs remove_tabs
remove_tabs-add_tabs text zero = refl
remove_tabs-add_tabs text (suc d) =
    let add : Bytes → Bytes = λ l. replicate (suc d) b'\t' ++ l in
    on_lines-on_lines add (remove_tabs_line (suc d)) text
      (λ l h. IsLine-replicate (suc d) b'\t' l refl h)
    ∙ on_lines_id (λ l. remove_tabs_line (suc d) (add l)) text
        (All-any (λ l. remove_tabs_line (suc d) (add l) ≡ l) (remove_tabs_line-replicate (suc d))
          (split text b'\n'))

leading_pos : (c : ℕ) (s : Bytes) → starts_with c s ≡ true → 1 ≤ leading c s
unfolding leading stripped trim_left
leading_pos c [] h = cc
leading_pos c (b ∷ s) h = rw h (omega (arith, length-stripped c s))

-- No space stands behind the tabs that a line begins with, and none at its start.
abbrev pub IsTabbed : Bytes → Type 0
IsTabbed l = starts_with b' ' (stripped b'\t' l) ≡ false

starts_with-replicate : (c n : ℕ) (s : Bytes) → 1 ≤ n → starts_with c (replicate n c ++ s) ≡ true
starts_with-replicate c zero s h = absurd (omega (arith, h))
starts_with-replicate c (suc n) s h = ground arith

-- A run of spaces of whole tab stops.
spaces_to_tabs_line-replicate :
    (n k : ℕ) (s : Bytes)
    → 2 ≤ n
    → 1 ≤ k
    → starts_with b' ' s ≡ false
    → spaces_to_tabs_line n (replicate (k * n) b' ' ++ s) ≡ replicate k b'\t' ++ s
unfolding spaces_to_tabs_line
spaces_to_tabs_line-replicate n k s wide some_tabs plain =
    let most : 1 * n ≤ k * n = mul-le-mul_right n some_tabs in
    let first = starts_with-replicate b' ' (k * n) s (omega (arith, most, wide)) in
    let enough : ltb (k * n) 2 ≡ false = ground (arith, most, wide) in
    let positive : 0 < n = omega (arith, wide) in
    rw
      (
        first,
        leading-replicate b' ' (k * n) s plain,
        enough,
        mul-div_cancel k positive,
        mul-mod_left k n,
        stripped-replicate b' ' (k * n) s,
        stripped_id b' ' s plain,
      )
      refl

tabs_to_spaces_line_tabs :
    (n : ℕ) (l : Bytes)
    → starts_with b'\t' l ≡ true
    → tabs_to_spaces_line n l ≡ replicate (leading b'\t' l * n) b' ' ++ stripped b'\t' l
unfolding tabs_to_spaces_line
tabs_to_spaces_line_tabs n l h = rw (h, tabs_to_spaces_line) refl

tabs_to_spaces_line_plain :
    (n : ℕ) (l : Bytes) → starts_with b'\t' l ≡ false → tabs_to_spaces_line n l ≡ l
unfolding tabs_to_spaces_line
tabs_to_spaces_line_plain n l h = rw (h, tabs_to_spaces_line) refl

spaces_to_tabs_line_plain :
    (n : ℕ) (l : Bytes) → starts_with b' ' l ≡ false → spaces_to_tabs_line n l ≡ l
unfolding spaces_to_tabs_line
spaces_to_tabs_line_plain n l h = rw (h, spaces_to_tabs_line) refl

tabs_and_back :
    (n : ℕ) (l : Bytes) → 2 ≤ n → IsTabbed l → spaces_to_tabs_line n (tabs_to_spaces_line n l) ≡ l
tabs_and_back n l wide plain = elim (Bool-cases (starts_with b'\t' l)) [
  | inl tabbed ↦
      ap (spaces_to_tabs_line n) (tabs_to_spaces_line_tabs n l tabbed)
      ∙ spaces_to_tabs_line-replicate n (leading b'\t' l) (stripped b'\t' l) wide
          (leading_pos b'\t' l tabbed) plain
      ∙ leading-append-stripped b'\t' l
  | inr other ↦
      let plain_l : starts_with b' ' l ≡ false = rw (stripped_id b'\t' l other) at plain in
      ap (spaces_to_tabs_line n) (tabs_to_spaces_line_plain n l other)
      ∙ spaces_to_tabs_line_plain n l plain_l
]

IsLine-tabs_to_spaces_line : (n : ℕ) (l : Bytes) → IsLine l → IsLine (tabs_to_spaces_line n l)
IsLine-tabs_to_spaces_line n l h = elim (Bool-cases (starts_with b'\t' l)) [
  | inl tabbed ↦ rw (tabs_to_spaces_line_tabs n l tabbed) (
      IsLine-replicate (leading b'\t' l * n) b' ' (stripped b'\t' l) refl
        (IsLine-stripped b'\t' l h))
  | inr other ↦ rw (tabs_to_spaces_line_plain n l other) h
]

fixed_lines :
    (f : Bytes → Bytes) (ls : List Bytes)
    → ((l : Bytes) → IsTabbed l → f l ≡ l)
    → All IsTabbed ls
    → All (λ l. f l ≡ l) ls
fixed_lines f [] h tabbed = tt
fixed_lines f (l ∷ ls) h (here, rest) = (h l here, fixed_lines f ls h rest)

-- A text whose lines have only tabs as indentation is the same after its tabs became spaces and the
-- spaces tabs again, for a size of two or more. The size 0 counts as 4.
pub spaces_to_tabs-tabs_to_spaces :
    (text : Bytes) (n : ℕ)
    → 2 ≤ default_size n
    → All IsTabbed (split text b'\n')
    → spaces_to_tabs (tabs_to_spaces text n) n ≡ text
unfolding spaces_to_tabs tabs_to_spaces
spaces_to_tabs-tabs_to_spaces text n wide tabbed =
    let size = default_size n in
    on_lines-on_lines (tabs_to_spaces_line size) (spaces_to_tabs_line size) text
      (IsLine-tabs_to_spaces_line size)
    ∙ on_lines_id (λ l. spaces_to_tabs_line size (tabs_to_spaces_line size l)) text
        (fixed_lines (λ l. spaces_to_tabs_line size (tabs_to_spaces_line size l)) (split text b'\n')
          (λ l plain. tabs_and_back size l wide plain) tabbed)
