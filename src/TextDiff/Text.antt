-- ===== src/TextDiff/Text.antt =====
-- internal/textdiff/textdiff.go against `parseUnifiedDiff` of tools/patch/handler.go, on whole texts.
use mathlib.Core.List.{flat_map, reverse, reverse-cons, reverse-append, reverse-reverse}
use agent_tool.Base.{
  ℕ, ◌-◌, false, List, [], ◌∷◌, ◌++◌, append_assoc, append-nil, map, ◌≡◌, ◌≢◌, refl, sym, ap, ◌∙◌,
  arith, ◌==◌, zero, suc, Bytes, codes, All, All-append, differs, take, drop, split, join,
  replace_crlf, trim_left, trim_right,
}
use agent_tool.Base.Decimal.{decimal, IsDigit, decimal-IsDigit}
use agent_tool.LineEnding.{contains_byte}
use agent_tool.Edit.Lines.{split-join}
use agent_tool.Patch.Parse.{ok, parse_unified_diff}
use agent_tool.TextDiff.{
  Tag, slice, prefixed, Group, OpCode, hunk_header, group_body, op_lines, unified_lines, unified,
}
use agent_tool.TextDiff.Parse.{hunk_header-text, group_hunk, IsReadable, parse_lines-unified_lines}

-- A text of one line: it has no newline of either form.
abbrev pub IsInLine : ℕ → Type 0
IsInLine c = (c ≢ b'\r') × (c ≢ b'\n')

abbrev pub IsOneLine : Bytes → Type 0
IsOneLine l = All IsInLine l

-- A line that is printed is not empty.
abbrev IsPrinted : Bytes → Type 0
IsPrinted l = (l ≢ []) × IsOneLine l

module _ {ℓ κ} {A : Type ℓ} (P : A → Type κ) where
  All-take : (n : ℕ) (xs : List A) → All P xs → All P (take n xs)
  All-take zero xs h = tt
  All-take (suc n) [] h = tt
  All-take (suc n) (x ∷ xs) (h, hs) = (h, All-take n xs hs)

  All-drop : (n : ℕ) (xs : List A) → All P xs → All P (drop n xs)
  All-drop zero xs h = h
  All-drop (suc n) [] h = tt
  All-drop (suc n) (x ∷ xs) (h, hs) = All-drop n xs hs

slice-All : (xs : List Bytes) (i j : ℕ) → All IsOneLine xs → All IsOneLine (slice xs i j)
slice-All xs i j h = All-take IsOneLine (j - i) (drop i xs) (All-drop IsOneLine i xs h)

prefixed-All :
    (c : ℕ) (xs : List Bytes) → IsInLine c → All IsOneLine xs → All IsPrinted (prefixed c xs)
prefixed-All c [] h hs = tt
prefixed-All c (x ∷ xs) h (here, hs) = ((λ e. ground arith, (h, here)), prefixed-All c xs h hs)

digits-IsOneLine : (s : Bytes) → All IsDigit s → IsOneLine s
digits-IsOneLine [] h = tt
digits-IsOneLine (c ∷ s) (h, hs) = ((ground arith, ground arith), digits-IsOneLine s hs)

number-IsOneLine : (n : ℕ) (rest : Bytes) → IsOneLine rest → IsOneLine (decimal n ++ rest)
number-IsOneLine n rest h =
    All-append IsInLine (decimal n) rest (digits-IsOneLine (decimal n) (decimal-IsDigit n)) h

literal-IsPrinted :
    (c : ℕ) (s name : Bytes) → IsOneLine (c ∷ s) → IsOneLine name → IsPrinted ((c ∷ s) ++ name)
literal-IsPrinted c s name h k = (λ e. ground arith, All-append IsInLine (c ∷ s) name h k)

hunk_header-IsPrinted : (g : Group) → IsPrinted (hunk_header g)
hunk_header-IsPrinted g = rw (hunk_header-text g) (
    literal-IsPrinted b'@' (codes "@ -") _ (ground arith) (
      number-IsOneLine _ _ (
        (ground arith),
        number-IsOneLine _ _ (
          ground arith,
          (
            ground arith,
            number-IsOneLine _ _ (ground arith, number-IsOneLine _ (codes " @@") (ground arith)),
          ),
        ),
      )))

module _ (a b : List Bytes) (plain_a : All IsOneLine a) (plain_b : All IsOneLine b) where
  op_lines-All : (op : OpCode) → All IsPrinted (op_lines a b op)
  unfolding op_lines
  op_lines-All op = by_tag op.tag refl
    where
      deleted : All IsPrinted (prefixed b'-' (slice a op.i1 op.i2))
      deleted = prefixed-All b'-' _ (ground arith, ground arith) (slice-All a op.i1 op.i2 plain_a)

      inserted : All IsPrinted (prefixed b'+' (slice b op.j1 op.j2))
      inserted = prefixed-All b'+' _ (ground arith, ground arith) (slice-All b op.j1 op.j2 plain_b)

      by_tag : (t : Tag) → op.tag ≡ t → All IsPrinted (op_lines a b op)
      by_tag Tag.equal e =
          rw e (prefixed-All b' ' _ (ground arith, ground arith) (slice-All a op.i1 op.i2 plain_a))
      by_tag Tag.delete e = rw e deleted
      by_tag Tag.insert e = rw e inserted
      by_tag Tag.replace e = rw e (All-append IsPrinted _ _ deleted inserted)

  ops_lines-All : (ops : List OpCode) → All IsPrinted (flat_map (op_lines a b) ops)
  unfolding flat_map
  ops_lines-All [] = tt
  ops_lines-All (op ∷ ops) = All-append IsPrinted _ _ (op_lines-All op) (ops_lines-All ops)

  groups-All :
      (gs : List Group) → All IsPrinted (flat_map (λ g. hunk_header g ∷ group_body a b g) gs)
  unfolding flat_map group_body
  groups-All [] = tt
  groups-All (g ∷ gs) =
      All-append IsPrinted (hunk_header g ∷ flat_map (op_lines a b) (g.first ∷ g.others)) _
        (hunk_header-IsPrinted g, ops_lines-All (g.first ∷ g.others)) (groups-All gs)

  unified_lines-All :
      (name_a name_b : Bytes) (gs : List Group)
      → IsOneLine name_a
      → IsOneLine name_b
      → All IsPrinted (unified_lines name_a name_b a b gs)
  unfolding unified_lines
  unified_lines-All name_a name_b gs old new = (
    literal-IsPrinted b'-' (codes "-- ") name_a (ground arith) old,
    (literal-IsPrinted b'+' (codes "++ ") name_b (ground arith) new, groups-All gs),
  )

-- A text without a carriage return.
abbrev NoReturn : Bytes → Type 0
NoReturn s = All (λ c. c ≢ b'\r') s

replace_crlf_same : (s : Bytes) → NoReturn s → replace_crlf s ≡ s
unfolding replace_crlf
replace_crlf_same [] h = refl
replace_crlf_same (c ∷ []) h = refl
replace_crlf_same (c ∷ d ∷ s) (h, hs) =
    rw (differs c b'\r' h, replace_crlf) (ap (◌∷◌ c) (replace_crlf_same (d ∷ s) hs))

IsOneLine-NoReturn : (l : Bytes) → IsOneLine l → NoReturn l
IsOneLine-NoReturn [] h = tt
IsOneLine-NoReturn (c ∷ l) ((h, _), hs) = (h, IsOneLine-NoReturn l hs)

IsOneLine-contains_byte : (l : Bytes) → IsOneLine l → contains_byte b'\n' l ≡ false
unfolding contains_byte
IsOneLine-contains_byte [] h = refl
IsOneLine-contains_byte (c ∷ l) ((_, h), hs) = rw (differs c b'\n' h) (IsOneLine-contains_byte l hs)

abbrev newline : Bytes
newline = b'\n' ∷ []

-- Each line with its newline.
abbrev printed : List Bytes → Bytes
printed ls = flat_map (λ l. l ++ b'\n' ∷ []) ls

printed-NoReturn : (ls : List Bytes) → All IsPrinted ls → NoReturn (printed ls)
unfolding flat_map
printed-NoReturn [] h = tt
printed-NoReturn (l ∷ ls) ((_, h), hs) =
    All-append (λ c. c ≢ b'\r') (l ++ newline) (printed ls)
      (All-append (λ c. c ≢ b'\r') l newline (IsOneLine-NoReturn l h) (ground arith, tt))
      (printed-NoReturn ls hs)

printed-join : (l : Bytes) (ls : List Bytes) → printed (l ∷ ls) ≡ join (l ∷ ls) newline ++ newline
unfolding flat_map join
printed-join l [] = append-nil (l ++ newline)
printed-join l (m ∷ ls) = rw (printed-join m ls) (simp append_assoc)

-- A text that does not end with a newline.
EndsInLine : Bytes → Type 0
EndsInLine s = (u : Bytes) × (c : ℕ) × (s ≡ u ++ (c ∷ [])) × (c ≢ b'\n')

IsPrinted-EndsInLine : (l : Bytes) → IsPrinted l → EndsInLine l
unfolding EndsInLine
IsPrinted-EndsInLine [] (h, _) = absurd (h refl)
IsPrinted-EndsInLine (c ∷ []) (_, ((_, h), _)) = ([], c, refl, h)
IsPrinted-EndsInLine (c ∷ d ∷ l) (_, (_, hs)) =
    let (u, e, is, h) = IsPrinted-EndsInLine (d ∷ l) (λ e. ground arith, hs) in
    (c ∷ u, e, ap (◌∷◌ c) is, h)

EndsInLine-append : (a b : Bytes) → EndsInLine b → EndsInLine (a ++ b)
unfolding EndsInLine
EndsInLine-append a b (u, c, is, h) = (a ++ u, c, rw is (sym (append_assoc a u (c ∷ []))), h)

join-EndsInLine :
    (l : Bytes) (ls : List Bytes) → All IsPrinted (l ∷ ls) → EndsInLine (join (l ∷ ls) newline)
unfolding join
join-EndsInLine l [] (h, _) = IsPrinted-EndsInLine l h
join-EndsInLine l (m ∷ ls) (_, hs) =
    EndsInLine-append l _ (EndsInLine-append newline _ (join-EndsInLine m ls hs))

-- One newline behind such a text is all that is cut off.
trim_right-newline : (s : Bytes) → EndsInLine s → trim_right (λ c. c == b'\n') (s ++ newline) ≡ s
unfolding trim_right trim_left EndsInLine
trim_right-newline s (u, c, is, h) =
    rw (reverse-append s newline, is, reverse-append u (c ∷ []), differs c b'\n' h)
      (reverse-cons c (reverse u) ∙ ap (λ z. z ++ (c ∷ [])) (reverse-reverse u))

lines_back :
    (l : Bytes) (ls : List Bytes)
    → All IsPrinted (l ∷ ls)
    → split (trim_right (λ c. c == b'\n') (replace_crlf (printed (l ∷ ls)))) b'\n' ≡ l ∷ ls
lines_back l ls h =
    rw
      (
        replace_crlf_same (printed (l ∷ ls)) (printed-NoReturn (l ∷ ls) h),
        printed-join l ls,
        trim_right-newline (join (l ∷ ls) newline) (join-EndsInLine l ls h),
      )
      (split-join l ls (all_lines (l ∷ ls) h))
  where
    all_lines : (ls : List Bytes) → All IsPrinted ls → All (λ l. contains_byte b'\n' l ≡ false) ls
    all_lines [] h = tt
    all_lines (l ∷ ls) ((_, h), hs) = (IsOneLine-contains_byte l h, all_lines ls hs)

-- The text of any unified diff that textdiff prints is read back by the patch tool as the hunks that
-- the groups of opcodes stand for, one for each group and in their order. The numbers must fit an
-- `int`, no name and no line may have a CR or an LF in it, and no deleted line may begin with "--" and
-- no added one with "++": such a line looks like the header of a file.
pub parse_unified_diff-unified :
    (name_a name_b : Bytes) (a b : List Bytes) (gs : List Group)
    → IsOneLine name_a
    → IsOneLine name_b
    → All IsOneLine a
    → All IsOneLine b
    → All (IsReadable a b) gs
    → parse_unified_diff (unified name_a name_b a b gs) ≡ ok (map (group_hunk a b) gs)
unfolding parse_unified_diff unified unified_lines
parse_unified_diff-unified name_a name_b a b gs old new plain_a plain_b all =
    rw (lines_back _ _ (unified_lines-All a b plain_a plain_b name_a name_b gs old new))
      (parse_lines-unified_lines name_a name_b a b gs all)
