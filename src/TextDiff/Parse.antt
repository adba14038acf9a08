-- ===== src/TextDiff/Parse.antt =====
-- internal/textdiff/textdiff.go against the parser of tools/patch/handler.go.
use mathlib.Core.List.{flat_map, map-append}
use mathlib.Core.Path.{ap₂}
use agent_tool.Base.{
  ℕ, ◌+◌, ◌-◌, ◌*◌, ◌^◌, ◌≤◌, ◌<◌, true, false, List, [], ◌∷◌, ◌++◌, append_assoc, append-nil, map,
  Option, none, some, ◌≡◌, ◌≢◌, refl, ap, ◌∙◌, arith, ◌==◌, Bytes, codes, length, All, has_prefix,
}
use agent_tool.Base.Decimal.{decimal, IsDigit, decimal-IsDigit, decimal-ne-nil, read-decimal}
use agent_tool.Patch.{Op, HunkLine, Hunk}
use agent_tool.Patch.Parse.{
  ok, is_digit, span_digits, nonempty, count_group, header_groups, Header, atoi, max_int, number,
  count_of, bad_src_start, bad_src_count, bad_dst_start, bad_dst_count, ParseError, open_hunk,
  body_line, is_file_header, parse_lines, flush,
}
use agent_tool.TextDiff.{
  Tag, slice, prefixed, Group, OpCode, group_end, range_line, hunk_header, group_body, op_lines,
  unified_lines,
}

span_digits-append :
    (ds : Bytes) (c : ℕ) (rest : Bytes)
    → All IsDigit ds
    → is_digit c ≡ false
    → span_digits (ds ++ c ∷ rest) ≡ (ds, c ∷ rest)
unfolding span_digits
span_digits-append [] c rest all h = rw h
span_digits-append (d ∷ ds) c rest (here, all) h =
    let digit : is_digit d ≡ true = ground arith in rw (digit, span_digits-append ds c rest all h)

nonempty_eq : (n : ℕ) → (length (decimal n) == 0) ≡ false
nonempty_eq n = ground (arith, decimal-ne-nil n)

count_group-decimal :
    (n c : ℕ) (rest : Bytes)
    → is_digit c ≡ false
    → count_group (b',' ∷ (decimal n ++ c ∷ rest)) ≡ (decimal n, c ∷ rest)
unfolding count_group
count_group-decimal n c rest h =
    rw (span_digits-append (decimal n) c rest (decimal-IsDigit n) h, nonempty_eq n) refl

nonempty_digits : (ds : Bytes) → ds ≢ [] → nonempty ds ≡ some ds
unfolding nonempty
nonempty_digits [] h = absurd (h refl)
nonempty_digits (d ∷ ds) h = refl

-- The header of a hunk, for any four numbers.
abbrev pub header_text : ℕ → ℕ → ℕ → ℕ → Bytes
header_text a b c d =
    codes "@@ -"
    ++ (decimal a
        ++ (b','
            ∷ (decimal b ++ (codes " +" ++ (decimal c ++ (b',' ∷ (decimal d ++ codes " @@")))))))

pub hunk_header-text :
    (g : Group)
    → hunk_header g
      ≡ header_text
          (range_line g.first.i1 (group_end g).i2)
          ((group_end g).i2 - g.first.i1)
          (range_line g.first.j1 (group_end g).j2)
          ((group_end g).j2 - g.first.j1)
unfolding hunk_header
hunk_header-text g = simp append_assoc

header_groups-text :
    (a b c d : ℕ)
    → header_groups (header_text a b c d)
      ≡ some (record {
        src_start = decimal a;
        src_count = decimal b;
        dst_start = decimal c;
        dst_count = decimal d;
      })
unfolding header_groups
header_groups-text a b c d =
    rw
      (
        span_digits-append (decimal a) b','
            (decimal b ++ (codes " +" ++ (decimal c ++ (b',' ∷ (decimal d ++ codes " @@")))))
            (decimal-IsDigit a) refl,
        nonempty_digits (decimal a) (decimal-ne-nil a),
        count_group-decimal b b' ' (b'+' ∷ (decimal c ++ (b',' ∷ (decimal d ++ codes " @@")))) refl,
        span_digits-append (decimal c) b',' (decimal d ++ codes " @@") (decimal-IsDigit c) refl,
        nonempty_digits (decimal c) (decimal-ne-nil c),
        count_group-decimal d b' ' (b'@' ∷ b'@' ∷ []) refl,
      )
      refl

atoi_step :
    (m d : ℕ) (s : Bytes)
    → d < 10
    → m * 10 + d ≤ 2 ^ 63 - 1
    → atoi m ((b'0' + d) ∷ s) ≡ atoi (m * 10 + d) s
unfolding atoi
atoi_step m d s h fits = ground arith

atoi-decimal : (n : ℕ) → n ≤ max_int → atoi 0 (decimal n) ≡ some n
atoi-decimal n h = read-decimal atoi atoi_step n h ∙ (unfold atoi in refl)

number-decimal : (e : ParseError) (n : ℕ) → n ≤ max_int → number e (decimal n) ≡ ok n
unfolding number
number-decimal e n h = rw (atoi-decimal n h, number)

count_of_nonempty : (e : ParseError) (ds : Bytes) → ds ≢ [] → count_of e ds ≡ number e ds
unfolding count_of
count_of_nonempty e [] ne = absurd (ne refl)
count_of_nonempty e (d ∷ ds) ne = refl

count_of-decimal : (e : ParseError) (n : ℕ) → n ≤ max_int → count_of e (decimal n) ≡ ok n
count_of-decimal e n h = count_of_nonempty e (decimal n) (decimal-ne-nil n) ∙ number-decimal e n h

-- How a line of a hunk is printed.
abbrev pub mark : Op → ℕ
mark Op.keep = b' '
mark Op.delete = b'-'
mark Op.insert = b'+'

abbrev pub print_line : HunkLine → Bytes
print_line h = mark h.op ∷ h.text

-- The line is not taken for the header of a file: it does not begin with "---" or "+++".
abbrev pub IsPlain : HunkLine → Type 0
IsPlain h = is_file_header (print_line h) ≡ false

header_groups-mark : (o : Op) (text : Bytes) → header_groups (mark o ∷ text) ≡ none
unfolding header_groups
header_groups-mark Op.keep text = refl
header_groups-mark Op.delete text = refl
header_groups-mark Op.insert text = refl

body_line-mark :
    (o : Op) (text : Bytes) (h : Hunk)
    → body_line (mark o ∷ text) h
      ≡ record h { lines = h.lines ++ record { op = o; text = text } ∷ [] }
unfolding body_line
body_line-mark Op.keep text h = refl
body_line-mark Op.delete text h = refl
body_line-mark Op.insert text h = refl

parse_lines-body :
    (hs : List HunkLine) (h : Hunk) (rest : List Bytes)
    → All IsPlain hs
    → parse_lines (some h) (map print_line hs ++ rest)
      ≡ parse_lines (some (record h { lines = h.lines ++ hs })) rest
unfolding parse_lines
parse_lines-body [] h rest plain = rw append-nil
parse_lines-body (l ∷ hs) h rest (here, plain) =
    rw (here, header_groups-mark l.op l.text, body_line-mark l.op l.text h)
      (parse_lines-body hs (record h { lines = h.lines ++ l ∷ [] }) rest plain
        ∙ rw (append_assoc h.lines (l ∷ []) hs))

abbrev pub as_lines : Op → List Bytes → List HunkLine
as_lines o = map (λ t. record { op = o; text = t })

-- The hunk that a group of opcodes stands for.
abbrev pub op_hunk_lines : List Bytes → List Bytes → OpCode → List HunkLine
op_hunk_lines a b op = elim op.tag [
  | Tag.equal ↦ as_lines Op.keep (slice a op.i1 op.i2)
  | Tag.delete ↦ as_lines Op.delete (slice a op.i1 op.i2)
  | Tag.insert ↦ as_lines Op.insert (slice b op.j1 op.j2)
  | Tag.replace ↦
      as_lines Op.delete (slice a op.i1 op.i2) ++ as_lines Op.insert (slice b op.j1 op.j2)
]

abbrev pub ops_hunk_lines : List Bytes → List Bytes → List OpCode → List HunkLine
ops_hunk_lines a b [] = []
ops_hunk_lines a b (op ∷ ops) = op_hunk_lines a b op ++ ops_hunk_lines a b ops

abbrev pub group_hunk : List Bytes → List Bytes → Group → Hunk
group_hunk a b g = record {
  src_start = range_line g.first.i1 (group_end g).i2;
  src_count = (group_end g).i2 - g.first.i1;
  dst_start = range_line g.first.j1 (group_end g).j2;
  dst_count = (group_end g).j2 - g.first.j1;
  lines = ops_hunk_lines a b (g.first ∷ g.others);
}

-- The four numbers of the header fit a 64-bit `int`, and no line of the body passes for a header.
pub record IsReadable (a b : List Bytes) (g : Group) : Type 0 where
  pub src_start_fits : range_line g.first.i1 (group_end g).i2 ≤ max_int
  pub src_count_fits : (group_end g).i2 - g.first.i1 ≤ max_int
  pub dst_start_fits : range_line g.first.j1 (group_end g).j2 ≤ max_int
  pub dst_count_fits : (group_end g).j2 - g.first.j1 ≤ max_int
  pub plain : All IsPlain (ops_hunk_lines a b (g.first ∷ g.others))

prefixed-as_lines :
    (o : Op) (xs : List Bytes) → prefixed (mark o) xs ≡ map print_line (as_lines o xs)
prefixed-as_lines o [] = refl
prefixed-as_lines o (x ∷ xs) = ap (◌∷◌ (mark o ∷ x)) (prefixed-as_lines o xs)

op_lines_lem :
    (a b : List Bytes) (op : OpCode) → op_lines a b op ≡ map print_line (op_hunk_lines a b op)
unfolding op_lines
op_lines_lem a b op = by_tag op.tag refl
  where
    by_tag : (t : Tag) → op.tag ≡ t → op_lines a b op ≡ map print_line (op_hunk_lines a b op)
    by_tag Tag.equal e = rw e (prefixed-as_lines Op.keep _)
    by_tag Tag.delete e = rw e (prefixed-as_lines Op.delete _)
    by_tag Tag.insert e = rw e (prefixed-as_lines Op.insert _)
    by_tag Tag.replace e =
        let del = slice a op.i1 op.i2 in
        let ins = slice b op.j1 op.j2 in
        rw (e, map-append print_line (as_lines Op.delete del) (as_lines Op.insert ins))
          (ap₂ ◌++◌ (prefixed-as_lines Op.delete del) (prefixed-as_lines Op.insert ins))

ops_lines_lem :
    (a b : List Bytes) (ops : List OpCode)
    → flat_map (op_lines a b) ops ≡ map print_line (ops_hunk_lines a b ops)
unfolding flat_map
ops_lines_lem a b [] = refl
ops_lines_lem a b (op ∷ ops) =
    rw (map-append print_line (op_hunk_lines a b op) (ops_hunk_lines a b ops))
      (ap₂ ◌++◌ (op_lines_lem a b op) (ops_lines_lem a b ops))

header_is_no_file_header : (g : Group) → is_file_header (hunk_header g) ≡ false
unfolding is_file_header hunk_header has_prefix
header_is_no_file_header g = refl

abbrev opened : List Bytes → List Bytes → Group → Hunk
opened a b g = record (group_hunk a b g) { lines = [] }

abbrev digits_of : Group → Header
digits_of g = record {
  src_start = decimal (range_line g.first.i1 (group_end g).i2);
  src_count = decimal ((group_end g).i2 - g.first.i1);
  dst_start = decimal (range_line g.first.j1 (group_end g).j2);
  dst_count = decimal ((group_end g).j2 - g.first.j1);
}

header_groups-hunk_header : (g : Group) → header_groups (hunk_header g) ≡ some (digits_of g)
header_groups-hunk_header g = ap header_groups (hunk_header-text g) ∙ header_groups-text _ _ _ _

open_hunk-digits :
    (a b : List Bytes) (g : Group) → IsReadable a b g → open_hunk (digits_of g) ≡ ok (opened a b g)
unfolding open_hunk
open_hunk-digits a b g r =
    rw
      (
        number-decimal bad_src_start _ r.src_start_fits,
        count_of-decimal bad_src_count _ r.src_count_fits,
        number-decimal bad_dst_start _ r.dst_start_fits,
        count_of-decimal bad_dst_count _ r.dst_count_fits,
      )
      refl

group_body-lines :
    (a b : List Bytes) (g : Group) → group_body a b g ≡ map print_line (group_hunk a b g).lines
unfolding group_body
group_body-lines a b g = ops_lines_lem a b (g.first ∷ g.others)

parse_group :
    (a b : List Bytes) (g : Group) (rest : List Bytes) (current : Option Hunk) (hs : List Hunk)
    → IsReadable a b g
    → parse_lines (some (group_hunk a b g)) rest ≡ ok hs
    → parse_lines current (hunk_header g ∷ (group_body a b g ++ rest)) ≡ ok (flush current ++ hs)
unfolding parse_lines
parse_group a b g rest current hs r later =
    rw
      (
        header_is_no_file_header g,
        header_groups-hunk_header g,
        open_hunk-digits a b g r,
        group_body-lines a b g,
        parse_lines-body (group_hunk a b g).lines (opened a b g) rest r.plain,
        later,
      )
      refl

parse_groups :
    (a b : List Bytes) (gs : List Group) (current : Option Hunk)
    → All (IsReadable a b) gs
    → parse_lines current (flat_map (λ g. hunk_header g ∷ group_body a b g) gs)
      ≡ ok (flush current ++ map (group_hunk a b) gs)
unfolding flat_map
parse_groups a b [] current all = unfold parse_lines in rw append-nil
parse_groups a b (g ∷ gs) current (r, all) =
    parse_group a b g _ current (map (group_hunk a b) (g ∷ gs)) r
      (parse_groups a b gs (some (group_hunk a b g)) all)

-- Wherever it stands, a line that begins like the header of a file is skipped.
pub skip_header :
    (current : Option Hunk) (line : Bytes) (rest : List Bytes)
    → is_file_header line ≡ true
    → parse_lines current (line ∷ rest) ≡ parse_lines current rest
unfolding parse_lines
skip_header current line rest e = rw (e, parse_lines)

old_name : (name : Bytes) → is_file_header (codes "--- " ++ name) ≡ true
unfolding is_file_header has_prefix
old_name name = refl

new_name : (name : Bytes) → is_file_header (codes "+++ " ++ name) ≡ true
unfolding is_file_header has_prefix
new_name name = refl

-- The lines of any unified diff that textdiff prints are read by the loop of the patch tool as the hunks
-- that the groups of opcodes stand for, one for each group and in their order. The numbers must fit
-- an `int`, and no deleted line may begin with "--" and no added one with "++": such a line looks
-- like the header of a file.
pub parse_lines-unified_lines :
    (name_a name_b : Bytes) (a b : List Bytes) (gs : List Group)
    → All (IsReadable a b) gs
    → parse_lines none (unified_lines name_a name_b a b gs) ≡ ok (map (group_hunk a b) gs)
unfolding unified_lines
parse_lines-unified_lines name_a name_b a b gs all =
    skip_header none _ _ (old_name name_a)
    ∙ (skip_header none _ _ (new_name name_b) ∙ parse_groups a b gs none all)
