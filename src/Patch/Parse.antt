-- ===== src/Patch/Parse.antt =====
-- tools/patch/handler.go, `parseUnifiedDiff`: from the text of a unified diff to its hunks. The
-- regular expression of the hunk header is read from left to right; no part of it can match in two ways.
use agent_tool.Base.{
  ℕ, ◌+◌, ◌-◌, ◌*◌, ◌^◌, Bool, not, ◌&&◌, ◌||◌, List, [], ◌∷◌, ◌++◌, Option, none, some, ltb, leb,
  ◌==◌, if◌then◌else◌, Bytes, length, codes, has_prefix, split, trim_right, ◌>>=◌, replace_crlf,
}
use agent_tool.Patch.{Op, keep, delete, insert, Hunk}

-- The field of the header whose number does not fit an `int`.
pub data ParseError : Type 0 where
  bad_src_start bad_src_count bad_dst_start bad_dst_count : ParseError

pub data Parsed {ℓ} (A : Type ℓ) : Type ℓ where
  ok : A → Parsed A
  err : ParseError → Parsed A

abbrev pub is_digit : ℕ → Bool
is_digit c = leb b'0' c && leb c b'9'

-- `\d+`: the digits at the front and what follows.
unfoldable pub span_digits : Bytes → Bytes × Bytes
span_digits [] = ([], [])
span_digits (c ∷ s) =
    let rest = span_digits s in if is_digit c then (c ∷ rest.0, rest.1) else ([], c ∷ s)

-- At least one digit.
unfoldable pub nonempty : Bytes → Option Bytes
nonempty [] = none
nonempty (c ∷ s) = some (c ∷ s)

-- The text behind a literal.
unfoldable pub after : Bytes → Bytes → Option Bytes
after [] s = some s
after (p ∷ ps) [] = none
after (p ∷ ps) (c ∷ s) = if c == p then after ps s else none

-- `(?:,(\d+))?`: where no number follows the comma, the group is empty and the comma stays.
unfoldable pub count_group : Bytes → Bytes × Bytes
unfolding span_digits
count_group [] = ([], [])
count_group (c ∷ s) =
    let number = span_digits s in
    if c == b',' && not (length number.0 == 0) then number else ([], c ∷ s)

pub record Header : Type 0 where
  pub src_start : Bytes
  pub src_count : Bytes
  pub dst_start : Bytes
  pub dst_count : Bytes

-- `^@@ -(\d+)(?:,(\d+))? \+(\d+)(?:,(\d+))? @@`: the four groups.
unfoldable pub header_groups : Bytes → Option Header
unfolding after
header_groups line = do
  s ← after (codes "@@ -") line
  let src = span_digits s
  src_start ← nonempty src.0
  let src' = count_group src.1
  t ← after (codes " +") src'.1
  let dst = span_digits t
  dst_start ← nonempty dst.0
  let dst' = count_group dst.1
  rest ← after (codes " @@") dst'.1
  some (record {
    src_start = src_start;
    src_count = src'.0;
    dst_start = dst_start;
    dst_count = dst'.0;
  })

abbrev pub max_int : ℕ
max_int = 2 ^ 63 - 1

-- `strconv.Atoi` on digits: `none` where the number is out of range.
unfoldable pub atoi : ℕ → Bytes → Option ℕ
atoi n [] = some n
atoi n (c ∷ s) =
    let n' = n * 10 + (c - b'0') in let rest = atoi n' s in if ltb max_int n' then none else rest

-- A number of the header, or the error that names it; an absent count is 1.
unfoldable pub number : ParseError → Bytes → Parsed ℕ
number e digits = elim (atoi 0 digits) [ none ↦ err e | some n ↦ ok n ]

unfoldable pub count_of : ParseError → Bytes → Parsed ℕ
count_of e [] = ok 1
count_of e (c ∷ s) = number e (c ∷ s)

abbrev pub bind {ℓ κ} : {A : Type ℓ} {B : Type κ} → Parsed A → (A → Parsed B) → Parsed B
bind (ok a) f = f a
bind (err e) f = err e

-- A hunk with no lines yet.
unfoldable pub open_hunk : Header → Parsed Hunk
open_hunk g = bind (number bad_src_start g.src_start) λ a.
    bind (count_of bad_src_count g.src_count) λ b. bind (number bad_dst_start g.dst_start) λ c.
      bind (count_of bad_dst_count g.dst_count)
        λ d. ok (record { src_start = a; src_count = b; dst_start = c; dst_count = d; lines = [] })

abbrev add_line : Op → Bytes → Hunk → Hunk
add_line o text h = record h { lines = h.lines ++ record { op = o; text = text } ∷ [] }

-- One line inside a hunk: an empty line is context, and other text is ignored.
unfoldable pub body_line : Bytes → Hunk → Hunk
body_line [] h = add_line keep [] h
body_line (c ∷ text) h =
    if c == b' '
    then add_line keep text h
    else if c == b'-'
    then add_line delete text h
    else if c == b'+'
    then add_line insert text h
    else h

-- `--- ` and `+++ ` headers, and whatever else begins so.
unfoldable pub is_file_header : Bytes → Bool
is_file_header line = has_prefix line (codes "---") || has_prefix line (codes "+++")

abbrev pub flush : Option Hunk → List Hunk
flush none = []
flush (some h) = h ∷ []

abbrev map_hunk : (Hunk → Hunk) → Option Hunk → Option Hunk
map_hunk f none = none
map_hunk f (some h) = some (f h)

-- The loop over the lines; `current` is the last hunk so far.
unfoldable pub parse_lines : Option Hunk → List Bytes → Parsed (List Hunk)
parse_lines current [] = ok (flush current)
parse_lines current (line ∷ lines) =
    let skip = parse_lines current lines in
    let body = parse_lines (map_hunk (body_line line) current) lines in
    let found : Parsed (List Hunk) = elim (header_groups line) [
      | none ↦ body
      | some g ↦
          bind (open_hunk g)
            λ h. bind (parse_lines (some h) lines) λ rest. ok (flush current ++ rest)
    ] in
    if is_file_header line then skip else found

unfoldable pub parse_unified_diff : Bytes → Parsed (List Hunk)
unfolding parse_lines header_groups nonempty count_group span_digits is_file_header body_line
    open_hunk count_of number atoi
parse_unified_diff patch =
    parse_lines none (split (trim_right (λ c. c == b'\n') (replace_crlf patch)) b'\n')
