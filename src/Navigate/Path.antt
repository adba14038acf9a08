-- ===== src/Navigate/Path.antt =====
-- common/navigate.go: the path behind a wildcard, written and parsed again.
use mathlib.Core.List.{reverse}
use agent_tool.Base.Int.{ℤ, pos, negsuc}
use agent_tool.Base.Decimal.{
  decimal, decimal_ℤ, decimal-IsDigit, IsDigit, read-decimal, decimal-ne-nil,
}
use agent_tool.Base.{
  ℕ, zero, suc, ◌+◌, ◌-◌, ◌*◌, ◌^◌, ◌≤◌, ◌<◌, ◌≡◌, ◌≢◌, refl, ap, ◌∙◌, true, false, ◌&&◌, ◌||◌,
  List, [], ◌∷◌, ◌++◌, some, inl, inr, arith, leb, ◌==◌, List-cases, differs, Bytes, codes, length,
  All, bytes_eq, white_front, white_back, append_assoc, length-append,
}
use agent_tool.Navigate.{
  PathPart, key, index_of, wildcard, digits_value, unsigned, atoi, close_bracket, span_key,
  bracket_part, parse_parts, part_text, build_rest,
}

-- A part that can be written in a path as it is: a key of bytes without dots and opening brackets that
-- neither begins nor ends with white space, an index in the range of the parser, or a wildcard.
abbrev pub IsKeyByte : ℕ → Type 0
IsKeyByte c = (c ≢ b'.') × (c ≢ b'[')

abbrev pub IsClean : PathPart → Type 0
IsClean (key k) = (k ≢ []) × All IsKeyByte k × (white_front k ≡ 0) × (white_back (reverse k) ≡ 0)
IsClean (index_of (pos n)) = n ≤ 2 ^ 63 - 1
IsClean (index_of (negsuc n)) = suc n ≤ 2 ^ 63 - 1
IsClean wildcard = Unit

-- What ends a key.
pub IsEnd : Bytes → Type 0
IsEnd [] = Unit
IsEnd (c ∷ s) = (c == b'.' || c == b'[') ≡ true

span_key_end : (s : Bytes) → IsEnd s → span_key s ≡ ([], s)
unfolding span_key IsEnd
span_key_end [] h = refl
span_key_end (c ∷ s) h = rw h refl

span_key-append : (k rest : Bytes) → All IsKeyByte k → IsEnd rest → span_key (k ++ rest) ≡ (k, rest)
unfolding span_key
span_key-append [] rest h e = span_key_end rest e
span_key-append (c ∷ k) rest ((a, b), hs) e =
    rw (differs c b'.' a, differs c b'[' b, span_key-append k rest hs e) refl

pub build_rest-IsEnd : (parts : List PathPart) → IsEnd (build_rest parts)
unfolding build_rest part_text IsEnd
build_rest-IsEnd [] = tt
build_rest-IsEnd (key k ∷ parts) = refl
build_rest-IsEnd (index_of i ∷ parts) = refl
build_rest-IsEnd (wildcard ∷ parts) = refl

abbrev pub NotClosing : ℕ → Type 0
NotClosing c = c ≢ b']'

close_bracket-append :
    (inner rest : Bytes)
    → All NotClosing inner
    → close_bracket (inner ++ (b']' ∷ rest)) ≡ some (inner, rest)
unfolding close_bracket
close_bracket-append [] rest h = refl
close_bracket-append (c ∷ inner) rest (h, hs) =
    rw (differs c b']' h, close_bracket-append inner rest hs) refl

-- A part in brackets.
parse_bracket :
    (f : ℕ) (inner rest : Bytes)
    → All NotClosing inner
    → parse_parts (suc f) (b'[' ∷ (inner ++ (b']' ∷ rest)))
      ≡ bracket_part inner ∷ parse_parts f rest
unfolding parse_parts
parse_bracket f inner rest h = rw (close_bracket-append inner rest h) refl

-- A key.
pub parse_key :
    (f c : ℕ) (k rest : Bytes)
    → All IsKeyByte (c ∷ k)
    → IsEnd rest
    → parse_parts (suc f) ((c ∷ k) ++ rest) ≡ key (c ∷ k) ∷ parse_parts f rest
unfolding parse_parts
parse_key f c k rest h e =
    rw (differs c b'.' h.0.0, differs c b'[' h.0.1, span_key-append (c ∷ k) rest h e) refl

digits_value_step :
    (m d : ℕ) (s : Bytes)
    → d < 10
    → m * 10 + d ≤ 2 ^ 63 - 1
    → digits_value m ((b'0' + d) ∷ s) ≡ digits_value (m * 10 + d) s
unfolding digits_value
digits_value_step m d s lt h =
    let e : b'0' + d - b'0' ≡ d = omega arith in
    let digit : (leb b'0' (b'0' + d) && leb (b'0' + d) b'9') ≡ true = ground arith in
    rw (digit, e) refl

digits_value-decimal : (n : ℕ) → n ≤ 2 ^ 63 - 1 → digits_value 0 (decimal n) ≡ some n
unfolding digits_value
digits_value-decimal n h = read-decimal digits_value digits_value_step n h

-- The digits of a number, the first apart.
decimal-cases : (n : ℕ) → (c : ℕ) × (s : Bytes) × (decimal n ≡ c ∷ s) × IsDigit c × All IsDigit s
decimal-cases n = elim (List-cases (decimal n)) [
  | inl e ↦ absurd (decimal-ne-nil n e)
  | inr (c, s, e) ↦ let d = rw e at (decimal-IsDigit n) in (c, s, e, d.0, d.1)
]

unsigned-decimal : (bound n : ℕ) → n ≤ 2 ^ 63 - 1 → n ≤ bound → unsigned bound (decimal n) ≡ some n
unfolding unsigned
unsigned-decimal bound n h h' =
    let (c, s, e, d, ds) = decimal-cases n in
    let value : digits_value 0 (c ∷ s) ≡ some n = rw e at (digits_value-decimal n h) in
    let fits : leb n bound ≡ true = ground arith in rw (e, value, fits) refl

bracket_part-pos : (n : ℕ) → n ≤ 2 ^ 63 - 1 → bracket_part (decimal n) ≡ index_of (pos n)
unfolding bracket_part atoi bytes_eq
bracket_part-pos n h =
    let (c, s, e, d, ds) = decimal-cases n in
    let star : (c == b'*') ≡ false = ground arith in
    let minus : (c == b'-') ≡ false = ground arith in
    let plus : (c == b'+') ≡ false = ground arith in
    let value : unsigned (2 ^ 63 - 1) (c ∷ s) ≡ some n =
      rw e at (unsigned-decimal (2 ^ 63 - 1) n h h) in
    rw (e, star, minus, plus, value) refl

bracket_part-negsuc :
    (n : ℕ) → suc n ≤ 2 ^ 63 - 1 → bracket_part (b'-' ∷ decimal (suc n)) ≡ index_of (negsuc n)
unfolding bracket_part atoi bytes_eq
bracket_part-negsuc n h = rw (unsigned-decimal (2 ^ 63) (suc n) h (omega arith)) refl

IsDigit-NotClosing : (s : Bytes) → All IsDigit s → All NotClosing s
IsDigit-NotClosing [] h = tt
IsDigit-NotClosing (c ∷ s) (h, hs) = (ground arith, IsDigit-NotClosing s hs)

pub decimal_ℤ-All : (i : ℤ) → All NotClosing (decimal_ℤ i)
unfolding decimal_ℤ
decimal_ℤ-All (pos n) = IsDigit-NotClosing (decimal n) (decimal-IsDigit n)
decimal_ℤ-All (negsuc n) =
    (ground arith, IsDigit-NotClosing (decimal (suc n)) (decimal-IsDigit (suc n)))

bracket_part-decimal_ℤ : (i : ℤ) → IsClean (index_of i) → bracket_part (decimal_ℤ i) ≡ index_of i
unfolding decimal_ℤ
bracket_part-decimal_ℤ (pos n) h = bracket_part-pos n h
bracket_part-decimal_ℤ (negsuc n) h = bracket_part-negsuc n h

-- The text of an index or a wildcard, with what follows.
pub parse_index :
    (f : ℕ) (i : ℤ) (rest : Bytes)
    → IsClean (index_of i)
    → parse_parts (suc f) (part_text (index_of i) ++ rest) ≡ index_of i ∷ parse_parts f rest
unfolding part_text
parse_index f i rest h =
    ap (λ z. parse_parts (suc f) (b'[' ∷ z)) (append_assoc (decimal_ℤ i) (codes "]") rest)
    ∙ (parse_bracket f (decimal_ℤ i) rest (decimal_ℤ-All i)
        ∙ ap (λ p. p ∷ parse_parts f rest) (bracket_part-decimal_ℤ i h))

pub parse_wildcard :
    (f : ℕ) (rest : Bytes)
    → parse_parts (suc f) (part_text wildcard ++ rest) ≡ wildcard ∷ parse_parts f rest
unfolding part_text bracket_part bytes_eq
parse_wildcard f rest = parse_bracket f (codes "*") rest (ground arith, tt)

pub parse-build_rest :
    (f : ℕ) (parts : List PathPart)
    → All IsClean parts
    → length (build_rest parts) ≤ f
    → parse_parts f (build_rest parts) ≡ parts
unfolding build_rest parse_parts part_text
parse-build_rest zero [] hs le = refl
parse-build_rest (suc f) [] hs le = refl
parse-build_rest zero (key k ∷ parts) hs le = absurd (omega arith)
parse-build_rest zero (index_of i ∷ parts) hs le = absurd (omega arith)
parse-build_rest zero (wildcard ∷ parts) hs le = absurd (omega arith)
parse-build_rest (suc f) (wildcard ∷ parts) (h, hs) le =
    parse_wildcard f (build_rest parts)
    ∙ ap (◌∷◌ wildcard) (parse-build_rest f parts hs (omega arith))
parse-build_rest (suc f) (index_of i ∷ parts) (h, hs) le =
    parse_index f i (build_rest parts) h
    ∙ ap (◌∷◌ (index_of i)) (
        parse-build_rest f parts hs
          (omega (arith, length-append (part_text (index_of i)) (build_rest parts))))
parse-build_rest (suc f) (key [] ∷ parts) ((h, _, _, _), hs) le = absurd (h refl)
parse-build_rest (suc zero) (key (c ∷ k) ∷ parts) ((_, h, _, _), hs) le = absurd (omega arith)
parse-build_rest (suc (suc f)) (key (c ∷ k) ∷ parts) ((_, h, _, _), hs) le =
    parse_key f c k (build_rest parts) h (build_rest-IsEnd parts)
    ∙ ap (◌∷◌ (key (c ∷ k)))
        (parse-build_rest f parts hs (omega (arith, length-append (c ∷ k) (build_rest parts))))
