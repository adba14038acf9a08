-- ===== src/PatternSearch/Text.antt =====
-- tools/analyze/pattern.go: the text of a pattern, and that of the bytes found.
use agent_tool.Base.{
  ℕ, suc, ◌/◌, ◌%◌, ◌<◌, ◌≡◌, refl, ap, ◌∙◌, Bool, true, false, List, [], ◌∷◌, ◌++◌, map, some, inl,
  inr, arith, leb, ◌==◌, Bool-cases, Option-cases, Bytes, codes, length, length-map, replicate, All,
  join, bytes_eq, is_space,
}
use agent_tool.PatternSearch.{
  Pattern, PatternResult, empty_pattern, pattern_too_long, invalid_hex_byte, parsed, put_first,
  parse_tokens, parse_hex_pattern, is_wildcard, hex_byte, hex_digit, fields, fields_from,
  drop_empty, pattern_overlap, hex_char, encode_hex, pairs, format_hex_spaced,
}

-- A result whose pattern, if it has one, has `n` bytes and as many mask entries.
HasWidth : ℕ → PatternResult → Type 0
HasWidth n (parsed p) = (length p.bytes ≡ n) × (length p.mask ≡ n)
HasWidth n r = Unit

put_first-HasWidth :
    (n b : ℕ) (m : Bool) (r : PatternResult) → HasWidth n r → HasWidth (suc n) (put_first b m r)
unfolding HasWidth
put_first-HasWidth n b m (parsed p) h = (ap suc h.0, ap suc h.1)
put_first-HasWidth n b m empty_pattern h = tt
put_first-HasWidth n b m pattern_too_long h = tt
put_first-HasWidth n b m (invalid_hex_byte i t) h = tt

parse_tokens-HasWidth : (i : ℕ) (toks : List Bytes) → HasWidth (length toks) (parse_tokens i toks)
unfolding parse_tokens HasWidth
parse_tokens-HasWidth i [] = (refl, refl)
parse_tokens-HasWidth i (tok ∷ toks) =
    let rest = parse_tokens-HasWidth (suc i) toks in
    elim (Bool-cases (is_wildcard tok)) [
      | inl wild ↦
          rw wild (put_first-HasWidth (length toks) 0 false (parse_tokens (suc i) toks) rest)
      | inr byte ↦ elim (Option-cases (hex_byte tok)) [
        | inl bad ↦ rw (byte, bad) tt
        | inr (b, good) ↦
            rw (byte, good)
              (put_first-HasWidth (length toks) b true (parse_tokens (suc i) toks) rest)
      ]
    ]

-- A parsed pattern has between one byte and one less than the overlap, and a mask entry for each.
pub parse_hex_pattern_bounds :
    (pattern : Bytes) (pat : Pattern)
    → parse_hex_pattern pattern ≡ parsed pat
    → (0 < length pat.bytes)
      × (length pat.bytes < pattern_overlap)
      × (length pat.mask ≡ length pat.bytes)
unfolding parse_hex_pattern HasWidth
parse_hex_pattern_bounds pattern pat e =
    let n = length (fields pattern) in
    let w : HasWidth n (parse_tokens 0 (fields pattern)) =
      parse_tokens-HasWidth 0 (fields pattern) in
    elim (Bool-cases (n == 0)) [
      | inl none_left ↦ let bad = rw none_left at e in ground arith
      | inr more ↦ elim (Bool-cases (leb pattern_overlap n)) [
        | inl long ↦ let bad = rw (more, long) at e in ground arith
        | inr short ↦
            let h : HasWidth n (parsed pat) = rw (rw (more, short) at e) at w in
            (ground (arith, h.0), ground (arith, h.0), omega (arith, h.0, h.1))
      ]
    ]

-- The hex text of a byte.
abbrev hex_text : ℕ → Bytes
hex_text b = hex_char (b / 16) ∷ (hex_char (b % 16) ∷ [])

pairs-encode_hex : (bs : Bytes) → pairs (encode_hex bs) ≡ map hex_text bs
unfolding pairs encode_hex
pairs-encode_hex [] = refl
pairs-encode_hex (b ∷ bs) = ap (◌∷◌ (hex_text b)) (pairs-encode_hex bs)

hex_char-is_space : (n : ℕ) → n < 16 → is_space (hex_char n) ≡ false
hex_char-is_space n h = ground arith

hex_digit-hex_char : (n : ℕ) → n < 16 → hex_digit (hex_char n) ≡ some n
unfolding hex_digit
hex_digit-hex_char n h = ground arith

hex_byte-hex_text : (b : ℕ) → b < 256 → hex_byte (hex_text b) ≡ some b
unfolding hex_byte
hex_byte-hex_text b h =
    rw (hex_digit-hex_char (b / 16) (omega arith), hex_digit-hex_char (b % 16) (omega arith))
      (ap some (omega arith))

hex_text-is_wildcard : (b : ℕ) → is_wildcard (hex_text b) ≡ false
unfolding bytes_eq
hex_text-is_wildcard b = ground arith

-- White space ends a field.
fields_from-hex_text :
    (b : ℕ) (s : Bytes)
    → b < 256
    → fields_from (hex_text b ++ (b' ' ∷ s)) ≡ hex_text b ∷ fields_from s
unfolding fields_from
fields_from-hex_text b s h =
    rw (hex_char-is_space (b / 16) (omega arith), hex_char-is_space (b % 16) (omega arith)) refl

fields_from-join :
    (b : ℕ) (bs : Bytes)
    → All (λ c. c < 256) (b ∷ bs)
    → fields_from (join (map hex_text (b ∷ bs)) (codes " ")) ≡ map hex_text (b ∷ bs)
unfolding fields_from join
fields_from-join b [] (h, _) =
    rw (hex_char-is_space (b / 16) (omega arith), hex_char-is_space (b % 16) (omega arith)) refl
fields_from-join b (c ∷ bs) (h, hs) =
    fields_from-hex_text b (join (map hex_text (c ∷ bs)) (codes " ")) h
    ∙ ap (◌∷◌ (hex_text b)) (fields_from-join c bs hs)

drop_empty-map : (bs : Bytes) → drop_empty (map hex_text bs) ≡ map hex_text bs
unfolding drop_empty
drop_empty-map [] = refl
drop_empty-map (b ∷ bs) = ap (◌∷◌ (hex_text b)) (drop_empty-map bs)

-- The pattern of exactly these bytes.
abbrev pub exactly : Bytes → Pattern
exactly bs = record { bytes = bs; mask = replicate (length bs) true }

parse_tokens-map :
    (i : ℕ) (bs : Bytes)
    → All (λ c. c < 256) bs
    → parse_tokens i (map hex_text bs) ≡ parsed (exactly bs)
unfolding parse_tokens
parse_tokens-map i [] h = refl
parse_tokens-map i (b ∷ bs) (h, hs) =
    rw (hex_text-is_wildcard b, hex_byte-hex_text b h, parse_tokens-map (suc i) bs hs) refl

-- The text that is printed for the bytes of a hit is, as a pattern, the one of exactly these bytes.
pub parse_hex_pattern-format_hex_spaced :
    (b : ℕ) (bs : Bytes)
    → All (λ c. c < 256) (b ∷ bs)
    → length (b ∷ bs) < pattern_overlap
    → parse_hex_pattern (format_hex_spaced (encode_hex (b ∷ bs))) ≡ parsed (exactly (b ∷ bs))
unfolding parse_hex_pattern format_hex_spaced fields
parse_hex_pattern-format_hex_spaced b bs h short =
    let same : fields (format_hex_spaced (encode_hex (b ∷ bs))) ≡ map hex_text (b ∷ bs) =
      rw (pairs-encode_hex (b ∷ bs), fields_from-join b bs h) (drop_empty-map (b ∷ bs)) in
    let n : leb pattern_overlap (length (map hex_text (b ∷ bs))) ≡ false =
      ground (arith, length-map hex_text bs) in
    let k : (length (map hex_text (b ∷ bs)) == 0) ≡ false = ground arith in
    rw (same, n, k) (parse_tokens-map 0 (b ∷ bs) h)
