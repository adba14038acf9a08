-- ===== src/Navigate/Rebuild.antt =====
-- common/navigate.go: `ParsePath` behind `BuildRemainingPath`, and the number of parts.
use mathlib.Core.List.{reverse, reverse-append, reverse-cons, reverse-reverse}
use agent_tool.Base.Decimal.{decimal_ℤ}
use agent_tool.Base.{
  ℕ, zero, suc, ◌≤◌, ◌≡◌, ◌≢◌, refl, sym, ap, ◌∙◌, List, [], ◌∷◌, ◌++◌, append-nil, append_assoc,
  inl, inr, arith, ◌==◌, Bool-cases, Option-cases, Bytes, codes, length, All, trim_space,
  white_front, white_back, length-append,
}
use agent_tool.Navigate.Trim.{
  trim_space_same, length-trim_space, white_front-append, white_back-append, white_back-bracket,
  white_front-bracket,
}
use agent_tool.Navigate.{
  PathPart, key, index_of, wildcard, close_bracket, span_key, parse_parts, parse_path, part_text,
  build_rest, build_remaining_path,
}
use agent_tool.Navigate.Path.{
  IsClean, parse-build_rest, parse_key, parse_index, parse_wildcard, build_rest-IsEnd,
}

-- A key behind a text that is empty or ends with a dot.
key_back : (s k : Bytes) → IsClean (key k) → white_back (reverse (s ++ (b'.' ∷ k))) ≡ 0
key_back s k (some_text, _, _, back) =
    rw
      (
        reverse-append s (b'.' ∷ k),
        reverse-cons b'.' k,
        append_assoc (reverse k) (b'.' ∷ []) (reverse s),
      )
      (white_back-append (reverse k) b'.' (reverse s) (omega arith) (some_reverse k some_text) back)
  where
    some_reverse : (k : Bytes) → k ≢ [] → reverse k ≢ []
    some_reverse k h e = h (sym (reverse-reverse k) ∙ ap reverse e)

-- What is written behind a text that does not end with white space does not end with it either.
build_rest_back :
    (s : Bytes) (parts : List PathPart)
    → All IsClean parts
    → white_back (reverse s) ≡ 0
    → white_back (reverse (s ++ build_rest parts)) ≡ 0
unfolding build_rest part_text
build_rest_back s [] hs e = rw (append-nil s) e
build_rest_back s (key k ∷ parts) (h, hs) e =
    rw (← append_assoc s (b'.' ∷ k) (build_rest parts))
      (build_rest_back (s ++ (b'.' ∷ k)) parts hs (key_back s k h))
build_rest_back s (index_of i ∷ parts) (h, hs) e =
    let text = s ++ (b'[' ∷ decimal_ℤ i) in
    let part : (text ++ (b']' ∷ [])) ++ build_rest parts
        ≡ s ++ ((b'[' ∷ (decimal_ℤ i ++ (b']' ∷ []))) ++ build_rest parts) =
      simp append_assoc in
    rw (← part) (build_rest_back (text ++ (b']' ∷ [])) parts hs (white_back-bracket text))
build_rest_back s (wildcard ∷ parts) (h, hs) e =
    let text = s ++ codes "[*" in
    let part : (text ++ (b']' ∷ [])) ++ build_rest parts ≡ s ++ (codes "[*]" ++ build_rest parts) =
      simp append_assoc in
    rw (← part) (build_rest_back (text ++ (b']' ∷ [])) parts hs (white_back-bracket text))

build_rest_front :
    (c : ℕ) (k : Bytes) (parts : List PathPart)
    → white_front (c ∷ k) ≡ 0
    → white_front ((c ∷ k) ++ build_rest parts) ≡ 0
unfolding build_rest part_text
build_rest_front c k [] e = rw (append-nil k) e
build_rest_front c k (key j ∷ parts) e = white_front-append c k _ b'.' (omega arith) e
build_rest_front c k (index_of i ∷ parts) e = white_front-append c k _ b'[' (omega arith) e
build_rest_front c k (wildcard ∷ parts) e = white_front-append c k _ b'[' (omega arith) e

build_remaining_path_front :
    (parts : List PathPart) → All IsClean parts → white_front (build_remaining_path parts) ≡ 0
unfolding build_remaining_path part_text
build_remaining_path_front [] hs = unfold white_front in refl
build_remaining_path_front (key [] ∷ parts) ((h, _, _, _), hs) = absurd (h refl)
build_remaining_path_front (key (c ∷ k) ∷ parts) ((_, _, front, _), hs) =
    build_rest_front c k parts front
build_remaining_path_front (index_of i ∷ parts) hs = white_front-bracket _
build_remaining_path_front (wildcard ∷ parts) hs = white_front-bracket _

build_remaining_path_back :
    (parts : List PathPart)
    → All IsClean parts
    → white_back (reverse (build_remaining_path parts)) ≡ 0
unfolding build_remaining_path part_text
build_remaining_path_back [] hs = unfold white_back in refl
build_remaining_path_back (key k ∷ parts) ((_, _, _, back), hs) = build_rest_back k parts hs back
build_remaining_path_back (index_of i ∷ parts) (h, hs) =
    build_rest_back ((b'[' ∷ decimal_ℤ i) ++ codes "]") parts hs
      (white_back-bracket (b'[' ∷ decimal_ℤ i))
build_remaining_path_back (wildcard ∷ parts) (h, hs) =
    build_rest_back (codes "[*]") parts hs (white_back-bracket (codes "[*"))

parse-build_remaining_path :
    (f : ℕ) (parts : List PathPart)
    → All IsClean parts
    → length (build_remaining_path parts) ≤ f
    → parse_parts f (build_remaining_path parts) ≡ parts
unfolding build_remaining_path parse_parts part_text
parse-build_remaining_path zero [] hs le = refl
parse-build_remaining_path (suc f) [] hs le = refl
parse-build_remaining_path zero (index_of i ∷ parts) hs le = absurd (omega arith)
parse-build_remaining_path zero (wildcard ∷ parts) hs le = absurd (omega arith)
parse-build_remaining_path f (key [] ∷ parts) ((h, _, _, _), hs) le = absurd (h refl)
parse-build_remaining_path zero (key (c ∷ k) ∷ parts) hs le = absurd (omega arith)
parse-build_remaining_path (suc f) (wildcard ∷ parts) (h, hs) le =
    parse_wildcard f (build_rest parts)
    ∙ ap (◌∷◌ wildcard) (parse-build_rest f parts hs (omega arith))
parse-build_remaining_path (suc f) (index_of i ∷ parts) (h, hs) le =
    parse_index f i (build_rest parts) h
    ∙ ap (◌∷◌ (index_of i)) (
        parse-build_rest f parts hs
          (omega (arith, length-append (part_text (index_of i)) (build_rest parts))))
parse-build_remaining_path (suc f) (key (c ∷ k) ∷ parts) ((_, h, _, _), hs) le =
    parse_key f c k (build_rest parts) h (build_rest-IsEnd parts)
    ∙ ap (◌∷◌ (key (c ∷ k)))
        (parse-build_rest f parts hs (omega (arith, length-append (c ∷ k) (build_rest parts))))

-- A path of clean parts that is written and parsed again has the same parts.
pub parse_path-build_remaining_path :
    (parts : List PathPart) → All IsClean parts → parse_path (build_remaining_path parts) ≡ parts
unfolding parse_path
parse_path-build_remaining_path parts hs =
    rw
      (trim_space_same (build_remaining_path parts) (build_remaining_path_front parts hs)
        (build_remaining_path_back parts hs))
      (parse-build_remaining_path (length (build_remaining_path parts)) parts hs (omega arith))

length-parse_parts : (f : ℕ) (s : Bytes) → length (parse_parts f s) ≤ f
unfolding parse_parts
length-parse_parts zero s = omega arith
length-parse_parts (suc f) [] = omega arith
length-parse_parts (suc f) (c ∷ s) = elim (Bool-cases (c == b'.')) [
  | inl e ↦ rw e (omega (arith, length-parse_parts f s))
  | inr e ↦ elim (Bool-cases (c == b'[')) [
    | inr e' ↦ rw (e, e') (omega (arith, length-parse_parts f (span_key (c ∷ s)).1))
    | inl e' ↦ elim (Option-cases (close_bracket s)) [
      | inl g ↦ rw (e, e', g) (omega arith)
      | inr (b, g) ↦ rw (e, e', g) (omega (arith, length-parse_parts f b.1))
    ]
  ]
]

-- A path has no more parts than bytes.
pub length-parse_path : (s : Bytes) → length (parse_path s) ≤ length s
unfolding parse_path
length-parse_path s =
    omega (arith, length-parse_parts (length (trim_space s)) (trim_space s), length-trim_space s)
