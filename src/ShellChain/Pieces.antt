-- ===== src/ShellChain/Pieces.antt =====
-- tools/bash/chainops.go: the segments of a command against its text.
use agent_tool.Base.{
  ℕ, ◌≡◌, refl, sym, ap, ◌∙◌, Bool, true, not, ◌&&◌, List, [], ◌∷◌, ◌++◌, map, inl, inr, arith,
  ◌==◌, ltb, if◌then◌else◌, ◌⊎◌, Bool-cases, Bytes, codes, All, All-append, append-nil,
  append_assoc, trim_space,
}
use mathlib.Core.List.{map-append}
use agent_tool.ShellChain.{
  ChainSegment, Scan, new_scan, backslash, single_quote, double_quote, write_byte, track_single,
  track_double, track_parens, track, is_outside, is_chain_op, cut, round, finish_parse,
  scan_command, parse_chain_ops,
}

-- A segment as it stands in the command, and its text and operator put one behind the other.
abbrev pub trimmed : ChainSegment → ChainSegment
trimmed s = record { text = trim_space s.text; op = s.op }

unfoldable pub glue : List ChainSegment → Bytes
glue [] = []
glue (s ∷ segments) = s.text ++ (s.op ++ glue segments)

abbrev pub IsChainOp : Bytes → Type 0
IsChainOp op = (op ≡ codes "&&") ⊎ (op ≡ codes "||")

-- The segments of a command: it is cut at operators, and the parts are trimmed.
unfoldable pub IsSplitOf : Bytes → List ChainSegment → Type 0
IsSplitOf cmd segments =
    (raw : List ChainSegment) × (last : Bytes) × (map trimmed raw
        ++ (record { text = trim_space last; op = [] } ∷ [])
      ≡ segments)
    × (glue raw ++ last ≡ cmd)
    × All (λ s. IsChainOp s.op) raw

-- What the loop has read of the command is in its segments and its buffer.
Holds : Bytes → Scan → Type 0
Holds done st =
    (raw : List ChainSegment) × (map trimmed raw ≡ st.segments)
    × (glue raw ++ st.buf ≡ done)
    × All (λ s. IsChainOp s.op) raw

glue-append : (a b : List ChainSegment) → glue (a ++ b) ≡ glue a ++ glue b
unfolding glue
glue-append [] b = refl
glue-append (s ∷ a) b =
    rw
      (
        glue-append a b,
        append_assoc s.text (s.op ++ glue a) (glue b),
        append_assoc s.op (glue a) (glue b),
      )
      refl

-- The state of the quotes and of the parentheses is apart from the text.
IsSame : Scan → Scan → Type 0
IsSame st' st = (st'.segments ≡ st.segments) × (st'.buf ≡ st.buf)

track_single-IsSame : (ch : ℕ) (st : Scan) → IsSame (track_single ch st) st
unfolding track_single IsSame
track_single-IsSame ch st = elim (Bool-cases (ch == single_quote && not st.in_double)) [
  | inl e ↦ rw e (refl, refl)
  | inr e ↦ rw e (refl, refl)
]

track_double-IsSame : (ch : ℕ) (st : Scan) → IsSame (track_double ch st) st
unfolding track_double IsSame
track_double-IsSame ch st = elim (Bool-cases (ch == double_quote && not st.in_single)) [
  | inl e ↦ rw e (refl, refl)
  | inr e ↦ rw e (refl, refl)
]

track_parens-IsSame : (ch : ℕ) (st : Scan) → IsSame (track_parens ch st) st
unfolding track_parens IsSame
track_parens-IsSame ch st = elim (Bool-cases (ch == b'(')) [
  | inl e ↦ rw e (refl, refl)
  | inr e ↦ elim (Bool-cases (ch == b')' && ltb 0 st.paren_depth)) [
    | inl e' ↦ rw (e, e') (refl, refl)
    | inr e' ↦ rw (e, e') (refl, refl)
  ]
]

track-IsSame : (ch : ℕ) (st : Scan) → IsSame (track ch st) st
unfolding track IsSame
track-IsSame ch st =
    let q = track_double ch (track_single ch st) in
    let s = track_single-IsSame ch st in
    let d = track_double-IsSame ch (track_single ch st) in
    let p = track_parens-IsSame ch q in
    elim (Bool-cases (is_outside q)) [
      | inl e ↦ rw e (p.0 ∙ (d.0 ∙ s.0), p.1 ∙ (d.1 ∙ s.1))
      | inr e ↦ rw e (d.0 ∙ s.0, d.1 ∙ s.1)
    ]

write_byte-Holds :
    (done : Bytes) (ch : ℕ) (st : Scan)
    → Holds done st
    → Holds (done ++ (ch ∷ [])) (write_byte ch st)
unfolding Holds write_byte
write_byte-Holds done ch st (raw, e, g, ops) =
    (raw, e, rw (← append_assoc (glue raw) st.buf (ch ∷ []), g) refl, ops)

track-Holds : (done : Bytes) (ch : ℕ) (st : Scan) → Holds done st → Holds done (track ch st)
unfolding Holds IsSame
track-Holds done ch st (raw, e, g, ops) =
    (raw, e ∙ sym (track-IsSame ch st).0, rw (track-IsSame ch st).1 g, ops)

and-== : (ch next a b : ℕ) → (ch == a && next == b ≡ true) → (ch ≡ a) × (next ≡ b)
and-== ch next a b h = ground arith

is_chain_op-IsChainOp : (ch next : ℕ) → is_chain_op ch next ≡ true → IsChainOp (ch ∷ (next ∷ []))
is_chain_op-IsChainOp ch next h = elim (Bool-cases (ch == b'&' && next == b'&')) [
  | inl e ↦ let (a, b) = and-== ch next b'&' b'&' e in inl (cc (a, b))
  | inr e ↦ let (a, b) = and-== ch next b'|' b'|' (rw e at h) in inr (cc (a, b))
]

cut-Holds :
    (done : Bytes) (ch next : ℕ) (st : Scan)
    → is_chain_op ch next ≡ true
    → Holds done st
    → Holds (done ++ (ch ∷ (next ∷ []))) (cut ch next st)
unfolding Holds cut glue
cut-Holds done ch next st h (raw, e, g, ops) =
    let part : ChainSegment = record { text = st.buf; op = ch ∷ (next ∷ []) } in
    (
      raw ++ (part ∷ []),
      map-append trimmed raw (part ∷ []) ∙ ap (λ z. z ++ (trimmed part ∷ [])) e,
      rw
          (
            append-nil (glue (raw ++ (part ∷ []))),
            glue-append raw (part ∷ []),
            ← append_assoc (glue raw) st.buf (ch ∷ (next ∷ [])),
            g,
          )
          refl,
      All-append (λ s. IsChainOp s.op) raw (part ∷ []) ops (is_chain_op-IsChainOp ch next h, tt),
    )

and_right : (a b : Bool) → (a && b ≡ true) → b ≡ true
and_right a b h = ground arith

-- What a round takes of the command.
abbrev taken : ℕ → ℕ → Bool → Bytes
taken ch next both = if both then ch ∷ (next ∷ []) else ch ∷ []

round-Holds :
    (done : Bytes) (ch next : ℕ) (st : Scan)
    → Holds done st
    → Holds (done ++ taken ch next (round ch next st).1) (round ch next st).0
unfolding round Holds
round-Holds done ch next st h =
    let st' = track ch st in
    let one = write_byte-Holds done ch st h in
    elim (Bool-cases (ch == backslash && not st.in_single)) [
      | inl e ↦
          rw (e, ← append_assoc done (ch ∷ []) (next ∷ []))
            (write_byte-Holds (done ++ (ch ∷ [])) next (write_byte ch st) one)
      | inr e ↦ elim (Bool-cases (is_outside st' && is_chain_op ch next)) [
        | inr e' ↦ rw (e, e') (write_byte-Holds done ch st' (track-Holds done ch st h))
        | inl e' ↦ elim (Bool-cases (st'.paren_depth == 0)) [
          | inl e'' ↦
              rw (e, e', e'')
                (cut-Holds done ch next st' (and_right (is_outside st') (is_chain_op ch next) e')
                  (track-Holds done ch st h))
          | inr e'' ↦
              rw (e, e', e'')
                (write_byte-Holds done ch (record st' { has_nested_ops = true })
                  (track-Holds done ch st h))
        ]
      ]
    ]

scan_command-Holds :
    (done s : Bytes) (st : Scan) → Holds done st → Holds (done ++ s) (scan_command st s)
unfolding scan_command
scan_command-Holds done [] st h = rw (append-nil done) h
scan_command-Holds done (ch ∷ []) st h =
    write_byte-Holds done ch (track ch st) (track-Holds done ch st h)
scan_command-Holds done (ch ∷ next ∷ s) st h = elim (Bool-cases (round ch next st).1) [
  | inl both ↦
      rw (both, ← append_assoc done (ch ∷ (next ∷ [])) s)
        (scan_command-Holds (done ++ (ch ∷ (next ∷ []))) s (round ch next st).0
          (rw both at (round-Holds done ch next st h)))
  | inr one ↦
      rw (one, ← append_assoc done (ch ∷ []) (next ∷ s))
        (scan_command-Holds (done ++ (ch ∷ [])) (next ∷ s) (round ch next st).0
          (rw one at (round-Holds done ch next st h)))
]

-- The segments of a parse are the command cut at operators `&&` and `||`, each trimmed: no byte but
-- white space around the segments is lost or moved.
pub parse_chain_ops-IsSplitOf : (cmd : Bytes) → IsSplitOf cmd (parse_chain_ops cmd).segments
unfolding parse_chain_ops finish_parse IsSplitOf Holds new_scan glue
parse_chain_ops-IsSplitOf cmd =
    let (raw, e, g, ops) = scan_command-Holds [] cmd new_scan ([], refl, refl, tt) in
    (raw, (scan_command new_scan cmd).buf, rw e refl, g, ops)
