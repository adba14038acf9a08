-- ===== src/ShellChain/Plain.antt =====
-- tools/bash/chainops.go: commands of words with quotes, put together with operators.
use agent_tool.Base.{
  ℕ, ◌≡◌, ◌≢◌, refl, sym, ap, ◌∙◌, Bool, true, false, List, [], ◌∷◌, ◌++◌, map, inl, inr, ◌==◌,
  Bool-cases, differs, Bytes, All, append-nil, append_assoc, trim_space,
}
use agent_tool.ShellChain.{
  ChainSegment, Scan, new_scan, backslash, single_quote, double_quote, write_byte, track_single,
  track_double, track_parens, track, cut, round, finish_parse, scan_command, parse_chain_ops,
}
use agent_tool.ShellChain.Pieces.{trimmed, glue, IsChainOp}

-- A part of a word: a byte that the shell's syntax does not use, any byte behind a backslash, or
-- text in single or in double quotes.
pub data Word : Type 0 where
  plain escaped : ℕ → Word
  single double : Bytes → Word

abbrev pub IsPlain : ℕ → Type 0
IsPlain c =
    (c ≢ backslash)
    × (c ≢ single_quote)
    × (c ≢ double_quote)
    × (c ≢ b'(')
    × (c ≢ b')')
    × (c ≢ b'&')
    × (c ≢ b'|')

abbrev pub IsWord : Word → Type 0
IsWord (plain c) = IsPlain c
IsWord (escaped c) = Unit
IsWord (single s) = All (λ c. c ≢ single_quote) s
IsWord (double s) = All (λ c. (c ≢ double_quote) × (c ≢ backslash)) s

abbrev pub word_text : Word → Bytes
word_text (plain c) = c ∷ []
word_text (escaped c) = backslash ∷ (c ∷ [])
word_text (single s) = single_quote ∷ (s ++ (single_quote ∷ []))
word_text (double s) = double_quote ∷ (s ++ (double_quote ∷ []))

abbrev pub text_of : List Word → Bytes
text_of [] = []
text_of (w ∷ ws) = word_text w ++ text_of ws

-- A state of the loop with nothing nested so far, outside parentheses.
abbrev pub reading : List ChainSegment → Bytes → Bool → Bool → Scan
reading segments buf in_single in_double = record {
  segments = segments;
  buf = buf;
  has_nested_ops = false;
  in_single = in_single;
  in_double = in_double;
  paren_depth = 0;
}

module _ (g : List ChainSegment) (b : Bytes) where
  -- A round that takes one byte.
  one_byte :
      (c : ℕ) (s : Bytes) (sg db : Bool) (st : Scan)
      → write_byte c (track c (reading g b sg db)) ≡ st
      → ((next : ℕ) → round c next (reading g b sg db) ≡ (st, false))
      → scan_command (reading g b sg db) (c ∷ s) ≡ scan_command st s
  unfolding scan_command
  one_byte c [] sg db st e h = e
  one_byte c (next ∷ s) sg db st e h = rw (h next) refl

  scan_command-plain :
      (c : ℕ) (s : Bytes)
      → IsPlain c
      → scan_command (reading g b false false) (c ∷ s)
        ≡ scan_command (reading g (b ++ (c ∷ [])) false false) s
  unfolding track track_single track_double track_parens write_byte round
  scan_command-plain c s (h0, h1, h2, h3, h4, h5, h6) =
      let e0 = differs c backslash h0 in
      let e1 = differs c single_quote h1 in
      let e2 = differs c double_quote h2 in
      let e3 = differs c b'(' h3 in
      let e4 = differs c b')' h4 in
      let e5 = differs c b'&' h5 in
      let e6 = differs c b'|' h6 in
      one_byte c s false false (reading g (b ++ (c ∷ [])) false false) (rw (e1, e2, e3, e4) refl)
        (λ next. rw (e0, e1, e2, e3, e4, e5, e6) refl)

  scan_command-escaped :
      (c : ℕ) (s : Bytes)
      → scan_command (reading g b false false) (backslash ∷ (c ∷ s))
        ≡ scan_command (reading g (b ++ (backslash ∷ (c ∷ []))) false false) s
  unfolding scan_command round write_byte
  scan_command-escaped c s = rw (append_assoc b (backslash ∷ []) (c ∷ [])) refl

  scan_open-single :
      (s : Bytes)
      → scan_command (reading g b false false) (single_quote ∷ s)
        ≡ scan_command (reading g (b ++ (single_quote ∷ [])) true false) s
  unfolding track track_single track_double track_parens write_byte round
  scan_open-single s = one_byte single_quote s false false _ refl (λ next. refl)

  scan_close-single :
      (s : Bytes)
      → scan_command (reading g b true false) (single_quote ∷ s)
        ≡ scan_command (reading g (b ++ (single_quote ∷ [])) false false) s
  unfolding track track_single track_double track_parens write_byte round
  scan_close-single s = one_byte single_quote s true false _ refl (λ next. refl)

  scan_open-double :
      (s : Bytes)
      → scan_command (reading g b false false) (double_quote ∷ s)
        ≡ scan_command (reading g (b ++ (double_quote ∷ [])) false true) s
  unfolding track track_single track_double track_parens write_byte round
  scan_open-double s = one_byte double_quote s false false _ refl (λ next. refl)

  scan_close-double :
      (s : Bytes)
      → scan_command (reading g b false true) (double_quote ∷ s)
        ≡ scan_command (reading g (b ++ (double_quote ∷ [])) false false) s
  unfolding track track_single track_double track_parens write_byte round
  scan_close-double s = one_byte double_quote s false true _ refl (λ next. refl)

  scan_in-single :
      (c : ℕ) (s : Bytes)
      → c ≢ single_quote
      → scan_command (reading g b true false) (c ∷ s)
        ≡ scan_command (reading g (b ++ (c ∷ [])) true false) s
  unfolding track track_single track_double track_parens write_byte round
  scan_in-single c s h =
      let e = differs c single_quote h in
      elim (Bool-cases (c == double_quote)) [
        | inl d ↦ elim (Bool-cases (c == backslash)) [
          | inl f ↦ one_byte c s true false _ (rw (e, d) refl) (λ next. rw (e, d, f) refl)
          | inr f ↦ one_byte c s true false _ (rw (e, d) refl) (λ next. rw (e, d, f) refl)
        ]
        | inr d ↦ elim (Bool-cases (c == backslash)) [
          | inl f ↦ one_byte c s true false _ (rw (e, d) refl) (λ next. rw (e, d, f) refl)
          | inr f ↦ one_byte c s true false _ (rw (e, d) refl) (λ next. rw (e, d, f) refl)
        ]
      ]

  scan_in-double :
      (c : ℕ) (s : Bytes)
      → c ≢ double_quote
      → c ≢ backslash
      → scan_command (reading g b false true) (c ∷ s)
        ≡ scan_command (reading g (b ++ (c ∷ [])) false true) s
  unfolding track track_single track_double track_parens write_byte round
  scan_in-double c s h h' =
      let e = differs c double_quote h in
      let f = differs c backslash h' in
      elim (Bool-cases (c == single_quote)) [
        | inl d ↦ one_byte c s false true _ (rw (e, d) refl) (λ next. rw (e, d, f) refl)
        | inr d ↦ one_byte c s false true _ (rw (e, d) refl) (λ next. rw (e, d, f) refl)
      ]

-- The inside of quotes, up to the closing one.
scan_single_text :
    (g : List ChainSegment) (b s rest : Bytes)
    → All (λ c. c ≢ single_quote) s
    → scan_command (reading g b true false) (s ++ rest)
      ≡ scan_command (reading g (b ++ s) true false) rest
scan_single_text g b [] rest h = rw (append-nil b) refl
scan_single_text g b (c ∷ s) rest (h, hs) =
    scan_in-single g b c (s ++ rest) h
    ∙ (scan_single_text g (b ++ (c ∷ [])) s rest hs ∙ rw (append_assoc b (c ∷ []) s) refl)

scan_double_text :
    (g : List ChainSegment) (b s rest : Bytes)
    → All (λ c. (c ≢ double_quote) × (c ≢ backslash)) s
    → scan_command (reading g b false true) (s ++ rest)
      ≡ scan_command (reading g (b ++ s) false true) rest
scan_double_text g b [] rest h = rw (append-nil b) refl
scan_double_text g b (c ∷ s) rest (h, hs) =
    scan_in-double g b c (s ++ rest) h.0 h.1
    ∙ (scan_double_text g (b ++ (c ∷ [])) s rest hs ∙ rw (append_assoc b (c ∷ []) s) refl)

scan_command-word_text :
    (g : List ChainSegment) (b : Bytes) (w : Word) (rest : Bytes)
    → IsWord w
    → scan_command (reading g b false false) (word_text w ++ rest)
      ≡ scan_command (reading g (b ++ word_text w) false false) rest
scan_command-word_text g b (plain c) rest h = scan_command-plain g b c rest h
scan_command-word_text g b (escaped c) rest h = scan_command-escaped g b c rest
scan_command-word_text g b (single s) rest h =
    let q = single_quote ∷ [] in
    ap (λ z. scan_command (reading g b false false) (single_quote ∷ z)) (append_assoc s q rest)
    ∙ (scan_open-single g b (s ++ (single_quote ∷ rest))
        ∙ (scan_single_text g (b ++ q) s (single_quote ∷ rest) h
            ∙ (scan_close-single g ((b ++ q) ++ s) rest
                ∙ rw (append_assoc b q s, append_assoc b (q ++ s) q) refl)))
scan_command-word_text g b (double s) rest h =
    let q = double_quote ∷ [] in
    ap (λ z. scan_command (reading g b false false) (double_quote ∷ z)) (append_assoc s q rest)
    ∙ (scan_open-double g b (s ++ (double_quote ∷ rest))
        ∙ (scan_double_text g (b ++ q) s (double_quote ∷ rest) h
            ∙ (scan_close-double g ((b ++ q) ++ s) rest
                ∙ rw (append_assoc b q s, append_assoc b (q ++ s) q) refl)))

scan_command-text_of :
    (g : List ChainSegment) (b : Bytes) (ws : List Word) (rest : Bytes)
    → All IsWord ws
    → scan_command (reading g b false false) (text_of ws ++ rest)
      ≡ scan_command (reading g (b ++ text_of ws) false false) rest
scan_command-text_of g b [] rest h = rw (append-nil b) refl
scan_command-text_of g b (w ∷ ws) rest (h, hs) =
    ap (scan_command (reading g b false false)) (append_assoc (word_text w) (text_of ws) rest)
    ∙ (scan_command-word_text g b w (text_of ws ++ rest) h
        ∙ (scan_command-text_of g (b ++ word_text w) ws rest hs
            ∙ rw (append_assoc b (word_text w) (text_of ws)) refl))

-- A simple command and the operator behind it.
pub record Link : Type 0 where
  pub words : List Word
  pub op : Bytes

abbrev pub segment_of : Link → ChainSegment
segment_of l = record { text = text_of l.words; op = l.op }

abbrev pub IsLink : Link → Type 0
IsLink l = All IsWord l.words × IsChainOp l.op

scan_command-op :
    (g : List ChainSegment) (b op rest : Bytes)
    → IsChainOp op
    → scan_command (reading g b false false) (op ++ rest)
      ≡ scan_command
          (reading (g ++ (record { text = trim_space b; op = op } ∷ [])) [] false false)
          rest
unfolding scan_command round track track_single track_double track_parens cut
scan_command-op g b op rest (inl e) = rw e refl
scan_command-op g b op rest (inr e) = rw e refl

scan_links :
    (g : List ChainSegment) (links : List Link) (rest : Bytes)
    → All IsLink links
    → scan_command (reading g [] false false) (glue (map segment_of links) ++ rest)
      ≡ scan_command (reading (g ++ map trimmed (map segment_of links)) [] false false) rest
unfolding glue
scan_links g [] rest h = rw (append-nil g) refl
scan_links g (l ∷ links) rest ((words, op), hs) =
    let t = text_of l.words in
    let more = glue (map segment_of links) in
    let part = trimmed (segment_of l) in
    ap (scan_command (reading g [] false false)) (append_assoc t (l.op ++ more) rest)
    ∙ (scan_command-text_of g [] l.words ((l.op ++ more) ++ rest) words
        ∙ (ap (scan_command (reading g t false false)) (append_assoc l.op more rest)
            ∙ (scan_command-op g t l.op (more ++ rest) op
                ∙ (scan_links (g ++ (part ∷ [])) links rest hs
                    ∙ rw (append_assoc g (part ∷ []) (map trimmed (map segment_of links))) refl))))

-- Simple commands of words, escaped bytes and quoted text, put together with `&&` and `||`, are
-- parsed into exactly these commands, each trimmed, and nothing is taken for nested.
pub parse_chain_ops-glue :
    (links : List Link) (last : List Word)
    → All IsLink links
    → All IsWord last
    → parse_chain_ops (glue (map segment_of links) ++ text_of last) ≡ record {
      segments =
          map trimmed (map segment_of links)
          ++ (record { text = trim_space (text_of last); op = [] } ∷ []);
      has_nested_ops = false;
    }
unfolding parse_chain_ops new_scan finish_parse scan_command
parse_chain_ops-glue links last h h' =
    let g = map trimmed (map segment_of links) in
    ap finish_parse (
      scan_links [] links (text_of last) h
      ∙ (ap (scan_command (reading g [] false false)) (sym (append-nil (text_of last)))
          ∙ scan_command-text_of g [] last [] h'))
