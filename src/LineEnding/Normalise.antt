-- ===== src/LineEnding/Normalise.antt =====
-- common/fileutil.go, `NormalizeLineEndings`, and the view of common/lineending.go.
use mathlib.Core.List.{flat_map}
use mathlib.Core.Path.{ap₂}
use agent_tool.Base.{
  ℕ, false, [], ◌∷◌, ◌++◌, ◌≡◌, refl, sym, ap, ◌∙◌, inl, inr, arith, ◌==◌, if◌then◌else◌,
  Bool-cases, Bytes, replace_crlf,
}
use agent_tool.LineEnding.{
  Ending, lf, crlf, cr, ending_text, is_pair, to_lf, normalized, replace_cr, replace_lf,
  normalize_line_endings, contains_byte, new_line_ending_map,
}

-- The loop of `NewLineEndingMap` computes what `NormalizeLineEndings` computes by two passes.
pub normalized-normalize_line_endings : (s : Bytes) → normalized s ≡ normalize_line_endings s lf
unfolding normalized normalize_line_endings replace_cr replace_crlf
normalized-normalize_line_endings [] = refl
normalized-normalize_line_endings (c ∷ []) = refl
normalized-normalize_line_endings (c ∷ d ∷ s) = elim (Bool-cases (is_pair c d)) [
  | inl pair ↦
      rw (pair, normalized, replace_crlf) (ap (◌∷◌ b'\n') (normalized-normalize_line_endings s))
  | inr other ↦
      rw (other, normalized, replace_crlf)
        (ap (◌∷◌ (to_lf c)) (normalized-normalize_line_endings (d ∷ s)))
]

-- Text without CR is its own view, which is why the map may skip the loop.
pub normalized_id : (s : Bytes) → contains_byte b'\r' s ≡ false → normalized s ≡ s
unfolding normalized contains_byte
normalized_id [] h = refl
normalized_id (c ∷ []) h = ground arith
normalized_id (c ∷ d ∷ s) h = ground (arith, normalized_id (d ∷ s))

-- `Norm` is the content with every newline collapsed, on both branches of `NewLineEndingMap`.
pub norm-new_line_ending_map :
    (content : Bytes) → (new_line_ending_map content).norm ≡ normalize_line_endings content lf
unfolding new_line_ending_map
norm-new_line_ending_map content = elim (Bool-cases (contains_byte b'\r' content)) [
  | inl some_cr ↦ rw some_cr (normalized-normalize_line_endings content)
  | inr no_cr ↦
      rw no_cr (sym (normalized_id content no_cr) ∙ normalized-normalize_line_endings content)
]

-- A byte that is no CR stays in front.
pub normalized-cons :
    (c : ℕ) (s : Bytes) → (c == b'\r') ≡ false → normalized (c ∷ s) ≡ c ∷ normalized s
unfolding normalized
normalized-cons c [] h = ground arith
normalized-cons c (d ∷ s) h = ground arith

pair_normalized : (r : Bytes) → normalized (b'\r' ∷ b'\n' ∷ r) ≡ b'\n' ∷ normalized r
unfolding normalized
pair_normalized r = refl

replace_first :
    (target : Bytes) (c : ℕ) (t : Bytes)
    → replace_lf target (c ∷ t) ≡ (if c == b'\n' then target else c ∷ []) ++ replace_lf target t
unfolding replace_lf flat_map
replace_first target c t = refl

normalized-crlf :
    (t : Bytes) → contains_byte b'\r' t ≡ false → normalized (replace_lf (ending_text crlf) t) ≡ t
unfolding contains_byte
normalized-crlf [] h = unfold normalized replace_lf flat_map in refl
normalized-crlf (c ∷ t) h = elim (Bool-cases (c == b'\n')) [
  | inl nl ↦
      let e : c ≡ b'\n' = ground arith in
      rw (replace_first (ending_text crlf) c t, nl)
        (pair_normalized _ ∙ ap₂ ◌∷◌ (sym e) (normalized-crlf t (ground arith)))
  | inr other ↦
      rw (replace_first (ending_text crlf) c t, other)
        (normalized-cons c _ (ground arith) ∙ ap (◌∷◌ c) (normalized-crlf t (ground arith)))
]

-- A CR that no LF follows.
pub normalized_lone_cr :
    (c : ℕ) (s : Bytes)
    → (c == b'\n') ≡ false
    → normalized (b'\r' ∷ c ∷ s) ≡ b'\n' ∷ normalized (c ∷ s)
unfolding normalized
normalized_lone_cr c s h = rw (h, normalized)

-- No LF is left where each became a CR.
normalized_after_cr :
    (t : Bytes)
    → normalized (b'\r' ∷ replace_lf (ending_text cr) t)
      ≡ b'\n' ∷ normalized (replace_lf (ending_text cr) t)
normalized_after_cr [] = unfold normalized replace_lf flat_map in refl
normalized_after_cr (c ∷ t) = elim (Bool-cases (c == b'\n')) [
  | inl nl ↦ rw (replace_first (ending_text cr) c t, nl) (normalized_lone_cr b'\r' _ refl)
  | inr other ↦ rw (replace_first (ending_text cr) c t, other) (normalized_lone_cr c _ other)
]

normalized-cr :
    (t : Bytes) → contains_byte b'\r' t ≡ false → normalized (replace_lf (ending_text cr) t) ≡ t
unfolding contains_byte
normalized-cr [] h = unfold normalized replace_lf flat_map in refl
normalized-cr (c ∷ t) h = elim (Bool-cases (c == b'\n')) [
  | inl nl ↦
      let e : c ≡ b'\n' = ground arith in
      rw (replace_first (ending_text cr) c t, nl)
        (normalized_after_cr t ∙ ap₂ ◌∷◌ (sym e) (normalized-cr t (ground arith)))
  | inr other ↦
      rw (replace_first (ending_text cr) c t, other)
        (normalized-cons c _ (ground arith) ∙ ap (◌∷◌ c) (normalized-cr t (ground arith)))
]

no_cr-replace_cr : (s : Bytes) → contains_byte b'\r' (replace_cr s) ≡ false
unfolding contains_byte replace_cr
no_cr-replace_cr [] = refl
no_cr-replace_cr (c ∷ s) = ground (arith, no_cr-replace_cr s)

-- Converting newlines to any form and then to LF is converting them to LF: a conversion loses
-- nothing but the forms of the newlines.
pub normalize_line_endings_back :
    (s : Bytes) (e : Ending)
    → normalize_line_endings (normalize_line_endings s e) lf ≡ normalize_line_endings s lf
unfolding normalize_line_endings
normalize_line_endings_back s lf =
    sym (normalized-normalize_line_endings _) ∙ normalized_id _ (no_cr-replace_cr (replace_crlf s))
normalize_line_endings_back s crlf =
    sym (normalized-normalize_line_endings _)
    ∙ normalized-crlf _ (no_cr-replace_cr (replace_crlf s))
normalize_line_endings_back s cr =
    sym (normalized-normalize_line_endings _) ∙ normalized-cr _ (no_cr-replace_cr (replace_crlf s))
