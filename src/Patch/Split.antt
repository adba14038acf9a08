-- ===== src/Patch/Split.antt =====
-- tools/patch/handler.go: splitting a file and rendering its lines.
use agent_tool.Base.{
  ℕ, Bool, true, false, List, [], ◌∷◌, ◌++◌, append_assoc, append-nil, ◌≡◌, ◌≢◌, refl, sym, ap, ◌∙◌,
  inl, inr, arith, ◌==◌, Bool-cases, Bytes,
}
use agent_tool.Patch.{
  SrcLine, lf, terminated, split_from, split_keeping_terminators, or_else, render,
  ends_with_newline,
}

terminated-text : (cur : Bytes) → (terminated cur).text ++ (terminated cur).term ≡ cur ++ lf
unfolding terminated
terminated-text [] = refl
terminated-text (c ∷ []) = ground arith
terminated-text (c ∷ d ∷ s) = ap (◌∷◌ c) (terminated-text (d ∷ s))

terminated-or_else : (cur d : Bytes) → or_else (terminated cur).term d ≡ (terminated cur).term
unfolding terminated
terminated-or_else [] d = refl
terminated-or_else (c ∷ []) d = ground arith
terminated-or_else (c ∷ e ∷ s) d = terminated-or_else (e ∷ s) d

concat-ne-nil' : (xs : Bytes) (y : ℕ) (ys : Bytes) → xs ++ y ∷ ys ≢ []
concat-ne-nil' [] y ys = cc
concat-ne-nil' (x ∷ xs) y ys = cc

split_from-ne-nil : (s cur : Bytes) → cur ++ s ≢ [] → split_from cur s ≢ []
unfolding split_from
split_from-ne-nil [] [] h = absurd (h refl)
split_from-ne-nil [] (b ∷ cur) h = cc
split_from-ne-nil (c ∷ s) cur h = elim (Bool-cases (c == b'\n')) [
  | inl nl ↦ rw (nl, split_from) (λ e. cc)
  | inr other ↦
      rw (other, split_from)
        (split_from-ne-nil s (cur ++ c ∷ []) (rw append_assoc (concat-ne-nil' cur c s)))
]

ends_with_newline-append :
    (xs : Bytes) (y : ℕ) (ys : Bytes)
    → ends_with_newline (xs ++ y ∷ ys) ≡ ends_with_newline (y ∷ ys)
unfolding ends_with_newline
ends_with_newline-append [] y ys = refl
ends_with_newline-append (x ∷ []) y ys = refl
ends_with_newline-append (x ∷ z ∷ xs) y ys = ends_with_newline-append (z ∷ xs) y ys

render-cons :
    (ends : Bool) (dominant : Bytes) (l : SrcLine) (ls : List SrcLine)
    → ls ≢ []
    → render ends dominant (l ∷ ls) ≡ l.text ++ (or_else l.term dominant ++ render ends dominant ls)
unfolding render
render-cons ends dominant l [] h = absurd (h refl)
render-cons ends dominant l (k ∷ ls) h = refl

split_at_newline : (cur s : Bytes) → split_from cur (b'\n' ∷ s) ≡ terminated cur ∷ split_from [] s
unfolding split_from
split_at_newline cur s = refl

last_line : (dominant cur : Bytes) → render true dominant (terminated cur ∷ []) ≡ cur ++ lf
unfolding render
last_line dominant cur = rw (terminated-or_else cur dominant) (terminated-text cur)

newline_step :
    (s dominant cur : Bytes)
    → render (ends_with_newline s) dominant (split_from [] s) ≡ s
    → render (ends_with_newline (cur ++ b'\n' ∷ s)) dominant (terminated cur ∷ split_from [] s)
      ≡ cur ++ b'\n' ∷ s
newline_step [] dominant cur h =
    let e : ends_with_newline (cur ++ lf) ≡ true =
      ends_with_newline-append cur b'\n' [] ∙ (unfold ends_with_newline in refl) in
    rw e (unfold split_from in last_line dominant cur)
newline_step (c ∷ s) dominant cur h =
    let e : ends_with_newline (cur ++ b'\n' ∷ c ∷ s) ≡ ends_with_newline (c ∷ s) =
      ends_with_newline-append cur b'\n' (c ∷ s) ∙ (unfold ends_with_newline in refl) in
    rw e (
      render-cons _ dominant (terminated cur) (split_from [] (c ∷ s))
        (split_from-ne-nil (c ∷ s) [] (cc))
      ∙ rw (terminated-or_else cur dominant, h)
          (sym (append_assoc (terminated cur).text (terminated cur).term (c ∷ s))
            ∙ rw (terminated-text cur, append_assoc)))

-- `cur` is the part of the current line that has been read.
render-split_from :
    (s dominant cur : Bytes)
    → (cur ≢ [] → ends_with_newline cur ≡ false)
    → render (ends_with_newline (cur ++ s)) dominant (split_from cur s) ≡ cur ++ s
render-split_from [] dominant [] h = unfold render split_from in refl
render-split_from [] dominant (b ∷ cur) h =
    rw append-nil (rw (h (cc)) (unfold render split_from in rw append-nil))
render-split_from (c ∷ s) dominant cur h = elim (Bool-cases (c == b'\n')) [
  | inl nl ↦
      let e : c ≡ b'\n' = ground arith in
      rw (e, split_at_newline cur s)
        (newline_step s dominant cur (render-split_from s dominant [] (λ f. absurd (f refl))))
  | inr other ↦
      let fresh : ends_with_newline (cur ++ c ∷ []) ≡ false =
        ends_with_newline-append cur c [] ∙ (unfold ends_with_newline in other) in
      let rest = render-split_from s dominant (cur ++ c ∷ []) (λ _. fresh) in
      let split : split_from cur (c ∷ s) ≡ split_from (cur ++ c ∷ []) s =
        unfold split_from in rw (other, split_from) in
      rw split (rw append_assoc at rest)
]

-- Splitting a file into lines and rendering them gives back every byte, whatever its newlines are.
pub render-split_keeping_terminators :
    (dominant content : Bytes)
    → render (ends_with_newline content) dominant (split_keeping_terminators content) ≡ content
unfolding split_keeping_terminators
render-split_keeping_terminators dominant content =
    render-split_from content dominant [] (λ f. absurd (f refl))
