-- ===== src/Patch/Hunks.antt =====
-- tools/patch/handler.go: the two loops over a hunk's lines.
use mathlib.Core.List.{nil≢cons}
use mathlib.Core.Path.{ap₂}
use agent_tool.Base.{
  ℕ, zero, suc, ◌+◌, true, false, List, [], ◌∷◌, map, none, some, ◌≡◌, ◌≢◌, refl, sym, ap, ◌∙◌, ◌⊎◌,
  inl, inr, arith, Bool-cases, Option-cases, Bytes, bytes_eq, bytes_eq_iff, bytes_eq_refl, length,
  get_elem?, take, drop, All,
}
use agent_tool.Patch.{
  Op, keep, delete, insert, HunkLine, SrcLine, ok, err, past_end, mismatch, ApplyError, is_source,
  verify, build, pick_term,
}

abbrev pub texts : List SrcLine → List Bytes
texts = map (λ l. l.text)

ok_ne_err {ℓ} : {A : Type ℓ} {a : A} {e : ApplyError} → ok a ≢ err e
ok_ne_err = λ h. cc

-- The lines that a hunk expects, and those that it leaves.
abbrev pub source_texts : List HunkLine → List Bytes
source_texts [] = []
source_texts (h ∷ hs) = elim h.op [ insert ↦ source_texts hs | _ ↦ h.text ∷ source_texts hs ]

abbrev pub target_texts : List HunkLine → List Bytes
target_texts [] = []
target_texts (h ∷ hs) = elim h.op [ delete ↦ target_texts hs | _ ↦ h.text ∷ target_texts hs ]

-- `ps` stands at index `i` of `xs`.
abbrev pub StandsAt : ℕ → List Bytes → List Bytes → Type 0
StandsAt i ps xs = take (length ps) (drop i xs) ≡ ps

stands_none : (ls : List SrcLine) (i : ℕ) → get_elem? ls i ≡ none → drop i (texts ls) ≡ []
stands_none [] zero e = refl
stands_none [] (suc i) e = refl
stands_none (l ∷ ls) zero e = cc
stands_none (l ∷ ls) (suc i) e = stands_none ls i e

stands_some :
    (ls : List SrcLine) (i : ℕ) {l : SrcLine}
    → get_elem? ls i ≡ some l
    → drop i (texts ls) ≡ l.text ∷ drop (suc i) (texts ls)
stands_some [] i e = cc
stands_some (l ∷ ls) zero e = ground arith
stands_some (l ∷ ls) (suc i) e = stands_some ls i e

source_texts-source :
    (h : HunkLine) (hs : List HunkLine)
    → is_source h.op ≡ true
    → source_texts (h ∷ hs) ≡ h.text ∷ source_texts hs
source_texts-source h hs e = ground arith

source_texts-insert :
    (h : HunkLine) (hs : List HunkLine)
    → is_source h.op ≡ false
    → source_texts (h ∷ hs) ≡ source_texts hs
source_texts-insert h hs e = ground arith

-- A hunk that is accepted stands in the file, and the index moved over its source lines.
pub verify_sound :
    (n : ℕ) (ls : List SrcLine) (hs : List HunkLine) (i stop : ℕ)
    → verify n ls i hs ≡ ok stop
    → StandsAt i (source_texts hs) (texts ls) × (stop ≡ i + length (source_texts hs))
unfolding verify
verify_sound n ls [] i stop e = ground arith
verify_sound n ls (h ∷ hs) i stop e = elim (Bool-cases (is_source h.op)) [
  | inr added ↦
      rw (source_texts-insert h hs added) (verify_sound n ls hs i stop (rw (added, verify) at e))
  | inl source ↦ elim (Option-cases (get_elem? ls i)) [
    | inl past ↦ absurd (ok_ne_err {e = past_end n (suc i)} (sym (rw (source, past) at e)))
    | inr (l, here) ↦ elim (Bool-cases (bytes_eq h.text l.text)) [
      | inl same ↦
          let (stands, at_end) = verify_sound n ls hs (suc i) stop (rw (source, here, same) at e) in
          rw (source_texts-source h hs source, stands_some ls i here)
            (ap₂ ◌∷◌ (sym ((bytes_eq_iff h.text l.text).0 same)) stands, omega arith)
      | inr differs ↦
          absurd (ok_ne_err {e = mismatch n (suc i)} (sym (rw (source, here, differs) at e)))
    ]
  ]
]

-- Where a first line is expected, the file has it.
StandsAt-cons :
    (ls : List SrcLine) (i : ℕ) (t : Bytes) (ts : List Bytes)
    → StandsAt i (t ∷ ts) (texts ls)
    → (l : SrcLine) × (get_elem? ls i ≡ some l) × (l.text ≡ t) × StandsAt (suc i) ts (texts ls)
StandsAt-cons ls i t ts h = elim (Option-cases (get_elem? ls i)) [
  | inl past ↦ absurd (nil≢cons (rw (stands_none ls i past) at h))
  | inr (l, here) ↦
      let e : l.text ∷ take (length ts) (drop (suc i) (texts ls)) ≡ t ∷ ts =
        rw (stands_some ls i here) at h in
      (l, here, cc, cc)
]

-- A hunk that stands in the file is accepted.
pub verify_complete :
    (n : ℕ) (ls : List SrcLine) (hs : List HunkLine) (i : ℕ)
    → StandsAt i (source_texts hs) (texts ls)
    → verify n ls i hs ≡ ok (i + length (source_texts hs))
unfolding verify
verify_complete n ls [] i h = ap ok (omega arith)
verify_complete n ls (h ∷ hs) i st = elim (Bool-cases (is_source h.op)) [
  | inr added ↦
      let none_here = source_texts-insert h hs added in
      rw (none_here, added, verify) (verify_complete n ls hs i (rw none_here at st))
  | inl source ↦
      let expected = source_texts-source h hs source in
      let (l, here, same, rest) = StandsAt-cons ls i h.text (source_texts hs) (rw expected at st) in
      rw (expected, source, here, verify, same, bytes_eq_refl)
        (verify_complete n ls hs (suc i) rest ∙ ap ok (omega arith))
]

Op-cases : (o : Op) → (o ≡ keep) ⊎ ((o ≡ delete) ⊎ (o ≡ insert))
Op-cases keep = inl refl
Op-cases delete = inr (inl refl)
Op-cases insert = inr (inr refl)

-- Once the first loop has accepted, the second cannot fail, and it leaves the target lines.
pub build_lem :
    (n : ℕ) (dominant : Bytes) (ls : List SrcLine) (hs : List HunkLine) (i : ℕ) (replaced : Bytes)
    → StandsAt i (source_texts hs) (texts ls)
    → (new : List SrcLine) × (build n dominant ls i replaced hs ≡ ok new)
      × (texts new ≡ target_texts hs)
unfolding build
build_lem n dominant ls [] i replaced st = ([], refl, refl)
build_lem n dominant ls (h ∷ hs) i replaced st = elim (Op-cases h.op) [
  | inl kept ↦
      let (l, here, same, rest) =
        StandsAt-cons ls i h.text (source_texts hs) (rw (kept, source_texts) at st) in
      let (new, built, result) = build_lem n dominant ls hs (suc i) [] rest in
      (l ∷ new, rw (kept, build, here, built), rw (kept, same) (ap (◌∷◌ h.text) result))
  | inr (inl gone) ↦
      let (l, here, same, rest) =
        StandsAt-cons ls i h.text (source_texts hs) (rw (gone, source_texts) at st) in
      let (new, built, result) = build_lem n dominant ls hs (suc i) l.term rest in
      (new, rw (gone, build, here, built), rw gone result)
  | inr (inr added) ↦
      let (new, built, result) =
        build_lem n dominant ls hs i replaced (rw (added, source_texts) at st) in
      (
        record { text = h.text; term = pick_term replaced ls i dominant } ∷ new,
        rw (added, build, built),
        rw added (ap (◌∷◌ h.text) result),
      )
]

abbrev pub IsContext : HunkLine → Type 0
IsContext h = h.op ≡ keep

drop-cons :
    (ls : List SrcLine) (i : ℕ) {l : SrcLine}
    → get_elem? ls i ≡ some l
    → drop i ls ≡ l ∷ drop (suc i) ls
drop-cons [] i e = cc
drop-cons (l ∷ ls) zero e = ground arith
drop-cons (l ∷ ls) (suc i) e = drop-cons ls i e

-- Context lines are copied from the file, bytes and terminator.
pub build_context :
    (n : ℕ) (dominant : Bytes) (ls : List SrcLine) (hs : List HunkLine) (i : ℕ) (replaced : Bytes)
    → All IsContext hs
    → StandsAt i (source_texts hs) (texts ls)
    → (build n dominant ls i replaced hs ≡ ok (take (length hs) (drop i ls)))
      × (length (source_texts hs) ≡ length hs)
unfolding build
build_context n dominant ls [] i replaced all st = (refl, refl)
build_context n dominant ls (h ∷ hs) i replaced (kept, all) st =
    let (l, here, same, rest) =
      StandsAt-cons ls i h.text (source_texts hs) (rw (kept, source_texts) at st) in
    let (built, count) = build_context n dominant ls hs (suc i) [] all rest in
    (rw (kept, build, here, built, drop-cons ls i here), rw kept (ap suc count))
