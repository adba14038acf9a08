-- ===== src/Patch/Refine.antt =====
-- Applying a hunk against its specification on the texts of the lines.
use mathlib.Core.List.{reverse, map-append, reverse-append}
use mathlib.Core.Path.{subst}
use agent_tool.Base.{
  ℕ, suc, ◌+◌, ◌-◌, ◌≤◌, ◌<◌, false, List, [], ◌∷◌, ◌++◌, ◌≡◌, ◌≢◌, refl, sym, ap, ◌∙◌, inl, inr,
  arith, ◌==◌, ltb, Bool-cases, Bytes, length, take, drop, take-append-drop, drop-drop, All,
  All-append, map-take, map-drop, length-map, stands-replaced, le-length-replaced, replace_back,
}
use agent_tool.Patch.{
  Op, keep, delete, insert, HunkLine, Hunk, SrcLine, Applied, ok, err, ApplyError, invalid_start,
  start_past_end, ◌>>=◌, verify, apply_hunk, apply_backwards, split_keeping_terminators,
  patch_content,
}
use agent_tool.Patch.Hunks.{
  texts, source_texts, target_texts, StandsAt, verify_sound, verify_complete, build_lem, IsContext,
  build_context,
}
use agent_tool.Patch.Split.{render-split_keeping_terminators}

-- The hunk fits the file: its first line exists or is the one behind the end, and its context and
-- deletions stand there.
pub record Fits (h : Hunk) (ls : List SrcLine) : Type 0 where
  pub starts : 0 < h.src_start
  pub within : h.src_start - 1 ≤ length ls
  pub stands : StandsAt (h.src_start - 1) (source_texts h.lines) (texts ls)

-- `ls'` is `ls` with the hunk's source lines replaced by lines with its target texts.
pub record Replaces (h : Hunk) (ls ls' : List SrcLine) : Type 0 where
  pub new : List SrcLine
  pub new_texts : texts new ≡ target_texts h.lines
  pub result_is :
      ls'
      ≡ take (h.src_start - 1) ls
        ++ (new ++ drop (h.src_start - 1 + length (source_texts h.lines)) ls)

-- Every hunk that fits the file is applied: its start line is not 0 and lies in the file or just
-- behind it, and its context lines and deletions stand there. The result is the file with these
-- lines replaced by lines with the hunk's context and additions for texts.
pub apply_hunk_complete :
    (dominant : Bytes) (n : ℕ) (h : Hunk) (ls : List SrcLine)
    → Fits h ls
    → (ls' : List SrcLine) × (apply_hunk dominant n h ls ≡ ok ls') × Replaces h ls ls'
unfolding apply_hunk
apply_hunk_complete dominant n h ls fits =
    let start = h.src_start - 1 in
    let count = length (source_texts h.lines) in
    let (new, built, new_texts) = build_lem n dominant ls h.lines start [] fits.stands in
    let nonzero : (h.src_start == 0) ≡ false = ground (arith, fits.starts) in
    let inside : ltb (length ls) start ≡ false = ground (arith, fits.within) in
    let moved : start + count - start ≡ count = omega arith in
    (
      take start ls ++ (new ++ drop (start + count) ls),
      rw (nonzero, inside, verify_complete n ls h.lines start fits.stands, built, moved) refl,
      record { new = new; new_texts = new_texts; result_is = refl },
    )

ok_ne_err {ℓ} : {A : Type ℓ} {a : A} {e : ApplyError} → ok a ≢ err e
ok_ne_err = λ h. cc

ok-injective {ℓ} : {A : Type ℓ} {a b : A} → ok a ≡ ok b → a ≡ b
ok-injective h = cc

-- The two steps of a chain that succeeds.
both_ok :
    {A B : Type 0} (step : Applied A) (next : A → Applied B) (result : B)
    → step >>= next ≡ ok result
    → (middle : A) × (step ≡ ok middle) × (next middle ≡ ok result)
both_ok (ok middle) next result e = (middle, refl, e)
both_ok (err _) next result e = absurd (ok_ne_err (sym e))

-- Only hunks that fit are applied.
apply_hunk-Fits :
    (dominant : Bytes) (n : ℕ) (h : Hunk) (ls ls' : List SrcLine)
    → apply_hunk dominant n h ls ≡ ok ls'
    → Fits h ls
unfolding apply_hunk
apply_hunk-Fits dominant n h ls ls' e =
    let start = h.src_start - 1 in
    elim (Bool-cases (h.src_start == 0)) [
      | inl zero_start ↦
          absurd (ok_ne_err {e = invalid_start n h.src_start} (sym (rw zero_start at e)))
      | inr nonzero ↦ elim (Bool-cases (ltb (length ls) start)) [
        | inl past ↦
            absurd (ok_ne_err {e = start_past_end n h.src_start} (sym (rw (nonzero, past) at e)))
        | inr inside ↦
            let later = rw (nonzero, inside) at e in
            let (stop, verified, rest) = both_ok (verify n ls start h.lines) _ ls' later in
            let stands = (verify_sound n ls h.lines start stop verified).0 in
            record { starts = ground arith; within = ground arith; stands = stands }
      ]
    ]

-- Only hunks that fit are applied, and what comes out is the file with the hunk's context lines and
-- deletions replaced by lines with its context and additions for texts. All lines before and behind
-- keep their bytes, terminators included.
pub apply_hunk_sound :
    (dominant : Bytes) (n : ℕ) (h : Hunk) (ls ls' : List SrcLine)
    → apply_hunk dominant n h ls ≡ ok ls'
    → Fits h ls × Replaces h ls ls'
apply_hunk_sound dominant n h ls ls' e =
    let fits = apply_hunk-Fits dominant n h ls ls' e in
    let (found, same, replaced) = apply_hunk_complete dominant n h ls fits in
    (fits, subst (Replaces h ls) (ok-injective (sym same ∙ e)) replaced)

-- What the texts of the result are.
texts-Replaces :
    (h : Hunk) (ls ls' : List SrcLine)
    → Replaces h ls ls'
    → texts ls'
      ≡ take (h.src_start - 1) (texts ls)
        ++ (target_texts h.lines
            ++ drop (h.src_start - 1 + length (source_texts h.lines)) (texts ls))
texts-Replaces h ls ls' r =
    let start = h.src_start - 1 in
    let stop = start + length (source_texts h.lines) in
    let text = λ (l : SrcLine). l.text in
    rw
      (
        r.result_is,
        map-append text (take start ls) (r.new ++ drop stop ls),
        map-append text r.new (drop stop ls),
        map-take text start ls,
        map-drop text stop ls,
        r.new_texts,
      )
      refl

abbrev flip : Op → Op
flip keep = keep
flip delete = insert
flip insert = delete

-- The hunk that undoes a hunk.
abbrev pub invert_lines : List HunkLine → List HunkLine
invert_lines [] = []
invert_lines (h ∷ hs) = record h { op = flip h.op } ∷ invert_lines hs

abbrev pub invert : Hunk → Hunk
invert h = record {
  src_start = h.dst_start;
  src_count = h.dst_count;
  dst_start = h.src_start;
  dst_count = h.src_count;
  lines = invert_lines h.lines;
}

source_texts-invert : (hs : List HunkLine) → source_texts (invert_lines hs) ≡ target_texts hs
source_texts-invert [] = refl
source_texts-invert (h ∷ hs) = ground (arith, source_texts-invert hs)

target_texts-invert : (hs : List HunkLine) → target_texts (invert_lines hs) ≡ source_texts hs
target_texts-invert [] = refl
target_texts-invert (h ∷ hs) = ground (arith, target_texts-invert hs)

-- A hunk that starts at the same line in both files is undone by its inverse: where it was applied,
-- the inverse can be applied to the result, and all lines have their old texts again.
pub apply_hunk-invert :
    (dominant : Bytes) (n : ℕ) (h : Hunk) (ls ls' : List SrcLine)
    → h.dst_start ≡ h.src_start
    → apply_hunk dominant n h ls ≡ ok ls'
    → (ls'' : List SrcLine) × (apply_hunk dominant n (invert h) ls' ≡ ok ls'')
      × (texts ls'' ≡ texts ls)
apply_hunk-invert dominant n h ls ls' same e =
    let (fits, replaced) = apply_hunk_sound dominant n h ls ls' e in
    let start = h.src_start - 1 in
    let src = source_texts h.lines in
    let tgt = target_texts h.lines in
    let ts = texts ls in
    let after = texts-Replaces h ls ls' replaced in
    let text = λ (l : SrcLine). l.text in
    let within : start ≤ length ts = rw (length-map text ls) fits.within in
    let undo_fits : Fits (invert h) ls' = record {
      starts = rw same fits.starts;
      within =
          rw (same, ← length-map text ls', after)
            (le-length-replaced start ts src tgt within fits.stands);
      stands =
          rw (same, source_texts-invert h.lines, after)
            (stands-replaced start ts src tgt within fits.stands);
    } in
    let (ls'', undone, back) = apply_hunk_complete dominant n (invert h) ls' undo_fits in
    (
      ls'',
      undone,
      texts-Replaces (invert h) ls' ls'' back
          ∙ rw (same, target_texts-invert h.lines, source_texts-invert h.lines, after)
              (replace_back start ts src tgt within fits.stands),
    )

-- A hunk of context lines that fits leaves the lines as they are.
apply_context :
    (dominant : Bytes) (n : ℕ) (h : Hunk) (ls : List SrcLine)
    → All IsContext h.lines
    → Fits h ls
    → apply_hunk dominant n h ls ≡ ok ls
unfolding apply_hunk
apply_context dominant n h ls all fits =
    let start = h.src_start - 1 in
    let (built, count) = build_context n dominant ls h.lines start [] all fits.stands in
    let nonzero : (h.src_start == 0) ≡ false = ground (arith, fits.starts) in
    let inside : ltb (length ls) start ≡ false = ground (arith, fits.within) in
    let moved : start + length h.lines - start ≡ length h.lines = omega arith in
    rw (nonzero, inside, verify_complete n ls h.lines start fits.stands, built, count, moved)
      (ap ok (
        rw
          (← drop-drop (length h.lines) start ls, take-append-drop (length h.lines) (drop start ls))
          (take-append-drop start ls)))

abbrev pub IsContextHunk : List SrcLine → Hunk → Type 0
IsContextHunk ls h = All IsContext h.lines × Fits h ls

apply_backwards_context :
    (dominant : Bytes) (hs : List Hunk) (ls : List SrcLine)
    → All (IsContextHunk ls) hs
    → apply_backwards dominant hs ls ≡ ok ls
unfolding apply_backwards
apply_backwards_context dominant [] ls all = refl
apply_backwards_context dominant (h ∷ hs) ls ((context, fits), all) =
    rw (apply_context dominant (suc (length hs)) h ls context fits)
      (apply_backwards_context dominant hs ls all)

All-reverse {ℓ κ} : {A : Type ℓ} (P : A → Type κ) (xs : List A) → All P xs → All P (reverse xs)
All-reverse P [] h = tt
All-reverse P (x ∷ xs) (p, h) =
    rw (reverse-append (x ∷ []) xs)
      (All-append P (reverse xs) (x ∷ []) (All-reverse P xs h) (p, tt))

-- A patch whose hunks hold context lines only, and fit the file, gives the file back byte for byte,
-- mixed newlines and a missing last newline included.
pub patch_content_context :
    (dominant content : Bytes) (hs : List Hunk)
    → All (IsContextHunk (split_keeping_terminators content)) hs
    → patch_content dominant content hs ≡ ok content
unfolding patch_content
patch_content_context dominant content hs all =
    let ls = split_keeping_terminators content in
    rw (apply_backwards_context dominant (reverse hs) ls (All-reverse (IsContextHunk ls) hs all))
      (ap ok (render-split_keeping_terminators dominant content))
