-- ===== src/Edit/Replace/Spans.antt =====
-- tools/edit/replace.go, `applySpans`: what it makes of the bytes of the file.
use agent_tool.Base.{
  ℕ, zero, suc, ◌+◌, ◌-◌, ◌≤◌, ◌<◌, Bool, true, false, ◌++◌, none, some, ◌==◌, if◌then◌else◌, Bytes,
  length, take, drop, drop-drop, ◌≡◌, refl, sym, ap, ◌∙◌, inl, inr, arith, Bool-cases, Option-cases,
  append_assoc, take-append-drop,
}
use agent_tool.LineEnding.{normalized, normalize_line_endings, LineEndingMap}
use agent_tool.LineEnding.Normalise.{normalized-normalize_line_endings, normalize_line_endings_back}
use agent_tool.LineEnding.Offsets.{
  offset, offset-add, take-offset, drop-offset, IsTracking, orig_offset_moves,
}
use agent_tool.LineEnding.Cursor.{LineEndingCursor, at_offsets}
use agent_tool.Edit.Replace.{
  next_hit, count_hits, is_rejected, Splice, is_fixed, local_text, put_text, write_hit, splice,
}
use agent_tool.Edit.Replace.Hits.{next_hit_lem}

-- `Replaced old new s t n`: `t` is `s` with `n` pieces replaced, each of which reads `old` with LF
-- newlines, by texts that read like `new`. All other bytes of `s` stand in `t`, in their order.
pub data Replaced (old new : Bytes) : Bytes → Bytes → ℕ → Type 0 where
  same : (s t : Bytes) → s ≡ t → Replaced old new s t 0
  one_more :
      (kept found put s' t' s t : Bytes) (n : ℕ)
      → s ≡ kept ++ (found ++ s')
      → t ≡ kept ++ (put ++ t')
      → normalized found ≡ old
      → normalized put ≡ normalized new
      → Replaced old new s' t' n
      → Replaced old new s t (suc n)

-- A map and an offset of the original that it stands at.
abbrev moved : LineEndingMap → ℕ → ℕ → LineEndingMap
moved m a b = record m { cur_norm = a; cur_orig = b }

put_text_lem :
    (new : Bytes) (start end : ℕ) (st : Splice)
    → IsTracking st.line_map
    → start ≤ length st.line_map.norm
    → end ≤ length st.line_map.norm
    → (a b : ℕ) × (r : LineEndingCursor) × (put : Bytes) × (put_text new start end st
        ≡ (put, record st { line_map = moved st.line_map a b; region = r }))
      × IsTracking (moved st.line_map a b)
      × (normalized put ≡ normalized new)
unfolding put_text local_text
put_text_lem new start end st tracking h k = elim (Bool-cases (is_fixed new)) [
  | inl fixed ↦
      (st.line_map.cur_norm, st.line_map.cur_orig, st.region, new, rw fixed refl, tracking, refl)
  | inr newlines ↦
      let (a, b, e, t) = orig_offset_moves st.line_map start tracking h in
      let (c, d, f, u) = orig_offset_moves (moved st.line_map a b) end t k in
      let r =
        at_offsets st.region (offset st.line_map.original start)
          (offset st.line_map.original end) in
      (
        c,
        d,
        r.1,
        normalize_line_endings new r.0,
        rw (newlines, e, f) refl,
        u,
        normalized-normalize_line_endings (normalize_line_endings new r.0)
            ∙ normalize_line_endings_back new r.0
            ∙ sym (normalized-normalize_line_endings new),
      )
]

write_hit_lem :
    (old new : Bytes) (pos : ℕ) (st : Splice)
    → IsTracking st.line_map
    → pos + length old ≤ length st.line_map.norm
    → (a b : ℕ) × (r : LineEndingCursor) × (put : Bytes) × (write_hit old new pos st ≡ record {
      line_map = moved st.line_map a b;
      region = r;
      out =
          st.out
          ++ (take (offset st.line_map.original pos - st.prev) (drop st.prev st.line_map.original)
              ++ put);
      prev = offset st.line_map.original (pos + length old);
    })
      × IsTracking (moved st.line_map a b)
      × (normalized put ≡ normalized new)
unfolding write_hit
write_hit_lem old new pos st tracking fits =
    let (a, b, e, t) = orig_offset_moves st.line_map pos tracking (omega (arith, fits)) in
    let (c, d, r, put, f, u, reads) =
      put_text_lem new pos (pos + length old) (record st { line_map = moved st.line_map a b }) t
        (omega (arith, fits)) fits in
    let (g, h, k, v) = orig_offset_moves (moved st.line_map c d) (pos + length old) u fits in
    (g, h, r, put, rw (e, f, k) refl, v, reads)

cut_at : (s : Bytes) (a b : ℕ) → a ≤ b → drop a s ≡ take (b - a) (drop a s) ++ drop b s
cut_at s a b le =
    let sum : a + (b - a) ≡ b = omega arith in
    let tail : drop (b - a) (drop a s) ≡ drop b s =
      drop-drop (b - a) a s ∙ ap (λ k. drop k s) sum in
    sym (ap (λ t. take (b - a) (drop a s) ++ t) (sym tail) ∙ take-append-drop (b - a) (drop a s))

offset_mono : (s : Bytes) (j k : ℕ) → j ≤ k → offset s j ≤ offset s k
offset_mono s j k le =
    let sum : j + (k - j) ≡ k = omega arith in
    omega (arith, offset-add s j (k - j), ap (offset s) sum)

-- The rest of a text from one offset of its view on, cut where a hit begins and where it ends.
cut_at_hit :
    (s : Bytes) (j pos n : ℕ)
    → j ≤ pos
    → drop (offset s j) s
      ≡ take (offset s pos - offset s j) (drop (offset s j) s)
        ++ (take (offset s (pos + n) - offset s pos) (drop (offset s pos) s)
            ++ drop (offset s (pos + n)) s)
cut_at_hit s j pos n le =
    cut_at s (offset s j) (offset s pos) (offset_mono s j pos le)
    ∙ ap (λ t. take (offset s pos - offset s j) (drop (offset s j) s) ++ t)
        (cut_at s (offset s pos) (offset s (pos + n)) (offset_mono s pos (pos + n) (omega arith)))

found-normalized :
    (s : Bytes) (pos n : ℕ)
    → normalized (take (offset s (pos + n) - offset s pos) (drop (offset s pos) s))
      ≡ take n (drop pos (normalized s))
found-normalized s pos n =
    let sum = offset-add s pos n in
    let width : offset s (pos + n) - offset s pos ≡ offset (drop (offset s pos) s) n =
      omega (arith, sum) in
    rw (width, take-offset (drop (offset s pos) s) n, drop-offset s pos) refl

abbrev pub written : Splice → Bytes
written st = st.out ++ drop st.prev st.line_map.original

abbrev pub state_at : LineEndingMap → LineEndingCursor → Bytes → ℕ → Splice
state_at m region out j = record {
  line_map = m;
  region = region;
  out = out;
  prev = offset m.original j;
}

-- All hits, or the first one.
abbrev pub replaced_count : Bool → ℕ → ℕ
replaced_count true n = n
replaced_count false n = if n == 0 then 0 else 1

-- What is written from a state on.
unfoldable pub Writes : Bytes → Bytes → Bytes → Bytes → ℕ → Bytes → Type 0
Writes old new out s n result = (t : Bytes) × (result ≡ out ++ t) × Replaced old new s t n

module _ (f : ℕ) (old new : Bytes) (line_start : Bool) (i : ℕ) where
  splice_end :
      (all : Bool) (st : Splice)
      → next_hit st.line_map.norm old i ≡ none
      → splice (suc f) old new line_start all i st ≡ st
  unfolding splice
  splice_end all st e = rw (e, splice) refl

  count_end : (s : Bytes) → next_hit s old i ≡ none → count_hits (suc f) s old line_start i ≡ 0
  unfolding count_hits
  count_end s e = rw (e, count_hits) refl

  module _ (pos : ℕ) where
    splice_skip :
        (all : Bool) (st : Splice)
        → next_hit st.line_map.norm old i ≡ some pos
        → is_rejected line_start st.line_map.norm pos ≡ true
        → splice (suc f) old new line_start all i st
          ≡ splice f old new line_start all (pos + length old) st
    unfolding splice
    splice_skip all st e r = rw (e, r, splice) refl

    splice_more :
        (st : Splice)
        → next_hit st.line_map.norm old i ≡ some pos
        → is_rejected line_start st.line_map.norm pos ≡ false
        → splice (suc f) old new line_start true i st
          ≡ splice f old new line_start true (pos + length old) (write_hit old new pos st)
    unfolding splice
    splice_more st e r = rw (e, r, splice) refl

    splice_once :
        (st : Splice)
        → next_hit st.line_map.norm old i ≡ some pos
        → is_rejected line_start st.line_map.norm pos ≡ false
        → splice (suc f) old new line_start false i st ≡ write_hit old new pos st
    unfolding splice
    splice_once st e r = rw (e, r, splice) refl

    count_skip :
        (s : Bytes)
        → next_hit s old i ≡ some pos
        → is_rejected line_start s pos ≡ true
        → count_hits (suc f) s old line_start i ≡ count_hits f s old line_start (pos + length old)
    unfolding count_hits
    count_skip s e r = rw (e, r, count_hits) refl

    count_more :
        (s : Bytes)
        → next_hit s old i ≡ some pos
        → is_rejected line_start s pos ≡ false
        → count_hits (suc f) s old line_start i
          ≡ suc (count_hits f s old line_start (pos + length old))
    unfolding count_hits
    count_more s e r = rw (e, r, count_hits) refl

-- One hit in front of what is written behind it.
one_more-Writes :
    (old new out : Bytes) (m : LineEndingMap) (j pos : ℕ) (put result : Bytes) (n : ℕ)
    → IsTracking m
    → j ≤ pos
    → take (length old) (drop pos m.norm) ≡ old
    → normalized put ≡ normalized new
    → Writes old new
        (out
          ++ (take
                (offset m.original pos - offset m.original j)
                (drop (offset m.original j) m.original)
              ++ put))
        (drop (offset m.original (pos + length old)) m.original)
        n
        result
    → Writes old new out (drop (offset m.original j) m.original) (suc n) result
unfolding Writes
one_more-Writes old new out m j pos put result n tracking le stands reads (t, is, rest) =
    let o = m.original in
    let kept = take (offset o pos - offset o j) (drop (offset o j) o) in
    let found = take (offset o (pos + length old) - offset o pos) (drop (offset o pos) o) in
    (
      kept ++ (put ++ t),
      is ∙ append_assoc out (kept ++ put) t ∙ ap (λ x. out ++ x) (append_assoc kept put t),
      one_more kept found put (drop (offset o (pos + length old)) o) t (drop (offset o j) o)
          (kept ++ (put ++ t)) n (cut_at_hit o j pos (length old) le) refl
          (found-normalized o pos (length old) ∙ rw (← tracking.view) stands) reads rest,
    )

no_more-Writes : (old new out : Bytes) (s : Bytes) → Writes old new out s 0 (out ++ s)
unfolding Writes
no_more-Writes old new out s = (s, refl, same s s refl)

pub splice_lem :
    (f : ℕ) (old new : Bytes) (line_start : Bool) (i j : ℕ) (m : LineEndingMap)
    (region : LineEndingCursor) (out : Bytes)
    → IsTracking m
    → 0 < length old
    → j ≤ i
    → Writes old new out
        (drop (offset m.original j) m.original)
        (count_hits f m.norm old line_start i)
        (written (splice f old new line_start true i (state_at m region out j)))
splice_lem zero old new line_start i j m region out tracking some_text le =
    unfold splice count_hits in no_more-Writes old new out (drop (offset m.original j) m.original)
splice_lem (suc f) old new line_start i j m region out tracking some_text le =
    elim (Option-cases (next_hit m.norm old i)) [
      | inl nothing ↦
          rw
            (
              splice_end f old new line_start i true (state_at m region out j) nothing,
              count_end f old new line_start i m.norm nothing,
            )
            (no_more-Writes old new out (drop (offset m.original j) m.original))
      | inr (pos, there) ↦
          let (later, stands, fits) = next_hit_lem m.norm old i pos some_text there in
          elim (Bool-cases (is_rejected line_start m.norm pos)) [
            | inl skipped ↦
                rw
                  (
                    splice_skip f old new line_start i pos true (state_at m region out j) there
                        skipped,
                    count_skip f old new line_start i pos m.norm there skipped,
                  )
                  (splice_lem f old new line_start (pos + length old) j m region out tracking
                    some_text (omega (arith, later, le)))
            | inr taken ↦
                let (a, b, r, put, e, t, reads) =
                  write_hit_lem old new pos (state_at m region out j) tracking fits in
                rw
                  (
                    splice_more f old new line_start i pos (state_at m region out j) there taken,
                    count_more f old new line_start i pos m.norm there taken,
                    e,
                  )
                  (one_more-Writes old new out m j pos put _ _ tracking (omega (arith, later, le))
                    stands reads
                    (splice_lem f old new line_start (pos + length old) (pos + length old)
                      (moved m a b) r _ t some_text (omega arith)))
          ]
    ]

unfoldable pub first_only : ℕ → ℕ
first_only zero = 0
first_only (suc n) = 1

-- Without `replaceAll` the first hit alone.
pub splice_first :
    (f : ℕ) (old new : Bytes) (line_start : Bool) (i j : ℕ) (m : LineEndingMap)
    (region : LineEndingCursor) (out : Bytes)
    → IsTracking m
    → 0 < length old
    → j ≤ i
    → Writes old new out
        (drop (offset m.original j) m.original)
        (first_only (count_hits f m.norm old line_start i))
        (written (splice f old new line_start false i (state_at m region out j)))
splice_first zero old new line_start i j m region out tracking some_text le =
    unfold splice count_hits first_only in
    no_more-Writes old new out (drop (offset m.original j) m.original)
splice_first (suc f) old new line_start i j m region out tracking some_text le =
    elim (Option-cases (next_hit m.norm old i)) [
      | inl nothing ↦
          rw
            (
              splice_end f old new line_start i false (state_at m region out j) nothing,
              count_end f old new line_start i m.norm nothing,
            )
            (unfold first_only in
              no_more-Writes old new out (drop (offset m.original j) m.original))
      | inr (pos, there) ↦
          let (later, stands, fits) = next_hit_lem m.norm old i pos some_text there in
          elim (Bool-cases (is_rejected line_start m.norm pos)) [
            | inl skipped ↦
                rw
                  (
                    splice_skip f old new line_start i pos false (state_at m region out j) there
                        skipped,
                    count_skip f old new line_start i pos m.norm there skipped,
                  )
                  (splice_first f old new line_start (pos + length old) j m region out tracking
                    some_text (omega (arith, later, le)))
            | inr taken ↦
                let (a, b, r, put, e, t, reads) =
                  write_hit_lem old new pos (state_at m region out j) tracking fits in
                rw
                  (
                    splice_once f old new line_start i pos (state_at m region out j) there taken,
                    count_more f old new line_start i pos m.norm there taken,
                    e,
                  )
                  (unfold first_only in
                    one_more-Writes old new out m j pos put _ 0 tracking (omega (arith, later, le))
                      stands reads
                      (no_more-Writes old new _
                        (drop (offset m.original (pos + length old)) m.original)))
          ]
    ]
