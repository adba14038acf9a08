-- ===== src/LineEnding/Newlines.antt =====
-- common/lineending.go, `LineEndingCursor.spanMajority`: its loop against the list of newlines.
use agent_tool.Base.{
  ℕ, zero, suc, ◌+◌, ◌-◌, ◌≤◌, true, false, ◌&&◌, List, [], ◌∷◌, Option, none, some, ◌≡◌, refl, sym,
  ap, ◌∙◌, ◌⊎◌, inl, inr, arith, ltb, ◌==◌, if◌then◌else◌, Bool-cases, Option-cases, Bytes,
  get_elem?,
}
use agent_tool.LineEnding.{Ending, lf, crlf, cr}
use agent_tool.LineEnding.Cursor.{is_byte, is_byte_before, hit, Span, tally_span}

-- The newline that a position of a span gives, with its form and its place: a CR gives its newline, and
-- an LF gives one where no CR stands before it. The LF of a CRLF gives its newline only at the start
-- of the span, where its CR is outside.
unfoldable pub newline_at : Bytes → ℕ → ℕ → Option (Ending × ℕ)
newline_at s start i =
    if is_byte s i b'\r'
    then (if is_byte s (i + 1) b'\n' then some (crlf, i) else some (cr, i))
    else if is_byte s i b'\n'
    then (if is_byte_before s i b'\r'
        then (if i == start then some (crlf, i - 1) else none)
        else some (lf, i))
    else none

-- Those of the next positions, in their order.
unfoldable pub newlines_in : Bytes → ℕ → ℕ → ℕ → List (Ending × ℕ)
newlines_in s start zero i = []
newlines_in s start (suc k) i =
    let rest = newlines_in s start k (suc i) in
    elim (newline_at s start i) [ none ↦ rest | some p ↦ p ∷ rest ]

-- The tallies of a list.
abbrev pub put : Ending → ℕ → Span → Span
put lf i t = record t { lfs = hit i t.lfs }
put crlf i t = record t { crlfs = hit i t.crlfs }
put cr i t = record t { crs = hit i t.crs }

unfoldable pub tally_list : List (Ending × ℕ) → Span → Span
tally_list [] t = t
tally_list ((e, i) ∷ ps) t = tally_list ps (put e i t)

-- A byte is not both.
not_both : (s : Bytes) (i : ℕ) → is_byte s i b'\n' ≡ true → is_byte s i b'\r' ≡ false
unfolding is_byte
not_both s i h = elim (Option-cases (get_elem? s i)) [
  | inl e ↦ rw (e, is_byte) refl
  | inr (c, e) ↦
      let is : c ≡ b'\n' = (let h' = rw (e, is_byte) at h in ground arith) in
      rw (e, is, is_byte) refl
]

-- A position that the loop reaches is the start, or no LF behind a CR.
abbrev IsReached : Bytes → ℕ → ℕ → Type 0
IsReached s start i = (i ≡ start) ⊎ ((is_byte s i b'\n' && is_byte_before s i b'\r') ≡ false)

behind_other :
    (s : Bytes) (i : ℕ)
    → is_byte s i b'\r' ≡ false
    → (is_byte s (suc i) b'\n' && is_byte_before s (suc i) b'\r') ≡ false
unfolding is_byte_before
behind_other s i h = rw h (ground arith)

behind_lf :
    (s : Bytes) (i : ℕ)
    → is_byte s (suc i) b'\n' ≡ true
    → (is_byte s (suc (suc i)) b'\n' && is_byte_before s (suc (suc i)) b'\r') ≡ false
behind_lf s i h = behind_other s (suc i) (not_both s (suc i) h)

at_start :
    (s : Bytes) (start i : ℕ)
    → is_byte s i b'\n' ≡ true
    → is_byte_before s i b'\r' ≡ true
    → IsReached s start i
    → i ≡ start
at_start s start i at_lf half (inl e) = e
at_start s start i at_lf half (inr no_pair) = absurd (ground (arith, at_lf, half, no_pair))

tally_span_past : (f : ℕ) (s : Bytes) (i end : ℕ) (t : Span) → end ≤ i → tally_span f s i end t ≡ t
unfolding tally_span
tally_span_past zero s i end t h = refl
tally_span_past (suc f) s i end t h =
    let stop : ltb i end ≡ false = ground arith in rw (stop, tally_span) refl

-- The LF of a CRLF in the span gives no newline of its own.
newline_at-skipped :
    (s : Bytes) (start i : ℕ)
    → start ≤ i
    → is_byte s i b'\r' ≡ true
    → is_byte s (suc i) b'\n' ≡ true
    → newline_at s start (suc i) ≡ none
unfolding newline_at is_byte_before
newline_at-skipped s start i from at_cr pair =
    let later : (suc i == start) ≡ false = ground arith in
    rw (not_both s (suc i) pair, pair, at_cr, later) refl

newlines_in-skip :
    (s : Bytes) (start k i : ℕ)
    → newline_at s start i ≡ none
    → newlines_in s start (suc k) i ≡ newlines_in s start k (suc i)
unfolding newlines_in
newlines_in-skip s start k i skipped = rw (skipped, newlines_in) refl

newlines_in-cons :
    (s : Bytes) (start k i : ℕ) (p : Ending × ℕ)
    → newline_at s start i ≡ some p
    → newlines_in s start (suc k) i ≡ p ∷ newlines_in s start k (suc i)
unfolding newlines_in
newlines_in-cons s start k i p gives = rw (gives, newlines_in) refl

pair_rest :
    (f k : ℕ) (s : Bytes) (start i end : ℕ) (t : Span)
    → k ≡ end - suc i
    → newline_at s start (suc i) ≡ none
    → ((j : ℕ)
        → k ≡ suc j
        → tally_span f s (suc (suc i)) end t ≡ tally_list (newlines_in s start j (suc (suc i))) t)
    → tally_span f s (suc (suc i)) end t ≡ tally_list (newlines_in s start k (suc i)) t
unfolding newlines_in tally_list
pair_rest f zero s start i end t is skipped ih =
    tally_span_past f s (suc (suc i)) end t (omega arith)
pair_rest f (suc k) s start i end t is skipped ih =
    ih k refl ∙ ap (λ ps. tally_list ps t) (sym (newlines_in-skip s start k (suc i) skipped))

-- From a position that the loop reaches, the loop tallies the newlines of the list.
pub tally_span_lem :
    (f k : ℕ) (s : Bytes) (start i end : ℕ) (t : Span)
    → k ≤ f
    → k ≡ end - i
    → start ≤ i
    → IsReached s start i
    → tally_span f s i end t ≡ tally_list (newlines_in s start k i) t
unfolding tally_span tally_list
tally_span_lem f zero s start i end t enough is from reached =
    unfold newlines_in in tally_span_past f s i end t (omega arith)
tally_span_lem zero (suc k) s start i end t enough is from reached = absurd (omega arith)
tally_span_lem (suc f) (suc k) s start i end t enough is from reached =
    let more : ltb i end ≡ true = ground arith in
    let one : i + 1 ≡ suc i = omega arith in
    let two : i + 2 ≡ suc (suc i) = omega arith in
    let next : (u : Span)
        → IsReached s start (suc i)
        → tally_span f s (suc i) end u ≡ tally_list (newlines_in s start k (suc i)) u =
      λ u r. tally_span_lem f k s start (suc i) end u (omega arith) (omega arith) (omega arith) r in
    elim (Bool-cases (is_byte s i b'\r')) [
      | inl at_cr ↦ elim (Bool-cases (is_byte s (suc i) b'\n')) [
        | inl pair ↦
            let gives : newline_at s start i ≡ some (crlf, i) =
              unfold newline_at in rw (at_cr, one, pair) refl in
            rw (more, at_cr, one, two, pair, newlines_in-cons s start k i (crlf, i) gives)
              (pair_rest f k s start i end (put crlf i t) (omega arith)
                (newline_at-skipped s start i from at_cr pair)
                (λ j e.
                  tally_span_lem f j s start (suc (suc i)) end (put crlf i t) (omega arith)
                    (omega arith) (omega arith) (inr (behind_lf s i pair))))
        | inr alone ↦
            let gives : newline_at s start i ≡ some (cr, i) =
              unfold newline_at in rw (at_cr, one, alone) refl in
            rw (more, at_cr, one, alone, newlines_in-cons s start k i (cr, i) gives)
              (next (put cr i t) (inr (rw alone refl)))
      ]
      | inr no_cr ↦ elim (Bool-cases (is_byte s i b'\n')) [
        | inl at_lf ↦ elim (Bool-cases (is_byte_before s i b'\r')) [
          | inl half ↦
              let first : i ≡ start = at_start s start i at_lf half reached in
              let here : (i == start) ≡ true = ground arith in
              let gives : newline_at s start i ≡ some (crlf, i - 1) =
                unfold newline_at in rw (no_cr, at_lf, half, here) refl in
              rw (more, no_cr, at_lf, half, one, newlines_in-cons s start k i (crlf, i - 1) gives)
                (next (put crlf (i - 1) t) (inr (behind_other s i no_cr)))
          | inr whole ↦
              let gives : newline_at s start i ≡ some (lf, i) =
                unfold newline_at in rw (no_cr, at_lf, whole) refl in
              rw (more, no_cr, at_lf, whole, one, newlines_in-cons s start k i (lf, i) gives)
                (next (put lf i t) (inr (behind_other s i no_cr)))
        ]
        | inr other ↦
            let gives : newline_at s start i ≡ none = unfold newline_at in rw (no_cr, other) refl in
            rw (more, no_cr, other, one, newlines_in-skip s start k i gives)
              (next t (inr (behind_other s i no_cr)))
      ]
    ]
