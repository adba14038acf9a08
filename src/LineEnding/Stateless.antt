-- ===== src/LineEnding/Stateless.antt =====
-- common/lineending.go, `LineEndingCursor`: its answers against a description without memory.
use agent_tool.Base.Int.{ℤ}
use agent_tool.Base.{
  ℕ, suc, ◌+◌, ◌-◌, ◌≤◌, ◌<◌, Bool, true, false, not, List, [], ◌∷◌, map, Option, none, some, ◌≡◌,
  refl, sym, ap, inl, inr, arith, ltb, if◌then◌else◌, Bool-cases, Option-cases, Bytes, length, max,
}
use agent_tool.LineEnding.{Ending}
use agent_tool.LineEnding.Newlines.{newlines_in}
use agent_tool.LineEnding.Majority.{IsMajority, span_majority-IsMajority}
use agent_tool.LineEnding.Cursor.{
  Found, unknown, absent, found_at, LineEndingCursor, new_line_ending_cursor, behind_newline,
  rescan, keep_found, terminator, last_newline, final, settle, otherwise, move_to, clamp_start,
  clamp_end, at, span_majority,
}
use agent_tool.LineEnding.Cache.{
  first_newline, form, scan_from-found, scan_from-none, scan_from-some, kind_at-behind,
  first_newline-here,
}

-- The answer from the content alone: the majority of the span, else the next newline, else the last
-- one, else the fallback.
abbrev rest_at : LineEndingCursor → ℕ → Ending
rest_at c stop = elim (form (first_newline c.content stop)) [
  | some e ↦ e
  | none ↦ otherwise c.fallback (last_newline c.content (length c.content))
]

unfoldable pub ending_at : LineEndingCursor → ℤ → ℤ → Ending
ending_at c start end =
    let begin = clamp_start start in
    let stop = clamp_end c.content begin end in
    if not c.has_nl
    then c.fallback
    else elim (span_majority c.content begin stop) [ some e ↦ e | none ↦ rest_at c stop ]

-- The queries in turn.
unfoldable pub at_each : LineEndingCursor → List (ℤ × ℤ) → List Ending
at_each c [] = []
at_each c ((start, end) ∷ qs) = let r = at c start end in r.0 ∷ at_each r.1 qs

-- What was found is right for every start from `lo` on that the scan has passed.
HoldsFound : Bytes → ℕ → ℕ → Found → Type 0
HoldsFound s lo scan unknown = scan ≡ 0
HoldsFound s lo scan absent = (x : ℕ) → lo ≤ x → first_newline s x ≡ none
HoldsFound s lo scan (found_at p e) =
    (x : ℕ) → lo ≤ x → x < scan → form (first_newline s x) ≡ some e

HoldsFinal : Bytes → Bool → Option Ending → Type 0
HoldsFinal s false k = s ≡ s
HoldsFinal s true k = k ≡ last_newline s (length s)

HoldsFound-later :
    (s : Bytes) (lo lo' scan : ℕ) (f : Found)
    → lo ≤ lo'
    → HoldsFound s lo scan f
    → HoldsFound s lo' scan f
unfolding HoldsFound
HoldsFound-later s lo lo' scan unknown le h = h
HoldsFound-later s lo lo' scan absent le h = λ x from. h x (omega arith)
HoldsFound-later s lo lo' scan (found_at p e) le h = λ x from before. h x (omega arith) before

behind_newline-le : (s : Bytes) (p : ℕ) → behind_newline s p ≤ p + 2
unfolding behind_newline
behind_newline-le s p = ground arith

HoldsFound-found :
    (s : Bytes) (i p : ℕ) (e : Ending)
    → first_newline s i ≡ some (p, e)
    → (x : ℕ) → i ≤ x
    → x < behind_newline s p
    → form (first_newline s x) ≡ some e
HoldsFound-found s i p e h x from before =
    let (le, kind) = scan_from-some s (length s - i) i p e h in
    elim (Bool-cases (ltb p x)) [
      | inr near ↦ rw (scan_from-found s (length s - i) i x p e refl h from (ground arith)) refl
      | inl behind ↦
          let bound = behind_newline-le s p in
          let next : x ≡ suc p = ground arith in
          let here =
            first_newline-here s (suc p) e
              (kind_at-behind s p e kind (omega (arith, bound, next))) in
          rw (next, here) refl
    ]

-- An answer for the text behind `end`, and a cursor that may be asked again from there.
Answers : LineEndingCursor → ℕ → Option Ending × LineEndingCursor → Type 0
Answers c end r =
    (n : ℕ) × (f : Found) × (r
      ≡ (form (first_newline c.content end), record c { scan = n; found = f }))
    × HoldsFound c.content end n f

abbrev answer :
    (c : LineEndingCursor) {k l : Option Ending}
    → k ≡ l
    → ◌≡◌ {A = Option Ending × LineEndingCursor} (k, c) (l, c)
answer c e = ap (λ k. (k, c)) e

keep_found-Answers :
    (c : LineEndingCursor) (end : ℕ) (o : Option (ℕ × Ending))
    → first_newline c.content end ≡ o
    → Answers c end (keep_found c o)
unfolding Answers HoldsFound keep_found
keep_found-Answers c end none h = (
  length c.content,
  absent,
  answer (record c { scan = length c.content; found = absent }) (sym (ap form h)),
  λ x from. scan_from-none c.content (length c.content - end) end x refl h from,
)
keep_found-Answers c end (some (p, e)) h = (
  behind_newline c.content p,
  found_at p e,
  answer (record c { scan = behind_newline c.content p; found = found_at p e }) (sym (ap form h)),
  HoldsFound-found c.content end p e h,
)

rescan-Answers : (c : LineEndingCursor) (end : ℕ) → c.scan ≤ end → Answers c end (rescan c end)
unfolding rescan Answers
rescan-Answers c end le =
    let stands : max end c.scan ≡ end = omega arith in
    rw stands (keep_found-Answers c end (first_newline c.content end) refl)

terminator-found :
    (c : LineEndingCursor) (end : ℕ) (f : Found)
    → HoldsFound c.content end c.scan f
    → Answers c end (terminator (record c { found = f }) end)
unfolding Answers HoldsFound terminator
terminator-found c end unknown h =
    rescan-Answers (record c { found = unknown }) end (omega (arith, h))
terminator-found c end absent h =
    (c.scan, absent, answer (record c { found = absent }) (sym (ap form (h end (omega arith)))), h)
terminator-found c end (found_at p e) h = elim (Bool-cases (ltb end c.scan)) [
  | inl before ↦ rw before (
    c.scan,
    found_at p e,
    answer (record c { found = found_at p e }) (sym (h end (omega arith) (ground arith))),
    h,
  )
  | inr passed ↦ rw passed (rescan-Answers (record c { found = found_at p e }) end (ground arith))
]

terminator-Answers :
    (c : LineEndingCursor) (end : ℕ)
    → HoldsFound c.content end c.scan c.found
    → Answers c end (terminator c end)
terminator-Answers c end h = terminator-found c end c.found h

-- The memory of a cursor that was last asked at `last_end`.
IsSound : LineEndingCursor → Type 0
IsSound c =
    HoldsFound c.content c.last_end c.scan c.found × HoldsFinal c.content c.final_done c.final_kind

-- The answer `e`, and a cursor of the same content whose memory is right.
Settles : LineEndingCursor → Ending → Ending × LineEndingCursor → Type 0
Settles c e r =
    (n : ℕ) × (f : Found) × (l : ℕ) × (k : Option Ending) × (d : Bool) × (r
      ≡ (e, record c { scan = n; found = f; last_end = l; final_kind = k; final_done = d }))
    × HoldsFound c.content l n f
    × HoldsFinal c.content d k

abbrev settled :
    (c : LineEndingCursor) {d e : Ending}
    → d ≡ e
    → ◌≡◌ {A = Ending × LineEndingCursor} (d, c) (e, c)
settled c h = ap (λ e. (e, c)) h

settle-none :
    (c : LineEndingCursor) (d : Bool)
    → HoldsFound c.content c.last_end c.scan c.found
    → HoldsFinal c.content d c.final_kind
    → Settles c
        (otherwise c.fallback (last_newline c.content (length c.content)))
        (settle (none, record c { final_done = d }))
unfolding Settles HoldsFinal settle final
settle-none c true h done = (
  c.scan,
  c.found,
  c.last_end,
  c.final_kind,
  true,
  settled (record c { final_done = true }) (ap (otherwise c.fallback) done),
  h,
  done,
)
settle-none c false h done =
    (c.scan, c.found, c.last_end, last_newline c.content (length c.content), true, refl, h, refl)

settle-form :
    (c : LineEndingCursor) (o : Option Ending)
    → HoldsFound c.content c.last_end c.scan c.found
    → HoldsFinal c.content c.final_done c.final_kind
    → Settles c
        (elim o [
          | some e ↦ e
          | none ↦ otherwise c.fallback (last_newline c.content (length c.content))
        ])
        (settle (o, c))
unfolding Settles settle
settle-form c (some e) h done =
    (c.scan, c.found, c.last_end, c.final_kind, c.final_done, refl, h, done)
settle-form c none h done = settle-none c c.final_done h done

settle-terminator :
    (c : LineEndingCursor)
    → HoldsFound c.content c.last_end c.scan c.found
    → HoldsFinal c.content c.final_done c.final_kind
    → Settles c (rest_at c c.last_end) (settle (terminator c c.last_end))
unfolding Answers Settles
settle-terminator c h done =
    let (n, f, is, holds) = terminator-Answers c c.last_end h in
    rw is (
      settle-form (record c { scan = n; found = f }) (form (first_newline c.content c.last_end))
        holds done)

-- A move keeps what is right from the new place on.
move_to-HoldsFound :
    (c : LineEndingCursor) (end : ℕ)
    → HoldsFound c.content c.last_end c.scan c.found
    → (n : ℕ) × (f : Found) × (move_to c end ≡ record c { scan = n; found = f; last_end = end })
      × HoldsFound c.content end n f
unfolding move_to HoldsFound
move_to-HoldsFound c end h = elim (Bool-cases (ltb end c.last_end)) [
  | inl back ↦ rw back (0, unknown, refl, refl)
  | inr on ↦ rw on (
    c.scan,
    c.found,
    refl,
    HoldsFound-later c.content c.last_end end c.scan c.found (ground arith) h,
  )
]

-- With a newline in the content.
at-newline :
    (c : LineEndingCursor) (start end : ℤ)
    → IsSound c
    → Settles
        (record c { has_nl = true })
        (ending_at (record c { has_nl = true }) start end)
        (at (record c { has_nl = true }) start end)
unfolding Settles IsSound at ending_at
at-newline c start end (h, done) =
    let begin = clamp_start start in
    let stop = clamp_end c.content begin end in
    let c : LineEndingCursor = record c { has_nl = true } in
    let (n, f, is, holds) = move_to-HoldsFound c stop h in
    elim (Option-cases (span_majority c.content begin stop)) [
      | inl even ↦
          rw (even, is)
            (settle-terminator (record c { scan = n; found = f; last_end = stop }) holds done)
      | inr (e, most) ↦ rw (most, is) (n, f, stop, c.final_kind, c.final_done, refl, holds, done)
    ]

at-cases :
    (c : LineEndingCursor) (start end : ℤ) (b : Bool)
    → IsSound c
    → Settles
        (record c { has_nl = b })
        (ending_at (record c { has_nl = b }) start end)
        (at (record c { has_nl = b }) start end)
unfolding Settles IsSound at ending_at
at-cases c start end true h = at-newline c start end h
at-cases c start end false (h, done) =
    (c.scan, c.found, c.last_end, c.final_kind, c.final_done, refl, h, done)

at-Settles :
    (c : LineEndingCursor) (start end : ℤ)
    → IsSound c
    → Settles c (ending_at c start end) (at c start end)
at-Settles c start end h = at-cases c start end c.has_nl h

at_each_sound :
    (c : LineEndingCursor) (qs : List (ℤ × ℤ))
    → IsSound c
    → at_each c qs ≡ map (λ q. ending_at c q.0 q.1) qs
unfolding at_each Settles IsSound ending_at
at_each_sound c [] h = refl
at_each_sound c ((start, end) ∷ qs) h =
    let (n, f, l, k, d, is, holds, done) = at-Settles c start end h in
    let rest =
      at_each_sound (record c { scan = n; found = f; last_end = l; final_kind = k; final_done = d })
        qs (holds, done) in
    rw is (ap (λ es. ending_at c start end ∷ es) rest)

-- Whatever spans are asked for, negative ones included, and in whatever order, a cursor answers each
-- query as the content alone decides: the form that `span_majority` gives for the clamped span, else
-- what a scan without memory finds behind it, else what a scan from the end of the content finds, else
-- the dominant form. And `span_majority` gives the most frequent newline of a span, in a tie the one
-- that occurs first in it, and none only if the span has no newline.
pub at_each-new_line_ending_cursor :
    (s : Bytes) (qs : List (ℤ × ℤ))
    → (at_each (new_line_ending_cursor s) qs
        ≡ map (λ q. ending_at (new_line_ending_cursor s) q.0 q.1) qs)
      × ((start end : ℕ)
          → IsMajority (newlines_in s start (end - start) start) (span_majority s start end))
unfolding IsSound HoldsFound HoldsFinal new_line_ending_cursor
at_each-new_line_ending_cursor s qs =
    (at_each_sound (new_line_ending_cursor s) qs (refl, refl), span_majority-IsMajority s)
