-- ===== src/LineEnding/Majority.antt =====
-- common/lineending.go, `LineEndingCursor.spanMajority`: its choice against the list of newlines.
use mathlib.Core.Path.{subst}
use agent_tool.Base.{
  ℕ, suc, ◌+◌, ◌-◌, ◌≤◌, ◌<◌, true, ◌&&◌, ◌||◌, List, [], ◌∷◌, Option, none, some, ◌≡◌, refl, sym,
  ◌∙◌, ◌⊎◌, inl, inr, arith, ltb, ◌==◌, if◌then◌else◌, Bool-cases, Bytes, All,
}
use agent_tool.LineEnding.{Ending, lf, crlf, cr, ending_eq}
use agent_tool.LineEnding.Cursor.{Tally, Span, no_hits, tally_span, Best, better, span_majority}
use agent_tool.LineEnding.Newlines.{newlines_in, put, tally_list, tally_span_lem}

-- How often a form occurs, and where first.
unfoldable pub count_of : Ending → List (Ending × ℕ) → ℕ
count_of e [] = 0
count_of e ((d, i) ∷ ps) = let rest = count_of e ps in if ending_eq d e then suc rest else rest

unfoldable pub place_of : ℕ → Ending → List (Ending × ℕ) → ℕ
place_of default e [] = default
place_of default e ((d, i) ∷ ps) =
    let rest = place_of default e ps in if ending_eq d e then i else rest

-- The form is the most frequent one, and in a tie the one that occurs first.
abbrev pub IsMajority : List (Ending × ℕ) → Option Ending → Type 0
IsMajority ps none = ps ≡ []
IsMajority ps (some e) =
    (0 < count_of e ps)
    × ((d : Ending)
        → (count_of d ps < count_of e ps)
          ⊎ ((count_of d ps ≡ count_of e ps) × (place_of 0 e ps ≤ place_of 0 d ps)))

abbrev tally_of : Ending → Span → Tally
tally_of lf t = t.lfs
tally_of crlf t = t.crlfs
tally_of cr t = t.crs

-- A tally holds what is counted and the place of the first.
Tallies : Ending → List (Ending × ℕ) → Tally → Tally → Type 0
Tallies e ps before after =
    (after.count ≡ before.count + count_of e ps)
    × (after.at ≡ (if before.count == 0 then place_of before.at e ps else before.at))

tally_list-Tallies :
    (e : Ending) (ps : List (Ending × ℕ)) (t : Span)
    → Tallies e ps (tally_of e t) (tally_of e (tally_list ps t))
unfolding Tallies tally_list count_of place_of
tally_list-Tallies e [] t = (omega arith, ground arith)
tally_list-Tallies lf ((lf, i) ∷ ps) t =
    let ih = tally_list-Tallies lf ps (put lf i t) in (omega (arith, ih.0), ground (arith, ih.1))
tally_list-Tallies crlf ((crlf, i) ∷ ps) t =
    let ih = tally_list-Tallies crlf ps (put crlf i t) in
    (omega (arith, ih.0), ground (arith, ih.1))
tally_list-Tallies cr ((cr, i) ∷ ps) t =
    let ih = tally_list-Tallies cr ps (put cr i t) in (omega (arith, ih.0), ground (arith, ih.1))
tally_list-Tallies lf ((crlf, i) ∷ ps) t = tally_list-Tallies lf ps (put crlf i t)
tally_list-Tallies lf ((cr, i) ∷ ps) t = tally_list-Tallies lf ps (put cr i t)
tally_list-Tallies crlf ((lf, i) ∷ ps) t = tally_list-Tallies crlf ps (put lf i t)
tally_list-Tallies crlf ((cr, i) ∷ ps) t = tally_list-Tallies crlf ps (put cr i t)
tally_list-Tallies cr ((lf, i) ∷ ps) t = tally_list-Tallies cr ps (put lf i t)
tally_list-Tallies cr ((crlf, i) ∷ ps) t = tally_list-Tallies cr ps (put crlf i t)

-- The choice among three tallies.
abbrev Beats : Tally → Tally → Type 0
Beats a b = (b.count < a.count) ⊎ ((b.count ≡ a.count) × (a.at ≤ b.at))

abbrev Chosen : Span → Option Ending → Type 0
Chosen t none = (t.lfs.count ≡ 0) × (t.crlfs.count ≡ 0) × (t.crs.count ≡ 0)
Chosen t (some e) =
    (0 < (tally_of e t).count) × ((d : Ending) → Beats (tally_of e t) (tally_of d t))

abbrev chosen : Span → Option Ending
chosen t =
    (better cr t.crs (
      better lf t.lfs (
        better crlf t.crlfs
          (record { ending = none; tally = record { count = 0; at = 0 } })))).ending

-- What leads after the candidates of a list.
Leads : Option Ending → Tally → Span → List Ending → Type 0
Leads none y t es = (y.count ≡ 0) × All (λ d. (tally_of d t).count ≡ 0) es
Leads (some e) y t es = (y ≡ tally_of e t) × (0 < y.count) × All (λ d. Beats y (tally_of d t)) es

All-weaken :
    {P Q : Ending → Type 0} (es : List Ending) → ((e : Ending) → P e → Q e) → All P es → All Q es
All-weaken [] f h = tt
All-weaken (e ∷ es) f (h, hs) = (f e h, All-weaken es f hs)

better-Leads :
    (c : Ending) (o : Option Ending) (y : Tally) (t : Span) (es : List Ending)
    → Leads o y t es
    → let b = better c (tally_of c t) (record { ending = o; tally = y }) in
      Leads b.ending b.tally t (c ∷ es)
unfolding Leads
better-Leads c none y t es (none_yet, zeros) = elim (Bool-cases ((tally_of c t).count == 0)) [
  | inl no_hit ↦ rw no_hit (none_yet, (ground arith, zeros))
  | inr some_hit ↦
      let more : ltb y.count (tally_of c t).count ≡ true = ground arith in
      rw (some_hit, more)
        (
          refl,
          ground arith,
          (
            inr (refl, omega arith),
            All-weaken es (λ e zero_count. inl (ground (arith, zero_count, some_hit))) zeros,
          ),
        )
]
better-Leads c (some e) y t es (is, positive, beats) =
    elim (Bool-cases ((tally_of c t).count == 0)) [
      | inl no_hit ↦ rw no_hit (is, positive, (inl (ground (arith, no_hit, positive)), beats))
      | inr some_hit ↦
          elim (Bool-cases (
            ltb y.count (tally_of c t).count
            || (tally_of c t).count == y.count && ltb (tally_of c t).at y.at)) [
              | inl wins ↦
                  rw (some_hit, wins)
                    (
                      refl,
                      ground arith,
                      (
                        inr (refl, omega arith),
                        All-weaken es (λ e beaten. ground (arith, wins, beaten)) beats,
                      ),
                    )
              | inr loses ↦ rw (some_hit, loses) (is, positive, (ground (arith, loses), beats))
            ]
    ]

Leads-Chosen :
    (o : Option Ending) (y : Tally) (t : Span) → Leads o y t (cr ∷ (lf ∷ (crlf ∷ []))) → Chosen t o
unfolding Leads
Leads-Chosen none y t (_, (a, (b, (c, _)))) = (b, c, a)
Leads-Chosen (some e) y t (is, positive, (a, (b, (c, _)))) = rw (← is) (positive, λ d. by_form d)
  where
    by_form : (d : Ending) → Beats y (tally_of d t)
    by_form lf = b
    by_form crlf = c
    by_form cr = a

chosen-Chosen : (t : Span) → Chosen t (chosen t)
unfolding Leads
chosen-Chosen t =
    let b0 : Best = record { ending = none; tally = record { count = 0; at = 0 } } in
    let b1 = better crlf t.crlfs b0 in
    let b2 = better lf t.lfs b1 in
    let b3 = better cr t.crs b2 in
    let h1 = better-Leads crlf none b0.tally t [] (refl, tt) in
    let h2 = better-Leads lf b1.ending b1.tally t (crlf ∷ []) h1 in
    Leads-Chosen b3.ending b3.tally t (better-Leads cr b2.ending b2.tally t (lf ∷ (crlf ∷ [])) h2)

count_of-none :
    (ps : List (Ending × ℕ))
    → count_of lf ps ≡ 0
    → count_of crlf ps ≡ 0
    → count_of cr ps ≡ 0
    → ps ≡ []
unfolding count_of
count_of-none [] a b c = refl
count_of-none ((lf, i) ∷ ps) a b c = absurd (ground (arith, a))
count_of-none ((crlf, i) ∷ ps) a b c = absurd (ground (arith, b))
count_of-none ((cr, i) ∷ ps) a b c = absurd (ground (arith, c))

-- The tallies of a list from nothing.
tally_list_first :
    (e : Ending) (ps : List (Ending × ℕ))
    → ((tally_of e (tally_list ps no_hits)).count ≡ count_of e ps)
      × ((tally_of e (tally_list ps no_hits)).at ≡ place_of 0 e ps)
unfolding Tallies
tally_list_first lf ps = let h = tally_list-Tallies lf ps no_hits in (omega (arith, h.0), h.1)
tally_list_first crlf ps = let h = tally_list-Tallies crlf ps no_hits in (omega (arith, h.0), h.1)
tally_list_first cr ps = let h = tally_list-Tallies cr ps no_hits in (omega (arith, h.0), h.1)

Chosen-IsMajority :
    (ps : List (Ending × ℕ)) (o : Option Ending)
    → Chosen (tally_list ps no_hits) o
    → IsMajority ps o
Chosen-IsMajority ps none (a, b, c) =
    count_of-none ps (sym (tally_list_first lf ps).0 ∙ a) (sym (tally_list_first crlf ps).0 ∙ b)
      (sym (tally_list_first cr ps).0 ∙ c)
Chosen-IsMajority ps (some e) (positive, beats) = (
  rw (← (tally_list_first e ps).0) positive,
  λ d.
      rw
        (
          ← (tally_list_first e ps).0,
          ← (tally_list_first e ps).1,
          ← (tally_list_first d ps).0,
          ← (tally_list_first d ps).1,
        )
        (beats d),
)

pub span_majority-IsMajority :
    (s : Bytes) (start end : ℕ)
    → IsMajority (newlines_in s start (end - start) start) (span_majority s start end)
unfolding span_majority
span_majority-IsMajority s start end =
    let ps = newlines_in s start (end - start) start in
    let tallied : tally_span (end - start) s start end no_hits ≡ tally_list ps no_hits =
      tally_span_lem (end - start) (end - start) s start start end no_hits (omega arith) refl
        (omega arith) (inl refl) in
    subst (λ t. IsMajority ps (chosen t)) (sym tallied)
      (Chosen-IsMajority ps (chosen (tally_list ps no_hits))
        (chosen-Chosen (tally_list ps no_hits)))
