-- ===== src/LineEnding/Cache.antt =====
-- `LineEndingCursor.terminator`: the scan for the next newline, and the range of starts for which
-- what it found stays right.
use agent_tool.Base.{
  ℕ, zero, suc, ◌+◌, ◌-◌, ◌≤◌, ◌<◌, true, false, [], ◌∷◌, Option, none, some, ◌≡◌, refl, ap, ◌∙◌,
  ◌⊎◌, inl, inr, arith, ◌==◌, if◌then◌else◌, Bool-cases, Option-cases, Bytes, length,
}
use agent_tool.LineEnding.Cursor.{is_byte, is_byte_before, kind_at, scan_from, behind_newline}
use agent_tool.LineEnding.{Ending, crlf, cr}

-- The first newline at or behind `i`, with no cache.
abbrev pub first_newline : Bytes → ℕ → Option (ℕ × Ending)
first_newline s i = scan_from s (length s - i) i

some-injective_pair :
    {i j : ℕ} {d e : Ending}
    → ◌≡◌ {A = Option (ℕ × Ending)} (some (i, d)) (some (j, e))
    → (i ≡ j) × (d ≡ e)
some-injective_pair h = (ground arith, ground arith)

pub scan_from-some :
    (s : Bytes) (k i j : ℕ) (e : Ending)
    → scan_from s k i ≡ some (j, e)
    → (i ≤ j) × (kind_at s j ≡ some e)
unfolding scan_from
scan_from-some s zero i j e h = cc
scan_from-some s (suc k) i j e h = elim (Option-cases (kind_at s i)) [
  | inl past ↦
      let (lo, kind) = scan_from-some s k (suc i) j e (rw (past, scan_from) at h) in
      (omega arith, kind)
  | inr (d, here) ↦
      let (same, kind) = some-injective_pair (rw (here, scan_from) at h) in
      (omega arith, rw (← same) (here ∙ ap some kind))
]

some-injective : {d e : Ending} → ◌≡◌ {A = Option Ending} (some d) (some e) → d ≡ e
some-injective h = ground arith

-- A newline that was found is the first one for every start up to it.
pub scan_from-found :
    (s : Bytes) (k i x j : ℕ) (e : Ending)
    → k ≡ length s - i
    → scan_from s k i ≡ some (j, e)
    → i ≤ x
    → x ≤ j
    → first_newline s x ≡ some (j, e)
unfolding scan_from
scan_from-found s zero i x j e count h lo hi = cc
scan_from-found s (suc k) i x j e count h lo hi = elim (Bool-cases (i == x)) [
  | inl same ↦ let at_x : i ≡ x = ground arith in rw (← at_x, ← count) h
  | inr later ↦ elim (Option-cases (kind_at s i)) [
    | inl past ↦
        scan_from-found s k (suc i) x j e (omega arith) (rw (past, scan_from) at h) (ground arith)
          hi
    | inr (d, here) ↦
        let (same, kind) = some-injective_pair (rw (here, scan_from) at h) in absurd (ground arith)
  ]
]

-- Where the scan found nothing, there is nothing further on.
pub scan_from-none :
    (s : Bytes) (k i x : ℕ)
    → k ≡ length s - i
    → scan_from s k i ≡ none
    → i ≤ x
    → first_newline s x ≡ none
unfolding scan_from
scan_from-none s zero i x count h lo = let e : length s - x ≡ 0 = omega arith in rw e
scan_from-none s (suc k) i x count h lo = elim (Bool-cases (i == x)) [
  | inl same ↦ let at_x : i ≡ x = ground arith in rw (← at_x, ← count) h
  | inr later ↦ elim (Option-cases (kind_at s i)) [
    | inl past ↦
        scan_from-none s k (suc i) x (omega arith) (rw (past, scan_from) at h) (ground arith)
    | inr (d, here) ↦ absurd (ground (arith, rw (here, scan_from) at h))
  ]
]

-- The form of the newline that is found.
abbrev pub form : Option (ℕ × Ending) → Option Ending
form none = none
form (some (j, e)) = some e

is_byte-lt : (s : Bytes) (i b : ℕ) → is_byte s i b ≡ true → i < length s
unfolding is_byte
is_byte-lt [] i b h = cc
is_byte-lt (c ∷ s) zero b h = omega arith
is_byte-lt (c ∷ s) (suc i) b h = let r = is_byte-lt s i b h in omega arith

-- Where a newline form is seen, and what byte it is.
kind_at-cases :
    (s : Bytes) (i : ℕ) (e : Ending)
    → kind_at s i ≡ some e
    → (is_byte s i b'\n' ≡ true)
      ⊎ ((is_byte s i b'\n' ≡ false)
          × (is_byte s i b'\r' ≡ true)
          × ((if is_byte s (i + 1) b'\n' then crlf else cr) ≡ e))
unfolding kind_at
kind_at-cases s i e h = elim (Bool-cases (is_byte s i b'\n')) [
  | inl nl ↦ inl nl
  | inr plain ↦ elim (Bool-cases (is_byte s i b'\r')) [
    | inl r ↦ inr (plain, r, some-injective (rw (plain, r) at h))
    | inr other ↦ absurd (ground (arith, rw (plain, other) at h))
  ]
]

kind_at-lt : (s : Bytes) (i : ℕ) (e : Ending) → kind_at s i ≡ some e → i < length s
kind_at-lt s i e h = elim (kind_at-cases s i e h) [
  | inl nl ↦ is_byte-lt s i b'\n' nl
  | inr (plain, r, form_is) ↦ is_byte-lt s i b'\r' r
]

-- Behind the CR of a CRLF the LF still reports CRLF.
pub kind_at-behind :
    (s : Bytes) (j : ℕ) (e : Ending)
    → kind_at s j ≡ some e
    → suc j < behind_newline s j
    → kind_at s (suc j) ≡ some e
unfolding kind_at behind_newline is_byte_before
kind_at-behind s j e kind pair = elim (kind_at-cases s j e kind) [
  | inl nl ↦ let less : suc j < j + 1 = rw nl at pair in absurd (omega (arith, less))
  | inr (plain, r, form_is) ↦ elim (Bool-cases (is_byte s (suc j) b'\n')) [
    | inl nl ↦
        let step : j + 1 ≡ suc j = omega arith in rw (nl, r) (ap some (rw (step, nl) at form_is))
    | inr none_here ↦
        let step : j + 1 ≡ suc j = omega arith in
        let less : suc j < suc j = rw (plain, step, none_here) at pair in
        absurd (omega (arith, less))
  ]
]

pub first_newline-here :
    (s : Bytes) (i : ℕ) (e : Ending) → kind_at s i ≡ some e → first_newline s i ≡ some (i, e)
unfolding scan_from
first_newline-here s i e h =
    let lt = kind_at-lt s i e h in
    let count : length s - i ≡ suc (length s - suc i) = omega arith in rw (count, h, scan_from) refl
