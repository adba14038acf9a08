-- ===== src/Edit/Replace/Hits.antt =====
-- tools/edit/replace.go: the hits of a text in the view.
use mathlib.Core.Option
use mathlib.Core.Path.{ap₂}
use agent_tool.Base.{
  ℕ, zero, suc, ◌+◌, ◌≤◌, ◌<◌, Bool, true, [], ◌∷◌, Option, none, some, ltb, ◌==◌, Bytes, length,
  take, drop, drop-drop, index, has_prefix, ◌≡◌, refl, sym, ap, inl, inr, arith, Bool-cases,
  Option-cases, length-drop, length-take,
}
use agent_tool.Edit.Replace.{next_hit, count_hits, is_rejected}

has_prefix-take : (s p : Bytes) → has_prefix s p ≡ true → take (length p) s ≡ p
unfolding has_prefix
has_prefix-take s [] h = refl
has_prefix-take [] (c ∷ p) h = cc
has_prefix-take (d ∷ s) (c ∷ p) h = elim (Bool-cases (d == c)) [
  | inl same ↦ let e : d ≡ c = ground arith in ap₂ ◌∷◌ e (has_prefix-take s p (rw same at h))
  | inr other ↦ absurd (ground (arith, h, other))
]

some-injective : {j k : ℕ} → ◌≡◌ {A = Option ℕ} (some j) (some k) → j ≡ k
some-injective h = cc

map-suc-some :
    (o : Option ℕ) (k : ℕ) → Option.map suc o ≡ some k → (j : ℕ) × (o ≡ some j) × (k ≡ suc j)
map-suc-some none k h = cc
map-suc-some (some j) k h = (j, refl, sym (some-injective h))

-- `strings.Index` gives a place where the text stands.
index-take : (s p : Bytes) (k : ℕ) → index s p ≡ some k → take (length p) (drop k s) ≡ p
unfolding index
index-take [] p k h = elim (Bool-cases (has_prefix [] p)) [
  | inl here ↦ let e : 0 ≡ k = some-injective (rw here at h) in rw (← e) (has_prefix-take [] p here)
  | inr missing ↦ absurd (ground (arith, rw missing at h))
]
index-take (c ∷ s) p k h = elim (Bool-cases (has_prefix (c ∷ s) p)) [
  | inl here ↦
      let e : 0 ≡ k = some-injective (rw here at h) in rw (← e) (has_prefix-take (c ∷ s) p here)
  | inr missing ↦
      let (j, there, e) = map-suc-some (index s p) k (rw missing at h) in
      rw e (index-take s p j there)
]

-- The next hit: where it is, and that the text stands there.
pub next_hit_lem :
    (s sub : Bytes) (i pos : ℕ)
    → 0 < length sub
    → next_hit s sub i ≡ some pos
    → (i ≤ pos) × (take (length sub) (drop pos s) ≡ sub) × (pos + length sub ≤ length s)
unfolding next_hit
next_hit_lem s sub i pos some_text h = elim (Bool-cases (ltb (length s) (i + length sub))) [
  | inl past ↦ absurd (ground (arith, rw past at h))
  | inr fits ↦ elim (Option-cases (index (drop i s) sub)) [
    | inl missing ↦ absurd (ground (arith, rw (fits, missing, next_hit) at h))
    | inr (k, there) ↦
        let e : i + k ≡ pos = some-injective (rw (fits, there, next_hit) at h) in
        let stands : take (length sub) (drop (i + k) s) ≡ sub =
          rw (← drop-drop k i s) (index-take (drop i s) sub k there) in
        let whole = ap length stands in
        let size = length-take (length sub) (drop (i + k) s) in
        let left = length-drop (i + k) s in
        rw (← e) (omega arith, stands, (omega (arith, whole, size, left, some_text)))
  ]
]

-- Rounds beyond those that the text has room for change nothing.
pub count_hits_enough :
    (f : ℕ) (s sub : Bytes) (line_start : Bool) (i : ℕ)
    → 0 < length sub
    → length s < f + i
    → count_hits f s sub line_start i ≡ count_hits (suc f) s sub line_start i
unfolding count_hits
count_hits_enough zero s sub line_start i some_text room =
    let past : ltb (length s) (i + length sub) ≡ true = ground (arith, some_text, room) in
    let nothing : next_hit s sub i ≡ none = unfold next_hit in rw past refl in
    rw (nothing, count_hits) refl
count_hits_enough (suc f) s sub line_start i some_text room =
    elim (Option-cases (next_hit s sub i)) [
      | inl nothing ↦ rw (nothing, count_hits) refl
      | inr (pos, there) ↦
          let (later, stands, fits) = next_hit_lem s sub i pos some_text there in
          let rest =
            count_hits_enough f s sub line_start (pos + length sub) some_text
              (omega (arith, room, later, some_text)) in
          elim (Bool-cases (is_rejected line_start s pos)) [
            | inl skipped ↦ rw (there, skipped, count_hits) rest
            | inr taken ↦ rw (there, taken, count_hits) (ap suc rest)
          ]
    ]
