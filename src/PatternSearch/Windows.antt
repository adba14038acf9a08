-- ===== src/PatternSearch/Windows.antt =====
-- tools/analyze/pattern.go: the offsets that the search by chunks reports, against one pass over
-- the whole file.
use native.Mathlib.Nat.{mod-eq_of_lt, mul-add-mod_self_right}
use agent_tool.Base.{
  ℕ, zero, suc, ◌+◌, ◌-◌, ◌*◌, ◌%◌, ◌≤◌, ◌<◌, ◌≡◌, refl, sym, ap, Bool, true, false, not, ◌&&◌,
  List, [], ◌∷◌, ◌++◌, inl, inr, arith, ltb, leb, if◌then◌else◌, Bool-cases, Bytes, length, take,
  drop, take-nil,
}
use agent_tool.PatternSearch.{Pattern, matches_at, search_chunk}

-- The numbers among the `n` from `s` on that pass a test.
unfoldable pub offsets : (ℕ → Bool) → ℕ → ℕ → List ℕ
offsets test s zero = []
offsets test s (suc n) = let rest = offsets test (suc s) n in if test s then s ∷ rest else rest

pub offsets_add :
    (test : ℕ → Bool) (s m n : ℕ)
    → offsets test s (m + n) ≡ offsets test s m ++ offsets test (s + m) n
unfolding offsets
offsets_add test s zero n =
    let e : s + 0 ≡ s = omega arith in let z : 0 + n ≡ n = omega arith in rw (e, z) refl
offsets_add test s (suc m) n =
    let e : suc m + n ≡ suc (m + n) = omega arith in
    let e' : s + suc m ≡ suc s + m = omega arith in
    rw (e, e', offsets_add test (suc s) m n)
      (elim (Bool-cases (test s)) [ inl t ↦ rw t refl | inr t ↦ rw t refl ])

pub offsets_none :
    (test : ℕ → Bool) (s n : ℕ) → ((k : ℕ) → k < n → test (s + k) ≡ false) → offsets test s n ≡ []
unfolding offsets
offsets_none test s zero h = refl
offsets_none test s (suc n) h =
    let e : s + 0 ≡ s = omega arith in
    let here : test s ≡ false = rw e at (h 0 (omega arith)) in
    let later : (k : ℕ) → k < n → test (suc s + k) ≡ false =
      λ k lt. let e' : suc s + k ≡ s + suc k = omega arith in rw e' (h (suc k) (omega arith)) in
    rw (here, offsets_none test (suc s) n later) refl

pub take-drop-take :
    (p i m : ℕ) (xs : Bytes) → i + p ≤ m → take p (drop i (take m xs)) ≡ take p (drop i xs)
take-drop-take p i zero xs h = let e : p ≡ 0 = omega arith in rw e refl
take-drop-take p zero (suc m) [] h = refl
take-drop-take p (suc i) (suc m) [] h = refl
take-drop-take zero zero (suc m) (x ∷ xs) h = refl
take-drop-take (suc p) zero (suc m) (x ∷ xs) h =
    ap (◌∷◌ x) (take-drop-take p zero m xs (omega arith))
take-drop-take p (suc i) (suc m) (x ∷ xs) h = take-drop-take p i m xs (omega arith)

module _ (size overlap : ℕ) (pat : Pattern) where
  abbrev pub width : ℕ
  width = length pat.bytes

  -- Whether the bytes of a hit at `p` lie on both sides of the end of what one chunk reads.
  unfoldable pub straddles : ℕ → Bool
  straddles p =
      if ltb p (size + overlap)
      then ltb (size + overlap) (p + width)
      else ltb size ((p - overlap) % size + width)

  -- What the search is to report at `p`.
  abbrev pub is_reported : Bytes → ℕ → Bool
  is_reported file p = matches_at pat file p && not (straddles p)

  -- Where a chunk at `off` starts to report.
  abbrev pub begin : ℕ → ℕ
  begin off = if ltb 0 off then off + overlap else 0

  module _ (some_byte : 0 < width) (in_overlap : width ≤ overlap) (in_size : overlap ≤ size) where
    -- Whether a window at the distance `j` from a boundary of the chunks lies across the next one.
    pub not_straddling :
        (q p : ℕ)
        → begin (q * size) ≤ p
        → p + width ≤ q * size + (size + overlap)
        → straddles p ≡ false
    unfolding straddles
    not_straddling zero p h h' =
        let a : ltb p (size + overlap) ≡ true = ground arith in
        let b : ltb (size + overlap) (p + width) ≡ false = ground arith in rw (a, b) refl
    not_straddling (suc q) p h h' =
        let e : suc q * size ≡ q * size + size = omega arith in
        let pos : ltb 0 (q * size + size) ≡ true = ground arith in
        let from : q * size + size + overlap ≤ p = rw (e, pos) at h in
        let to : p + width ≤ q * size + size + (size + overlap) = rw e at h' in
        let j = p - (q * size + size + overlap) in
        let a : ltb p (size + overlap) ≡ false = ground arith in
        let shift : p - overlap ≡ suc q * size + j = rw e (omega arith) in
        let b : (p - overlap) % size ≡ j =
          rw (shift, mul-add-mod_self_right (suc q) size j) (mod-eq_of_lt (omega arith)) in
        let c : ltb size (j + width) ≡ false = ground arith in rw (a, b, c) refl

    pub straddling :
        (q p : ℕ)
        → p < q * size + (size + overlap)
        → q * size + (size + overlap) < p + width
        → straddles p ≡ true
    unfolding straddles
    straddling zero p h h' =
        let a : ltb p (size + overlap) ≡ true = ground arith in
        let b : ltb (size + overlap) (p + width) ≡ true = ground arith in rw (a, b) refl
    straddling (suc q) p h h' =
        let e : suc q * size ≡ q * size + size = omega arith in
        let to : p < q * size + size + (size + overlap) = rw e at h in
        let over : q * size + size + (size + overlap) < p + width = rw e at h' in
        let j = p - (q * size + size + overlap) in
        let a : ltb p (size + overlap) ≡ false = ground arith in
        let shift : p - overlap ≡ suc q * size + j = rw e (omega arith) in
        let b : (p - overlap) % size ≡ j =
          rw (shift, mul-add-mod_self_right (suc q) size j) (mod-eq_of_lt (omega arith)) in
        let c : ltb size (j + width) ≡ true = ground arith in rw (a, b, c) refl

module _ (size overlap : ℕ) (pat : Pattern) (max_res : ℕ) where
  -- The positions behind those that a chunk leaves to the one before it.
  pub search_skip :
      (k n : ℕ) (chunk : Bytes) (off i found : ℕ)
      → 0 < off
      → i + k ≤ overlap
      → search_chunk size overlap pat max_res (k + n) chunk off i found
        ≡ search_chunk size overlap pat max_res n chunk off (i + k) found
  unfolding search_chunk
  search_skip zero n chunk off i found h lt =
      let e : i + 0 ≡ i = omega arith in let z : 0 + n ≡ n = omega arith in rw (e, z) refl
  search_skip (suc k) n chunk off i found h lt =
      let e : i + suc k ≡ suc i + k = omega arith in
      let z : suc k + n ≡ suc (k + n) = omega arith in
      let a : ltb 0 off ≡ true = ground arith in
      let b : ltb i overlap ≡ true = ground arith in
      rw (e, z, a, b) (search_skip k n chunk off (suc i) found h (omega arith))

  -- The loop over the positions of a chunk, where it agrees with `test`.
  pub search_chunk_lem :
      (test : ℕ → Bool) (n : ℕ) (chunk : Bytes) (off i found : ℕ)
      → found < max_res
      → ((k : ℕ)
          → k < n
          → (ltb 0 off && ltb (i + k) overlap ≡ false)
            × (matches_at pat chunk (i + k) ≡ test (off + (i + k))))
      → search_chunk size overlap pat max_res n chunk off i found
        ≡ take (max_res - found) (offsets test (off + i) n)
  unfolding search_chunk offsets
  search_chunk_lem test zero chunk off i found lt h = sym (take-nil (max_res - found))
  search_chunk_lem test (suc n) chunk off i found lt h =
      let e : i + 0 ≡ i = omega arith in
      let e' : suc (off + i) ≡ off + suc i = omega arith in
      let later : (k : ℕ)
          → k < n
          → (ltb 0 off && ltb (suc i + k) overlap ≡ false)
            × (matches_at pat chunk (suc i + k) ≡ test (off + (suc i + k))) =
        λ k lt'. let s : suc i + k ≡ i + suc k = omega arith in rw s (h (suc k) (omega arith)) in
      let seen = rw e at ((h 0 (omega arith)).0) in
      let same = rw e at ((h 0 (omega arith)).1) in
      let next = search_chunk_lem test n chunk off (suc i) found lt later in
      elim (Bool-cases (test (off + i))) [
        | inr t ↦ rw (seen, same, t, e') next
        | inl t ↦ elim (Bool-cases (leb max_res (suc found))) [
          | inl last ↦
              let one : max_res - found ≡ 1 = ground arith in rw (seen, same, t, last, one) refl
          | inr more ↦
              let one : max_res - found ≡ suc (max_res - suc found) = ground arith in
              rw (seen, same, t, more, one, e')
                (ap (◌∷◌ (off + i))
                  (search_chunk_lem test n chunk off (suc i) (suc found) (ground arith) later))
        ]
      ]
