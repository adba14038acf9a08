-- ===== src/PatternSearch/Whole.antt =====
-- tools/analyze/pattern.go: the search of a whole file, chunk by chunk.
use agent_tool.Base.Int.{ℤ}
use agent_tool.Base.{
  ℕ, zero, suc, ◌+◌, ◌-◌, ◌*◌, ◌≤◌, ◌<◌, ◌≡◌, refl, sym, ap, ◌∙◌, Bool, true, false, ◌&&◌, List, [],
  ◌++◌, inl, inr, arith, ltb, leb, ◌==◌, ◌⊎◌, if◌then◌else◌, Bool-cases, Bytes, length, take, drop,
  length-take, length-drop, take-append, take-nil, drop-drop, min,
}
use agent_tool.PatternSearch.{
  parsed, hits_at, op_pattern_search, parse_hex_pattern, clamp_results, pattern_chunk_size,
  pattern_overlap, Pattern, matches_at, search_chunk, search_file, positions,
}
use agent_tool.PatternSearch.Text.{parse_hex_pattern_bounds}
use agent_tool.PatternSearch.Windows.{
  offsets, offsets_add, offsets_none, take-drop-take, straddles, is_reported, begin, search_skip,
  search_chunk_lem, not_straddling, straddling,
}

and_true : (b : Bool) → (b && true) ≡ b
and_true true = refl
and_true false = refl

and_false : (b : Bool) → (b && false) ≡ false
and_false true = refl
and_false false = refl

same_offsets :
    (test : ℕ → Bool) (s t n : ℕ) → (n ≡ 0) ⊎ (s ≡ t) → offsets test s n ≡ offsets test t n
unfolding offsets
same_offsets test s t n (inl z) = rw z refl
same_offsets test s t n (inr e) = rw e refl

positive : (n : ℕ) → (n == 0) ≡ false → 0 < n
positive n h = ground arith

-- Filling the room that is left in two parts.
module _ (max found : ℕ) (a b : List ℕ) (h : found ≤ max) where
  abbrev first_part : List ℕ
  first_part = take (max - found) a

  room_left : found + length first_part ≤ max
  room_left = omega (arith, length-take (max - found) a)

  take-append_parts :
      take (max - found) (a ++ b) ≡ first_part ++ take (max - (found + length first_part)) b
  take-append_parts =
      rw (take-append (max - found) a b, length-take (max - found) a)
        (ap (λ k. first_part ++ take k b) (omega arith))

module _ (size overlap : ℕ) (pat : Pattern) (max_res : ℕ) (some_byte : 0 < length pat.bytes)
    (in_overlap : length pat.bytes ≤ overlap) (in_size : overlap ≤ size) where
  abbrev chunk_of : Bytes → ℕ → Bytes
  chunk_of file off = take (min (size + overlap) (length file - off)) (drop off file)

  length-chunk_of :
      (file : Bytes) (off : ℕ)
      → length (chunk_of file off) ≡ min (size + overlap) (length file - off)
  length-chunk_of file off = omega (
    arith,
    length-take (min (size + overlap) (length file - off)) (drop off file),
    length-drop off file,
  )

  -- A position of a chunk is one of the file.
  chunk_matches :
      (file : Bytes) (off i : ℕ)
      → i + length pat.bytes ≤ length (chunk_of file off)
      → matches_at pat (chunk_of file off) i ≡ matches_at pat file (off + i)
  unfolding matches_at
  chunk_matches file off i h =
      let m = min (size + overlap) (length file - off) in
      rw
        (
          take-drop-take (length pat.bytes) i m (drop off file)
              (omega (arith, length-chunk_of file off)),
          drop-drop i off file,
        )
        refl

  -- The first position of a chunk that it reports, and the number of those from there on.
  abbrev skipped : ℕ → ℕ
  skipped off = if ltb 0 off then overlap else 0

  abbrev window : Bytes → ℕ → ℕ
  window file off = positions pat (length (chunk_of file off)) - skipped off

  skip_positions :
      (n : ℕ) (chunk : Bytes) (off found : ℕ)
      → 0 < off
      → search_chunk size overlap pat max_res n chunk off 0 found
        ≡ search_chunk size overlap pat max_res (n - overlap) chunk off overlap found
  unfolding search_chunk
  skip_positions n chunk off found h = elim (Bool-cases (leb overlap n)) [
    | inl long ↦
        let e : n ≡ overlap + (n - overlap) = ground arith in
        let z : 0 + overlap ≡ overlap = omega arith in
        ap (λ k. search_chunk size overlap pat max_res k chunk off 0 found) e
        ∙ (search_skip size overlap pat max_res overlap (n - overlap) chunk off 0 found h
              (omega arith)
            ∙ ap (λ k. search_chunk size overlap pat max_res (n - overlap) chunk off k found) z)
    | inr short ↦
        let e : n ≡ n + 0 = omega arith in
        let z : n - overlap ≡ 0 = ground arith in
        ap (λ k. search_chunk size overlap pat max_res k chunk off 0 found) e
        ∙ (search_skip size overlap pat max_res n 0 chunk off 0 found h (ground arith) ∙ rw z refl)
  ]

  skip_lem :
      (file : Bytes) (off found : ℕ)
      → search_chunk size overlap pat max_res
          (positions pat (length (chunk_of file off)))
          (chunk_of file off)
          off
          0
          found
        ≡ search_chunk size overlap pat max_res
            (window file off)
            (chunk_of file off)
            off
            (skipped off)
            found
  skip_lem file off found = elim (Bool-cases (ltb 0 off)) [
    | inr first ↦
        let n = positions pat (length (chunk_of file off)) in
        let z : n - 0 ≡ n = omega arith in rw (first, z) refl
    | inl later ↦ rw later (
        skip_positions (positions pat (length (chunk_of file off))) (chunk_of file off) off found
          (ground arith))
  ]

  begin_lem : (off : ℕ) → begin size overlap pat off ≡ off + skipped off
  begin_lem off = ground arith

  -- What one chunk adds.
  chunk_hits :
      (q : ℕ) (file : Bytes) (found : ℕ)
      → found < max_res
      → search_chunk size overlap pat max_res
          (positions pat (length (chunk_of file (q * size))))
          (chunk_of file (q * size))
          (q * size)
          0
          found
        ≡ take (max_res - found) (
            offsets
              (is_reported size overlap pat file)
              (q * size + skipped (q * size))
              (window file (q * size)))
  chunk_hits q file found lt =
      skip_lem file (q * size) found
      ∙ search_chunk_lem size overlap pat max_res (is_reported size overlap pat file)
          (window file (q * size)) (chunk_of file (q * size)) (q * size) (skipped (q * size)) found
          lt each
    where
      each :
          (k : ℕ)
          → k < window file (q * size)
          → (ltb 0 (q * size) && ltb (skipped (q * size) + k) overlap ≡ false)
            × (matches_at pat (chunk_of file (q * size)) (skipped (q * size) + k)
                ≡ is_reported size overlap pat file (q * size + (skipped (q * size) + k)))
      each k h =
          let i = skipped (q * size) + k in
          let inside : i + length pat.bytes ≤ length (chunk_of file (q * size)) = omega arith in
          let out : straddles size overlap pat (q * size + i) ≡ false =
            not_straddling size overlap pat some_byte in_overlap in_size q (q * size + i)
              (rw (begin_lem (q * size)) (omega arith))
              (omega (arith, length-chunk_of file (q * size))) in
          (
            ground arith,
            rw out (
                chunk_matches file (q * size) i inside
                ∙ sym (and_true (matches_at pat file (q * size + i)))),
          )

  -- Behind a chunk come the positions that no chunk reports, and then those of the next one.
  chunk_splits :
      (q : ℕ) (file : Bytes)
      → q * size < length file
      → offsets
          (is_reported size overlap pat file)
          (q * size + skipped (q * size))
          (positions pat (length file) - (q * size + skipped (q * size)))
        ≡ offsets
            (is_reported size overlap pat file)
            (q * size + skipped (q * size))
            (window file (q * size))
          ++ offsets
              (is_reported size overlap pat file)
              (q * size + (size + overlap))
              (positions pat (length file) - (q * size + (size + overlap)))
  chunk_splits q file h =
      let test = is_reported size overlap pat file in
      let off = q * size in
      let s = off + skipped off in
      let n = window file off in
      let b = off + (size + overlap) in
      let rest = positions pat (length file) - b in
      let g = positions pat (length file) - s - n - rest in
      let small : skipped off ≤ overlap = ground arith in
      let len = length-chunk_of file off in
      let e : positions pat (length file) - s ≡ n + (g + rest) = omega arith in
      let gap : offsets test (s + n) g ≡ [] = offsets_none test (s + n) g (λ k lt.
        let out : straddles size overlap pat (s + n + k) ≡ true =
          straddling size overlap pat some_byte in_overlap in_size q (s + n + k) (omega arith)
            (omega arith) in
        rw out (and_false (matches_at pat file (s + n + k)))) in
      let next : offsets test (s + n + g) rest ≡ offsets test b rest =
        same_offsets test (s + n + g) b rest (elim (Bool-cases (rest == 0)) [
          | inl last ↦ inl (ground arith)
          | inr more ↦ inr (omega (arith, positive rest more))
        ]) in
      ap (offsets test s) e
      ∙ (offsets_add test s n (g + rest)
          ∙ ap (λ z. offsets test s n ++ z) (offsets_add test (s + n) g rest ∙ rw gap next))

  -- The chunks from `q` on.
  search_file_lem :
      (f q : ℕ) (file : Bytes) (found : ℕ)
      → length file ≤ f + q * size
      → found ≤ max_res
      → search_file size overlap pat max_res f file (q * size) found
        ≡ take (max_res - found) (
            offsets
              (is_reported size overlap pat file)
              (begin size overlap pat (q * size))
              (positions pat (length file) - begin size overlap pat (q * size)))
  unfolding search_file offsets
  search_file_lem zero q file found fuel h =
      let z : positions pat (length file) - begin size overlap pat (q * size) ≡ 0 = ground arith in
      rw z (sym (take-nil (max_res - found)))
  search_file_lem (suc f) q file found fuel h =
      let off = q * size in
      let test = is_reported size overlap pat file in
      elim (Bool-cases (ltb off (length file) && ltb found max_res)) [
        | inr stop ↦ elim (Bool-cases (ltb off (length file))) [
          | inr ended ↦
              let z : positions pat (length file) - begin size overlap pat off ≡ 0 = ground arith in
              rw (ended, z) (sym (take-nil (max_res - found)))
          | inl more ↦ let z : max_res - found ≡ 0 = ground arith in rw (stop, z) refl
        ]
        | inl go ↦
            let inside : off < length file = ground arith in
            let lt : found < max_res = ground arith in
            let hits =
              take (max_res - found) (offsets test (off + skipped off) (window file off)) in
            let e : off + size ≡ suc q * size = omega arith in
            let b : begin size overlap pat (suc q * size) ≡ off + (size + overlap) = ground arith in
            let room =
              room_left max_res found (offsets test (off + skipped off) (window file off)) [] h in
            rw
              (
                go,
                chunk_hits q file found lt,
                e,
                search_file_lem f (suc q) file (found + length hits) (omega arith) room,
                b,
                begin_lem off,
                chunk_splits q file inside,
              )
              (sym (
                take-append_parts max_res found (offsets test (off + skipped off) (window file off))
                  (offsets test (off + (size + overlap))
                    (positions pat (length file) - (off + (size + overlap))))
                  h))
      ]

-- With a pattern that can be parsed, the hits of the operation are, in order and up to the limit,
-- the offsets where the bytes of the file match the pattern, without those whose bytes lie on both
-- sides of the end of what one chunk reads.
pub op_pattern_search-offsets :
    (file pattern : Bytes) (max_results : ℤ) (pat : Pattern)
    → parse_hex_pattern pattern ≡ parsed pat
    → op_pattern_search file pattern max_results
      ≡ hits_at (
          take (clamp_results max_results) (
            offsets
              (is_reported pattern_chunk_size pattern_overlap pat file)
              0
              (positions pat (length file))))
unfolding op_pattern_search
op_pattern_search-offsets file pattern max_results pat e =
    let bounds = parse_hex_pattern_bounds pattern pat e in
    let n = clamp_results max_results in
    let whole =
      search_file_lem pattern_chunk_size pattern_overlap pat n bounds.0 (omega (arith, bounds.1))
        (omega arith) (length file) 0 file 0 (omega arith) (omega arith) in
    let a : n - 0 ≡ n = omega arith in
    let b : positions pat (length file) - 0 ≡ positions pat (length file) = omega arith in
    rw (op_pattern_search, e) (ap hits_at (rw (a, b) at whole))
