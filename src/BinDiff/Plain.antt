-- ===== src/BinDiff/Plain.antt =====
-- tools/analyze/bindiff.go: the comparison by chunks against one pass over both files.
use agent_tool.Base.Int.{ℤ}
use agent_tool.Base.{
  ℕ, zero, suc, ◌+◌, ◌-◌, ◌≤◌, ◌<◌, ◌≡◌, refl, sym, ap, ◌∙◌, List, [], ◌∷◌, ◌++◌, inl, inr, arith,
  ltb, ◌==◌, if◌then◌else◌, Bool-cases, Bytes, length, take, drop, min, append-nil, append_assoc,
  take-append, take-nil, length-append,
}
use agent_tool.BinDiff.{
  Row, Diff, note, diff_chunk, diff_files, clamp_max, op_bin_diff, diff_chunk_size,
}

-- All differences of two texts, the first at an offset.
unfoldable pub differences : ℕ → Bytes → Bytes → List Row
differences at_offset [] bs = []
differences at_offset (a ∷ as') [] = []
differences at_offset (a ∷ as') (b ∷ bs) =
    let rest = differences (suc at_offset) as' bs in
    if a == b then rest else record { offset = at_offset; byte_a = a; byte_b = b } ∷ rest

-- The state of the loop after a list of differences: the first ones are written, all are counted.
abbrev pub after : ℕ → List Row → Diff
after max_res rows = record {
  rows = take max_res rows;
  found = min max_res (length rows);
  total_diffs = length rows;
}

note-after :
    (m o a b : ℕ) (rows : List Row)
    → note m o a b (after m rows)
      ≡ after m (rows ++ (record { offset = o; byte_a = a; byte_b = b } ∷ []))
unfolding note
note-after m o a b rows =
    let r : Row = record { offset = o; byte_a = a; byte_b = b } in
    let n : length (rows ++ (r ∷ [])) ≡ suc (length rows) =
      omega (arith, length-append rows (r ∷ [])) in
    elim (Bool-cases (ltb (min m (length rows)) m)) [
      | inl e ↦
          let found : min m (suc (length rows)) ≡ suc (min m (length rows)) = ground arith in
          let room : m - length rows ≡ suc (m - length rows - 1) = ground arith in
          rw
            (
              e,
              n,
              take-append m rows (r ∷ []),
              found,
              room,
              take-nil {A = Row} (m - length rows - 1),
            )
            refl
      | inr e ↦
          let found : min m (suc (length rows)) ≡ min m (length rows) = ground arith in
          let room : m - length rows ≡ 0 = ground arith in
          rw (e, n, take-append m rows (r ∷ []), found, room, append-nil (take m rows)) refl
    ]

diff_chunk-after :
    (m o : ℕ) (as' bs : Bytes) (rows : List Row)
    → diff_chunk m o as' bs (after m rows) ≡ after m (rows ++ differences o as' bs)
unfolding diff_chunk differences
diff_chunk-after m o [] bs rows = rw (append-nil rows) refl
diff_chunk-after m o (a ∷ as') [] rows = rw (append-nil rows) refl
diff_chunk-after m o (a ∷ as') (b ∷ bs) rows = elim (Bool-cases (a == b)) [
  | inl e ↦ rw e (diff_chunk-after m (suc o) as' bs rows)
  | inr e ↦
      let r : Row = record { offset = o; byte_a = a; byte_b = b } in
      rw (e, note-after m o a b rows)
        (diff_chunk-after m (suc o) as' bs (rows ++ (r ∷ []))
          ∙ ap (after m) (append_assoc rows (r ∷ []) (differences (suc o) as' bs)))
]

-- The differences of two first parts and of what comes behind them.
differences-take :
    (o off r : ℕ) (as' bs : Bytes)
    → off ≤ length as'
    → off ≤ length bs
    → differences o (take (off + r) as') (take (off + r) bs)
      ≡ differences o (take off as') (take off bs)
        ++ differences (o + off) (take r (drop off as')) (take r (drop off bs))
unfolding differences
differences-take o zero r as' bs h h' =
    let z : 0 + r ≡ r = omega arith in let e : o + 0 ≡ o = omega arith in rw (z, e) refl
differences-take o (suc off) r [] bs h h' = absurd (omega arith)
differences-take o (suc off) r (a ∷ as') [] h h' = absurd (omega arith)
differences-take o (suc off) r (a ∷ as') (b ∷ bs) h h' =
    let z : suc off + r ≡ suc (off + r) = omega arith in
    let e : o + suc off ≡ suc o + off = omega arith in
    let ih = differences-take (suc o) off r as' bs (omega arith) (omega arith) in
    elim (Bool-cases (a == b)) [
      | inl same ↦ rw (z, e, same) ih
      | inr other ↦ rw (z, e, other) (ap (◌∷◌ (record { offset = o; byte_a = a; byte_b = b })) ih)
    ]

differences-take-min :
    (o : ℕ) (as' bs : Bytes)
    → differences o
        (take (min (length as') (length bs)) as')
        (take (min (length as') (length bs)) bs)
      ≡ differences o as' bs
unfolding differences
differences-take-min o [] bs = let z : min 0 (length bs) ≡ 0 = omega arith in rw z refl
differences-take-min o (a ∷ as') [] =
    let z : min (suc (length as')) 0 ≡ 0 = omega arith in rw z refl
differences-take-min o (a ∷ as') (b ∷ bs) =
    let z : min (suc (length as')) (suc (length bs)) ≡ suc (min (length as') (length bs)) =
      omega arith in
    elim (Bool-cases (a == b)) [
      | inl e ↦ rw (z, e) (differences-take-min (suc o) as' bs)
      | inr e ↦
          rw (z, e)
            (ap (◌∷◌ (record { offset = o; byte_a = a; byte_b = b }))
              (differences-take-min (suc o) as' bs))
    ]

module _ (m size : ℕ) (as' bs : Bytes) (some_byte : 0 < size) where
  abbrev compare_len : ℕ
  compare_len = min (length as') (length bs)

  -- What the first `k` bytes of both files give.
  abbrev so_far : ℕ → Diff
  so_far k = after m (differences 0 (take k as') (take k bs))

  one_chunk :
      (off : ℕ)
      → off < compare_len
      → diff_chunk m off
          (take (min size (compare_len - off)) (drop off as'))
          (take (min size (compare_len - off)) (drop off bs))
          (so_far off)
        ≡ so_far (min (off + size) compare_len)
  one_chunk off h =
      let r = min size (compare_len - off) in
      let z : 0 + off ≡ off = omega arith in
      let e : min (off + size) compare_len ≡ off + r = omega arith in
      rw e (
        diff_chunk-after m off (take r (drop off as')) (take r (drop off bs))
          (differences 0 (take off as') (take off bs))
        ∙ ap (after m)
            (sym (rw z at (differences-take 0 off r as' bs (omega arith) (omega arith)))))

  diff_files_lem :
      (f off : ℕ)
      → compare_len ≤ f + off
      → diff_files m f size compare_len off as' bs (so_far (min off compare_len))
        ≡ so_far compare_len
  unfolding diff_files
  diff_files_lem zero off h = let e : min off compare_len ≡ compare_len = omega arith in rw e refl
  diff_files_lem (suc f) off h = elim (Bool-cases (ltb off compare_len)) [
    | inr ended ↦ let e : min off compare_len ≡ compare_len = ground arith in rw (ended, e) refl
    | inl more ↦
        let lt : off < compare_len = ground arith in
        let e : min off compare_len ≡ off = omega arith in
        rw (more, e, one_chunk off lt) (diff_files_lem f (off + size) (omega arith))
  ]

-- The comparison by chunks counts every difference of the bytes that both files have, and writes the
-- first ones, in order and up to the limit.
pub op_bin_diff-differences :
    (as' bs : Bytes) (max_results : ℤ)
    → op_bin_diff as' bs max_results ≡ record {
      rows = take (clamp_max max_results) (differences 0 as' bs);
      found = min (clamp_max max_results) (length (differences 0 as' bs));
      total_diffs = length (differences 0 as' bs);
    }
unfolding op_bin_diff differences
op_bin_diff-differences as' bs max_results =
    let m = clamp_max max_results in
    let n = min (length as') (length bs) in
    let none_yet : min 0 n ≡ 0 = omega arith in
    let none_found : min m 0 ≡ 0 = omega arith in
    let whole = diff_files_lem m diff_chunk_size as' bs (omega arith) n 0 (omega arith) in
    rw (none_yet, take-nil {A = Row} m, none_found) at whole
    ∙ ap (after m) (differences-take-min 0 as' bs)
