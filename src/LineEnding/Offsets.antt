-- ===== src/LineEnding/Offsets.antt =====
-- Offsets of the LF view against offsets of the original bytes.
use mathlib.Core.Path.{ap₂, subst}
use agent_tool.Base.{
  ℕ, zero, suc, ◌+◌, ◌-◌, ◌≤◌, true, false, [], ◌∷◌, ◌≡◌, refl, sym, ap, ◌∙◌, inl, inr, arith, ltb,
  ◌==◌, if◌then◌else◌, Bool-cases, Bytes, length, take, drop, drop-drop, take-nil, drop-nil,
  length-drop, take_all, drop_all, ==_iff,
}
use agent_tool.LineEnding.Normalise.{normalized-normalize_line_endings, norm-new_line_ending_map}
use agent_tool.LineEnding.{
  is_pair, to_lf, normalized, LineEndingMap, new_line_ending_map, walk, orig_offset,
}

-- The offset in `s` of the byte at `n` of its view.
abbrev pub offset : Bytes → ℕ → ℕ
offset s zero = 0
offset [] (suc n) = 0
offset (c ∷ []) (suc n) = 1
offset (c ∷ d ∷ s) (suc n) = elim (is_pair c d) [
  | true ↦ suc (suc (offset s n))
  | false ↦ suc (offset (d ∷ s) n)
]

pub drop-offset : (s : Bytes) (n : ℕ) → normalized (drop (offset s n) s) ≡ drop n (normalized s)
unfolding normalized
drop-offset s zero = refl
drop-offset [] (suc n) = refl
drop-offset (c ∷ []) (suc n) = sym (drop-nil n)
drop-offset (c ∷ d ∷ s) (suc n) = elim (Bool-cases (is_pair c d)) [
  | inl pair ↦ rw (pair, offset, normalized) (drop-offset s n)
  | inr other ↦ rw (other, offset, normalized) (drop-offset (d ∷ s) n)
]

-- The first byte of a nonempty cut is that of the text.
normalized-cons_cut :
    (c d : ℕ) (s : Bytes) (k : ℕ)
    → is_pair c d ≡ false
    → normalized (c ∷ take k (d ∷ s)) ≡ to_lf c ∷ normalized (take k (d ∷ s))
unfolding normalized
normalized-cons_cut c d s zero h = refl
normalized-cons_cut c d s (suc k) h = rw (h, normalized)

pub take-offset : (s : Bytes) (n : ℕ) → normalized (take (offset s n) s) ≡ take n (normalized s)
take-offset s zero = unfold normalized in refl
take-offset [] (suc n) = unfold normalized in refl
take-offset (c ∷ []) (suc n) = unfold normalized in ap (◌∷◌ (to_lf c)) (sym (take-nil n))
take-offset (c ∷ d ∷ s) (suc n) = elim (Bool-cases (is_pair c d)) [
  | inl pair ↦
      let e : normalized (c ∷ d ∷ take (offset s n) s) ≡ b'\n' ∷ normalized (take (offset s n) s) =
        unfold normalized in rw (pair, normalized) in
      let whole : normalized (c ∷ d ∷ s) ≡ b'\n' ∷ normalized s =
        unfold normalized in rw (pair, normalized) in
      rw (pair, offset) (e ∙ (ap (◌∷◌ b'\n') (take-offset s n) ∙ ap (take (suc n)) (sym whole)))
  | inr other ↦
      let whole : normalized (c ∷ d ∷ s) ≡ to_lf c ∷ normalized (d ∷ s) =
        unfold normalized in rw (other, normalized) in
      rw (other, offset)
        (normalized-cons_cut c d s (offset (d ∷ s) n) other
          ∙ (ap (◌∷◌ (to_lf c)) (take-offset (d ∷ s) n) ∙ ap (take (suc n)) (sym whole)))
]

offset-nil : (n : ℕ) → offset [] n ≡ 0
offset-nil zero = refl
offset-nil (suc n) = refl

drop_further : (o t : Bytes) (p j : ℕ) → drop p o ≡ t → drop (p + j) o ≡ drop j t
drop_further o t p j e = sym (drop-drop j p o) ∙ ap (drop j) e

-- The walk adds the widths of the bytes it passes.
walk-offset :
    (original : Bytes) (k p : ℕ) (t : Bytes)
    → drop p original ≡ t
    → walk original k p
      ≡ (if ltb (length (normalized t)) k then walk original k p else p + offset t k)
unfolding walk normalized
walk-offset original zero p t e = ground arith
walk-offset original (suc k) p [] e = ground arith
walk-offset original (suc k) p (c ∷ []) e =
    let one = drop_further original (c ∷ []) p 1 e in
    ground (arith, walk-offset original k (p + 1) [] one, offset-nil k)
walk-offset original (suc k) p (c ∷ d ∷ s) e = elim (Bool-cases (is_pair c d)) [
  | inl pair ↦
      let two = drop_further original (c ∷ d ∷ s) p 2 e in
      ground (arith, walk-offset original k (p + 2) s two)
  | inr other ↦
      let one = drop_further original (c ∷ d ∷ s) p 1 e in
      ground (arith, walk-offset original k (p + 1) (d ∷ s) one)
]

pub offset-add :
    (s : Bytes) (a b : ℕ) → offset s (a + b) ≡ offset s a + offset (drop (offset s a) s) b
offset-add s zero b = ground arith
offset-add [] (suc a) b = let e : suc a + b ≡ suc (a + b) = omega arith in rw (e, offset-nil b)
offset-add (c ∷ []) (suc a) b =
    let e : suc a + b ≡ suc (a + b) = omega arith in rw (e, offset-nil b)
offset-add (c ∷ d ∷ s) (suc a) b =
    let e : suc a + b ≡ suc (a + b) = omega arith in
    rw e (elim (Bool-cases (is_pair c d)) [
      | inl pair ↦ rw (pair, offset) (ground (arith, offset-add s a b))
      | inr other ↦ rw (other, offset) (ground (arith, offset-add (d ∷ s) a b))
    ])

pub length-normalized-le : (s : Bytes) → length (normalized s) ≤ length s
unfolding normalized
length-normalized-le [] = omega arith
length-normalized-le (c ∷ []) = omega arith
length-normalized-le (c ∷ d ∷ s) =
    ground (arith, length-normalized-le s, length-normalized-le (d ∷ s))

-- Where nothing was collapsed, offsets are the same.
offset_id : (s : Bytes) (n : ℕ) → length (normalized s) ≡ length s → n ≤ length s → offset s n ≡ n
unfolding normalized
offset_id s zero e h = refl
offset_id [] (suc n) e h = absurd (omega arith)
offset_id (c ∷ []) (suc n) e h = omega arith
offset_id (c ∷ d ∷ s) (suc n) e h = ground (arith, length-normalized-le s, offset_id (d ∷ s) n)

-- The view is that of the original, and the kept position is that of its offset.
pub record IsTracking (m : LineEndingMap) : Type 0 where
  pub view : m.norm ≡ normalized m.original
  pub behind : m.cur_norm ≤ length m.norm
  pub kept : m.cur_orig ≡ offset m.original m.cur_norm

-- Walking on from the offset of `a` comes to the offset of `b`.
walk_on :
    (s : Bytes) (a b : ℕ)
    → a ≤ b
    → b ≤ length (normalized s)
    → walk s (b - a) (offset s a) ≡ offset s b
walk_on s a b le fits =
    let t = drop (offset s a) s in
    let left : length (normalized t) ≡ length (normalized s) - a =
      ap length (drop-offset s a) ∙ length-drop a (normalized s) in
    let enough : ltb (length (normalized t)) (b - a) ≡ false = ground arith in
    let sum : a + (b - a) ≡ b = omega arith in
    walk-offset s (b - a) (offset s a) t refl
    ∙ rw enough (sym (offset-add s a (b - a)) ∙ ap (offset s) sum)

abbrev capped : LineEndingMap → ℕ → ℕ
capped m n = if ltb (length m.norm) n then length m.norm else n

abbrev started : LineEndingMap → ℕ → ℕ
started m n = if ltb (capped m n) m.cur_norm then 0 else m.cur_norm

abbrev started_at : LineEndingMap → ℕ → ℕ
started_at m n = if ltb (capped m n) m.cur_norm then 0 else m.cur_orig

module _ (m : LineEndingMap) (n : ℕ) (tracking : IsTracking m) where
  capped_le : capped m n ≤ length m.norm
  capped_le = ground arith

  started_le : started m n ≤ capped m n
  started_le = ground arith

  from-started : started_at m n ≡ offset m.original (started m n)
  from-started = elim (Bool-cases (ltb (capped m n) m.cur_norm)) [
    | inl back ↦ rw back
    | inr on ↦ rw on tracking.kept
  ]

  walked :
      walk m.original (capped m n - started m n) (started_at m n) ≡ offset m.original (capped m n)
  walked =
      rw from-started
        (walk_on m.original (started m n) (capped m n) started_le (rw (← tracking.view) capped_le))

  orig_offset-capped :
      ((orig_offset m n).0 ≡ offset m.original (capped m n)) × IsTracking (orig_offset m n).1
  unfolding orig_offset
  orig_offset-capped = elim (Bool-cases (length m.norm == length m.original)) [
    | inl same ↦
        let e : length (normalized m.original) ≡ length m.original =
          sym (ap length tracking.view) ∙ (==_iff _ _).0 same in
        let fits : capped m n ≤ length m.original =
          omega (arith, capped_le, ap length tracking.view) in
        rw same (sym (offset_id m.original (capped m n) e fits), tracking)
    | inr shorter ↦
        rw shorter (walked, record { view = tracking.view; behind = capped_le; kept = walked })
  ]

  take-capped : take (capped m n) m.norm ≡ take n m.norm
  take-capped = elim (Bool-cases (ltb (length m.norm) n)) [
    | inl past ↦
        rw past
          (take_all (length m.norm) m.norm (omega arith) ∙ sym (take_all n m.norm (ground arith)))
    | inr within ↦ rw within
  ]

  drop-capped : drop (capped m n) m.norm ≡ drop n m.norm
  drop-capped = elim (Bool-cases (ltb (length m.norm) n)) [
    | inl past ↦
        rw past
          (drop_all (length m.norm) m.norm (omega arith) ∙ sym (drop_all n m.norm (ground arith)))
    | inr within ↦ rw within
  ]

  -- In a map whose kept position is right, as in a new map, `OrigOffset` cuts the original where the
  -- view is cut: the bytes before the offset collapse to the first `n` bytes of the view, those
  -- behind it to the rest. The position that is kept for the next query is right again.
  pub orig_offset_lem :
      (normalized (take (orig_offset m n).0 m.original) ≡ take n m.norm)
      × (normalized (drop (orig_offset m n).0 m.original) ≡ drop n m.norm)
      × IsTracking (orig_offset m n).1
  orig_offset_lem =
      let (at, next) = orig_offset-capped in
      (
        rw (at, take-offset m.original (capped m n), ← tracking.view) take-capped,
        rw (at, drop-offset m.original (capped m n), ← tracking.view) drop-capped,
        next,
      )

pub new_line_ending_map-IsTracking : (content : Bytes) → IsTracking (new_line_ending_map content)
new_line_ending_map-IsTracking content = record {
  view =
      norm-new_line_ending_map content
      ∙ (unfold new_line_ending_map in sym (normalized-normalize_line_endings content));
  behind = unfold new_line_ending_map in omega arith;
  kept = unfold new_line_ending_map in refl;
}

orig_offset-shape :
    (m : LineEndingMap) (n : ℕ)
    → (a b : ℕ) × ((orig_offset m n).1 ≡ record m { cur_norm = a; cur_orig = b })
unfolding orig_offset
orig_offset-shape m n = elim (Bool-cases (length m.norm == length m.original)) [
  | inl same ↦ (m.cur_norm, m.cur_orig, rw same refl)
  | inr shorter ↦
      (capped m n, walk m.original (capped m n - started m n) (started_at m n), rw shorter refl)
]

-- A query moves the kept position and leaves the rest of the map.
pub orig_offset_moves :
    (m : LineEndingMap) (n : ℕ)
    → IsTracking m
    → n ≤ length m.norm
    → (a b : ℕ) × (orig_offset m n ≡ (offset m.original n, record m { cur_norm = a; cur_orig = b }))
      × IsTracking (record m { cur_norm = a; cur_orig = b })
orig_offset_moves m n tracking fits =
    let (a, b, shape) = orig_offset-shape m n in
    let (value, next) = orig_offset-capped m n tracking in
    let inside : ltb (length m.norm) n ≡ false = ground (arith, fits) in
    let at_n : (orig_offset m n).0 ≡ offset m.original n = value ∙ rw inside refl in
    (a, b, ap₂ (λ (o : ℕ) (k : LineEndingMap). (o, k)) at_n shape, subst IsTracking shape next)
