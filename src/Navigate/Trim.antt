-- ===== src/Navigate/Trim.antt =====
-- common/navigate.go: what `strings.TrimSpace` leaves of a path that is written from its parts.
use mathlib.Core.List.{reverse, reverse-cons, reverse-append, reverse-reverse}
use agent_tool.Base.{
  ℕ, zero, suc, ◌≤◌, ◌<◌, ◌≡◌, ◌≢◌, refl, [], ◌∷◌, ◌++◌, inl, inr, arith, ◌==◌, Bool-cases, Bytes,
  length, drop, length-drop, length-append, trim_space, trim_white, white_front, white_back,
  white_first, white_last,
}

trim_white_same : (white : Bytes → ℕ) (f : ℕ) (s : Bytes) → white s ≡ 0 → trim_white white f s ≡ s
unfolding trim_white
trim_white_same white zero s h = refl
trim_white_same white (suc f) s h = rw h refl

-- A text that neither begins nor ends with white space is left as it is.
pub trim_space_same :
    (s : Bytes) → white_front s ≡ 0 → white_back (reverse s) ≡ 0 → trim_space s ≡ s
unfolding trim_space
trim_space_same s front back =
    rw
      (
        trim_white_same white_front (length s) s front,
        trim_white_same white_back (length s) (reverse s) back,
      )
      (reverse-reverse s)

length-trim_white :
    (white : Bytes → ℕ) (f : ℕ) (s : Bytes) → length (trim_white white f s) ≤ length s
unfolding trim_white
length-trim_white white zero s = omega arith
length-trim_white white (suc f) s = elim (Bool-cases (white s == 0)) [
  | inl none_left ↦ rw none_left (omega arith)
  | inr more ↦
      rw more (omega (arith, length-trim_white white f (drop (white s) s), length-drop (white s) s))
]

length-reverse : (s : Bytes) → length (reverse s) ≡ length s
length-reverse [] = refl
length-reverse (c ∷ s) =
    rw (reverse-cons c s) (omega (arith, length-append (reverse s) (c ∷ []), length-reverse s))

pub length-trim_space : (s : Bytes) → length (trim_space s) ≤ length s
unfolding trim_space
length-trim_space s =
    let front = trim_white white_front (length s) s in
    let back = trim_white white_back (length front) (reverse front) in
    omega (
      arith,
      length-trim_white white_front (length s) s,
      length-trim_white white_back (length front) (reverse front),
      length-reverse front,
      length-reverse back,
    )

-- A byte of ASCII is no part of the white space of two or three bytes.
first_alone : (c d e : ℕ) → d < 128 → white_first c 0 0 ≡ 0 → white_first c d e ≡ 0
unfolding white_first
first_alone c d e ascii h = ground arith

first_two : (c d e : ℕ) → e < 128 → white_first c d 0 ≡ 0 → white_first c d e ≡ 0
unfolding white_first
first_two c d e ascii h = ground arith

last_alone : (c d e : ℕ) → d < 128 → white_last c 0 0 ≡ 0 → white_last c d e ≡ 0
unfolding white_last
last_alone c d e ascii h = ground arith

last_two : (c d e : ℕ) → e < 128 → white_last c d 0 ≡ 0 → white_last c d e ≡ 0
unfolding white_last
last_two c d e ascii h = ground arith

-- What stands behind a text does not make white space of its beginning, if it begins with a byte of
-- ASCII; and the same for the end.
pub white_front-append :
    (c : ℕ) (k rest : Bytes) (b : ℕ)
    → b < 128
    → white_front (c ∷ k) ≡ 0
    → white_front ((c ∷ k) ++ (b ∷ rest)) ≡ 0
unfolding white_front
white_front-append c [] [] b ascii h = first_alone c b 0 ascii h
white_front-append c [] (e ∷ rest) b ascii h = first_alone c b e ascii h
white_front-append c (d ∷ []) rest b ascii h = first_two c d b ascii h
white_front-append c (d ∷ e ∷ k) rest b ascii h = h

pub white_back-append :
    (k : Bytes) (b : ℕ) (rest : Bytes)
    → b < 128
    → k ≢ []
    → white_back k ≡ 0
    → white_back (k ++ (b ∷ rest)) ≡ 0
unfolding white_back
white_back-append [] b rest ascii some_text h = absurd (some_text refl)
white_back-append (c ∷ []) b [] ascii some_text h = last_alone c b 0 ascii h
white_back-append (c ∷ []) b (e ∷ rest) ascii some_text h = last_alone c b e ascii h
white_back-append (c ∷ d ∷ []) b rest ascii some_text h = last_two c d b ascii h
white_back-append (c ∷ d ∷ e ∷ k) b rest ascii some_text h = h

bracket_back : (r : Bytes) → white_back (b']' ∷ r) ≡ 0
unfolding white_back white_last
bracket_back [] = refl
bracket_back (d ∷ []) = ground arith
bracket_back (d ∷ c ∷ r) = ground arith

-- A text that ends with a closing bracket does not end with white space, and one that begins with an
-- opening bracket does not begin with it.
pub white_front-bracket : (s : Bytes) → white_front (b'[' ∷ s) ≡ 0
unfolding white_front white_first
white_front-bracket [] = refl
white_front-bracket (d ∷ []) = ground arith
white_front-bracket (d ∷ c ∷ r) = ground arith

pub white_back-bracket : (s : Bytes) → white_back (reverse (s ++ (b']' ∷ []))) ≡ 0
white_back-bracket s = rw (reverse-append s (b']' ∷ [])) (bracket_back (reverse s))
