-- ===== src/TextGuard/Laws.antt =====
-- common/textguard.go: the cut, the counts and the line that is reported.
use agent_tool.Base.{
  ℕ, zero, suc, ◌+◌, ◌≤◌, ◌<◌, ◌≡◌, ◌≢◌, refl, Bool, true, false, List, [], ◌∷◌, ◌++◌, Option, inl,
  inr, arith, leb, ◌==◌, if◌then◌else◌, is_some, Bool-cases, Option-cases, Bytes, length, bytes_eq,
  All,
}
use agent_tool.TextGuard.{
  rune_error, count_rune, line_of_first, replacement_char_count, invisible_name, count_name,
  count_named, count_invisible, is_bound_at, walk_back, safe_cut_index,
}

walk_back_lem :
    (m : ℕ → Bool) (s : List ℕ) (n : ℕ)
    → (walk_back m s n ≤ n)
      × (is_bound_at m s (walk_back m s n) ≡ false)
      × ((k : ℕ) → walk_back m s n < k → k ≤ n → is_bound_at m s k ≡ true)
unfolding walk_back is_bound_at
walk_back_lem m s zero = (omega arith, refl, λ k a b. absurd (omega arith))
walk_back_lem m s (suc n) =
    let (le, out, all) = walk_back_lem m s n in
    elim (Bool-cases (is_bound_at m s (suc n))) [
      | inr e ↦ rw e (omega arith, e, λ k a b. absurd (omega arith))
      | inl e ↦ rw e (
        omega arith,
        out,
        λ k a b. elim (Bool-cases (k == suc n)) [
          | inl last ↦ let is : k ≡ suc n = ground arith in rw is e
          | inr other ↦ all k a (ground arith)
        ],
      )
    ]

-- The cut of a text at a position within it is the last position up to the given one that does not
-- sever a rune from one that it is bound to. At or behind its end the cut is its end.
pub safe_cut_index_lem :
    (m : ℕ → Bool) (s : List ℕ) (n : ℕ)
    → (safe_cut_index m s n ≤ n)
      × (safe_cut_index m s n ≤ length s)
      × ((k : ℕ) → safe_cut_index m s n < k → k ≤ n → k < length s → is_bound_at m s k ≡ true)
      × (n < length s → is_bound_at m s (safe_cut_index m s n) ≡ false)
      × (length s ≤ n → safe_cut_index m s n ≡ length s)
unfolding safe_cut_index
safe_cut_index_lem m s n =
    let (le, out, all) = walk_back_lem m s n in
    elim (Bool-cases (leb (length s) n)) [
      | inl e ↦
          let h : length s ≤ n = ground arith in
          rw e
            (h, omega arith, λ k a b c. absurd (omega arith), λ c. absurd (omega arith), λ c. refl)
      | inr e ↦
          let h : n < length s = ground arith in
          rw e (le, omega arith, λ k a b c. all k a b, λ c. out, λ c. absurd (omega arith))
    ]

-- The counts together.
unfoldable pub sum_counts : List (Bytes × ℕ) → ℕ
sum_counts [] = 0
sum_counts ((n, k) ∷ counts) = k + sum_counts counts

unfoldable pub count_some : (ℕ → Option Bytes) → List ℕ → ℕ
count_some f [] = 0
count_some f (r ∷ s) = let rest = count_some f s in if is_some (f r) then suc rest else rest

sum_counts-count_name :
    (name : Bytes) (counts : List (Bytes × ℕ))
    → sum_counts (count_name name counts) ≡ suc (sum_counts counts)
unfolding sum_counts count_name
sum_counts-count_name name [] = refl
sum_counts-count_name name ((n, k) ∷ counts) = elim (Bool-cases (bytes_eq n name)) [
  | inl e ↦ rw e (omega arith)
  | inr e ↦ rw e (omega (arith, sum_counts-count_name name counts))
]

sum_counts-count_invisible :
    (counts : List (Bytes × ℕ)) (s : List ℕ)
    → sum_counts (count_invisible counts s) ≡ sum_counts counts + count_some invisible_name s
unfolding count_invisible count_some
sum_counts-count_invisible counts [] = omega arith
sum_counts-count_invisible counts (r ∷ s) =
    let ih = sum_counts-count_invisible (count_named (invisible_name r) counts) s in
    elim (Option-cases (invisible_name r)) [
      | inl e ↦ rw e (rw e at ih)
      | inr (name, e) ↦ rw e (omega (arith, rw e at ih, sum_counts-count_name name counts))
    ]

-- The counts of the invisible characters of a text add up to the number of these characters in it.
pub count_invisible-sum_counts :
    (s : List ℕ) → sum_counts (count_invisible [] s) ≡ count_some invisible_name s
unfolding sum_counts
count_invisible-sum_counts s = omega (arith, sum_counts-count_invisible [] s)

-- The line of the first replacement character.
line_of_first-append :
    (line : ℕ) (before after : List ℕ)
    → All (λ c. c ≢ rune_error) before
    → line_of_first line (before ++ (rune_error ∷ after)) ≡ line + count_rune b'\n' before
unfolding line_of_first count_rune
line_of_first-append line [] after h = omega arith
line_of_first-append line (c ∷ before) after (h, hs) =
    let other : (c == rune_error) ≡ false = ground arith in
    elim (Bool-cases (c == b'\n')) [
      | inl e ↦ rw (other, e) (omega (arith, line_of_first-append (suc line) before after hs))
      | inr e ↦ rw (other, e) (line_of_first-append line before after hs)
    ]

count_rune-append : (r : ℕ) (a b : List ℕ) → count_rune r (a ++ b) ≡ count_rune r a + count_rune r b
unfolding count_rune
count_rune-append r [] b = omega arith
count_rune-append r (c ∷ a) b = elim (Bool-cases (c == r)) [
  | inl e ↦ rw e (omega (arith, count_rune-append r a b))
  | inr e ↦ rw e (count_rune-append r a b)
]

count_rune_none : (a : List ℕ) → All (λ c. c ≢ rune_error) a → count_rune rune_error a ≡ 0
unfolding count_rune
count_rune_none [] h = refl
count_rune_none (c ∷ a) (h, hs) =
    let other : (c == rune_error) ≡ false = ground arith in rw other (count_rune_none a hs)

-- Where the first replacement character stands behind a text without any, the count is one more than
-- behind it, and the line is one more than the newlines before it.
pub replacement_char_count_lem :
    (before after : List ℕ)
    → All (λ c. c ≢ rune_error) before
    → replacement_char_count (before ++ (rune_error ∷ after))
      ≡ (suc (count_rune rune_error after), suc (count_rune b'\n' before))
unfolding replacement_char_count count_rune
replacement_char_count_lem before after h =
    let one : count_rune rune_error (before ++ (rune_error ∷ after))
        ≡ suc (count_rune rune_error after) =
      omega (
        arith,
        count_rune-append rune_error before (rune_error ∷ after),
        count_rune_none before h,
      ) in
    let more : (suc (count_rune rune_error after) == 0) ≡ false = ground arith in
    let line : line_of_first 1 (before ++ (rune_error ∷ after)) ≡ suc (count_rune b'\n' before) =
      omega (arith, line_of_first-append 1 before after h) in
    rw (one, more, line) refl
