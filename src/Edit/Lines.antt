-- ===== src/Edit/Lines.antt =====
-- tools/edit/indent.go: changing a text line by line.
use agent_tool.Base.{
  ℕ, false, List, [], ◌∷◌, ◌++◌, map, ◌==◌, Bytes, split, join, All, ◌≡◌, refl, sym, ap, ◌∙◌, inl,
  inr, arith, Bool-cases,
}
use mathlib.Core.Path.{ap₂}
use agent_tool.LineEnding.{contains_byte}
use agent_tool.Edit.{on_lines}

-- A line has no newline.
abbrev pub IsLine : Bytes → Type 0
IsLine l = contains_byte b'\n' l ≡ false

split_line : (l : Bytes) → IsLine l → split l b'\n' ≡ l ∷ []
unfolding split contains_byte
split_line [] h = refl
split_line (c ∷ l) h = elim (Bool-cases (c == b'\n')) [
  | inl nl ↦ absurd (ground (arith, nl, h))
  | inr other ↦ rw (other, split_line l (rw other at h)) refl
]

split-append : (l s : Bytes) → IsLine l → split (l ++ b'\n' ∷ s) b'\n' ≡ l ∷ split s b'\n'
unfolding split contains_byte
split-append [] s h = refl
split-append (c ∷ l) s h = elim (Bool-cases (c == b'\n')) [
  | inl nl ↦ absurd (ground (arith, nl, h))
  | inr other ↦ rw (other, split-append l s (rw other at h)) refl
]

-- Lines that are joined are split into the same lines.
pub split-join :
    (l : Bytes) (ls : List Bytes)
    → All IsLine (l ∷ ls)
    → split (join (l ∷ ls) (b'\n' ∷ [])) b'\n' ≡ l ∷ ls
unfolding join
split-join l [] (h, rest) = split_line l h
split-join l (m ∷ ls) (h, rest) =
    split-append l (join (m ∷ ls) (b'\n' ∷ [])) h ∙ ap (◌∷◌ l) (split-join m ls rest)

join-cons :
    (c : ℕ) (l : Bytes) (ls : List Bytes)
    → join ((c ∷ l) ∷ ls) (b'\n' ∷ []) ≡ c ∷ join (l ∷ ls) (b'\n' ∷ [])
unfolding join
join-cons c l [] = refl
join-cons c l (m ∷ ls) = refl

-- The lines of a text, the first apart.
lines_of :
    (s : Bytes)
    → (l : Bytes) × (ls : List Bytes) × (split s b'\n' ≡ l ∷ ls)
      × All IsLine (l ∷ ls)
      × (join (l ∷ ls) (b'\n' ∷ []) ≡ s)
unfolding split contains_byte join
lines_of [] = ([], [], refl, (refl, tt), refl)
lines_of (c ∷ s) =
    let (l, ls, is, lines, back) = lines_of s in
    elim (Bool-cases (c == b'\n')) [
      | inl nl ↦
          let at_nl : c ≡ b'\n' = ground arith in
          ([], l ∷ ls, rw nl (ap (◌∷◌ []) is), (refl, lines), ap₂ ◌∷◌ (sym at_nl) back)
      | inr other ↦ (
        c ∷ l,
        ls,
        rw (other, is) refl,
        (rw other lines.0, lines.1),
        join-cons c l ls ∙ ap (◌∷◌ c) back,
      )
    ]

All-map :
    (f : Bytes → Bytes)
    → ((l : Bytes) → IsLine l → IsLine (f l))
    → (ls : List Bytes) → All IsLine ls
    → All IsLine (map f ls)
All-map f keeps [] h = tt
All-map f keeps (l ∷ ls) (h, rest) = (keeps l h, All-map f keeps ls rest)

map-map : (f g : Bytes → Bytes) (ls : List Bytes) → map g (map f ls) ≡ map (λ l. g (f l)) ls
map-map f g [] = refl
map-map f g (l ∷ ls) = ap (◌∷◌ (g (f l))) (map-map f g ls)

map_id : (f : Bytes → Bytes) (ls : List Bytes) → All (λ l. f l ≡ l) ls → map f ls ≡ ls
map_id f [] h = refl
map_id f (l ∷ ls) (h, rest) = ap₂ ◌∷◌ h (map_id f ls rest)

-- Two changes in turn are one change of each line, if the first makes no newline.
pub on_lines-on_lines :
    (f g : Bytes → Bytes) (s : Bytes)
    → ((l : Bytes) → IsLine l → IsLine (f l))
    → on_lines g (on_lines f s) ≡ on_lines (λ l. g (f l)) s
unfolding on_lines
on_lines-on_lines f g s keeps =
    let (l, ls, is, lines, back) = lines_of s in
    rw (is, split-join (f l) (map f ls) (All-map f keeps (l ∷ ls) lines), map-map f g ls) refl

-- A change that leaves each line leaves the text.
pub on_lines_id :
    (f : Bytes → Bytes) (s : Bytes) → All (λ l. f l ≡ l) (split s b'\n') → on_lines f s ≡ s
unfolding on_lines
on_lines_id f s same =
    let (l, ls, is, lines, back) = lines_of s in rw (map_id f (split s b'\n') same, is) back
