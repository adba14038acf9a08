-- ===== src/Base/Text.antt =====
-- Go strings and byte slices as lists of bytes, with the functions of package strings that the
-- program uses.
use Prim.Native.Char.{code}
use Prim.Native.Nat.{ℕ, zero, suc}
use Prim.Native.String.{String}
use mathlib.Core.Bool.{Bool, true, false, ◌&&◌, ◌||◌}
use mathlib.Core.List.{List, [], ◌∷◌, ◌++◌, reverse}
use mathlib.Core.Logic.{◌↔◌}
use mathlib.Core.Option
use mathlib.Core.Option.{Option, none, some}
use mathlib.Core.Path.{◌≡◌, refl}
use native.Mathlib.Omega.{arith}
use agent_tool.Base.Lists.{length, drop}
use agent_tool.Base.Tests.{◌==◌, if◌then◌else◌, leb}

abbrev pub Bytes : Type 0
Bytes = List ℕ

-- The bytes of an ASCII literal.
abbrev pub codes : String → Bytes
codes String.[] = []
codes (String.◌∷◌ c s) = code c ∷ codes s

-- `a == b` on strings.
unfoldable pub bytes_eq : Bytes → Bytes → Bool
bytes_eq [] [] = true
bytes_eq (x ∷ a) (y ∷ b) = x == y && bytes_eq a b
bytes_eq _ _ = false

pub bytes_eq_iff : (a b : Bytes) → (bytes_eq a b ≡ true) ↔ (a ≡ b)
unfolding bytes_eq
bytes_eq_iff (x ∷ a) (y ∷ b) = ground (arith, bytes_eq_iff a b)
bytes_eq_iff _ _ = ground arith

pub bytes_eq_refl : (a : Bytes) → bytes_eq a a ≡ true
bytes_eq_refl a = (bytes_eq_iff a a).1 refl

-- `strings.HasPrefix(s, prefix)`.
unfoldable pub has_prefix : Bytes → Bytes → Bool
has_prefix s [] = true
has_prefix [] (p ∷ ps) = false
has_prefix (c ∷ s) (p ∷ ps) = c == p && has_prefix s ps

-- `strings.Split(s, sep)` for a separator of one byte.
abbrev cons_first : ℕ → List Bytes → List Bytes
cons_first c [] = (c ∷ []) ∷ []
cons_first c (l ∷ ls) = (c ∷ l) ∷ ls

unfoldable pub split : Bytes → ℕ → List Bytes
split [] sep = [] ∷ []
split (c ∷ s) sep = let rest = split s sep in if c == sep then [] ∷ rest else cons_first c rest

-- `strings.Join(parts, sep)`.
unfoldable pub join : List Bytes → Bytes → Bytes
join [] sep = []
join (p ∷ []) sep = p
join (p ∷ q ∷ ps) sep = p ++ (sep ++ join (q ∷ ps) sep)

-- `strings.TrimLeft` for the bytes that satisfy `p`.
unfoldable pub trim_left : (ℕ → Bool) → Bytes → Bytes
trim_left p [] = []
trim_left p (c ∷ s) = if p c then trim_left p s else c ∷ s

unfoldable pub trim_right : (ℕ → Bool) → Bytes → Bytes
trim_right p s = reverse (trim_left p (reverse s))

-- The white space of ASCII.
abbrev pub is_space : ℕ → Bool
is_space c = c == 32 || leb 9 c && leb c 13

-- The white space of Unicode beyond it, in UTF-8: U+0085 and U+00A0 in two bytes, and U+1680, U+2000 to
-- U+200A, U+2028, U+2029, U+202F, U+205F and U+3000 in three.
abbrev pub is_white_2 : ℕ → ℕ → Bool
is_white_2 c d = c == 0xc2 && (d == 0x85 || d == 0xa0)

abbrev pub is_general : ℕ → Bool
is_general e = leb 0x80 e && leb e 0x8a || e == 0xa8 || e == 0xa9 || e == 0xaf

abbrev pub is_white_3 : ℕ → ℕ → ℕ → Bool
is_white_3 c d e =
    c == 0xe1 && d == 0x9a && e == 0x80
    || c == 0xe2 && (d == 0x80 && is_general e || d == 0x81 && e == 0x9f)
    || c == 0xe3 && d == 0x80 && e == 0x80

-- The bytes of the white space that a text begins with, by its first three bytes, with 0 for one that
-- is not there: 0 if it begins with something else.
unfoldable pub white_first : ℕ → ℕ → ℕ → ℕ
white_first c d e =
    if is_space c then 1 else if is_white_2 c d then 2 else if is_white_3 c d e then 3 else 0

unfoldable pub white_front : Bytes → ℕ
unfolding white_first
white_front [] = 0
white_front (c ∷ []) = white_first c 0 0
white_front (c ∷ d ∷ []) = white_first c d 0
white_front (c ∷ d ∷ e ∷ s) = white_first c d e

-- The same for the white space that a text ends with, by its last three bytes, the last first, and of
-- the reversed text.
unfoldable pub white_last : ℕ → ℕ → ℕ → ℕ
white_last e d c =
    if is_space e then 1 else if is_white_2 d e then 2 else if is_white_3 c d e then 3 else 0

unfoldable pub white_back : Bytes → ℕ
unfolding white_last
white_back [] = 0
white_back (e ∷ []) = white_last e 0 0
white_back (e ∷ d ∷ []) = white_last e d 0
white_back (e ∷ d ∷ c ∷ s) = white_last e d c

-- Cuts off the white space at the front, `white` giving the bytes of the first. Each round takes at
-- least a byte, so that the length is fuel enough.
unfoldable pub trim_white : (Bytes → ℕ) → ℕ → Bytes → Bytes
trim_white white zero s = s
trim_white white (suc f) s =
    let rest = trim_white white f (drop (white s) s) in if white s == 0 then s else rest

-- `strings.TrimSpace(s)`.
unfoldable pub trim_space : Bytes → Bytes
unfolding trim_white white_front white_back white_first white_last
trim_space s =
    let front = trim_white white_front (length s) s in
    reverse (trim_white white_back (length front) (reverse front))

-- `strings.Index(s, sub)`.
unfoldable pub index : Bytes → Bytes → Option ℕ
unfolding has_prefix
index [] sub = if has_prefix [] sub then some 0 else none
index (c ∷ s) sub =
    let rest = index s sub in if has_prefix (c ∷ s) sub then some 0 else Option.map suc rest

-- `strings.ReplaceAll(s, "\r\n", "\n")`.
unfoldable pub replace_crlf : Bytes → Bytes
replace_crlf [] = []
replace_crlf (c ∷ []) = c ∷ []
replace_crlf (c ∷ d ∷ s) = elim (c == b'\r' && d == b'\n') [
  | true ↦ b'\n' ∷ replace_crlf s
  | false ↦ c ∷ replace_crlf (d ∷ s)
]
