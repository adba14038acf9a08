-- ===== src/Base/Utf8.antt =====
-- UTF-8 as Go decodes it, and `bytes.ToValidUTF8` with U+FFFD as the replacement.
use Prim.Native.Nat.{ℕ, zero, suc, ◌≤◌}
use mathlib.Core.Bool.{Bool, true, false, ◌&&◌}
use mathlib.Core.List.{[], ◌∷◌, ◌++◌}
use mathlib.Core.Logic.{◌≢◌}
use mathlib.Core.Path.{◌≡◌, refl}
use native.Mathlib.Omega.{arith}
use agent_tool.Base.Lists.{length, drop, take, take-append-drop, length-drop}
use agent_tool.Base.Tests.{leb, if◌then◌else◌, ◌==◌}
use agent_tool.Base.Text.{Bytes}

abbrev between : ℕ → ℕ → ℕ → Bool
between lo hi c = leb lo c && leb c hi

abbrev continues : ℕ → Bool
continues = between 0x80 0xbf

-- A lead byte and the second byte allowed behind it.
second_of_three : ℕ → ℕ → Bool
second_of_three b c =
    if b == 0xe0
    then between 0xa0 0xbf c
    else if b == 0xed
    then between 0x80 0x9f c
    else continues c

second_of_four : ℕ → ℕ → Bool
second_of_four b c =
    if b == 0xf0
    then between 0x90 0xbf c
    else if b == 0xf4
    then between 0x80 0x8f c
    else continues c

-- The length of the valid character at the front, 0 if there is none.
unfoldable pub rune_len : Bytes → ℕ
unfolding second_of_three second_of_four
rune_len [] = 0
rune_len (b ∷ []) = if leb b 0x7f then 1 else 0
rune_len (b ∷ c ∷ []) =
    if leb b 0x7f then 1 else if between 0xc2 0xdf b && continues c then 2 else 0
rune_len (b ∷ c ∷ d ∷ []) =
    if leb b 0x7f
    then 1
    else if between 0xc2 0xdf b && continues c
    then 2
    else if between 0xe0 0xef b && (second_of_three b c && continues d)
    then 3
    else 0
rune_len (b ∷ c ∷ d ∷ e ∷ s) =
    if leb b 0x7f
    then 1
    else if between 0xc2 0xdf b && continues c
    then 2
    else if between 0xe0 0xef b && (second_of_three b c && continues d)
    then 3
    else if between 0xf0 0xf4 b && (second_of_four b c && (continues d && continues e))
    then 4
    else 0

-- The flag says that the byte before was invalid, so that a run gets one replacement.
sanitise : ℕ → Bool → Bytes → Bytes
sanitise zero bad s = []
sanitise (suc f) bad [] = []
sanitise (suc f) bad (b ∷ s) =
    let n = rune_len (b ∷ s) in
    let good = take n (b ∷ s) ++ sanitise f false (drop n (b ∷ s)) in
    let skip = sanitise f true s in
    if n == 0 then (if bad then skip else 0xef ∷ 0xbf ∷ 0xbd ∷ skip) else good

-- Each round drops at least one byte, so `length s` rounds suffice.
unfoldable pub to_valid_utf8 : Bytes → Bytes
unfolding sanitise rune_len
to_valid_utf8 s = sanitise (length s) false s

-- A text of whole characters.
pub data IsUtf8 : Bytes → Type 0 where
  done : IsUtf8 []
  char :
      (b : ℕ) (s : Bytes)
      → rune_len (b ∷ s) ≢ 0
      → IsUtf8 (drop (rune_len (b ∷ s)) (b ∷ s))
      → IsUtf8 (b ∷ s)

sanitise-IsUtf8 : (f : ℕ) (s : Bytes) → length s ≤ f → IsUtf8 s → sanitise f false s ≡ s
unfolding sanitise
sanitise-IsUtf8 zero [] h u = refl
sanitise-IsUtf8 zero (b ∷ s) h u = absurd (omega arith)
sanitise-IsUtf8 (suc f) [] h u = refl
sanitise-IsUtf8 (suc f) (b ∷ s) h (char _ _ ne u) =
    let n = rune_len (b ∷ s) in
    ground
      (arith, sanitise-IsUtf8 f (drop n (b ∷ s)), length-drop n (b ∷ s), take-append-drop n (b ∷ s))

-- Valid text is left as it is.
pub to_valid_utf8-IsUtf8 : (s : Bytes) → IsUtf8 s → to_valid_utf8 s ≡ s
unfolding to_valid_utf8
to_valid_utf8-IsUtf8 s u = sanitise-IsUtf8 (length s) s (omega arith) u
