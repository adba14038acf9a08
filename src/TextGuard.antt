-- ===== src/TextGuard.antt =====
-- common/textguard.go: the replacement characters, the invisible characters and the cut of the echo. A
-- text is the list of its code points. Whether one is a combining mark is a table of package unicode
-- and so a parameter.
pub mod Laws
pub mod Examples
use agent_tool.Base.Decimal.{decimal}
use agent_tool.Base.{
  ℕ, zero, suc, ◌+◌, ◌-◌, Bool, true, false, not, ◌&&◌, ◌||◌, List, [], ◌∷◌, ◌++◌, map, Option,
  none, some, ltb, leb, ◌==◌, if◌then◌else◌, Bytes, codes, length, take, get_elem?, bytes_eq, join,
}

abbrev pub rune_error : ℕ
rune_error = 0xfffd

unfoldable pub count_rune : ℕ → List ℕ → ℕ
count_rune r [] = 0
count_rune r (c ∷ s) = let rest = count_rune r s in if c == r then suc rest else rest

-- The loop of `ReplacementCharCount` that looks for the line.
unfoldable pub line_of_first : ℕ → List ℕ → ℕ
line_of_first line [] = line
line_of_first line (c ∷ s) =
    let below = line_of_first (suc line) s in
    let here = line_of_first line s in
    if c == rune_error then line else if c == b'\n' then below else here

unfoldable pub replacement_char_count : List ℕ → ℕ × ℕ
replacement_char_count text =
    let count = count_rune rune_error text in
    if count == 0 then (0, 0) else (count, line_of_first 1 text)

-- `invisibleName`. The names of U+2000 to U+200A are printed with `%04X`.
abbrev pub hex_upper : ℕ → ℕ
hex_upper n = if ltb n 10 then b'0' + n else b'A' + (n - 10)

unfoldable pub invisible_name : ℕ → Option Bytes
invisible_name r =
    if r == 0xa0
    then some (codes "U+00A0 no-break space")
    else if r == 0x1680
    then some (codes "U+1680 ogham space mark")
    else if r == 0x2028
    then some (codes "U+2028 line separator")
    else if r == 0x2029
    then some (codes "U+2029 paragraph separator")
    else if r == 0x202f
    then some (codes "U+202F narrow no-break space")
    else if r == 0x205f
    then some (codes "U+205F medium mathematical space")
    else if r == 0x3000
    then some (codes "U+3000 ideographic space")
    else if r == 0x200b
    then some (codes "U+200B zero-width space")
    else if r == 0x200c
    then some (codes "U+200C zero-width non-joiner")
    else if r == 0xfeff
    then some (codes "U+FEFF zero-width no-break space")
    else if leb 0x2000 r && leb r 0x200a
    then some (codes "U+200" ++ (hex_upper (r - 0x2000) ∷ codes " unicode space"))
    else none

-- The map `counts` and the slice `order` of `InvisibleCharNotice`, as one list in that order.
unfoldable pub count_name : Bytes → List (Bytes × ℕ) → List (Bytes × ℕ)
count_name name [] = (name, 1) ∷ []
count_name name ((n, k) ∷ counts) =
    let rest = count_name name counts in
    if bytes_eq n name then (n, suc k) ∷ counts else (n, k) ∷ rest

abbrev pub count_named : Option Bytes → List (Bytes × ℕ) → List (Bytes × ℕ)
count_named none counts = counts
count_named (some name) counts = count_name name counts

unfoldable pub count_invisible : List (Bytes × ℕ) → List ℕ → List (Bytes × ℕ)
count_invisible counts [] = counts
count_invisible counts (r ∷ s) = count_invisible (count_named (invisible_name r) counts) s

abbrev pub count_text : Bytes × ℕ → Bytes
count_text (name, k) = decimal k ++ (codes " x " ++ name)

abbrev pub notice_text : List (Bytes × ℕ) → Bytes
notice_text [] = []
notice_text (c ∷ counts) =
    codes "invisible char(s) written: "
    ++ (join (map count_text (c ∷ counts)) (codes ", ")
        ++ codes " -- these render as a space or as nothing, so check they are intended")

unfoldable pub invisible_char_notice : List ℕ → Bytes
invisible_char_notice text = notice_text (count_invisible [] text)

abbrev pub zero_width_joiner : ℕ
zero_width_joiner = 0x200d

abbrev pub is_regional_indicator : ℕ → Bool
is_regional_indicator r = leb 0x1f1e6 r && leb r 0x1f1ff

module _ (is_mark : ℕ → Bool) where
  -- `bound`: whether a cut between two runes would sever them.
  abbrev pub is_bound : ℕ → ℕ → Bool
  is_bound kept dropped =
      dropped == zero_width_joiner
      || (kept == zero_width_joiner
          || (dropped == 0xfe0e
              || (dropped == 0xfe0f
                  || (is_mark dropped
                      || is_regional_indicator kept && is_regional_indicator dropped))))

  -- Whether the runes at both sides of a position are bound; past the ends nothing is.
  abbrev pub bound_runes : Option ℕ → Option ℕ → Bool
  bound_runes (some kept) (some dropped) = is_bound kept dropped
  bound_runes kept dropped = false

  unfoldable pub is_bound_at : List ℕ → ℕ → Bool
  is_bound_at runes zero = false
  is_bound_at runes (suc n) = bound_runes (get_elem? runes n) (get_elem? runes (suc n))

  -- The loop of `safeCutIndex`.
  unfoldable pub walk_back : List ℕ → ℕ → ℕ
  walk_back runes zero = zero
  walk_back runes (suc n) =
      let before = walk_back runes n in if is_bound_at runes (suc n) then before else suc n

  unfoldable pub safe_cut_index : List ℕ → ℕ → ℕ
  safe_cut_index runes n = if leb (length runes) n then length runes else walk_back runes n

  abbrev pub max_echo_runes : ℕ
  max_echo_runes = 100

  unfoldable pub truncate_echo : List ℕ → List ℕ
  truncate_echo s =
      let cut = safe_cut_index s max_echo_runes in
      if leb (length s) max_echo_runes
      then s
      else take cut s
        ++ (codes "... ("
            ++ (decimal cut ++ (codes " of " ++ (decimal (length s) ++ codes " runes)"))))
