-- ===== src/Navigate/Examples.antt =====
-- common/navigate.go: small values, and the theorems at concrete inputs.
use agent_tool.Base.Int.{pos, negsuc}
use agent_tool.Base.{
  ◌≡◌, refl, [], ◌∷◌, ◌++◌, arith, codes, bytes_eq, trim_space, trim_white, white_front, white_back,
  white_first, white_last,
}
use agent_tool.Navigate.{
  Value, number, array, nil_array, object, no_items, item, no_fields, field, key, index_of,
  wildcard, found, failed, key_not_found, at_item, navigate, navigate_parts, parse_path,
  parse_parts, span_key, close_bracket, bracket_part, atoi, unsigned, digits_value, key_value,
  field_value, index_value, position_of, count_items, item_at, wildcard_value, slice_of, each_item,
  build_remaining_path, build_rest, part_text,
}
use agent_tool.Navigate.Rebuild.{parse_path-build_remaining_path}
use agent_tool.Navigate.Direct.{direct_parts, navigate-direct_parts}

abbrev two_items : Value
two_items = object (
    field (codes "xs")
      (array (
        item (object (field (codes "a.b") (number (codes "1")) no_fields))
          (item (object (field (codes "n") (number (codes "2")) no_fields)) no_items)))
      no_fields)

the_last : navigate two_items (codes "xs[-1].n") ≡ found (number (codes "2"))
unfolding navigate navigate_parts parse_path parse_parts span_key close_bracket bracket_part atoi
    unsigned digits_value key_value field_value index_value position_of count_items item_at
    wildcard_value slice_of each_item build_remaining_path build_rest part_text bytes_eq trim_space
    trim_white white_front white_back white_first white_last
the_last = refl

-- A key in brackets may hold a dot, but not behind a wildcard, where it is written without them.
in_brackets : navigate two_items (codes "xs[0][a.b]") ≡ found (number (codes "1"))
unfolding navigate navigate_parts parse_path parse_parts span_key close_bracket bracket_part atoi
    unsigned digits_value key_value field_value index_value position_of count_items item_at
    wildcard_value slice_of each_item build_remaining_path build_rest part_text bytes_eq trim_space
    trim_white white_front white_back white_first white_last
in_brackets = refl

behind_a_wildcard :
    navigate two_items (codes "xs[*][a.b]")
    ≡ failed (at_item 0 (codes "a.b") (key_not_found (codes "a")))
unfolding navigate navigate_parts parse_path parse_parts span_key close_bracket bracket_part atoi
    unsigned digits_value key_value field_value index_value position_of count_items item_at
    wildcard_value slice_of each_item build_remaining_path build_rest part_text bytes_eq trim_space
    trim_white white_front white_back white_first white_last
behind_a_wildcard = refl

-- A wildcard on an array without items gives a nil slice.
nothing_behind : navigate (array no_items) (codes "[*].n") ≡ found nil_array
unfolding navigate navigate_parts parse_path parse_parts span_key close_bracket bracket_part atoi
    unsigned digits_value key_value field_value index_value position_of count_items item_at
    wildcard_value slice_of each_item build_remaining_path build_rest part_text bytes_eq trim_space
    trim_white white_front white_back white_first white_last
nothing_behind = refl

-- White space beyond ASCII is cut off: U+00A0 in front and U+3000 behind.
trims_unicode :
    parse_path ((0xc2 ∷ (0xa0 ∷ [])) ++ (codes "a" ++ (0xe3 ∷ (0x80 ∷ (0x80 ∷ [])))))
    ≡ key (codes "a") ∷ []
unfolding parse_path parse_parts span_key trim_space trim_white white_front white_back white_first
    white_last
trims_unicode = refl

read_parts :
    parse_path (codes "xs[*].n[0]")
    ≡ key (codes "xs") ∷ (wildcard ∷ (key (codes "n") ∷ (index_of (pos 0) ∷ [])))
unfolding parse_path parse_parts span_key close_bracket bracket_part atoi unsigned digits_value
    bytes_eq trim_space trim_white white_front white_back white_first white_last
read_parts = refl

navigate-direct_parts_example :
    navigate two_items (codes "xs[*].n") ≡ direct_parts (parse_path (codes "xs[*].n")) two_items
unfolding parse_path parse_parts span_key close_bracket bracket_part atoi unsigned digits_value
    bytes_eq trim_space trim_white white_front white_back white_first white_last
navigate-direct_parts_example = navigate-direct_parts two_items (codes "xs[*].n") (
  (ground arith, (ground arith, (ground arith, tt)), refl, refl),
  (tt, ((ground arith, (ground arith, tt), refl, refl), tt)),
)

parse_path-build_remaining_path_example :
    parse_path (build_remaining_path (key (codes "n") ∷ (index_of (negsuc 1) ∷ (wildcard ∷ []))))
    ≡ key (codes "n") ∷ (index_of (negsuc 1) ∷ (wildcard ∷ []))
unfolding white_front white_back white_first white_last
parse_path-build_remaining_path_example =
    parse_path-build_remaining_path (key (codes "n") ∷ (index_of (negsuc 1) ∷ (wildcard ∷ [])))
      ((ground arith, (ground arith, tt), refl, refl), (omega arith, (tt, tt)))
