-- ===== src/Navigate.antt =====
-- common/navigate.go: the query paths of the json, yaml and toml tools.
mod Trim
pub mod Path
pub mod Rebuild
pub mod Direct
pub mod Examples
use agent_tool.Base.Int.{ℤ, pos, negsuc}
use agent_tool.Base.Decimal.{decimal_ℤ}
use agent_tool.Base.{
  ℕ, zero, suc, ◌+◌, ◌-◌, ◌*◌, ◌^◌, Bool, true, false, ◌&&◌, ◌||◌, List, [], ◌∷◌, ◌++◌, Option,
  none, some, ltb, leb, ◌==◌, if◌then◌else◌, ◌>>=◌, Bytes, codes, length, bytes_eq, trim_space,
}

-- A value as the parsers give it; texts and numbers are not looked into. A `nil_array` is a nil slice
-- of type `[]interface{}`, which is an array without items to `Navigate`.
mutual
  pub data Value : Type 0 where
    null : Value
    bool : Bool → Value
    number string : Bytes → Value
    array : Items → Value
    nil_array : Value
    object : Fields → Value

  pub data Items : Type 0 where
    no_items : Items
    item : Value → Items → Items

  pub data Fields : Type 0 where
    no_fields : Fields
    field : Bytes → Value → Fields → Fields

-- `PathPart`, whose flags tell three forms apart.
pub data PathPart : Type 0 where
  key : Bytes → PathPart
  index_of : ℤ → PathPart
  wildcard : PathPart

-- `strconv.Atoi` on 64 bits.
unfoldable pub digits_value : ℕ → Bytes → Option ℕ
digits_value n [] = some n
digits_value n (c ∷ s) =
    let rest = digits_value (n * 10 + (c - b'0')) s in
    if leb b'0' c && leb c b'9' then rest else none

abbrev pub negative : ℕ → ℤ
negative zero = pos 0
negative (suc n) = negsuc n

unfoldable pub unsigned : ℕ → Bytes → Option ℕ
unsigned bound [] = none
unsigned bound (c ∷ s) = digits_value 0 (c ∷ s) >>= (λ n. if leb n bound then some n else none)

unfoldable pub atoi : Bytes → Option ℤ
atoi [] = none
atoi (c ∷ s) =
    if c == b'-'
    then unsigned (2 ^ 63) s >>= (λ n. some (negative n))
    else if c == b'+'
    then unsigned (2 ^ 63 - 1) s >>= (λ n. some (pos n))
    else unsigned (2 ^ 63 - 1) (c ∷ s) >>= (λ n. some (pos n))

-- The text before the closing bracket, and what follows it.
abbrev pub cons_inner : ℕ → Option (Bytes × Bytes) → Option (Bytes × Bytes)
cons_inner c none = none
cons_inner c (some (a, b)) = some (c ∷ a, b)

unfoldable pub close_bracket : Bytes → Option (Bytes × Bytes)
close_bracket [] = none
close_bracket (c ∷ s) =
    let rest = close_bracket s in if c == b']' then some ([], s) else cons_inner c rest

-- A key, up to a dot or a bracket.
unfoldable pub span_key : Bytes → Bytes × Bytes
span_key [] = ([], [])
span_key (c ∷ s) =
    let rest = span_key s in if c == b'.' || c == b'[' then ([], c ∷ s) else (c ∷ rest.0, rest.1)

abbrev pub or_key : Bytes → Option ℤ → PathPart
or_key inner none = key inner
or_key inner (some i) = index_of i

unfoldable pub bracket_part : Bytes → PathPart
bracket_part inner = if bytes_eq inner (codes "*") then wildcard else or_key inner (atoi inner)

-- The loop of `ParsePath`. Each round takes at least a byte.
unfoldable pub parse_parts : ℕ → Bytes → List PathPart
parse_parts zero s = []
parse_parts (suc f) [] = []
parse_parts (suc f) (c ∷ s) =
    let behind_dot = parse_parts f s in
    let k = span_key (c ∷ s) in
    let behind_key = parse_parts f k.1 in
    if c == b'.'
    then behind_dot
    else if c == b'['
    then elim (close_bracket s) [
      | none ↦ key (c ∷ s) ∷ []
      | some b ↦ bracket_part b.0 ∷ parse_parts f b.1
    ]
    else key k.0 ∷ behind_key

unfoldable pub parse_path : Bytes → List PathPart
parse_path query = let q = trim_space query in parse_parts (length q) q

-- `BuildRemainingPath`, of the parts behind the wildcard.
unfoldable pub part_text : PathPart → Bytes
part_text wildcard = codes "[*]"
part_text (index_of i) = codes "[" ++ (decimal_ℤ i ++ codes "]")
part_text (key k) = k

unfoldable pub build_rest : List PathPart → Bytes
build_rest [] = []
build_rest (wildcard ∷ parts) = part_text wildcard ++ build_rest parts
build_rest (index_of i ∷ parts) = part_text (index_of i) ++ build_rest parts
build_rest (key k ∷ parts) = b'.' ∷ (part_text (key k) ++ build_rest parts)

unfoldable pub build_remaining_path : List PathPart → Bytes
build_remaining_path [] = []
build_remaining_path (p ∷ parts) = part_text p ++ build_rest parts

-- The errors of `Navigate`, without the names of types.
pub data NavigateError : Type 0 where
  wildcard_on_no_array : NavigateError
  index_on_no_array : ℤ → NavigateError
  out_of_range : ℤ → ℕ → NavigateError
  key_on_no_object key_not_found : Bytes → NavigateError
  at_item : ℕ → Bytes → NavigateError → NavigateError

pub data NavigateResult {ℓ} (A : Type ℓ) : Type ℓ where
  found : A → NavigateResult A
  failed : NavigateError → NavigateResult A

unfoldable pub count_items : Items → ℕ
count_items no_items = 0
count_items (item v items) = suc (count_items items)

unfoldable pub item_at : Items → ℕ → Option Value
item_at no_items i = none
item_at (item v items) zero = some v
item_at (item v items) (suc i) = item_at items i

-- The position of an index, which counts from the end if it is negative; none if it is out of range.
unfoldable pub position_of : ℤ → ℕ → Option ℕ
position_of (pos i) len = if ltb i len then some i else none
position_of (negsuc i) len = if ltb i len then some (len - suc i) else none

unfoldable pub index_value : ℤ → Value → NavigateResult Value
index_value i (array items) = elim (position_of i (count_items items) >>= item_at items) [
  | none ↦ failed (out_of_range i (count_items items))
  | some v ↦ found v
]
index_value i nil_array = failed (out_of_range i 0)
index_value i v = failed (index_on_no_array i)

unfoldable pub field_value : Bytes → Fields → Option Value
field_value k no_fields = none
field_value k (field j v fields) =
    let rest = field_value k fields in if bytes_eq j k then some v else rest

unfoldable pub key_value : Bytes → Value → NavigateResult Value
key_value k (object fields) = elim (field_value k fields) [
  | none ↦ failed (key_not_found k)
  | some v ↦ found v
]
key_value k v = failed (key_on_no_object k)

abbrev pub then_go {ℓ κ} :
    {A : Type ℓ} {B : Type κ} → NavigateResult A → (A → NavigateResult B) → NavigateResult B
then_go (found a) f = f a
then_go (failed e) f = failed e

abbrev pub in_item {ℓ} : {A : Type ℓ} → ℕ → Bytes → NavigateResult A → NavigateResult A
in_item i remaining (found a) = found a
in_item i remaining (failed e) = failed (at_item i remaining e)

-- The loop over the items behind a wildcard, with the navigation of one item.
unfoldable pub each_item : (Value → NavigateResult Value) → Bytes → ℕ → Items → NavigateResult Items
each_item go remaining i no_items = found no_items
each_item go remaining i (item v items) =
    then_go (in_item i remaining (go v))
      (λ w. then_go (each_item go remaining (suc i) items) (λ rest. found (item w rest)))

-- What `append` makes of the results: without any, the slice stays nil.
unfoldable pub slice_of : Items → Value
slice_of no_items = nil_array
slice_of (item v items) = array (item v items)

unfoldable pub wildcard_value :
    (Value → NavigateResult Value) → Bytes → Value → NavigateResult Value
wildcard_value go remaining (array items) =
    if bytes_eq remaining []
    then found (slice_of items)
    else then_go (each_item go remaining 0 items) (λ results. found (slice_of results))
wildcard_value go remaining nil_array = found nil_array
wildcard_value go remaining v = failed wildcard_on_no_array

-- `Navigate` from its loop on, on the parts of a path. Behind a wildcard the rest of the path is written
-- and parsed again, with a round less of fuel; without fuel nothing is found.
unfoldable pub navigate_parts : ℕ → List PathPart → Value → NavigateResult Value
navigate_parts f [] v = found v
navigate_parts f (key k ∷ parts) v = then_go (key_value k v) (navigate_parts f parts)
navigate_parts f (index_of i ∷ parts) v = then_go (index_value i v) (navigate_parts f parts)
navigate_parts zero (wildcard ∷ parts) v = failed wildcard_on_no_array
navigate_parts (suc f) (wildcard ∷ parts) v =
    let remaining = build_remaining_path parts in
    wildcard_value (navigate_parts f (parse_path remaining)) remaining v

unfoldable pub navigate : Value → Bytes → NavigateResult Value
navigate v query = navigate_parts (length query) (parse_path query) v
