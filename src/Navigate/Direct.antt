-- ===== src/Navigate/Direct.antt =====
-- common/navigate.go: navigation along the parts themselves.
use mathlib.Core.Path.{fun_ext}
use agent_tool.Base.{ℕ, zero, suc, ◌≤◌, ◌≡◌, refl, ap, List, [], ◌∷◌, arith, Bytes, length, All}
use agent_tool.Navigate.{
  Value, PathPart, key, index_of, wildcard, NavigateResult, found, then_go, key_value, index_value,
  wildcard_value, navigate_parts, navigate, parse_path, build_remaining_path,
}
use agent_tool.Navigate.Path.{IsClean}
use agent_tool.Navigate.Rebuild.{parse_path-build_remaining_path, length-parse_path}

-- Along the parts of a path, and behind a wildcard along the rest of them in each item. The text of the
-- rest stands in the errors, and an empty one gives the array.
unfoldable pub direct_parts : List PathPart → Value → NavigateResult Value
direct_parts [] v = found v
direct_parts (key k ∷ parts) v = then_go (key_value k v) (direct_parts parts)
direct_parts (index_of i ∷ parts) v = then_go (index_value i v) (direct_parts parts)
direct_parts (wildcard ∷ parts) v =
    wildcard_value (direct_parts parts) (build_remaining_path parts) v

navigate_parts-direct_parts :
    (f : ℕ) (parts : List PathPart) (v : Value)
    → All IsClean parts
    → length parts ≤ f
    → navigate_parts f parts v ≡ direct_parts parts v
unfolding navigate_parts direct_parts
navigate_parts-direct_parts zero [] v hs le = refl
navigate_parts-direct_parts (suc f) [] v hs le = refl
navigate_parts-direct_parts zero (p ∷ parts) v hs le = absurd (omega arith)
navigate_parts-direct_parts (suc f) (key k ∷ parts) v (h, hs) le =
    ap (then_go (key_value k v))
      (fun_ext (λ w. navigate_parts-direct_parts (suc f) parts w hs (omega arith)))
navigate_parts-direct_parts (suc f) (index_of i ∷ parts) v (h, hs) le =
    ap (then_go (index_value i v))
      (fun_ext (λ w. navigate_parts-direct_parts (suc f) parts w hs (omega arith)))
navigate_parts-direct_parts (suc f) (wildcard ∷ parts) v (h, hs) le =
    rw (parse_path-build_remaining_path parts hs) (
      ap (λ go. wildcard_value go (build_remaining_path parts) v)
        (fun_ext (λ w. navigate_parts-direct_parts f parts w hs (omega arith))))

-- Where the parts of a query are clean, navigation gives the value or the error that is found along the
-- parts themselves, though the rest of the query is written and parsed again at each wildcard.
pub navigate-direct_parts :
    (v : Value) (query : Bytes)
    → All IsClean (parse_path query)
    → navigate v query ≡ direct_parts (parse_path query) v
unfolding navigate
navigate-direct_parts v query hs =
    navigate_parts-direct_parts (length query) (parse_path query) v hs (length-parse_path query)
