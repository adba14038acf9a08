-- ===== src/MatchStore/Examples.antt =====
-- Runs of the match store, and the theorems at concrete inputs.
use agent_tool.Base.{
  [], ◌∷◌, ◌≡◌, refl, arith, take, drop, get_elem?, min, true, length, append-nil, sym,
}
use agent_tool.MatchStore.{
  ScanMatch, on_disk, MatchStore, ok, encode, decode, put_uint, uint, get, get_batch, add,
}
use agent_tool.MatchStore.Encode.{Fits, encode_each}
use agent_tool.MatchStore.Contents.{Holds, get_lem, get_batch_lem, outcome}
use agent_tool.MatchStore.Adding.{Added, add_lem}

abbrev first_match : ScanMatch
first_match = record { address = 0x1234; prev_data = 1 ∷ 2 ∷ [] }

abbrev second_match : ScanMatch
second_match = record { address = 0xffffffffffffffff; prev_data = 3 ∷ 4 ∷ [] }

encoded : encode 2 first_match ≡ 0x34 ∷ 0x12 ∷ 0 ∷ 0 ∷ 0 ∷ 0 ∷ 0 ∷ 0 ∷ 1 ∷ 2 ∷ []
unfolding encode put_uint
encoded = refl

decoded : decode 2 (encode 2 second_match) ≡ second_match
unfolding encode decode put_uint uint
decoded = refl

-- A store of one match, on disk.
abbrev stored : MatchStore
stored = record { storage = on_disk (encode_each 2 (first_match ∷ [])); count = 1; v_size = 2 }

first-Fits : Fits 2 first_match
first-Fits = (omega arith, refl)

stored-Holds : Holds stored (first_match ∷ []) []
stored-Holds = record {
  counts = refl;
  fits = (first-Fits, tt);
  stores = sym (append-nil (encode_each 2 (first_match ∷ [])));
}

get_lem_example : get stored 0 ≡ outcome (get_elem? (first_match ∷ []) 0)
get_lem_example = get_lem stored (first_match ∷ []) [] 0 stored-Holds

get_batch_lem_example : get_batch stored 0 5 ≡ ok (take 5 (drop 0 (first_match ∷ [])))
get_batch_lem_example = get_batch_lem stored (first_match ∷ []) [] 0 5 stored-Holds (omega arith)

-- A system that takes at most eight bytes at a time fails to write the record of ten bytes.
add_lem_example :
    Added
      (first_match ∷ [])
      second_match
      (add true (λ file s. min 8 (length s)) stored second_match)
add_lem_example =
    add_lem true (λ file s. min 8 (length s)) stored (first_match ∷ []) second_match stored-Holds
      (omega arith, refl)
