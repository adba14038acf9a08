-- ===== src/RawOutput/Examples.antt =====
-- Runs of the store, and the theorems at concrete inputs.
use agent_tool.Base.{[], ◌∷◌, some, ◌≡◌, refl, true, false, codes, arith, bytes_eq}
use agent_tool.RawOutput.{
  RawOutputStore, new_raw_output_store, put, get, make_id, store_record, finish_put,
  remove_expired_locked, make_room, expire_loop, remove_locked, remove_first,
}
use agent_tool.RawOutput.Invariant.{IsConsistent}
use agent_tool.RawOutput.Laws.{
  IsStored, put-IsStored, get-put, new_raw_output_store-IsConsistent, record_of,
}

abbrev small : RawOutputStore
small = new_raw_output_store 2 10 60

small-IsConsistent : IsConsistent small
small-IsConsistent = new_raw_output_store-IsConsistent 2 10 60

-- The third output evicts the first.
evicts_oldest :
    let a = put small (codes "bash") (codes "one") false 3 5 (some (1 ∷ [])) in
    let b = put a.0 (codes "bash") (codes "two") false 3 6 (some (2 ∷ [])) in
    let c = put b.0 (codes "bash") (codes "three") false 5 7 (some (0xab ∷ [])) in
    c.0.order ≡ codes "out_02" ∷ codes "out_ab" ∷ []
unfolding new_raw_output_store put store_record finish_put remove_expired_locked make_room
    expire_loop remove_locked remove_first make_id bytes_eq
evicts_oldest = refl

put-IsStored_example :
    IsStored
      (record_of small (codes "ssh") (codes "text") true 9 7 (1 ∷ 2 ∷ []))
      (put small (codes "ssh") (codes "text") true 9 7 (some (1 ∷ 2 ∷ [])))
unfolding new_raw_output_store
put-IsStored_example =
    put-IsStored small (codes "ssh") (codes "text") true 9 7 (1 ∷ 2 ∷ []) small-IsConsistent refl
      refl

get-put_example :
    let stored = put small (codes "ssh") (codes "text") true 9 7 (some (1 ∷ 2 ∷ [])) in
    (get stored.0 stored.1 66).1
    ≡ some (record_of small (codes "ssh") (codes "text") true 9 7 (1 ∷ 2 ∷ []))
unfolding new_raw_output_store
get-put_example =
    get-put small (codes "ssh") (codes "text") true 9 7 (1 ∷ 2 ∷ []) small-IsConsistent refl refl 66
      (omega arith)
