-- ===== src/RawOutput/Laws.antt =====
-- What `put` and `get` do, on every branch.
use agent_tool.Base.{
  ℕ, zero, suc, ◌+◌, ◌≤◌, ◌<◌, Bool, true, false, [], Option, none, some, ◌≡◌, refl, sym, ap, ◌∙◌,
  ◌⊎◌, inl, inr, arith, lt→ltb, Bool-cases, List-cases, Bytes, bytes_eq, bytes_eq_refl,
  bytes_eq_iff, length,
}
use mathlib.Core.Bool.{true≢false}
use agent_tool.RawOutput.{
  RawOutputRecord, RawOutputStore, remove_locked, is_live, expire_loop, new_raw_output_store,
  remove_expired_locked, Room, room, nothing_left, out_of_rounds, is_full, make_room, finish_put,
  store_record, refuses, put, make_id, get,
}
use agent_tool.RawOutput.Invariant.{
  contains, weight, IsConsistent, MakesRoom, order-remove_locked, make_room_lem,
  remove_expired_locked-IsConsistent, put_record-IsConsistent,
}

expire_loop-contains :
    (f now : ℕ) (s : RawOutputStore) (k : Bytes)
    → contains k s.order ≡ false
    → contains k (expire_loop f now s).order ≡ false
unfolding expire_loop
expire_loop-contains zero now s k h = h
expire_loop-contains (suc f) now s k h = elim (List-cases s.order) [
  | inl e ↦ rw (e, expire_loop) h
  | inr (id, ids, e) ↦ elim (Bool-cases (is_live (s.entries id) now)) [
    | inl live ↦ rw (e, expire_loop) (rw live h)
    | inr expired ↦
        rw (e, expire_loop)
          (rw expired (
            expire_loop-contains f now (remove_locked s id) k
              (rw (order-remove_locked s id ids e) (ground (arith, rw e at h)))))
  ]
]

expire_loop-limits :
    (f now : ℕ) (s : RawOutputStore)
    → ((expire_loop f now s).max_bytes ≡ s.max_bytes)
      × ((expire_loop f now s).max_entries ≡ s.max_entries)
unfolding expire_loop remove_locked
expire_loop-limits zero now s = (refl, refl)
expire_loop-limits (suc f) now s = elim (List-cases s.order) [
  | inl e ↦ rw (e, expire_loop) (refl, refl)
  | inr (id, ids, e) ↦ elim (Bool-cases (is_live (s.entries id) now)) [
    | inl live ↦ rw (e, expire_loop) (rw live (refl, refl))
    | inr expired ↦ rw (e, expire_loop) (rw expired (expire_loop-limits f now (remove_locked s id)))
  ]
]

entries-remove_locked :
    (now : ℕ) (s : RawOutputStore) (k id : Bytes)
    → is_live (s.entries k) now ≡ true
    → is_live (s.entries id) now ≡ false
    → (remove_locked s id).entries k ≡ s.entries k
unfolding remove_locked
entries-remove_locked now s k id live expired = elim (Bool-cases (bytes_eq k id)) [
  | inl same ↦
      let e : k ≡ id = (bytes_eq_iff k id).0 same in cc (ap (λ j. is_live (s.entries j) now) e)
  | inr other ↦ rw other
]

-- A live record survives the sweep.
pub expire_loop-entries :
    (f now : ℕ) (s : RawOutputStore) (k : Bytes)
    → is_live (s.entries k) now ≡ true
    → (expire_loop f now s).entries k ≡ s.entries k
unfolding expire_loop
expire_loop-entries zero now s k h = refl
expire_loop-entries (suc f) now s k h = elim (List-cases s.order) [
  | inl e ↦ rw (e, expire_loop) refl
  | inr (id, ids, e) ↦ elim (Bool-cases (is_live (s.entries id) now)) [
    | inl live ↦ rw (e, expire_loop) (rw live refl)
    | inr expired ↦
        let kept = entries-remove_locked now s k id h expired in
        rw (e, expire_loop)
          (rw expired (expire_loop-entries f now (remove_locked s id) k (rw kept h) ∙ kept))
  ]
]

abbrev KeepsOut : Bytes → Room → Type 0
KeepsOut k (room s) = contains k s.order ≡ false
KeepsOut k (nothing_left s) = Unit
KeepsOut k out_of_rounds = Unit

make_room-KeepsOut :
    (f size : ℕ) (s : RawOutputStore) (k : Bytes)
    → contains k s.order ≡ false
    → KeepsOut k (make_room f size s)
unfolding make_room
make_room-KeepsOut zero size s k h = tt
make_room-KeepsOut (suc f) size s k h = elim (Bool-cases (is_full s size)) [
  | inr free ↦ rw free h
  | inl full ↦ rw full (elim (List-cases s.order) [
    | inl e ↦ rw (e, make_room) tt
    | inr (id, ids, e) ↦
        rw (e, make_room)
          (make_room-KeepsOut f size (remove_locked s id) k
            (rw (order-remove_locked s id ids e) (ground (arith, rw e at h))))
  ])
]

-- A consistent empty store has room for whatever `put` does not refuse.
empty_has_room :
    (s : RawOutputStore) (content : Bytes)
    → IsConsistent s
    → s.order ≡ []
    → refuses s content ≡ false
    → is_full s (length content) ≡ false
empty_has_room s content h e r =
    let none_counted : s.total_bytes ≡ 0 = h.counted ∙ ap (weight s.entries) e in
    ground (arith, ap length e)

-- What a successful `put` leaves behind.
pub record IsStored (r : RawOutputRecord) (after : RawOutputStore × Bytes) : Type 0 where
  pub consistent : IsConsistent after.0
  pub returned : after.1 ≡ r.id
  pub found : after.0.entries r.id ≡ some r

finish_put-IsStored :
    (r : RawOutputRecord) (old : RawOutputStore) (bytes entries : ℕ) (end : Room)
    → MakesRoom (length r.content) bytes entries end
    → KeepsOut r.id end
    → 0 < length r.content
    → 0 < entries
    → length r.content ≤ bytes
    → IsStored r (finish_put r end old)
unfolding finish_put
finish_put-IsStored r old bytes entries (room s) m out some_content some_room fits = record {
  consistent = put_record-IsConsistent s r m.0 out m.1;
  returned = refl;
  found = rw (bytes_eq_refl r.id);
}
finish_put-IsStored r old bytes entries (nothing_left s) m out some_content some_room fits =
    absurd (true≢false (sym m.2 ∙ empty_has_room s r.content m.0 m.1 (ground arith)))
finish_put-IsStored r old bytes entries out_of_rounds m out some_content some_room fits = absurd m

store_record-IsStored :
    (s : RawOutputStore) (r : RawOutputRecord) (now : ℕ)
    → IsConsistent s
    → contains r.id s.order ≡ false
    → refuses s r.content ≡ false
    → IsStored r (store_record s r now)
unfolding store_record remove_expired_locked
store_record-IsStored s r now h new accepted =
    let live = remove_expired_locked s now in
    let limits = expire_loop-limits (length s.order) now s in
    let kept = remove_expired_locked-IsConsistent s now h in
    let out = expire_loop-contains (length s.order) now s r.id new in
    let rounds = suc (length live.order) in
    let size = length r.content in
    finish_put-IsStored r live live.max_bytes live.max_entries (make_room rounds size live)
      (make_room_lem rounds size live (omega arith) kept)
      (make_room-KeepsOut rounds size live r.id out) (ground arith) (ground (arith, limits.1))
      (ground (arith, limits.0))

-- The record that `put` builds.
abbrev pub record_of : RawOutputStore → Bytes → Bytes → Bool → ℕ → ℕ → Bytes → RawOutputRecord
record_of s source content cut original now random = record {
  id = make_id random;
  source = source;
  content = content;
  truncated = cut;
  original_bytes = original;
  created_at = now;
  expires_at = now + s.ttl;
}

module _ (s : RawOutputStore) (source content : Bytes) (cut : Bool) (original now : ℕ)
    (random : Bytes) (h : IsConsistent s) (new : contains (make_id random) s.order ≡ false)
    (accepted : refuses s content ≡ false) where
  abbrev stored_record : RawOutputRecord
  stored_record = record_of s source content cut original now random

  -- In a consistent store `put` stores any output that it accepts, under an unused id: the store is
  -- consistent again, the id is returned, and the map holds the record.
  pub put-IsStored :
      IsStored
        (record_of s source content cut original now random)
        (put s source content cut original now (some random))
  unfolding put
  put-IsStored = rw accepted (store_record-IsStored s stored_record now h new accepted)

  -- A `get` on the store as `put` has left it, at a time before the record's time is up, finds the
  -- record by the id that `put` returned. Later puts, which may evict it, are not part of this.
  pub get-put :
      (later : ℕ)
      → later < now + s.ttl
      → let stored = put s source content cut original now (some random) in
        (get stored.0 stored.1 later).1 ≡ some (record_of s source content cut original now random)
  unfolding get remove_expired_locked
  get-put later before =
      let stored = put s source content cut original now (some random) in
      let found = put-IsStored.found in
      rw put-IsStored.returned (
        expire_loop-entries (length stored.0.order) later stored.0 stored_record.id
          (rw found (lt→ltb later (now + s.ttl) before))
        ∙ found)

-- Outputs that are empty or too long are refused, and so is every output where the random source
-- fails: `put` then returns the empty id and changes nothing.
pub put_refused :
    (s : RawOutputStore) (source content : Bytes) (cut : Bool) (original now : ℕ)
    (random : Option Bytes)
    → (random ≡ none) ⊎ (refuses s content ≡ true)
    → put s source content cut original now random ≡ (s, [])
unfolding put
put_refused s source content cut original now none h = refl
put_refused s source content cut original now (some random) (inl e) = cc
put_refused s source content cut original now (some random) (inr e) = rw e

-- `get` keeps the store consistent.
pub get-IsConsistent :
    (s : RawOutputStore) (id : Bytes) (now : ℕ) → IsConsistent s → IsConsistent (get s id now).0
unfolding get
get-IsConsistent s id now h = remove_expired_locked-IsConsistent s now h

pub new_raw_output_store-IsConsistent :
    (entries bytes ttl : ℕ) → IsConsistent (new_raw_output_store entries bytes ttl)
unfolding new_raw_output_store
new_raw_output_store-IsConsistent entries bytes ttl = record {
  distinct = tt;
  present = tt;
  absent = λ id h. refl;
  counted = refl;
  bytes_within = omega arith;
  entries_within = omega arith;
}
