-- ===== src/RawOutput/Invariant.antt =====
-- common/rawoutput.go: the invariant of the output store.
use agent_tool.Base.{
  ℕ, zero, suc, ◌+◌, ◌≤◌, ◌<◌, Bool, true, false, ◌||◌, List, [], ◌∷◌, ◌++◌, Option, none, some,
  ◌≡◌, refl, ap, inl, inr, arith, Bool-cases, List-cases, Bytes, bytes_eq, bytes_eq_refl,
  bytes_eq_iff, length, length-append, is_some, All, All-append,
}
use agent_tool.RawOutput.{
  RawOutputRecord, RawOutputStore, insert_entry, content_length, remove_first, remove_locked,
  is_live, expire_loop, remove_expired_locked, Room, room, nothing_left, out_of_rounds, is_full,
  make_room, put_record,
}

abbrev pub Entries : Type 0
Entries = Bytes → Option RawOutputRecord

abbrev pub contains : Bytes → List Bytes → Bool
contains id [] = false
contains id (k ∷ ks) = bytes_eq k id || contains id ks

abbrev pub Distinct : List Bytes → Type 0
Distinct [] = Unit
Distinct (k ∷ ks) = (contains k ks ≡ false) × Distinct ks

abbrev pub weight : Entries → List Bytes → ℕ
weight m [] = 0
weight m (k ∷ ks) = content_length (m k) + weight m ks

abbrev pub IsPresent : Entries → Bytes → Type 0
IsPresent m id = is_some (m id) ≡ true

-- The ids in order are distinct and are those of the map, the byte count is that of the contents,
-- and both limits hold.
pub record IsConsistent (s : RawOutputStore) : Type 0 where
  pub distinct : Distinct s.order
  pub present : All (IsPresent s.entries) s.order
  pub absent : (id : Bytes) → contains id s.order ≡ false → s.entries id ≡ none
  pub counted : s.total_bytes ≡ weight s.entries s.order
  pub bytes_within : s.total_bytes ≤ s.max_bytes
  pub entries_within : length s.order ≤ s.max_entries

weight-insert_entry :
    (m : Entries) (id : Bytes) (r : Option RawOutputRecord) (ks : List Bytes)
    → contains id ks ≡ false
    → weight (insert_entry id r m) ks ≡ weight m ks
weight-insert_entry m id r [] h = refl
weight-insert_entry m id r (k ∷ ks) h = ground (arith, weight-insert_entry m id r ks)

IsPresent-insert_entry :
    (m : Entries) (id : Bytes) (r : Option RawOutputRecord) (ks : List Bytes)
    → contains id ks ≡ false
    → All (IsPresent m) ks
    → All (IsPresent (insert_entry id r m)) ks
IsPresent-insert_entry m id r [] h p = tt
IsPresent-insert_entry m id r (k ∷ ks) h p = ground (arith, IsPresent-insert_entry m id r ks)

module _ (s : RawOutputStore) (id : Bytes) (ids : List Bytes) (e : s.order ≡ id ∷ ids) where
  pub order-remove_locked : (remove_locked s id).order ≡ ids
  unfolding remove_locked remove_first
  order-remove_locked = rw (e, remove_first, bytes_eq_refl id)

  remove_locked-IsConsistent : IsConsistent s → IsConsistent (remove_locked s id)
  unfolding remove_locked remove_first
  remove_locked-IsConsistent h =
      let d : Distinct (id ∷ ids) = rw e at h.distinct in
      let p : All (IsPresent s.entries) (id ∷ ids) = rw e at h.present in
      let count : s.total_bytes ≡ weight s.entries (id ∷ ids) = rw e at h.counted in
      let left = weight-insert_entry s.entries id none ids d.0 in
      record {
        distinct = rw order-remove_locked d.1;
        present = rw order-remove_locked (IsPresent-insert_entry s.entries id none ids d.0 p.1);
        absent = λ k c. absent_step k (rw order-remove_locked at c);
        counted = rw (order-remove_locked, left) (omega arith);
        bytes_within = omega (arith, h.bytes_within);
        entries_within = rw order-remove_locked (omega (arith, ap length e, h.entries_within));
      }
    where
      absent_step : (k : Bytes) → contains k ids ≡ false → insert_entry id none s.entries k ≡ none
      absent_step k c = elim (Bool-cases (bytes_eq k id)) [
        | inl same ↦ rw same
        | inr other ↦
            rw other (h.absent k (rw e (ground (arith, bytes_eq_iff id k, bytes_eq_iff k id))))
      ]

expire_loop-IsConsistent :
    (f now : ℕ) (s : RawOutputStore) → IsConsistent s → IsConsistent (expire_loop f now s)
unfolding expire_loop
expire_loop-IsConsistent zero now s h = h
expire_loop-IsConsistent (suc f) now s h = elim (List-cases s.order) [
  | inl e ↦ rw (e, expire_loop) h
  | inr (id, ids, e) ↦ elim (Bool-cases (is_live (s.entries id) now)) [
    | inl live ↦ rw (e, expire_loop) (rw live h)
    | inr expired ↦
        rw (e, expire_loop)
          (rw expired (
            expire_loop-IsConsistent f now (remove_locked s id)
              (remove_locked-IsConsistent s id ids e h)))
  ]
]

-- What `make_room` promises of its result: a consistent store of the same limits that has room, or
-- an empty one that has not.
abbrev pub MakesRoom : ℕ → ℕ → ℕ → Room → Type 0
MakesRoom size bytes entries (room s) =
    IsConsistent s × (is_full s size ≡ false) × (s.max_bytes ≡ bytes) × (s.max_entries ≡ entries)
MakesRoom size bytes entries (nothing_left s) =
    IsConsistent s
    × (s.order ≡ [])
    × (is_full s size ≡ true)
    × (s.max_bytes ≡ bytes)
    × (s.max_entries ≡ entries)
MakesRoom size bytes entries out_of_rounds = ⊥

pub make_room_lem :
    (f size : ℕ) (s : RawOutputStore)
    → length s.order < f
    → IsConsistent s
    → MakesRoom size s.max_bytes s.max_entries (make_room f size s)
unfolding make_room remove_locked
make_room_lem zero size s lt h = absurd (omega arith)
make_room_lem (suc f) size s lt h = elim (Bool-cases (is_full s size)) [
  | inr free ↦ rw free (h, free, refl, refl)
  | inl full ↦ rw full (elim (List-cases s.order) [
    | inl e ↦ rw (e, make_room) (h, e, full, refl, refl)
    | inr (id, ids, e) ↦
        rw (e, make_room)
          (make_room_lem f size (remove_locked s id)
            (rw (order-remove_locked s id ids e) (omega (arith, ap length e)))
            (remove_locked-IsConsistent s id ids e h))
  ])
]

pub remove_expired_locked-IsConsistent :
    (s : RawOutputStore) (now : ℕ) → IsConsistent s → IsConsistent (remove_expired_locked s now)
unfolding remove_expired_locked
remove_expired_locked-IsConsistent s now h = expire_loop-IsConsistent (length s.order) now s h

contains-append :
    (id k : Bytes) (ks : List Bytes)
    → contains id (ks ++ k ∷ []) ≡ (contains id ks || bytes_eq k id)
contains-append id k [] = ground arith
contains-append id k (j ∷ ks) = ground (arith, contains-append id k ks)

Distinct-append :
    (id : Bytes) (ks : List Bytes) → Distinct ks → contains id ks ≡ false → Distinct (ks ++ id ∷ [])
Distinct-append id [] d c = (refl, tt)
Distinct-append id (k ∷ ks) d c =
    ground
      (arith, Distinct-append id ks, contains-append k id ks, bytes_eq_iff id k, bytes_eq_iff k id)

weight-append :
    (m : Entries) (k : Bytes) (ks : List Bytes)
    → weight m (ks ++ k ∷ []) ≡ weight m ks + content_length (m k)
weight-append m k [] = omega arith
weight-append m k (j ∷ ks) = omega (arith, weight-append m k ks)

-- Storing a record under an id that is not in use, where there is room.
pub put_record-IsConsistent :
    (s : RawOutputStore) (r : RawOutputRecord)
    → IsConsistent s
    → contains r.id s.order ≡ false
    → is_full s (length r.content) ≡ false
    → IsConsistent (put_record s r)
put_record-IsConsistent s r h new free =
    let m' = insert_entry r.id (some r) s.entries in
    let kept = weight-insert_entry s.entries r.id (some r) s.order new in
    let here : m' r.id ≡ some r = rw (bytes_eq_refl r.id) in
    let one : IsPresent m' r.id = rw here in
    record {
      distinct = Distinct-append r.id s.order h.distinct new;
      present =
          All-append (IsPresent m') s.order (r.id ∷ [])
            (IsPresent-insert_entry s.entries r.id (some r) s.order new h.present) (one, tt);
      absent = λ k c. absent_step k c;
      counted = rw (weight-append m' r.id s.order, kept, here) (omega (arith, h.counted));
      bytes_within = ground arith;
      entries_within = ground (arith, length-append s.order (r.id ∷ []));
    }
  where
    absent_step :
        (k : Bytes)
        → contains k (s.order ++ r.id ∷ []) ≡ false
        → insert_entry r.id (some r) s.entries k ≡ none
    absent_step k c = ground (
      arith,
      contains-append k r.id s.order,
      bytes_eq_iff r.id k,
      bytes_eq_iff k r.id,
      h.absent k,
    )
