-- ===== src/IpcPool/Keys.antt =====
-- tools/ipc/pool.go: the keys of the pool and its size.
use mathlib.Core.Path.{subst}
use agent_tool.Base.{
  ℕ, suc, ◌+◌, ◌≤◌, ◌<◌, true, false, not, ◌&&◌, [], ◌∷◌, Option, none, some, is_some, ltb, leb,
  Bytes, length, bytes_eq, bytes_eq_iff, bytes_eq_refl, ◌≡◌, refl, sym, ◌∙◌, ◌⊎◌, inl, inr, arith,
  Bool-cases, Option-cases,
}
use agent_tool.IpcPool.{
  Pool, PoolConn, pool_max_conns, pool_idle_timeout, find, erase, is_idle, sweep_idle,
  checkout_conn, remove_conn, evict, oldest, put_conn,
}
use agent_tool.IpcPool.Handles.{remove_conn_missing, remove_conn_there, checkout_conn_live}

-- One entry for a key, and no empty key: the keys are made by `recvPoolKey` and `sendPoolKey`.
abbrev pub Distinct : Pool → Type 0
Distinct [] = tt ≡ tt
Distinct ((k, pc) ∷ p) = (find k p ≡ none) × (bytes_eq k [] ≡ false) × Distinct p

-- A pool as the operations leave it.
pub record IsPool (p : Pool) : Type 0 where
  pub distinct : Distinct p
  pub bounded : length p ≤ pool_max_conns

find-erase_missing : (j k : Bytes) (p : Pool) → find j p ≡ none → find j (erase k p) ≡ none
find-erase_missing j k [] e = refl
find-erase_missing j k ((i, pc) ∷ p) e = elim (Bool-cases (bytes_eq j i)) [
  | inl hit ↦ let bad : ◌≡◌ {A = Option PoolConn} (some pc) none = rw hit at e in cc
  | inr miss ↦ elim (Bool-cases (bytes_eq k i)) [
    | inl gone ↦ rw gone (rw miss at e)
    | inr stays ↦ rw (stays, miss) (find-erase_missing j k p (rw miss at e))
  ]
]

-- What was erased is not found.
find-erase : (k : Bytes) (p : Pool) → Distinct p → find k (erase k p) ≡ none
find-erase k [] d = refl
find-erase k ((i, pc) ∷ p) (fresh, named, d) = elim (Bool-cases (bytes_eq k i)) [
  | inl same ↦ let e : k ≡ i = (bytes_eq_iff k i).0 same in rw (same, e) fresh
  | inr other ↦ rw (other, other) (find-erase k p d)
]

Distinct-erase : (k : Bytes) (p : Pool) → Distinct p → Distinct (erase k p)
Distinct-erase k [] d = refl
Distinct-erase k ((i, pc) ∷ p) (fresh, named, d) = elim (Bool-cases (bytes_eq k i)) [
  | inl same ↦ rw same d
  | inr other ↦ rw other (find-erase_missing i k p fresh, named, Distinct-erase k p d)
]

length-erase : (k : Bytes) (p : Pool) → length (erase k p) ≤ length p
length-erase k [] = omega arith
length-erase k ((i, pc) ∷ p) = ground (arith, length-erase k p)

length-erase_there :
    (k : Bytes) (p : Pool) (pc : PoolConn)
    → find k p ≡ some pc
    → suc (length (erase k p)) ≡ length p
length-erase_there k [] pc e = cc
length-erase_there k ((i, qc) ∷ p) pc e = elim (Bool-cases (bytes_eq k i)) [
  | inl same ↦ rw same refl
  | inr other ↦ let r = length-erase_there k p pc (rw other at e) in rw other (omega (arith, r))
]

oldest_taken :
    (k : Bytes) (t : ℕ) (i : Bytes) (pc : PoolConn) (p : Pool)
    → bytes_eq k [] ≡ false
    → ltb pc.last_used t ≡ true
    → oldest k t ((i, pc) ∷ p) ≡ oldest i pc.last_used p
unfolding oldest
oldest_taken k t i pc p named before = rw (named, before, oldest) refl

oldest_left :
    (k : Bytes) (t : ℕ) (i : Bytes) (pc : PoolConn) (p : Pool)
    → bytes_eq k [] ≡ false
    → ltb pc.last_used t ≡ false
    → oldest k t ((i, pc) ∷ p) ≡ oldest k t p
unfolding oldest
oldest_left k t i pc p named later = rw (named, later, oldest) refl

oldest_none :
    (t : ℕ) (i : Bytes) (pc : PoolConn) (p : Pool)
    → oldest [] t ((i, pc) ∷ p) ≡ oldest i pc.last_used p
unfolding oldest
oldest_none t i pc p = let empty = bytes_eq_refl [] in rw (empty, oldest) refl

evict_full :
    (p : Pool)
    → leb pool_max_conns (length p) ≡ true
    → bytes_eq (oldest [] 0 p) [] ≡ false
    → evict p ≡ remove_conn (oldest [] 0 p) p
unfolding evict
evict_full p full named = rw (full, named, evict) refl

evict_not_full : (p : Pool) → leb pool_max_conns (length p) ≡ false → evict p ≡ (p, [])
unfolding evict
evict_not_full p fewer = rw (fewer, evict) refl

find-later :
    (o i : Bytes) (pc : PoolConn) (p : Pool)
    → (o ≡ i) ⊎ (is_some (find o p) ≡ true)
    → is_some (find o ((i, pc) ∷ p)) ≡ true
find-later o i pc p r = elim (Bool-cases (bytes_eq o i)) [
  | inl same ↦ rw same refl
  | inr other ↦ elim r [
    | inl e ↦ let same = (bytes_eq_iff o i).1 e in absurd (ground (arith, same, other))
    | inr later ↦ rw other later
  ]
]

-- The key `k` or a key of the pool, and not the empty one.
abbrev IsKey : Bytes → Pool → Bytes → Type 0
IsKey k p o = (bytes_eq o [] ≡ false) × ((o ≡ k) ⊎ (is_some (find o p) ≡ true))

-- The oldest key is the one held so far, or a key of the pool.
oldest-IsKey :
    (k : Bytes) (t : ℕ) (p : Pool) → bytes_eq k [] ≡ false → Distinct p → IsKey k p (oldest k t p)
oldest-IsKey k t [] named d = unfold oldest in (named, inl refl)
oldest-IsKey k t ((i, pc) ∷ p) named (fresh, named_i, d) = elim (Bool-cases (ltb pc.last_used t)) [
  | inl before ↦
      let (full, r) = oldest-IsKey i pc.last_used p named_i d in
      subst (λ o. IsKey k ((i, pc) ∷ p) o) (sym (oldest_taken k t i pc p named before))
        (full, inr (find-later (oldest i pc.last_used p) i pc p r))
  | inr later ↦
      let (full, r) = oldest-IsKey k t p named d in
      subst (λ o. IsKey k ((i, pc) ∷ p) o) (sym (oldest_left k t i pc p named later))
        (
          full,
          elim r [ inl e ↦ inl e | inr there ↦ inr (find-later (oldest k t p) i pc p (inr there)) ],
        )
]

oldest_first :
    (p : Pool)
    → Distinct p
    → 0 < length p
    → (bytes_eq (oldest [] 0 p) [] ≡ false) × (is_some (find (oldest [] 0 p) p) ≡ true)
oldest_first [] d h = absurd (omega (arith, h))
oldest_first ((i, pc) ∷ p) (fresh, named, d) h =
    let (full, r) = oldest-IsKey i pc.last_used p named d in
    subst (λ o. (bytes_eq o [] ≡ false) × (is_some (find o ((i, pc) ∷ p)) ≡ true))
      (sym (oldest_none 0 i pc p)) (full, find-later (oldest i pc.last_used p) i pc p r)

-- Room for one more connection.
evict_room :
    (p : Pool)
    → Distinct p
    → length p ≤ pool_max_conns
    → Distinct (evict p).0 × (suc (length (evict p).0) ≤ pool_max_conns)
evict_room p d h = elim (Bool-cases (leb pool_max_conns (length p))) [
  | inr fewer ↦ rw (evict_not_full p fewer) (d, ground (arith, fewer))
  | inl full ↦
      let (named, there) = oldest_first p d (ground (arith, full)) in
      elim (Option-cases (find (oldest [] 0 p) p)) [
        | inl missing ↦ absurd (ground (arith, missing, there))
        | inr (pc, found) ↦
            let shorter = length-erase_there (oldest [] 0 p) p pc found in
            rw (evict_full p full named, remove_conn_there (oldest [] 0 p) p pc found)
              (Distinct-erase (oldest [] 0 p) p d, omega (arith, shorter, h))
      ]
]

find-remove_conn_missing :
    (j k : Bytes) (p : Pool) → find j p ≡ none → find j (remove_conn k p).0 ≡ none
find-remove_conn_missing j k p e = elim (Option-cases (find k p)) [
  | inl missing ↦ rw (remove_conn_missing k p missing) e
  | inr (pc, there) ↦ rw (remove_conn_there k p pc there) (find-erase_missing j k p e)
]

find-evict_missing : (j : Bytes) (p : Pool) → find j p ≡ none → find j (evict p).0 ≡ none
unfolding evict
find-evict_missing j p e =
    elim (Bool-cases (leb pool_max_conns (length p) && not (bytes_eq (oldest [] 0 p) []))) [
      | inl full ↦ rw full (find-remove_conn_missing j (oldest [] 0 p) p e)
      | inr room ↦ rw room e
    ]

removed : (k : Bytes) (p : Pool) → Distinct p → find k (remove_conn k p).0 ≡ none
removed k p d = elim (Option-cases (find k p)) [
  | inl missing ↦ rw (remove_conn_missing k p missing) missing
  | inr (pc, there) ↦ rw (remove_conn_there k p pc there) (find-erase k p d)
]

-- Removing a connection leaves a pool.
pub remove_conn-IsPool : (k : Bytes) (p : Pool) → IsPool p → IsPool (remove_conn k p).0
remove_conn-IsPool k p h = elim (Option-cases (find k p)) [
  | inl missing ↦ rw (remove_conn_missing k p missing) h
  | inr (pc, there) ↦
      let bounded = h.bounded in
      rw (remove_conn_there k p pc there) (record {
        distinct = Distinct-erase k p h.distinct;
        bounded = omega (arith, length-erase k p, bounded);
      })
]

-- Storing a connection in a pool, under a key that is not empty, leaves one entry for each key and at most ten
-- entries, also when the pool was full.
pub put_conn-IsPool :
    (now : ℕ) (key : Bytes) (conn : ℕ) (listener : Option ℕ) (p : Pool)
    → IsPool p
    → bytes_eq key [] ≡ false
    → IsPool (put_conn now key conn listener p).0
unfolding put_conn
put_conn-IsPool now key conn listener p h named =
    let held = remove_conn-IsPool key p h in
    let (d, bounded) = evict_room (remove_conn key p).0 held.distinct held.bounded in
    record {
      distinct =
          (find-evict_missing key (remove_conn key p).0 (removed key p h.distinct), named, d);
      bounded = bounded;
    }

-- A stored connection is the one that is taken out under its key until the timeout has passed, and
-- the key is then free.
pub checkout_conn-put_conn :
    (now later : ℕ) (key : Bytes) (conn : ℕ) (listener : Option ℕ) (p : Pool)
    → later ≤ now + pool_idle_timeout
    → checkout_conn later key (put_conn now key conn listener p).0 ≡ (
      some (record { conn = conn; listener = listener; created_at = now; last_used = now }),
      (evict (remove_conn key p).0).0,
      [],
    )
unfolding put_conn
checkout_conn-put_conn now later key conn listener p soon =
    let new : PoolConn = record {
      conn = conn;
      listener = listener;
      created_at = now;
      last_used = now;
    } in
    let same = bytes_eq_refl key in
    let rest = (evict (remove_conn key p).0).0 in
    let live : is_idle later new ≡ false = ground (arith, soon) in
    checkout_conn_live later key ((key, new) ∷ rest) new (rw same refl) live ∙ rw same refl

find-sweep_idle_missing :
    (j : Bytes) (now : ℕ) (p : Pool) → find j p ≡ none → find j (sweep_idle now p).0 ≡ none
unfolding sweep_idle
find-sweep_idle_missing j now [] e = refl
find-sweep_idle_missing j now ((i, pc) ∷ p) e = elim (Bool-cases (bytes_eq j i)) [
  | inl hit ↦ let bad : ◌≡◌ {A = Option PoolConn} (some pc) none = rw hit at e in cc
  | inr miss ↦
      let rest = find-sweep_idle_missing j now p (rw miss at e) in
      elim (Bool-cases (is_idle now pc)) [
        | inl idle ↦ rw idle rest
        | inr live ↦ rw (live, miss) rest
      ]
]

Distinct-sweep_idle : (now : ℕ) (p : Pool) → Distinct p → Distinct (sweep_idle now p).0
unfolding sweep_idle
Distinct-sweep_idle now [] d = refl
Distinct-sweep_idle now ((i, pc) ∷ p) (fresh, named, d) = elim (Bool-cases (is_idle now pc)) [
  | inl idle ↦ rw idle (Distinct-sweep_idle now p d)
  | inr live ↦ rw live (find-sweep_idle_missing i now p fresh, named, Distinct-sweep_idle now p d)
]

length-sweep_idle : (now : ℕ) (p : Pool) → length (sweep_idle now p).0 ≤ length p
unfolding sweep_idle
length-sweep_idle now [] = omega arith
length-sweep_idle now ((i, pc) ∷ p) =
    let rest = length-sweep_idle now p in
    elim (Bool-cases (is_idle now pc)) [
      | inl idle ↦ rw idle (omega (arith, rest))
      | inr live ↦ rw live (omega (arith, rest))
    ]

-- The sweep leaves a pool.
pub sweep_idle-IsPool : (now : ℕ) (p : Pool) → IsPool p → IsPool (sweep_idle now p).0
sweep_idle-IsPool now p h =
    let bounded = h.bounded in
    record {
      distinct = Distinct-sweep_idle now p h.distinct;
      bounded = omega (arith, length-sweep_idle now p, bounded);
    }
