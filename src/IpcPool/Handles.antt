-- ===== src/IpcPool/Handles.antt =====
-- tools/ipc/pool.go: where the handles go.
use agent_tool.Base.{
  ℕ, ◌+◌, true, false, not, ◌&&◌, List, [], ◌∷◌, ◌++◌, Option, none, some, leb, ◌==◌, if◌then◌else◌,
  Bytes, length, bytes_eq, ◌≡◌, refl, inl, inr, arith, Bool-cases, Option-cases,
}
use agent_tool.IpcPool.{
  Pool, PoolConn, find, erase, close, is_idle, sweep_idle, checkout_conn, remove_conn, evict,
  oldest, put_conn, pool_max_conns,
}

-- How often a handle stands in a list.
abbrev pub occurrences : ℕ → List ℕ → ℕ
occurrences h [] = 0
occurrences h (x ∷ xs) = (if h == x then 1 else 0) + occurrences h xs

-- The handles of a pool.
abbrev pub handles : Pool → List ℕ
handles [] = []
handles ((k, pc) ∷ p) = close pc ++ handles p

occurrences-append :
    (h : ℕ) (xs ys : List ℕ) → occurrences h (xs ++ ys) ≡ occurrences h xs + occurrences h ys
occurrences-append h [] ys = omega arith
occurrences-append h (x ∷ xs) ys = omega (arith, occurrences-append h xs ys)

some-injective : {a b : PoolConn} → some a ≡ some b → a ≡ b
some-injective h = cc

occurrences-erase :
    (h : ℕ) (k : Bytes) (pc : PoolConn) (p : Pool)
    → find k p ≡ some pc
    → occurrences h (handles p) ≡ occurrences h (handles (erase k p)) + occurrences h (close pc)
occurrences-erase h k pc [] e = cc
occurrences-erase h k pc ((j, qc) ∷ p) e = elim (Bool-cases (bytes_eq k j)) [
  | inl same ↦
      let one : qc ≡ pc = some-injective (rw same at e) in
      rw (same, one) (omega (arith, occurrences-append h (close pc) (handles p)))
  | inr other ↦
      let rest = occurrences-erase h k pc p (rw other at e) in
      rw other (
        omega (
          arith,
          rest,
          occurrences-append h (close qc) (handles p),
          occurrences-append h (close qc) (handles (erase k p)),
        ))
]

pub remove_conn_missing : (k : Bytes) (p : Pool) → find k p ≡ none → remove_conn k p ≡ (p, [])
unfolding remove_conn
remove_conn_missing k p e = rw (e, remove_conn) refl

pub remove_conn_there :
    (k : Bytes) (p : Pool) (pc : PoolConn)
    → find k p ≡ some pc
    → remove_conn k p ≡ (erase k p, close pc)
unfolding remove_conn
remove_conn_there k p pc e = rw (e, remove_conn) refl

remove_conn-occurrences :
    (h : ℕ) (k : Bytes) (p : Pool)
    → occurrences h (handles p)
      ≡ occurrences h (handles (remove_conn k p).0) + occurrences h (remove_conn k p).1
remove_conn-occurrences h k p = elim (Option-cases (find k p)) [
  | inl missing ↦ rw (remove_conn_missing k p missing) (omega arith)
  | inr (pc, there) ↦ rw (remove_conn_there k p pc there) (occurrences-erase h k pc p there)
]

evict-occurrences :
    (h : ℕ) (p : Pool)
    → occurrences h (handles p) ≡ occurrences h (handles (evict p).0) + occurrences h (evict p).1
unfolding evict
evict-occurrences h p =
    elim (Bool-cases (leb pool_max_conns (length p) && not (bytes_eq (oldest [] 0 p) []))) [
      | inl full ↦ rw full (remove_conn-occurrences h (oldest [] 0 p) p)
      | inr room ↦ rw room (omega arith)
    ]

-- Storing a connection loses no handle: as often as a handle was in the pool, or is the new
-- connection or its listener, so often it is afterwards in the pool and among the closed ones
-- together. One that was there once is therefore not both closed and in the pool.
pub put_conn-occurrences :
    (h now : ℕ) (key : Bytes) (conn : ℕ) (listener : Option ℕ) (p : Pool)
    → let new : PoolConn = record {
      conn = conn;
      listener = listener;
      created_at = now;
      last_used = now;
    } in
      occurrences h (handles p) + occurrences h (close new)
      ≡ occurrences h (handles (put_conn now key conn listener p).0)
        + occurrences h (put_conn now key conn listener p).1
unfolding put_conn
put_conn-occurrences h now key conn listener p =
    let new : PoolConn = record {
      conn = conn;
      listener = listener;
      created_at = now;
      last_used = now;
    } in
    let removed = remove_conn key p in
    let evicted = evict removed.0 in
    omega (
      arith,
      remove_conn-occurrences h key p,
      evict-occurrences h removed.0,
      occurrences-append h (close new) (handles evicted.0),
      occurrences-append h removed.1 evicted.1,
    )

-- The handles that a caller gets.
abbrev pub taken : Option PoolConn → List ℕ
taken none = []
taken (some pc) = close pc

checkout_conn_missing :
    (now : ℕ) (k : Bytes) (p : Pool) → find k p ≡ none → checkout_conn now k p ≡ (none, p, [])
unfolding checkout_conn
checkout_conn_missing now k p e = rw (e, checkout_conn) refl

checkout_conn_idle :
    (now : ℕ) (k : Bytes) (p : Pool) (pc : PoolConn)
    → find k p ≡ some pc
    → is_idle now pc ≡ true
    → checkout_conn now k p ≡ (none, erase k p, close pc)
unfolding checkout_conn
checkout_conn_idle now k p pc e idle = rw (e, idle, checkout_conn) refl

pub checkout_conn_live :
    (now : ℕ) (k : Bytes) (p : Pool) (pc : PoolConn)
    → find k p ≡ some pc
    → is_idle now pc ≡ false
    → checkout_conn now k p ≡ (some pc, erase k p, [])
unfolding checkout_conn
checkout_conn_live now k p pc e live = rw (e, live, checkout_conn) refl

-- Taking a connection out: each handle of the pool is afterwards with the caller, in the pool or
-- closed, and as often as it was there before.
pub checkout_conn-occurrences :
    (h now : ℕ) (key : Bytes) (p : Pool)
    → occurrences h (handles p)
      ≡ occurrences h (taken (checkout_conn now key p).0)
        + occurrences h (handles (checkout_conn now key p).1)
        + occurrences h (checkout_conn now key p).2
checkout_conn-occurrences h now key p = elim (Option-cases (find key p)) [
  | inl missing ↦ rw (checkout_conn_missing now key p missing) (omega arith)
  | inr (pc, there) ↦
      let gone = occurrences-erase h key pc p there in
      elim (Bool-cases (is_idle now pc)) [
        | inl idle ↦ rw (checkout_conn_idle now key p pc there idle) (omega (arith, gone))
        | inr live ↦ rw (checkout_conn_live now key p pc there live) (omega (arith, gone))
      ]
]

-- The sweep closes each handle of a connection that it drops, once, and no other.
pub sweep_idle-occurrences :
    (h now : ℕ) (p : Pool)
    → occurrences h (handles p)
      ≡ occurrences h (handles (sweep_idle now p).0) + occurrences h (sweep_idle now p).1
unfolding sweep_idle
sweep_idle-occurrences h now [] = omega arith
sweep_idle-occurrences h now ((k, pc) ∷ p) =
    let rest = sweep_idle-occurrences h now p in
    let before = occurrences-append h (close pc) (handles p) in
    elim (Bool-cases (is_idle now pc)) [
      | inl idle ↦
          rw idle
            (omega (arith, rest, before, occurrences-append h (close pc) (sweep_idle now p).1))
      | inr live ↦ rw live (
          omega
            (arith, rest, before, occurrences-append h (close pc) (handles (sweep_idle now p).0)))
    ]
