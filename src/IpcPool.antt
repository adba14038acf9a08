-- ===== src/IpcPool.antt =====
-- tools/ipc/pool.go: the pool of idle connections. The map is an association list with one entry
-- for a key. A connection and its listener are handles of the system; each operation returns the
-- handles that it closes. Time is in nanoseconds.
pub mod Keys
pub mod Handles
pub mod Examples
use agent_tool.Base.{
  ℕ, zero, suc, ◌+◌, ◌-◌, ◌*◌, Bool, true, false, not, ◌&&◌, ◌||◌, List, [], ◌∷◌, ◌++◌, Option,
  none, some, ltb, leb, ◌==◌, if◌then◌else◌, Bytes, length, bytes_eq,
}

abbrev pub pool_idle_timeout : ℕ
pool_idle_timeout = 300000000000

abbrev pub pool_max_conns : ℕ
pool_max_conns = 10

-- `poolConn`; its field `key`, which nothing reads, repeats the key of the map.
pub record PoolConn : Type 0 where
  pub conn : ℕ
  pub listener : Option ℕ
  pub created_at : ℕ
  pub last_used : ℕ

-- `pool.conns`.
abbrev pub Pool : Type 0
Pool = List (Bytes × PoolConn)

abbrev pub find : Bytes → Pool → Option PoolConn
find k [] = none
find k ((j, pc) ∷ p) = if bytes_eq k j then some pc else find k p

-- `delete(pool.conns, key)`.
abbrev pub erase : Bytes → Pool → Pool
erase k [] = []
erase k ((j, pc) ∷ p) = if bytes_eq k j then p else (j, pc) ∷ erase k p

-- `pc.conn.Close()`, and the listener if there is one.
unfoldable pub close : PoolConn → List ℕ
close pc = pc.conn ∷ elim pc.listener [ none ↦ [] | some l ↦ l ∷ [] ]

abbrev pub is_idle : ℕ → PoolConn → Bool
is_idle now pc = ltb pool_idle_timeout (now - pc.last_used)

-- `sweepIdle`: the pool behind it, and what it closed.
unfoldable pub sweep_idle : ℕ → Pool → Pool × List ℕ
sweep_idle now [] = ([], [])
sweep_idle now ((k, pc) ∷ p) =
    let rest = sweep_idle now p in
    if is_idle now pc then (rest.0, close pc ++ rest.1) else ((k, pc) ∷ rest.0, rest.1)

-- `checkoutConn`: the connection, the pool behind it, and what it closed.
unfoldable pub checkout_conn : ℕ → Bytes → Pool → Option PoolConn × Pool × List ℕ
checkout_conn now key p = elim (find key p) [
  | none ↦ (none, p, [])
  | some pc ↦ if is_idle now pc then (none, erase key p, close pc) else (some pc, erase key p, [])
]

-- `removeConn`, which is also how `putConn` drops the connection of the same key.
unfoldable pub remove_conn : Bytes → Pool → Pool × List ℕ
remove_conn key p = elim (find key p) [ none ↦ (p, []) | some pc ↦ (erase key p, close pc) ]

-- The loop of `putConn` for the oldest key; the empty key stands for none yet.
unfoldable pub oldest : Bytes → ℕ → Pool → Bytes
oldest key time [] = key
oldest key time ((k, pc) ∷ p) =
    let taken = oldest k pc.last_used p in
    let left = oldest key time p in if bytes_eq key [] || ltb pc.last_used time then taken else left

-- The eviction of `putConn`.
unfoldable pub evict : Pool → Pool × List ℕ
evict p =
    let key = oldest [] 0 p in
    if leb pool_max_conns (length p) && not (bytes_eq key []) then remove_conn key p else (p, [])

-- `putConn`: the pool behind it, and what it closed.
unfoldable pub put_conn : ℕ → Bytes → ℕ → Option ℕ → Pool → Pool × List ℕ
put_conn now key conn listener p =
    let replaced = remove_conn key p in
    let room = evict replaced.0 in
    let pc : PoolConn = record {
      conn = conn;
      listener = listener;
      created_at = now;
      last_used = now;
    } in
    ((key, pc) ∷ room.0, replaced.1 ++ room.1)
