-- ===== src/IpcPool/Examples.antt =====
-- Runs of the pool, and the theorems at concrete inputs.
use agent_tool.Base.{ℕ, ◌+◌, [], ◌∷◌, none, some, ◌≡◌, refl, arith, codes, bytes_eq}
use agent_tool.IpcPool.{Pool, PoolConn, put_conn, checkout_conn, close, remove_conn, evict, oldest}
use agent_tool.IpcPool.Handles.{
  occurrences, handles, taken, put_conn-occurrences, checkout_conn-occurrences,
}
use agent_tool.IpcPool.Keys.{IsPool, put_conn-IsPool}

abbrev conn_at : ℕ → ℕ → PoolConn
conn_at c t = record { conn = c; listener = some (c + 100); created_at = t; last_used = t }

abbrev two : Pool
two = (codes "recv:1", conn_at 1 5) ∷ (codes "send:h", conn_at 2 3) ∷ []

abbrev full : Pool
full =
    (codes "a", conn_at 1 5)
    ∷ (codes "b", conn_at 2 3)
    ∷ (codes "c", conn_at 3 4)
    ∷ (codes "d", conn_at 4 6)
    ∷ (codes "e", conn_at 5 7)
    ∷ (codes "f", conn_at 6 8)
    ∷ (codes "g", conn_at 7 9)
    ∷ (codes "h", conn_at 8 9)
    ∷ (codes "i", conn_at 9 9)
    ∷ (codes "j", conn_at 10 9)
    ∷ []

-- A full pool closes the connection that was used longest ago.
evicts_oldest : (put_conn 10 (codes "k") 11 none full).1 ≡ 2 ∷ 102 ∷ []
unfolding put_conn remove_conn evict oldest close bytes_eq
evicts_oldest = refl

-- A connection of the same key is closed.
replaces : (put_conn 10 (codes "send:h") 7 none two).1 ≡ 2 ∷ 102 ∷ []
unfolding put_conn remove_conn evict oldest close bytes_eq
replaces = refl

two-IsPool : IsPool two
unfolding bytes_eq
two-IsPool = record { distinct = (refl, refl, (refl, refl, refl)); bounded = omega arith }

put_conn-IsPool_example : IsPool (put_conn 10 (codes "send:h") 7 none two).0
unfolding bytes_eq
put_conn-IsPool_example = put_conn-IsPool 10 (codes "send:h") 7 none two two-IsPool refl

put_conn-occurrences_example :
    occurrences 2 (handles two)
      + occurrences 2
          (close (record { conn = 7; listener = none; created_at = 10; last_used = 10 }))
    ≡ occurrences 2 (handles (put_conn 10 (codes "send:h") 7 none two).0)
      + occurrences 2 (put_conn 10 (codes "send:h") 7 none two).1
put_conn-occurrences_example = put_conn-occurrences 2 10 (codes "send:h") 7 none two

checkout_conn-occurrences_example :
    occurrences 2 (handles two)
    ≡ occurrences 2 (taken (checkout_conn 10 (codes "send:h") two).0)
      + occurrences 2 (handles (checkout_conn 10 (codes "send:h") two).1)
      + occurrences 2 (checkout_conn 10 (codes "send:h") two).2
checkout_conn-occurrences_example = checkout_conn-occurrences 2 10 (codes "send:h") two
