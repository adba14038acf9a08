-- ===== src/RawOutput.antt =====
-- common/rawoutput.go: the store of command outputs behind opaque ids. The map `entries` is a
-- function; times and lengths of time are in nanoseconds. The random bytes of `put` are an argument,
-- `none` where `rand.Read` fails.
pub mod Invariant
pub mod Laws
pub mod Examples
use Prim.Native.String.{String}
use agent_tool.Base.{
  ℕ, zero, suc, ◌+◌, ◌-◌, ◌*◌, ◌/◌, ◌%◌, Bool, true, false, not, ◌&&◌, ◌||◌, List, [], ◌∷◌, ◌++◌,
  Option, none, some, ltb, leb, ◌==◌, if◌then◌else◌, Bytes, bytes_eq, length, codes, is_some,
}

pub record RawOutputRecord : Type 0 where
  pub id : Bytes
  pub source : Bytes
  pub content : Bytes
  pub truncated : Bool
  pub original_bytes : ℕ
  pub created_at : ℕ
  pub expires_at : ℕ

pub record RawOutputStore : Type 0 where
  pub entries : Bytes → Option RawOutputRecord
  pub order : List Bytes
  pub total_bytes : ℕ
  pub max_entries : ℕ
  pub max_bytes : ℕ
  pub ttl : ℕ

unfoldable pub new_raw_output_store : ℕ → ℕ → ℕ → RawOutputStore
new_raw_output_store max_entries max_bytes ttl = record {
  entries = λ id. none;
  order = [];
  total_bytes = 0;
  max_entries = max_entries;
  max_bytes = max_bytes;
  ttl = ttl;
}

-- `commandRawOutputs`: 64 entries, 4 MiB, 30 minutes.
unfoldable pub command_raw_outputs : RawOutputStore
unfolding new_raw_output_store
command_raw_outputs = new_raw_output_store 64 (4 * 1024 * 1024) (30 * 60 * 1_000_000_000)

abbrev pub insert_entry :
    Bytes
    → Option RawOutputRecord
    → (Bytes → Option RawOutputRecord)
    → Bytes
    → Option RawOutputRecord
insert_entry id r m k = if bytes_eq k id then r else m k

abbrev pub content_length : Option RawOutputRecord → ℕ
content_length none = 0
content_length (some r) = length r.content

-- Drops the first occurrence.
unfoldable pub remove_first : Bytes → List Bytes → List Bytes
remove_first id [] = []
remove_first id (k ∷ ks) = if bytes_eq k id then ks else k ∷ remove_first id ks

-- `removeLocked`. Removing a key that the map lacks changes nothing.
unfoldable pub remove_locked : RawOutputStore → Bytes → RawOutputStore
remove_locked s id = record s {
  entries = insert_entry id none s.entries;
  order = remove_first id s.order;
  total_bytes = s.total_bytes - content_length (s.entries id);
}

abbrev pub is_live : Option RawOutputRecord → ℕ → Bool
is_live none now = false
is_live (some r) now = ltb now r.expires_at

-- The loop of `removeExpiredLocked`; each round removes `order[0]`, so `length order` rounds suffice.
unfoldable pub expire_loop : ℕ → ℕ → RawOutputStore → RawOutputStore
expire_loop zero now s = s
expire_loop (suc f) now s = elim s.order [
  | [] ↦ s
  | id ∷ ids ↦
      let next = expire_loop f now (remove_locked s id) in
      if is_live (s.entries id) now then s else next
]

unfoldable pub remove_expired_locked : RawOutputStore → ℕ → RawOutputStore
remove_expired_locked s now = expire_loop (length s.order) now s

-- How the loop of `put` ends: with room for the new record, at an empty store, or not in the rounds given.
pub data Room : Type 0 where
  room : RawOutputStore → Room
  nothing_left : RawOutputStore → Room
  out_of_rounds : Room

abbrev pub is_full : RawOutputStore → ℕ → Bool
is_full s size = leb s.max_entries (length s.order) || ltb s.max_bytes (s.total_bytes + size)

unfoldable pub make_room : ℕ → ℕ → RawOutputStore → Room
make_room zero size s = out_of_rounds
make_room (suc f) size s =
    let next : Room = elim s.order [
      | [] ↦ nothing_left s
      | id ∷ ids ↦ make_room f size (remove_locked s id)
    ] in
    if is_full s size then next else room s

hex_digit : ℕ → ℕ
hex_digit n = if ltb n 10 then b'0' + n else b'a' + (n - 10)

hex : Bytes → Bytes
unfolding hex_digit
hex [] = []
hex (b ∷ bs) = hex_digit (b / 16) ∷ hex_digit (b % 16) ∷ hex bs

unfoldable pub make_id : Bytes → Bytes
unfolding hex
make_id random = codes "out_" ++ hex random

abbrev pub put_record : RawOutputStore → RawOutputRecord → RawOutputStore
put_record s r = record s {
  entries = insert_entry r.id (some r) s.entries;
  order = s.order ++ r.id ∷ [];
  total_bytes = s.total_bytes + length r.content;
}

-- The end of `put`: the new store and the id that is returned, empty if nothing was stored.
unfoldable pub finish_put : RawOutputRecord → Room → RawOutputStore → RawOutputStore × Bytes
finish_put r (room s) old = (put_record s r, r.id)
finish_put r (nothing_left s) old = (s, [])
finish_put r out_of_rounds old = (old, [])

abbrev pub refuses : RawOutputStore → Bytes → Bool
refuses s content =
    length content == 0
    || (s.max_entries == 0 || (s.max_bytes == 0 || ltb s.max_bytes (length content)))

unfoldable pub store_record : RawOutputStore → RawOutputRecord → ℕ → RawOutputStore × Bytes
unfolding finish_put remove_expired_locked
store_record s r now =
    let live = remove_expired_locked s now in
    finish_put r (make_room (suc (length live.order)) (length r.content) live) live

unfoldable pub put :
    RawOutputStore → Bytes → Bytes → Bool → ℕ → ℕ → Option Bytes → RawOutputStore × Bytes
put s source content truncated original_bytes now none = (s, [])
put s source content truncated original_bytes now (some random) =
    if refuses s content
    then (s, [])
    else store_record s
        (record {
          id = make_id random;
          source = source;
          content = content;
          truncated = truncated;
          original_bytes = original_bytes;
          created_at = now;
          expires_at = now + s.ttl;
        })
        now

-- `get`: the store after the sweep, and the record.
unfoldable pub get : RawOutputStore → Bytes → ℕ → RawOutputStore × Option RawOutputRecord
get s id now = let live = remove_expired_locked s now in (live, live.entries id)
