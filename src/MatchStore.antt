-- ===== src/MatchStore.antt =====
-- tools/memtool/matchstore.go: the matches of a memory scan, in a slice or, above a threshold, as
-- records of one size in a file. The file is its bytes; how many bytes of a write the system takes
-- is a parameter, and a write that takes fewer than all is an error (io.Writer).
pub mod Encode
pub mod Contents
pub mod Adding
pub mod Examples
use agent_tool.Base.{
  ℕ, zero, suc, ◌+◌, ◌-◌, ◌*◌, ◌/◌, ◌%◌, Bool, true, false, not, ◌&&◌, List, [], ◌∷◌, ◌++◌, Option,
  none, some, ltb, leb, ◌==◌, if◌then◌else◌, Bytes, length, get_elem?, take, drop, replicate, min,
}

-- `matchMemThreshold` and `matchAbsoluteMax`.
abbrev pub match_mem_threshold : ℕ
match_mem_threshold = 10000000

abbrev pub match_absolute_max : ℕ
match_absolute_max = 100000000

abbrev pub match_disk_batch_size : ℕ
match_disk_batch_size = 10000

-- `maxBatch` of `readDiskBatch`.
abbrev pub max_batch : ℕ
max_batch = 100000

pub record ScanMatch : Type 0 where
  pub address : ℕ
  pub prev_data : Bytes

-- `onDisk`, with `mem` or `disk`.
pub data Storage : Type 0 where
  in_memory : List ScanMatch → Storage
  on_disk : Bytes → Storage

pub record MatchStore : Type 0 where
  pub storage : Storage
  pub count : ℕ
  pub v_size : ℕ

-- `recSz`.
abbrev pub rec_sz : ℕ → ℕ
rec_sz v = 8 + v

unfoldable pub new_match_store : ℕ → MatchStore
new_match_store v = record { storage = in_memory []; count = 0; v_size = v }

-- `binary.LittleEndian.PutUint64`, for `k` bytes.
unfoldable pub put_uint : ℕ → ℕ → Bytes
put_uint zero n = []
put_uint (suc k) n = n % 256 ∷ put_uint k (n / 256)

-- `binary.LittleEndian.Uint64`.
unfoldable pub uint : Bytes → ℕ
uint [] = 0
uint (b ∷ s) = b + 256 * uint s

-- The record of a match: the address, then as many bytes of the data as fit, and zeros.
unfoldable pub encode : ℕ → ScanMatch → Bytes
encode v m = put_uint 8 m.address ++ take v (m.prev_data ++ replicate v 0)

unfoldable pub decode : ℕ → Bytes → ScanMatch
decode v buf = record { address = uint (take 8 buf); prev_data = take v (drop 8 buf) }

-- `f.ReadAt`: the bytes from `off` on, as many as there are.
abbrev pub read_at : Bytes → ℕ → ℕ → Bytes
read_at file len off = take len (drop off file)

-- The failures: no temporary file, a write, an index out of range, a read.
pub data StoreError : Type 0 where
  create_failed write_failed out_of_range read_failed : StoreError

pub data Result (A : Type 0) : Type 0 where
  ok : A → Result A
  err : StoreError → Result A

unfoldable pub read_disk : MatchStore → Bytes → ℕ → Result ScanMatch
read_disk ms file i =
    let buf = read_at file (rec_sz ms.v_size) (i * rec_sz ms.v_size) in
    if ltb (length buf) (rec_sz ms.v_size) then err read_failed else ok (decode ms.v_size buf)

-- `Get`, for an index that is not negative.
unfoldable pub get : MatchStore → ℕ → Result ScanMatch
get ms i = if leb ms.count i then err out_of_range else elim ms.storage [
  | in_memory xs ↦ elim (get_elem? xs i) [ none ↦ err out_of_range | some m ↦ ok m ]
  | on_disk file ↦ read_disk ms file i
]

-- The records of a buffer, `k` of them.
unfoldable pub decode_each : ℕ → ℕ → Bytes → List ScanMatch
decode_each v zero buf = []
decode_each v (suc k) buf = decode v (take (rec_sz v) buf) ∷ decode_each v k (drop (rec_sz v) buf)

unfoldable pub read_disk_batch : MatchStore → Bytes → ℕ → ℕ → Result (List ScanMatch)
read_disk_batch ms file start count =
    let size = rec_sz ms.v_size in
    let capped = if ltb max_batch count then max_batch else count in
    let buf = read_at file (capped * size) (start * size) in
    if ltb (length buf) (capped * size) && length buf == 0
    then err read_failed
    else ok (decode_each ms.v_size (length buf / size) buf)

-- `GetBatch`, for numbers that are not negative; `nil` is the empty list.
unfoldable pub get_batch : MatchStore → ℕ → ℕ → Result (List ScanMatch)
get_batch ms start count =
    let n = if ltb ms.count (start + count) then ms.count - start else count in
    if leb ms.count start then ok [] else elim ms.storage [
      | in_memory xs ↦ ok (take n (drop start xs))
      | on_disk file ↦ read_disk_batch ms file start n
    ]

-- How the system behaves: whether a temporary file can be made, and how many bytes of a write to
-- the file with this content it takes.
module _ (created : Bool) (accepted : Bytes → Bytes → ℕ) where
  -- `f.Write`: the file behind the write, and whether all of the data was taken.
  abbrev pub write_file : Bytes → Bytes → Bytes × Bool
  write_file file data' =
      (file ++ take (accepted file data') data', leb (length data') (accepted file data'))

  -- The loop of `promoteToDisk`.
  unfoldable pub write_each : ℕ → Bytes → List ScanMatch → Result Bytes
  write_each v file [] = ok file
  write_each v file (m ∷ ms) =
      let w = write_file file (encode v m) in
      let rest = write_each v w.0 ms in if w.1 then rest else err write_failed

  unfoldable pub promote_to_disk : MatchStore → Result MatchStore
  promote_to_disk ms = elim ms.storage [
    | on_disk file ↦ ok ms
    | in_memory xs ↦ if not created then err create_failed else elim (write_each ms.v_size [] xs) [
      | err e ↦ err e
      | ok file ↦ ok (record ms { storage = on_disk file })
    ]
  ]

  -- `appendDisk`: the store behind it, also where it fails, and the error.
  unfoldable pub append_disk : MatchStore → Bytes → ScanMatch → MatchStore × Option StoreError
  append_disk ms file m =
      let w = write_file file (encode ms.v_size m) in
      if w.1
      then (record ms { storage = on_disk w.0; count = ms.count + 1 }, none)
      else (record ms { storage = on_disk w.0 }, some write_failed)

  unfoldable pub append_match : MatchStore → ScanMatch → MatchStore × Option StoreError
  append_match ms m = elim ms.storage [
    | in_memory xs ↦ (record ms { storage = in_memory (xs ++ m ∷ []); count = ms.count + 1 }, none)
    | on_disk file ↦ append_disk ms file m
  ]

  abbrev pub is_on_disk : Storage → Bool
  is_on_disk (in_memory xs) = false
  is_on_disk (on_disk file) = true

  -- `Add`.
  unfoldable pub add : MatchStore → ScanMatch → MatchStore × Option StoreError
  add ms m =
      if leb match_absolute_max ms.count
      then (ms, none)
      else if not (is_on_disk ms.storage) && leb match_mem_threshold ms.count
      then elim (promote_to_disk ms) [ err e ↦ (ms, some e) | ok ms' ↦ append_match ms' m ]
      else append_match ms m

  -- `AddBulk`.
  unfoldable pub add_bulk : MatchStore → List ScanMatch → MatchStore × Option StoreError
  add_bulk ms [] = (ms, none)
  add_bulk ms (m ∷ rest) =
      let r = add ms m in
      let next = add_bulk r.0 rest in elim r.1 [ none ↦ next | some e ↦ (r.0, some e) ]

-- `matchIter`.
pub record MatchIter : Type 0 where
  pub pos : ℕ
  pub batch : Option (List ScanMatch)
  pub batch_off : ℕ

unfoldable pub iter : MatchIter
iter = record { pos = 0; batch = none; batch_off = 0 }

-- The match at an index of the loaded batch, and the iterator moved by one.
abbrev pub step_iter : MatchIter → Option ScanMatch → Option ScanMatch × MatchIter
step_iter it none = (none, it)
step_iter it (some m) = (some m, record it { pos = it.pos + 1 })

-- A new batch from the file, in `Next`.
unfoldable pub load : MatchStore → Bytes → MatchIter → Option ScanMatch × MatchIter
load ms file it =
    let remaining = ms.count - it.pos in
    let size = if ltb remaining match_disk_batch_size then remaining else match_disk_batch_size in
    elim (read_disk_batch ms file it.pos size) [
      | err e ↦ (none, record it { batch = none })
      | ok [] ↦ (none, record it { batch = some [] })
      | ok (m ∷ ms) ↦
          (some m, record { pos = it.pos + 1; batch = some (m ∷ ms); batch_off = it.pos })
    ]

abbrev pub loaded : MatchIter → Option ScanMatch
loaded it = elim it.batch [ none ↦ none | some ms ↦ get_elem? ms (it.pos - it.batch_off) ]

-- `Next`.
unfoldable pub next : MatchStore → MatchIter → Option ScanMatch × MatchIter
next ms it = if leb ms.count it.pos then (none, it) else elim ms.storage [
  | in_memory xs ↦ step_iter it (get_elem? xs it.pos)
  | on_disk file ↦ elim (loaded it) [ none ↦ load ms file it | some m ↦ step_iter it (some m) ]
]

-- A loop that takes matches until there are none, at most `fuel` of them.
unfoldable pub take_all_matches : ℕ → MatchStore → MatchIter → List ScanMatch
take_all_matches zero ms it = []
take_all_matches (suc fuel) ms it =
    let r = next ms it in
    let rest = take_all_matches fuel ms r.1 in elim r.0 [ none ↦ [] | some m ↦ m ∷ rest ]
