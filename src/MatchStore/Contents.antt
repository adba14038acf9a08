-- ===== src/MatchStore/Contents.antt =====
-- tools/memtool/matchstore.go: what the matches are that a store holds, and how they are read.
use native.Mathlib.Nat.{mul-le-mul_right, mul-div_cancel}
use mathlib.Core.Path.{subst}
use agent_tool.Base.{
  ℕ, zero, suc, ◌+◌, ◌-◌, ◌*◌, ◌/◌, ◌<◌, ◌≤◌, false, List, [], ◌∷◌, ◌++◌, Option, none, some, ◌≡◌,
  refl, sym, ap, ◌∙◌, inl, inr, arith, ltb, leb, if◌then◌else◌, Bool-cases, Bytes, length, take,
  drop, get_elem?, All, length-take, length-drop, take-append, drop-append, take_all, drop_all,
  append-nil, take-nil,
}
use agent_tool.MatchStore.{
  ScanMatch, Storage, in_memory, on_disk, MatchStore, rec_sz, encode, decode_each, get, get_batch,
  read_disk, read_disk_batch, max_batch, Result, ok, err, out_of_range, read_at,
}
use agent_tool.MatchStore.Encode.{
  Fits, encode_each, length-encode_each, drop-encode_each, take-encode_each,
  decode_each-encode_each, decode-encode, length-encode,
}

-- A slice holds the matches themselves; a file their records, and what a failed write has left.
abbrev pub Stores : Storage → ℕ → List ScanMatch → Bytes → Type 0
Stores (in_memory ys) v xs rest = ys ≡ xs
Stores (on_disk file) v xs rest = file ≡ encode_each v xs ++ rest

-- The store holds the matches `xs`.
pub record Holds (ms : MatchStore) (xs : List ScanMatch) (rest : Bytes) : Type 0 where
  pub counts : ms.count ≡ length xs
  pub fits : All (Fits ms.v_size) xs
  pub stores : Stores ms.storage ms.v_size xs rest

All-drop : (v i : ℕ) (xs : List ScanMatch) → All (Fits v) xs → All (Fits v) (drop i xs)
All-drop v zero xs h = h
All-drop v (suc i) [] h = tt
All-drop v (suc i) (x ∷ xs) (hx, h) = All-drop v i xs h

All-take : (v i : ℕ) (xs : List ScanMatch) → All (Fits v) xs → All (Fits v) (take i xs)
All-take v zero xs h = tt
All-take v (suc i) [] h = tt
All-take v (suc i) (x ∷ xs) (hx, h) = (hx, All-take v i xs h)

-- The bytes of the records from `i` on, `n` of them.
read_at-encode_each :
    (v i n : ℕ) (xs : List ScanMatch) (rest : Bytes)
    → All (Fits v) xs
    → i + n ≤ length xs
    → read_at (encode_each v xs ++ rest) (n * rec_sz v) (i * rec_sz v)
      ≡ encode_each v (take n (drop i xs))
read_at-encode_each v i n xs rest fits within =
    let all : length (encode_each v xs) ≡ length xs * rec_sz v = length-encode_each v xs fits in
    let start : i * rec_sz v ≤ length xs * rec_sz v =
      mul-le-mul_right (rec_sz v) (omega (arith, within)) in
    let before : i * rec_sz v - length (encode_each v xs) ≡ 0 = omega (arith, all, start) in
    let tail : length (encode_each v (drop i xs)) ≡ length (drop i xs) * rec_sz v =
      length-encode_each v (drop i xs) (All-drop v i xs fits) in
    let stop : n * rec_sz v ≤ length (drop i xs) * rec_sz v =
      mul-le-mul_right (rec_sz v) (omega (arith, within, length-drop i xs)) in
    let inside : n * rec_sz v - length (encode_each v (drop i xs)) ≡ 0 =
      omega (arith, tail, stop) in
    rw
      (
        drop-append (i * rec_sz v) (encode_each v xs) rest,
        before,
        drop-encode_each v i xs fits,
        take-append (n * rec_sz v) (encode_each v (drop i xs)) rest,
        inside,
        append-nil,
        take-encode_each v n (drop i xs) (All-drop v i xs fits),
      )
      refl

abbrev pub outcome : Option ScanMatch → Result ScanMatch
outcome none = err out_of_range
outcome (some m) = ok m

get_elem_none : (xs : List ScanMatch) (i : ℕ) → length xs ≤ i → get_elem? xs i ≡ none
get_elem_none [] i h = refl
get_elem_none (x ∷ xs) zero h = absurd (omega (arith, h))
get_elem_none (x ∷ xs) (suc i) h = get_elem_none xs i (omega (arith, h))

get_elem_some :
    (xs : List ScanMatch) (i : ℕ)
    → i < length xs
    → (m : ScanMatch) × (get_elem? xs i ≡ some m) × (take 1 (drop i xs) ≡ m ∷ [])
get_elem_some [] i h = absurd (omega (arith, h))
get_elem_some (x ∷ xs) zero h = (x, refl, refl)
get_elem_some (x ∷ xs) (suc i) h = get_elem_some xs i (omega (arith, h))

-- The record of one match.
record_at :
    (v i : ℕ) (xs : List ScanMatch) (rest : Bytes)
    → All (Fits v) xs
    → i < length xs
    → (m : ScanMatch) × (get_elem? xs i ≡ some m)
      × Fits v m
      × (read_at (encode_each v xs ++ rest) (rec_sz v) (i * rec_sz v) ≡ encode v m)
unfolding encode_each
record_at v i xs rest fits within =
    let (m, found, one) = get_elem_some xs i within in
    let single : 1 * rec_sz v ≡ rec_sz v = omega arith in
    let fits_m : Fits v m =
      (subst (λ ys. All (Fits v) ys) one (All-take v 1 (drop i xs) (All-drop v i xs fits))).0 in
    let read = read_at-encode_each v i 1 xs rest fits (omega (arith, within)) in
    let alone = rw (single, one) at read in (m, found, fits_m, alone ∙ append-nil (encode v m))

read_disk-encode_each :
    (ms : MatchStore) (i : ℕ) (xs : List ScanMatch) (rest : Bytes)
    → All (Fits ms.v_size) xs
    → i < length xs
    → read_disk ms (encode_each ms.v_size xs ++ rest) i ≡ outcome (get_elem? xs i)
unfolding read_disk
read_disk-encode_each ms i xs rest fits within =
    let (m, found, fits_m, read) = record_at ms.v_size i xs rest fits within in
    let len = length-encode ms.v_size m fits_m in
    let full : ltb (rec_sz ms.v_size) (rec_sz ms.v_size) ≡ false = ground arith in
    rw (read, len, full, decode-encode ms.v_size m fits_m, found) refl

get-in_range :
    (s : Storage) (n v i : ℕ) (xs : List ScanMatch) (rest : Bytes)
    → leb n i ≡ false
    → i < length xs
    → All (Fits v) xs
    → Stores s v xs rest
    → get (record { storage = s; count = n; v_size = v }) i ≡ outcome (get_elem? xs i)
unfolding get
get-in_range (in_memory ys) n v i xs rest inside within fits stores =
    let (m, found, one) = get_elem_some xs i within in rw (inside, stores, found) refl
get-in_range (on_disk file) n v i xs rest inside within fits stores =
    rw (inside, stores)
      (read_disk-encode_each
        (record { storage = on_disk (encode_each v xs ++ rest); count = n; v_size = v }) i xs rest
        fits within)

-- Reading a store that holds `xs` by index gives the match of that index, in memory and on disk, and an error exactly where
-- there is none. It does so too where a failed write has left bytes behind the records.
pub get_lem :
    (ms : MatchStore) (xs : List ScanMatch) (rest : Bytes) (i : ℕ)
    → Holds ms xs rest
    → get ms i ≡ outcome (get_elem? xs i)
get_lem ms xs rest i h = elim (Bool-cases (leb ms.count i)) [
  | inl past ↦
      let counts = h.counts in
      let none_there = get_elem_none xs i (ground (arith, past, counts)) in
      unfold get in rw (past, none_there) refl
  | inr inside ↦
      let counts = h.counts in
      get-in_range ms.storage ms.count ms.v_size i xs rest inside (ground (arith, inside, counts))
        h.fits h.stores
]

-- A batch on disk, of records that are there.
read_disk_batch-encode_each :
    (ms : MatchStore) (start n : ℕ) (xs : List ScanMatch) (rest : Bytes)
    → All (Fits ms.v_size) xs
    → start + n ≤ length xs
    → n ≤ max_batch
    → read_disk_batch ms (encode_each ms.v_size xs ++ rest) start n ≡ ok (take n (drop start xs))
unfolding read_disk_batch
read_disk_batch-encode_each ms start n xs rest fits within small =
    let v = ms.v_size in
    let part = take n (drop start xs) in
    let part_fits = All-take v n (drop start xs) (All-drop v start xs fits) in
    let size : length part ≡ n =
      omega (arith, length-take n (drop start xs), length-drop start xs, within) in
    let len : length (encode_each v part) ≡ n * rec_sz v =
      length-encode_each v part part_fits ∙ ap (λ k. k * rec_sz v) size in
    let uncapped : ltb max_batch n ≡ false = ground (arith, small) in
    let full : ltb (n * rec_sz v) (n * rec_sz v) ≡ false = ground arith in
    let whole : n * rec_sz v / rec_sz v ≡ n = mul-div_cancel n (omega arith) in
    let decoded : decode_each v n (encode_each v part) ≡ part =
      subst (λ k. decode_each v k (encode_each v part) ≡ part) size
        (decode_each-encode_each v part part_fits) in
    rw (uncapped, read_at-encode_each v start n xs rest fits within, len, full, whole, decoded) refl

abbrev clamped : ℕ → ℕ → ℕ → ℕ
clamped count start n = if ltb count (start + n) then count - start else n

take-clamped :
    (count start n : ℕ) (xs : List ScanMatch)
    → count ≡ length xs
    → take (clamped count start n) (drop start xs) ≡ take n (drop start xs)
take-clamped count start n xs counts = elim (Bool-cases (ltb count (start + n))) [
  | inl over ↦
      let size = length-drop start xs in
      rw over (
        take_all (count - start) (drop start xs) (omega (arith, size, counts))
        ∙ sym (take_all n (drop start xs) (ground (arith, size, counts, over))))
  | inr within ↦ rw within refl
]

get_batch-in_range :
    (s : Storage) (count v start n : ℕ) (xs : List ScanMatch) (rest : Bytes)
    → count ≡ length xs
    → leb count start ≡ false
    → n ≤ max_batch
    → All (Fits v) xs
    → Stores s v xs rest
    → get_batch (record { storage = s; count = count; v_size = v }) start n
      ≡ ok (take n (drop start xs))
unfolding get_batch
get_batch-in_range (in_memory ys) count v start n xs rest counts inside small fits stores =
    rw (inside, stores) (ap ok (take-clamped count start n xs counts))
get_batch-in_range (on_disk file) count v start n xs rest counts inside small fits stores =
    let k = clamped count start n in
    let within : start + k ≤ length xs = ground (arith, inside, counts) in
    let small_k : k ≤ max_batch = ground (arith, small, inside) in
    rw (inside, stores)
      (read_disk_batch-encode_each
          (record { storage = on_disk (encode_each v xs ++ rest); count = count; v_size = v }) start
          k xs rest fits within small_k
        ∙ ap ok (take-clamped count start n xs counts))

-- A batch of at most 100,000 from a store that holds `xs` is the matches of `xs` from `start` on, as
-- many as there are, in memory and on disk.
pub get_batch_lem :
    (ms : MatchStore) (xs : List ScanMatch) (rest : Bytes) (start n : ℕ)
    → Holds ms xs rest
    → n ≤ max_batch
    → get_batch ms start n ≡ ok (take n (drop start xs))
get_batch_lem ms xs rest start n h small = elim (Bool-cases (leb ms.count start)) [
  | inl past ↦
      let counts = h.counts in
      let nothing : drop start xs ≡ [] = drop_all start xs (ground (arith, past, counts)) in
      unfold get_batch in rw (past, nothing, take-nil n) refl
  | inr inside ↦
      get_batch-in_range ms.storage ms.count ms.v_size start n xs rest h.counts inside small h.fits
        h.stores
]
