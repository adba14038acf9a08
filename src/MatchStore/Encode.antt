-- ===== src/MatchStore/Encode.antt =====
-- tools/memtool/matchstore.go: the records of the file.
use native.Mathlib.Nat.{pow-suc, suc-mul}
use agent_tool.Base.{
  ℕ, zero, suc, ◌+◌, ◌-◌, ◌*◌, ◌/◌, ◌^◌, ◌<◌, List, [], ◌∷◌, ◌++◌, ◌≡◌, refl, sym, ap, arith, Bytes,
  length, take, drop, replicate, All, length-append, take-append, take_all, drop-drop, drop-nil,
  take-nil, append_assoc, take-append_exact, drop-append_exact,
}
use agent_tool.MatchStore.{ScanMatch, rec_sz, put_uint, uint, encode, decode, decode_each}

-- A match of the session: a 64-bit address, and data of the size of a value.
abbrev pub Fits : ℕ → ScanMatch → Type 0
Fits v m = (m.address < 256 ^ 8) × (length m.prev_data ≡ v)

length-put_uint : (k n : ℕ) → length (put_uint k n) ≡ k
unfolding put_uint
length-put_uint zero n = refl
length-put_uint (suc k) n = ap suc (length-put_uint k (n / 256))

uint-put_uint : (k n : ℕ) → n < 256 ^ k → uint (put_uint k n) ≡ n
unfolding uint put_uint
uint-put_uint zero n h = omega (arith, h)
uint-put_uint (suc k) n h =
    let r = uint-put_uint k (n / 256) (omega (arith, pow-suc 256 k, h)) in rw r (omega arith)

take_padded : (v : ℕ) (s : Bytes) → length s ≡ v → take v (s ++ replicate v 0) ≡ s
take_padded v s h = take-append_exact v s (replicate v 0) h

pub length-encode : (v : ℕ) (m : ScanMatch) → Fits v m → length (encode v m) ≡ rec_sz v
unfolding encode
length-encode v m (small, size) = rw (take_padded v m.prev_data size) (
    omega
      (arith, length-append (put_uint 8 m.address) m.prev_data, length-put_uint 8 m.address, size))

-- Decoding the record of a match gives the match, for an address of 64 bits and data of the size of
-- a value.
pub decode-encode : (v : ℕ) (m : ScanMatch) → Fits v m → decode v (encode v m) ≡ m
unfolding encode decode
decode-encode v m (small, size) =
    let head = length-put_uint 8 m.address in
    rw
      (
        take_padded v m.prev_data size,
        take-append_exact 8 (put_uint 8 m.address) m.prev_data head,
        drop-append_exact 8 (put_uint 8 m.address) m.prev_data head,
        uint-put_uint 8 m.address small,
      )
      (rw (take_all v m.prev_data (omega (arith, size))) refl)

-- The file of a list of matches.
unfoldable pub encode_each : ℕ → List ScanMatch → Bytes
encode_each v [] = []
encode_each v (m ∷ ms) = encode v m ++ encode_each v ms

pub encode_each-append :
    (v : ℕ) (xs ys : List ScanMatch)
    → encode_each v (xs ++ ys) ≡ encode_each v xs ++ encode_each v ys
unfolding encode_each
encode_each-append v [] ys = refl
encode_each-append v (x ∷ xs) ys =
    rw (encode_each-append v xs ys)
      (sym (append_assoc (encode v x) (encode_each v xs) (encode_each v ys)))

pub length-encode_each :
    (v : ℕ) (xs : List ScanMatch)
    → All (Fits v) xs
    → length (encode_each v xs) ≡ length xs * rec_sz v
unfolding encode_each
length-encode_each v [] fits = omega arith
length-encode_each v (x ∷ xs) (fits, rest) =
    let r = length-encode_each v xs rest in
    omega (
      arith,
      length-append (encode v x) (encode_each v xs),
      length-encode v x fits,
      r,
      suc-mul (length xs) (rec_sz v),
    )

-- The records from the `i`th on start behind the bytes of `i` records.
pub drop-encode_each :
    (v i : ℕ) (xs : List ScanMatch)
    → All (Fits v) xs
    → drop (i * rec_sz v) (encode_each v xs) ≡ encode_each v (drop i xs)
unfolding encode_each
drop-encode_each v zero xs fits = let e : 0 * rec_sz v ≡ 0 = omega arith in rw e refl
drop-encode_each v (suc i) [] fits = drop-nil (suc i * rec_sz v)
drop-encode_each v (suc i) (x ∷ xs) (fits, rest) =
    let e : suc i * rec_sz v ≡ rec_sz v + i * rec_sz v = omega (arith, suc-mul i (rec_sz v)) in
    rw
      (
        e,
        ← drop-drop (i * rec_sz v) (rec_sz v) (encode v x ++ encode_each v xs),
        drop-append_exact (rec_sz v) (encode v x) (encode_each v xs) (length-encode v x fits),
      )
      (drop-encode_each v i xs rest)

pub take-encode_each :
    (v i : ℕ) (xs : List ScanMatch)
    → All (Fits v) xs
    → take (i * rec_sz v) (encode_each v xs) ≡ encode_each v (take i xs)
unfolding encode_each
take-encode_each v zero xs fits = let e : 0 * rec_sz v ≡ 0 = omega arith in rw e refl
take-encode_each v (suc i) [] fits = take-nil (suc i * rec_sz v)
take-encode_each v (suc i) (x ∷ xs) (fits, rest) =
    let e : suc i * rec_sz v ≡ rec_sz v + i * rec_sz v = omega (arith, suc-mul i (rec_sz v)) in
    let len = length-encode v x fits in
    let left : (rec_sz v + i * rec_sz v) - length (encode v x) ≡ i * rec_sz v =
      omega (arith, len) in
    rw
      (
        e,
        take-append (rec_sz v + i * rec_sz v) (encode v x) (encode_each v xs),
        left,
        take_all (rec_sz v + i * rec_sz v) (encode v x) (omega (arith, len)),
      )
      (ap (λ s. encode v x ++ s) (take-encode_each v i xs rest))

-- A buffer of records decodes to its matches.
pub decode_each-encode_each :
    (v : ℕ) (xs : List ScanMatch)
    → All (Fits v) xs
    → decode_each v (length xs) (encode_each v xs) ≡ xs
unfolding encode_each decode_each
decode_each-encode_each v [] fits = refl
decode_each-encode_each v (x ∷ xs) (fits, rest) =
    let len = length-encode v x fits in
    rw
      (
        take-append_exact (rec_sz v) (encode v x) (encode_each v xs) len,
        drop-append_exact (rec_sz v) (encode v x) (encode_each v xs) len,
        decode-encode v x fits,
        decode_each-encode_each v xs rest,
      )
      refl
