-- ===== src/MatchStore/Adding.antt =====
-- tools/memtool/matchstore.go: adding matches, in memory, on disk and where the store moves.
use mathlib.Core.Path.{subst}
use agent_tool.Base.{
  ℕ, Bool, false, List, [], ◌∷◌, ◌++◌, Option, none, some, ◌≡◌, refl, sym, ap, ◌∙◌, ◌⊎◌, inl, inr,
  arith, leb, if◌then◌else◌, Bool-cases, Bytes, length, take, All, All-append, length-append,
  take_all, append-nil, append_assoc,
}
use agent_tool.MatchStore.{
  ScanMatch, Storage, in_memory, on_disk, MatchStore, Result, ok, err, StoreError, encode, add,
  append_match, append_disk, promote_to_disk, write_each, match_absolute_max, match_mem_threshold,
}
use agent_tool.MatchStore.Encode.{Fits, encode_each, encode_each-append}
use agent_tool.MatchStore.Contents.{Holds, Stores}

-- The matches of a store behind an addition: above the maximum it drops them.
abbrev pub kept : List ScanMatch → ScanMatch → List ScanMatch
kept xs m = if leb match_absolute_max (length xs) then xs else xs ++ m ∷ []

-- An addition adds the match, or fails and keeps what the store held.
pub Added : List ScanMatch → ScanMatch → MatchStore × Option StoreError → Type 0
Added xs m (ms, none) = Holds ms (kept xs m) []
Added xs m (ms, some e) = (rest : Bytes) × Holds ms xs rest

ne_err : {A : Type 0} {e : StoreError} {a : A} → ¬ (err e ≡ ok a)
ne_err h = cc

Result-cases :
    (r : Result Bytes) → ((e : StoreError) × (r ≡ err e)) ⊎ ((out : Bytes) × (r ≡ ok out))
Result-cases (err e) = inl (e, refl)
Result-cases (ok out) = inr (out, refl)

module _ (created : Bool) (accepted : Bytes → Bytes → ℕ) where
  write_each_lem :
      (v : ℕ) (file : Bytes) (xs : List ScanMatch) (out : Bytes)
      → write_each created accepted v file xs ≡ ok out
      → out ≡ file ++ encode_each v xs
  unfolding write_each encode_each
  write_each_lem v file [] out h = let same : out ≡ file = cc in same ∙ sym (append-nil file)
  write_each_lem v file (m ∷ xs) out h =
      let data' = encode v m in
      elim (Bool-cases (leb (length data') (accepted file data'))) [
        | inl full ↦
            let whole : take (accepted file data') data' ≡ data' =
              take_all (accepted file data') data' (ground (arith, full)) in
            let rest =
              write_each_lem v (file ++ data') xs out (rw (full, whole, write_each) at h) in
            rest ∙ append_assoc file data' (encode_each v xs)
        | inr short ↦ absurd (ne_err (rw (short, write_each) at h))
      ]

  append_match-Added :
      (s : Storage) (v : ℕ) (xs : List ScanMatch) (m : ScanMatch)
      → All (Fits v) xs
      → Fits v m
      → leb match_absolute_max (length xs) ≡ false
      → Stores s v xs []
      → Added xs m
          (append_match created accepted (record { storage = s; count = length xs; v_size = v }) m)
  unfolding append_match append_disk Added encode_each
  append_match-Added (in_memory ys) v xs m fits fits_m below stores = rw below (record {
    counts = omega (arith, length-append xs (m ∷ []));
    fits = All-append (Fits v) xs (m ∷ []) fits (fits_m, tt);
    stores = ap (λ zs. zs ++ m ∷ []) stores;
  })
  append_match-Added (on_disk file) v xs m fits fits_m below stores =
      let data' = encode v m in
      elim (Bool-cases (leb (length data') (accepted file data'))) [
        | inl full ↦
            let whole : take (accepted file data') data' ≡ data' =
              take_all (accepted file data') data' (ground (arith, full)) in
            rw (full, below)
              (record {
                counts = omega (arith, length-append xs (m ∷ []));
                fits = All-append (Fits v) xs (m ∷ []) fits (fits_m, tt);
                stores =
                    rw (whole, stores, encode_each-append v xs (m ∷ []))
                      (rw
                        (
                          append-nil (encode_each v xs),
                          append-nil data',
                          append-nil (encode_each v xs ++ data'),
                        )
                        refl);
              })
        | inr short ↦
            let part = take (accepted file data') data' in
            rw short (
              part,
              record {
                counts = refl;
                fits = fits;
                stores = rw (stores, append-nil (encode_each v xs)) refl;
              },
            )
      ]

  -- A failure of the move to the disk leaves the store as it was.
  promoted-Added :
      (v : ℕ) (xs : List ScanMatch) (m : ScanMatch)
      → All (Fits v) xs
      → Fits v m
      → leb match_absolute_max (length xs) ≡ false
      → Added xs m
          (elim (promote_to_disk created accepted
            (record { storage = in_memory xs; count = length xs; v_size = v })) [
              | err e ↦ (record { storage = in_memory xs; count = length xs; v_size = v }, some e)
              | ok ms ↦ append_match created accepted ms m
            ])
  unfolding promote_to_disk Added
  promoted-Added v xs m fits fits_m below = elim (Bool-cases created) [
    | inr refused ↦ rw refused ([], record { counts = refl; fits = fits; stores = refl })
    | inl there ↦ elim (Result-cases (write_each created accepted v [] xs)) [
      | inl (e, failed) ↦
          rw (failed, there) ([], record { counts = refl; fits = fits; stores = refl })
      | inr (out, written) ↦
          let file : out ≡ encode_each v xs ++ [] =
            write_each_lem v [] xs out written ∙ sym (append-nil (encode_each v xs)) in
          rw (written, there) (append_match-Added (on_disk out) v xs m fits fits_m below file)
    ]
  ]

  add_below :
      (s : Storage) (v : ℕ) (xs : List ScanMatch) (m : ScanMatch)
      → All (Fits v) xs
      → Fits v m
      → leb match_absolute_max (length xs) ≡ false
      → Stores s v xs []
      → Added xs m (add created accepted (record { storage = s; count = length xs; v_size = v }) m)
  unfolding add
  add_below (in_memory ys) v xs m fits fits_m below stores =
      elim (Bool-cases (leb match_mem_threshold (length xs))) [
        | inl crossed ↦
            let own : Added xs m (
                add created accepted
                  (record { storage = in_memory xs; count = length xs; v_size = v }) m) =
              rw (below, crossed) (promoted-Added v xs m fits fits_m below) in
            subst
              (λ zs. Added xs m (
                add created accepted
                  (record { storage = in_memory zs; count = length xs; v_size = v }) m))
              (sym stores) own
        | inr fewer ↦
            rw (below, fewer) (append_match-Added (in_memory ys) v xs m fits fits_m below stores)
      ]
  add_below (on_disk file) v xs m fits fits_m below stores =
      rw below (append_match-Added (on_disk file) v xs m fits fits_m below stores)

  add-stored :
      (s : Storage) (v : ℕ) (xs : List ScanMatch) (m : ScanMatch)
      → All (Fits v) xs
      → Fits v m
      → Stores s v xs []
      → Added xs m (add created accepted (record { storage = s; count = length xs; v_size = v }) m)
  unfolding add Added
  add-stored s v xs m fits fits_m stores = elim (Bool-cases (leb match_absolute_max (length xs))) [
    | inl over ↦ rw (over, over) (record { counts = refl; fits = fits; stores = stores })
    | inr below ↦ add_below s v xs m fits fits_m below stores
  ]

  -- Adding a match of the size of the session to a store that holds `xs`, with nothing in the file
  -- that an earlier failed write has left there, either succeeds, and the store holds `xs` and the
  -- match (above the maximum only `xs`), or fails, and the store still holds `xs`, whatever the
  -- failed write has left in the file. This includes the move from memory to disk.
  pub add_lem :
      (ms : MatchStore) (xs : List ScanMatch) (m : ScanMatch)
      → Holds ms xs []
      → Fits ms.v_size m
      → Added xs m (add created accepted ms m)
  add_lem ms xs m h fits_m =
      rw h.counts (add-stored ms.storage ms.v_size xs m h.fits fits_m h.stores)
