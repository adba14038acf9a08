-- ===== src/Capture/Stream.antt =====
-- What the capture holds after any run of writes, in terms of the whole stream.
use mathlib.Core.List.{flatten}
use agent_tool.Base.{
  ℕ, zero, suc, ◌+◌, ◌-◌, ◌<◌, ◌≤◌, true, false, [], ◌∷◌, ◌++◌, List, ◌≡◌, refl, sym, ap, ◌∙◌, inl,
  inr, arith, Bytes, Bool-cases, ltb, ◌==◌, append-nil, append_assoc, length, take, drop, last_n,
  length-append, length-take, length-drop, take_all, drop_all, take-append, drop-append, drop-drop,
  take-nil, drop-nil, take-append-drop, ◌↔◌,
}
use agent_tool.Base.Utf8.{IsUtf8, to_valid_utf8-IsUtf8}
use agent_tool.Capture.{
  Mode, BoundedCapture, empty_capture, head_limit, tail_limit, fill_head, fill_tail, write,
  write_all, result,
}

fill_head-take : (room : ℕ) (s p : Bytes) → (fill_head room (take room s) p).0 ≡ take room (s ++ p)
unfolding fill_head
fill_head-take room s p = elim (Bool-cases (ltb (length (take room s)) room)) [
  | inl more ↦
      let short : length s < room = ground (arith, length-take room s) in
      rw (more, take-append room s p, take_all room s (omega arith)) refl
  | inr full ↦
      let long : room ≤ length s = ground (arith, length-take room s) in
      let e : room - length s ≡ 0 = omega arith in
      rw (full, take-append room s p, e) (sym (append-nil _))
]

fill_head-drop :
    (room : ℕ) (s p : Bytes)
    → drop room s ++ (fill_head room (take room s) p).1 ≡ drop room (s ++ p)
unfolding fill_head
fill_head-drop room s p = elim (Bool-cases (ltb (length (take room s)) room)) [
  | inl more ↦
      let short : length s < room = ground (arith, length-take room s) in
      rw (more, drop-append room s p, take_all room s (omega arith)) refl
  | inr full ↦
      let long : room ≤ length s = ground (arith, length-take room s) in
      let e : room - length s ≡ 0 = omega arith in rw (full, drop-append room s p, e) refl
]

last_n-last_n : (n : ℕ) (d q : Bytes) → last_n n (last_n n d ++ q) ≡ last_n n (d ++ q)
last_n-last_n n d q =
    let k = length d - n in
    let e : k - length d ≡ 0 = omega arith in
    let split : last_n n d ++ q ≡ drop k (d ++ q) = rw (drop-append k d q, e) in
    let len : length (drop k (d ++ q)) ≡ length (d ++ q) - k = length-drop k (d ++ q) in
    let sum : k + (length (d ++ q) - k - n) ≡ length (d ++ q) - n =
      omega (arith, length-append d q) in
    rw (split, len, drop-drop (length (d ++ q) - k - n) k (d ++ q), sum) refl

last_n_short : (n : ℕ) (s : Bytes) → length s ≤ n → last_n n s ≡ s
last_n_short n s h = let e : length s - n ≡ 0 = omega arith in rw e

fill_tail-last_n :
    (room : ℕ) (d q : Bytes) → fill_tail room (last_n room d) q ≡ last_n room (d ++ q)
unfolding fill_tail
fill_tail-last_n zero d q = drop_all _ d (omega arith) ∙ sym (drop_all _ (d ++ q) (omega arith))
fill_tail-last_n (suc n) d [] = rw (append-nil d) (ground arith)
fill_tail-last_n (suc n) d (c ∷ q) =
    ground
      (arith, last_n-last_n (suc n) d (c ∷ q), last_n_short (suc n) (last_n (suc n) d ++ c ∷ q))

-- The capture `c` of the stream `s` in a mode and with a limit.
pub record Holds (limit : ℕ) (m : Mode) (c : BoundedCapture) (s : Bytes) : Type 0 where
  pub limit_is : c.limit ≡ limit
  pub mode_is : c.mode ≡ m
  pub total_is : c.total ≡ length s
  pub head_is : c.head_bytes ≡ take (head_limit m limit) s
  pub tail_is : c.tail_bytes ≡ last_n (tail_limit m limit) (drop (head_limit m limit) s)

-- With no room both parts stay empty.
no_room : (m : Mode) → (head_limit m 0 ≡ 0) × (tail_limit m 0 ≡ 0)
unfolding head_limit tail_limit
no_room Mode.head = (refl, refl)
no_room Mode.tail = (refl, refl)
no_room Mode.head_tail = (refl, refl)

last_n_zero : (s : Bytes) → last_n 0 s ≡ []
last_n_zero s = drop_all _ s (omega arith)

module _ (limit : ℕ) (m : Mode) (c : BoundedCapture) (s p : Bytes) (h : Holds limit m c s) where
  write-Holds_closed :
      c.limit ≡ 0 → Holds limit m (record c { total = c.total + length p }) (s ++ p)
  write-Holds_closed z =
      let l0 : limit ≡ 0 = sym h.limit_is ∙ z in
      let h0 : head_limit m limit ≡ 0 = rw l0 (no_room m).0 in
      let t0 : tail_limit m limit ≡ 0 = rw l0 (no_room m).1 in
      record {
        limit_is = h.limit_is;
        mode_is = h.mode_is;
        total_is = omega (arith, h.total_is, length-append s p);
        head_is = h.head_is ∙ rw h0;
        tail_is = h.tail_is ∙ rw (h0, t0) (last_n_zero s ∙ sym (last_n_zero (s ++ p)));
      }

  write-Holds_open :
      Holds limit m
        (record c {
          total = c.total + length p;
          head_bytes = (fill_head (head_limit c.mode c.limit) c.head_bytes p).0;
          tail_bytes =
              fill_tail
                (tail_limit c.mode c.limit)
                c.tail_bytes
                (fill_head (head_limit c.mode c.limit) c.head_bytes p).1;
        })
        (s ++ p)
  write-Holds_open =
      let room = head_limit m limit in
      record {
        limit_is = h.limit_is;
        mode_is = h.mode_is;
        total_is = omega (arith, h.total_is, length-append s p);
        head_is = rw (h.mode_is, h.limit_is, h.head_is) (fill_head-take room s p);
        tail_is =
            rw (h.mode_is, h.limit_is, h.head_is, h.tail_is)
              (fill_tail-last_n (tail_limit m limit) (drop room s)
                  (fill_head room (take room s) p).1
                ∙ ap (last_n (tail_limit m limit)) (fill_head-drop room s p));
      }

  write-Holds : Holds limit m (write c p).0 (s ++ p)
  unfolding write
  write-Holds = elim (Bool-cases (c.limit == 0)) [
    | inl z ↦ rw z (write-Holds_closed (ground arith))
    | inr n ↦ rw n write-Holds_open
  ]

write_all-Holds :
    (limit : ℕ) (m : Mode) (ps : List Bytes) (c : BoundedCapture) (s : Bytes)
    → Holds limit m c s
    → Holds limit m (write_all c ps) (s ++ flatten ps)
unfolding write_all flatten
write_all-Holds limit m [] c s h = rw append-nil h
write_all-Holds limit m (p ∷ ps) c s h =
    rw (← append_assoc s p (flatten ps))
      (write_all-Holds limit m ps (write c p).0 (s ++ p) (write-Holds limit m c s p h))

-- However a stream is cut into writes, a new capture has counted all of it, and holds its first
-- `head_limit` bytes and the last `tail_limit` bytes of the rest.
pub write_all_lem :
    (limit : ℕ) (m : Mode) (ps : List Bytes)
    → Holds limit m (write_all (empty_capture limit m) ps) (flatten ps)
write_all_lem limit m ps = write_all-Holds limit m ps (empty_capture limit m) [] (record {
  limit_is = refl;
  mode_is = refl;
  total_is = refl;
  head_is = sym (take-nil _);
  tail_is = rw (drop-nil (head_limit m limit)) (sym (drop-nil _));
})

head_limit-add-tail_limit : (m : Mode) (limit : ℕ) → head_limit m limit + tail_limit m limit ≡ limit
unfolding head_limit tail_limit
head_limit-add-tail_limit Mode.head limit = omega arith
head_limit-add-tail_limit Mode.tail limit = omega arith
head_limit-add-tail_limit Mode.head_tail limit = omega arith

-- The bytes retained never exceed the limit, whatever is written.
pub write_all_bounded :
    (limit : ℕ) (m : Mode) (ps : List Bytes)
    → let c = write_all (empty_capture limit m) ps in
      length c.head_bytes + length c.tail_bytes ≤ limit
write_all_bounded limit m ps =
    let h = write_all_lem limit m ps in
    let s = flatten ps in
    let rest = drop (head_limit m limit) s in
    let n = tail_limit m limit in
    rw (h.head_is, h.tail_is)
      (omega (
        arith,
        head_limit-add-tail_limit m limit,
        length-take (head_limit m limit) s,
        length-drop (length rest - n) rest,
      ))

take-append-last_n : (n k : ℕ) (s : Bytes) → length s ≤ n + k → take n s ++ last_n k (drop n s) ≡ s
take-append-last_n n k s h =
    rw (last_n_short k (drop n s) (omega (arith, length-drop n s))) (take-append-drop n s)

-- A stream of valid UTF-8 that fits the limit comes out of `Result` whole, not marked truncated.
pub result_whole :
    (limit : ℕ) (m : Mode) (ps : List Bytes)
    → length (flatten ps) ≤ limit
    → IsUtf8 (flatten ps)
    → result (write_all (empty_capture limit m) ps) ≡ (flatten ps, length (flatten ps), false)
unfolding result
result_whole limit m ps fits valid =
    let h = write_all_lem limit m ps in
    let s = flatten ps in
    let within : ltb limit (length s) ≡ false = ground arith in
    let whole =
      take-append-last_n (head_limit m limit) (tail_limit m limit) s
        (omega (arith, head_limit-add-tail_limit m limit)) in
    rw (h.limit_is, h.total_is, within, h.head_is, h.tail_is, whole, to_valid_utf8-IsUtf8 s valid)
      refl

-- `Result` reports the size of the stream, and says "truncated" exactly when it exceeds the limit.
pub result_count :
    (limit : ℕ) (m : Mode) (ps : List Bytes)
    → let r = result (write_all (empty_capture limit m) ps) in
      (r.1 ≡ length (flatten ps)) × ((r.2 ≡ true) ↔ (limit < length (flatten ps)))
unfolding result
result_count limit m ps =
    let c = write_all (empty_capture limit m) ps in
    let h = write_all_lem limit m ps in ground (arith, h.limit_is, h.total_is)
