-- ===== src/Capture.antt =====
-- common/capture.go: `BoundedCapture`, a writer that keeps the head and the tail of a byte stream.
-- The mutex makes each method atomic, so a run is a sequence of calls.
pub mod Stream
pub mod Examples
use Prim.Native.String.{String}
use text.Mathlib.Text.{◌==◌ as str_eq}
use agent_tool.Base.{
  ℕ, ◌+◌, ◌-◌, ◌/◌, Bool, true, false, ◌&&◌, List, [], ◌∷◌, ◌++◌, ltb, ◌==◌, leb, if◌then◌else◌,
  Bytes, length, take, drop, last_n, codes,
}
use agent_tool.Base.Decimal.{decimal}
use agent_tool.Base.Int.{ℤ, pos, negsuc}
use agent_tool.Base.Utf8.{to_valid_utf8}

pub data Mode : Type 0 where
  head tail head_tail : Mode

-- The field `mode` holds one of three strings.
unfoldable pub parse_mode : String → Mode
parse_mode s = if str_eq s "head" then head else if str_eq s "tail" then tail else head_tail

pub record BoundedCapture : Type 0 where
  pub limit : ℕ
  pub mode : Mode
  pub total : ℕ
  pub head_bytes : Bytes
  pub tail_bytes : Bytes

abbrev pub empty_capture : ℕ → Mode → BoundedCapture
empty_capture limit m = record {
  limit = limit;
  mode = m;
  total = 0;
  head_bytes = [];
  tail_bytes = [];
}

-- `NewBoundedCaptureMode`.
unfoldable pub new_bounded_capture_mode : ℤ → String → BoundedCapture
unfolding parse_mode
new_bounded_capture_mode (pos n) s = empty_capture n (parse_mode s)
new_bounded_capture_mode (negsuc n) s = empty_capture 0 (parse_mode s)

unfoldable pub head_limit : Mode → ℕ → ℕ
head_limit head limit = limit
head_limit tail limit = 0
head_limit head_tail limit = (limit + 1) / 2

unfoldable pub tail_limit : Mode → ℕ → ℕ
tail_limit head limit = 0
tail_limit tail limit = limit
tail_limit head_tail limit = limit / 2

-- The head takes what it has room for, and hands on the rest of `p`.
unfoldable pub fill_head : ℕ → Bytes → Bytes → Bytes × Bytes
fill_head room held p =
    if ltb (length held) room
    then (held ++ take (room - length held) p, drop (room - length held) p)
    else (held, p)

unfoldable pub fill_tail : ℕ → Bytes → Bytes → Bytes
fill_tail room held p =
    if ltb 0 room && ltb 0 (length p)
    then (if ltb room (length (held ++ p)) then last_n room (held ++ p) else held ++ p)
    else held

-- `Write`: the new state and the count that is returned.
unfoldable pub write : BoundedCapture → Bytes → BoundedCapture × ℕ
write c p =
    if c.limit == 0
    then (record c { total = c.total + length p }, length p)
    else let filled = fill_head (head_limit c.mode c.limit) c.head_bytes p in
      (
        record c {
          total = c.total + length p;
          head_bytes = filled.0;
          tail_bytes = fill_tail (tail_limit c.mode c.limit) c.tail_bytes filled.1;
        },
        length p,
      )

unfoldable pub marker : ℕ → ℕ → Bytes
marker total limit =
    codes "\n...[truncated; original_bytes="
    ++ (decimal total ++ (codes "; retained_bytes=" ++ (decimal limit ++ codes "]...\n")))

-- `Result`: the text, the count of bytes written, and whether some were dropped.
unfoldable pub result : BoundedCapture → Bytes × ℕ × Bool
unfolding marker
result c =
    if ltb c.limit c.total
    then (
      to_valid_utf8
          (to_valid_utf8 c.head_bytes ++ (marker c.total c.limit ++ to_valid_utf8 c.tail_bytes)),
      c.total,
      true,
    )
    else (to_valid_utf8 (c.head_bytes ++ c.tail_bytes), c.total, false)

-- A run of writes.
unfoldable pub write_all : BoundedCapture → List Bytes → BoundedCapture
unfolding write
write_all c [] = c
write_all c (p ∷ ps) = write_all (write c p).0 ps
