-- ===== src/LineEnding/Cursor.antt =====
-- common/lineending.go, `LineEndingCursor`: the newline form of a span, with what the cursor keeps
-- between queries.
use agent_tool.Base.Int.{ℤ, pos, negsuc}
use agent_tool.Base.{
  ℕ, zero, suc, ◌+◌, ◌-◌, Bool, true, false, not, ◌&&◌, ◌||◌, Option, none, some, ltb, ◌==◌,
  if◌then◌else◌, Bytes, length, get_elem?, max,
}
use agent_tool.LineEnding.{Ending, lf, crlf, cr, contains_byte, detect_line_ending}

-- `foundPos` and `foundKind`: nothing looked up yet (-2), no newline left (-1), or a newline.
pub data Found : Type 0 where
  unknown absent : Found
  found_at : ℕ → Ending → Found

pub record LineEndingCursor : Type 0 where
  pub content : Bytes
  pub fallback : Ending
  pub has_nl : Bool
  pub scan : ℕ
  pub found : Found
  pub last_end : ℕ
  pub final_kind : Option Ending
  pub final_done : Bool

abbrev pub fresh_cursor : Bytes → Ending → Bool → LineEndingCursor
fresh_cursor content fallback has_nl = record {
  content = content;
  fallback = fallback;
  has_nl = has_nl;
  scan = 0;
  found = unknown;
  last_end = 0;
  final_kind = none;
  final_done = false;
}

-- `NewLineEndingCursor`.
unfoldable pub new_line_ending_cursor : Bytes → LineEndingCursor
new_line_ending_cursor content =
    fresh_cursor content (detect_line_ending content)
      (contains_byte b'\r' content || contains_byte b'\n' content)

-- `content[i] == b`, false past the end.
unfoldable pub is_byte : Bytes → ℕ → ℕ → Bool
is_byte s i b = elim (get_elem? s i) [ none ↦ false | some c ↦ c == b ]

unfoldable pub is_byte_before : Bytes → ℕ → ℕ → Bool
is_byte_before s zero b = false
is_byte_before s (suc i) b = is_byte s i b

pub record Tally : Type 0 where
  pub count : ℕ
  pub at : ℕ

abbrev pub hit : ℕ → Tally → Tally
hit i t = record { count = t.count + 1; at = if t.count == 0 then i else t.at }

pub record Span : Type 0 where
  pub lfs : Tally
  pub crlfs : Tally
  pub crs : Tally

abbrev pub no_hits : Span
no_hits =
    let zero_tally : Tally = record { count = 0; at = 0 } in
    record { lfs = zero_tally; crlfs = zero_tally; crs = zero_tally }

-- The loop of `spanMajority`; the rounds are at most the bytes of the span.
unfoldable pub tally_span : ℕ → Bytes → ℕ → ℕ → Span → Span
tally_span zero s i end t = t
tally_span (suc f) s i end t =
    let crlf_here = tally_span f s (i + 2) end (record t { crlfs = hit i t.crlfs }) in
    let cr_here = tally_span f s (i + 1) end (record t { crs = hit i t.crs }) in
    let half = tally_span f s (i + 1) end (record t { crlfs = hit (i - 1) t.crlfs }) in
    let lf_here = tally_span f s (i + 1) end (record t { lfs = hit i t.lfs }) in
    let other = tally_span f s (i + 1) end t in
    if not (ltb i end)
    then t
    else if is_byte s i b'\r'
    then (if is_byte s (i + 1) b'\n' then crlf_here else cr_here)
    else if is_byte s i b'\n'
    then (if is_byte_before s i b'\r' then half else lf_here)
    else other

pub record Best : Type 0 where
  pub ending : Option Ending
  pub tally : Tally

-- One round over the candidates: the higher count wins, and in a tie the earlier place.
abbrev pub better : Ending → Tally → Best → Best
better e t best =
    if t.count == 0
    then best
    else if ltb best.tally.count t.count || t.count == best.tally.count && ltb t.at best.tally.at
    then record { ending = some e; tally = t }
    else best

unfoldable pub span_majority : Bytes → ℕ → ℕ → Option Ending
unfolding tally_span is_byte is_byte_before
span_majority s start end =
    let t = tally_span (end - start) s start end no_hits in
    (better cr t.crs (
      better lf t.lfs (
        better crlf t.crlfs
          (record { ending = none; tally = record { count = 0; at = 0 } })))).ending

-- The newline form at `i`, if there is a newline byte: either half of a CRLF reports CRLF.
unfoldable pub kind_at : Bytes → ℕ → Option Ending
kind_at s i =
    if is_byte s i b'\n'
    then some (if is_byte_before s i b'\r' then crlf else lf)
    else if is_byte s i b'\r'
    then some (if is_byte s (i + 1) b'\n' then crlf else cr)
    else none

-- The loop of `terminator` from `i` on, with the bytes left: the position and form of a newline.
unfoldable pub scan_from : Bytes → ℕ → ℕ → Option (ℕ × Ending)
scan_from s zero i = none
scan_from s (suc k) i =
    let rest = scan_from s k (suc i) in elim (kind_at s i) [ none ↦ rest | some e ↦ some (i, e) ]

-- Where the scan goes on behind the newline at `i`.
unfoldable pub behind_newline : Bytes → ℕ → ℕ
behind_newline s i =
    if is_byte s i b'\n' then i + 1 else if is_byte s (i + 1) b'\n' then i + 2 else i + 1

abbrev pub cached : LineEndingCursor → ℕ → Option Ending
cached c end = elim c.found [
  | unknown ↦ none
  | absent ↦ none
  | found_at place e ↦ if ltb end c.scan then some e else none
]

abbrev pub is_absent : Found → Bool
is_absent absent = true
is_absent _ = false

-- What the scan of `terminator` leaves in the cursor.
unfoldable pub keep_found :
    LineEndingCursor → Option (ℕ × Ending) → Option Ending × LineEndingCursor
keep_found c none = (none, record c { found = absent; scan = length c.content })
keep_found c (some (place, e)) =
    (some e, record c { found = found_at place e; scan = behind_newline c.content place })

unfoldable pub rescan : LineEndingCursor → ℕ → Option Ending × LineEndingCursor
rescan c end = let i = max end c.scan in keep_found c (scan_from c.content (length c.content - i) i)

unfoldable pub terminator : LineEndingCursor → ℕ → Option Ending × LineEndingCursor
terminator c end =
    if is_absent c.found
    then (none, c)
    else elim (cached c end) [ none ↦ rescan c end | some e ↦ (some e, c) ]

-- The loop of `final`, from the end.
unfoldable pub last_newline : Bytes → ℕ → Option Ending
last_newline s zero = none
last_newline s (suc i) =
    let rest = last_newline s i in
    if is_byte s i b'\n'
    then some (if is_byte_before s i b'\r' then crlf else lf)
    else if is_byte s i b'\r'
    then some cr
    else rest

unfoldable pub final : LineEndingCursor → Option Ending × LineEndingCursor
final c =
    if c.final_done
    then (c.final_kind, c)
    else let k = last_newline c.content (length c.content) in
      (k, record c { final_done = true; final_kind = k })

abbrev pub otherwise : Ending → Option Ending → Ending
otherwise e none = e
otherwise e (some d) = d

-- The end of `At`, from the outcome of `terminator` on.
unfoldable pub settle : Option Ending × LineEndingCursor → Ending × LineEndingCursor
settle (some e, c) = (e, c)
settle (none, c) = let f = final c in (otherwise c.fallback f.0, f.1)

-- A query that moves backwards forgets the scan.
unfoldable pub move_to : LineEndingCursor → ℕ → LineEndingCursor
move_to c end =
    if ltb end c.last_end
    then record c { scan = 0; found = unknown; last_end = end }
    else record c { last_end = end }

-- The clamps of a span: a negative start is 0, and an end is at most that of the content and at least
-- the start, so that a negative end is the start.
abbrev pub clamp_start : ℤ → ℕ
clamp_start (pos n) = n
clamp_start (negsuc n) = 0

abbrev pub clamp_end : Bytes → ℕ → ℤ → ℕ
clamp_end s start (pos end) = max start (if ltb (length s) end then length s else end)
clamp_end s start (negsuc end) = start

unfoldable pub at : LineEndingCursor → ℤ → ℤ → Ending × LineEndingCursor
at c start end =
    let begin = clamp_start start in
    let stop = clamp_end c.content begin end in
    let c' = move_to c stop in
    if not c.has_nl then (c.fallback, c) else elim (span_majority c.content begin stop) [
      | some e ↦ (e, c')
      | none ↦ settle (terminator c' stop)
    ]

-- `At` on two offsets, which are not negative.
abbrev pub at_offsets : LineEndingCursor → ℕ → ℕ → Ending × LineEndingCursor
at_offsets c start end = at c (pos start) (pos end)
