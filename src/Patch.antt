-- ===== src/Patch.antt =====
-- tools/patch/handler.go: splitting a file into lines, applying hunks, and putting it together.
-- A Go slice index that the code has checked is `get_elem?`; messages are constructors.
pub mod Parse
pub mod Split
pub mod Hunks
pub mod Refine
pub mod Examples
use mathlib.Core.List.{reverse}
use agent_tool.LineEnding.{detect_line_ending, ending_text}
use agent_tool.Base.{
  ℕ, zero, suc, ◌+◌, ◌-◌, Bool, true, false, not, ◌&&◌, ◌||◌, List, [], ◌∷◌, ◌++◌, Option, none,
  some, ltb, leb, ◌==◌, if◌then◌else◌, Bytes, bytes_eq, length, get_elem?, take, drop, codes,
}

-- The byte `op` of the source: ' ', '-' or '+'.
pub data Op : Type 0 where
  keep delete insert : Op

pub record HunkLine : Type 0 where
  pub op : Op
  pub text : Bytes

pub record Hunk : Type 0 where
  pub src_start : ℕ
  pub src_count : ℕ
  pub dst_start : ℕ
  pub dst_count : ℕ
  pub lines : List HunkLine

pub record SrcLine : Type 0 where
  pub text : Bytes
  pub term : Bytes

-- The refusals of the apply loop, with the hunk's number and the line.
pub data ApplyError : Type 0 where
  invalid_start : ℕ → ℕ → ApplyError
  start_past_end : ℕ → ℕ → ApplyError
  past_end : ℕ → ℕ → ApplyError
  mismatch : ℕ → ℕ → ApplyError
  out_of_range : ℕ → ℕ → ApplyError

pub data Applied {ℓ} (A : Type ℓ) : Type ℓ where
  ok : A → Applied A
  err : ApplyError → Applied A

infixl 5 ◌>>=◌
abbrev pub ◌>>=◌ {ℓ κ} : {A : Type ℓ} {B : Type κ} → Applied A → (A → Applied B) → Applied B
ok a >>= f = f a
err e >>= f = err e

abbrev pub lf : Bytes
lf = b'\n' ∷ []

abbrev pub crlf : Bytes
crlf = b'\r' ∷ b'\n' ∷ []

abbrev pub add_front : ℕ → SrcLine → SrcLine
add_front c l = record l { text = c ∷ l.text }

-- A line that a newline ends: a CR before the newline belongs to the terminator.
unfoldable pub terminated : Bytes → SrcLine
terminated [] = record { text = []; term = lf }
terminated (c ∷ []) =
    if c == b'\r' then record { text = []; term = crlf } else record { text = c ∷ []; term = lf }
terminated (c ∷ d ∷ s) = add_front c (terminated (d ∷ s))

-- The loop of `splitKeepingTerminators`, over the bytes since `start` and those that follow.
unfoldable pub split_from : Bytes → Bytes → List SrcLine
split_from [] [] = []
split_from (b ∷ cur) [] = record { text = b ∷ cur; term = [] } ∷ []
split_from cur (c ∷ s) = elim (c == b'\n') [
  | true ↦ terminated cur ∷ split_from [] s
  | false ↦ split_from (cur ++ c ∷ []) s
]

unfoldable pub split_keeping_terminators : Bytes → List SrcLine
unfolding split_from terminated
split_keeping_terminators content = split_from [] content

abbrev pub is_source : Op → Bool
is_source insert = false
is_source _ = true

-- The first loop over a hunk's lines: context and deletions must stand at `src_idx`. The result is
-- the index behind them.
unfoldable pub verify : ℕ → List SrcLine → ℕ → List HunkLine → Applied ℕ
verify n ls i [] = ok i
verify n ls i (h ∷ hs) =
    let stay = verify n ls i hs in
    let advance = verify n ls (suc i) hs in
    if is_source h.op
    then elim (get_elem? ls i) [
      | none ↦ err (past_end n (suc i))
      | some l ↦ if bytes_eq h.text l.text then advance else err (mismatch n (suc i))
    ]
    else stay

abbrev pub term_at : List SrcLine → ℕ → Bytes
term_at ls i = elim (get_elem? ls i) [ none ↦ [] | some l ↦ l.term ]

abbrev pub term_before : List SrcLine → ℕ → Bytes
term_before ls zero = []
term_before ls (suc i) = term_at ls i

abbrev pub or_else : Bytes → Bytes → Bytes
or_else [] d = d
or_else (c ∷ s) d = c ∷ s

-- The terminator of an added line: of the line it replaces, of the next one, of the one before, or
-- the file's dominant one.
unfoldable pub pick_term : Bytes → List SrcLine → ℕ → Bytes → Bytes
pick_term replaced ls i dominant =
    or_else replaced (or_else (term_at ls i) (or_else (term_before ls i) dominant))

-- The second loop over a hunk's lines, which builds `newLines`.
unfoldable pub build : ℕ → Bytes → List SrcLine → ℕ → Bytes → List HunkLine → Applied (List SrcLine)
unfolding pick_term
build n dominant ls i replaced [] = ok []
build n dominant ls i replaced (h ∷ hs) = elim h.op [
  | keep ↦ elim (get_elem? ls i) [
    | none ↦ err (out_of_range n (suc i))
    | some l ↦ build n dominant ls (suc i) [] hs >>= λ rest. ok (l ∷ rest)
  ]
  | delete ↦ elim (get_elem? ls i) [
    | none ↦ err (out_of_range n (suc i))
    | some l ↦ build n dominant ls (suc i) l.term hs
  ]
  | insert ↦ build n dominant ls i replaced hs >>= λ rest.
      ok (record { text = h.text; term = pick_term replaced ls i dominant } ∷ rest)
]

-- One hunk, the `n`th. `startIdx` is `srcStart - 1`, which is negative for 0.
unfoldable pub apply_hunk : Bytes → ℕ → Hunk → List SrcLine → Applied (List SrcLine)
apply_hunk dominant n h ls =
    let start = h.src_start - 1 in
    if h.src_start == 0
    then err (invalid_start n h.src_start)
    else if ltb (length ls) start
    then err (start_past_end n h.src_start)
    else (do
      stop ← verify n ls start h.lines
      new ← build n dominant ls start [] h.lines
      ok (take start ls ++ (new ++ drop (start + (stop - start)) ls)))

-- The hunks from the last to the first; the list is in that order.
unfoldable pub apply_backwards : Bytes → List Hunk → List SrcLine → Applied (List SrcLine)
apply_backwards dominant [] ls = ok ls
apply_backwards dominant (h ∷ hs) ls = do
  ls' ← apply_hunk dominant (suc (length hs)) h ls
  apply_backwards dominant hs ls'

-- Putting the lines together again.
unfoldable pub render : Bool → Bytes → List SrcLine → Bytes
render ends dominant [] = []
render ends dominant (l ∷ []) = l.text ++ (if ends then or_else l.term dominant else [])
render ends dominant (l ∷ k ∷ ls) =
    l.text ++ (or_else l.term dominant ++ render ends dominant (k ∷ ls))

-- `strings.HasSuffix(content, "\n") || content == ""`.
unfoldable pub ends_with_newline : Bytes → Bool
ends_with_newline [] = true
ends_with_newline (c ∷ []) = c == b'\n'
ends_with_newline (c ∷ d ∷ s) = ends_with_newline (d ∷ s)

-- The part of `Handle` between reading the file and writing it: the new content.
unfoldable pub patch_content : Bytes → Bytes → List Hunk → Applied Bytes
patch_content dominant content hunks = do
  ls ← apply_backwards dominant (reverse hunks) (split_keeping_terminators content)
  ok (render (ends_with_newline content) dominant ls)

-- The same with the newline form of the file.
unfoldable pub patch_text : Bytes → List Hunk → Applied Bytes
patch_text content hunks = patch_content (ending_text (detect_line_ending content)) content hunks
