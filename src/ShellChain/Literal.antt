-- ===== src/ShellChain/Literal.antt =====
-- tools/bash/shell_windows.go: the commands that PowerShell hands on in single quotes.
use agent_tool.Base.{
  ℕ, ◌≡◌, ◌≢◌, refl, Bool, false, ◌&&◌, ◌||◌, leb, [], ◌∷◌, ◌++◌, Option, none, some, arith, ◌==◌,
  inl, inr, if◌then◌else◌, Bool-cases, differs, Bytes, codes, All,
}
use mathlib.Core.Option
use agent_tool.ShellChain.{single_quote, escape_quotes, delegate_to_git_bash}

abbrev pub cons_text : ℕ → Bytes × Bytes → Bytes × Bytes
cons_text c (s, rest) = (c ∷ s, rest)

-- The quotes of U+2018 to U+201B, which PowerShell takes for single quotes too. The texts are lists of
-- code points here.
abbrev pub is_curly : ℕ → Bool
is_curly c = leb 0x2018 c && leb c 0x201b

abbrev pub is_quote : ℕ → Bool
is_quote c = c == single_quote || is_curly c

-- PowerShell's reading of a literal behind its opening quote: two quotes stand for the second of them,
-- and one quote ends it. The text and what follows the literal.
unfoldable pub read_literal : Bytes → Option (Bytes × Bytes)
read_literal [] = none
read_literal (c ∷ []) = if is_quote c then some ([], []) else none
read_literal (c ∷ d ∷ s) =
    let behind = read_literal s in
    let next = read_literal (d ∷ s) in
    if is_quote c
    then if is_quote d then Option.map (cons_text d) behind else some ([], d ∷ s)
    else Option.map (cons_text c) next

-- What stands behind a literal does not start with a quote.
abbrev pub IsBehind : Bytes → Type 0
IsBehind [] = Unit
IsBehind (c ∷ s) = is_quote c ≡ false

read_literal_quote : (s : Bytes) → IsBehind s → read_literal (single_quote ∷ s) ≡ some ([], s)
unfolding read_literal
read_literal_quote [] h = refl
read_literal_quote (d ∷ s) h = rw h refl

read_literal_cons :
    (c : ℕ) (s : Bytes)
    → is_quote c ≡ false
    → read_literal (c ∷ s) ≡ Option.map (cons_text c) (read_literal s)
unfolding read_literal
read_literal_cons c [] h = rw h refl
read_literal_cons c (d ∷ s) h = rw h refl

-- A quoted command is read back by the rule of PowerShell.
read_literal-escape_quotes :
    (s rest : Bytes)
    → All (λ c. is_curly c ≡ false) s
    → IsBehind rest
    → read_literal (escape_quotes s ++ (single_quote ∷ rest)) ≡ some (s, rest)
unfolding escape_quotes read_literal
read_literal-escape_quotes [] rest plain h = read_literal_quote rest h
read_literal-escape_quotes (c ∷ s) rest (straight, plain) h =
    let more = read_literal-escape_quotes s rest plain h in
    elim (Bool-cases (c == single_quote)) [
      | inl e ↦ let e' : c ≡ single_quote = ground arith in rw (e, e', read_literal, more) refl
      | inr e ↦
          let n : is_quote c ≡ false = rw (e, straight) refl in
          rw (e, read_literal_cons c (escape_quotes s ++ (single_quote ∷ rest)) n, more) refl
    ]

no_quote : (c : ℕ) → is_quote c ≡ false → (c ≢ single_quote) × (is_curly c ≡ false)
no_quote c h = (ground arith, ground arith)

quotes_straight : (s : Bytes) → All (λ c. is_quote c ≡ false) s → All (λ c. is_curly c ≡ false) s
quotes_straight [] h = tt
quotes_straight (c ∷ s) (h, hs) = ((no_quote c h).1, quotes_straight s hs)

escape_quotes_id : (s : Bytes) → All (λ c. is_quote c ≡ false) s → escape_quotes s ≡ s
unfolding escape_quotes
escape_quotes_id [] h = refl
escape_quotes_id (c ∷ s) (h, hs) =
    rw (differs c single_quote (no_quote c h).0, escape_quotes_id s hs) refl

-- PowerShell reads, behind the `& '` of the delegation to git-bash, the path of git-bash, where that
-- has no quote, and behind ` -c '` the command as it was given, with nothing after it, where the
-- command has none of the quotes U+2018 to U+201B. Straight quotes may stand in the command.
pub delegate_to_git_bash-read_literal :
    (command gb_path : Bytes)
    → All (λ c. is_quote c ≡ false) gb_path
    → All (λ c. is_curly c ≡ false) command
    → (s t : Bytes) × (delegate_to_git_bash command gb_path ≡ codes "& '" ++ s)
      × (read_literal s ≡ some (gb_path, codes " -c '" ++ t))
      × (read_literal t ≡ some (command, []))
unfolding delegate_to_git_bash
delegate_to_git_bash-read_literal command gb_path h plain =
    let t = escape_quotes command ++ codes "'" in
    let path : read_literal (gb_path ++ (single_quote ∷ (codes " -c '" ++ t)))
        ≡ some (gb_path, codes " -c '" ++ t) =
      rw (escape_quotes_id gb_path h) at (
        read_literal-escape_quotes gb_path (codes " -c '" ++ t) (quotes_straight gb_path h) refl) in
    (
      gb_path ++ (codes "' -c '" ++ t),
      t,
      refl,
      path,
      read_literal-escape_quotes command [] plain tt,
    )
