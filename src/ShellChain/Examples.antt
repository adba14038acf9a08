-- ===== src/ShellChain/Examples.antt =====
-- tools/bash/chainops.go and tools/bash/shell_windows.go: commands, and the theorems at concrete
-- inputs.
use agent_tool.Base.{
  ◌≡◌, refl, true, false, List, [], ◌∷◌, ◌++◌, map, some, inl, arith, Bytes, codes, All, trim_space,
  trim_white, white_front, white_back, white_first, white_last, bytes_eq,
}
use agent_tool.ShellChain.{
  parse_chain_ops, scan_command, new_scan, round, track, track_single, track_double, track_parens,
  write_byte, cut, finish_parse, build_ps_chain_ops, ps_rest, delegate_to_git_bash, escape_quotes,
  has_empty_segment, any_empty,
}
use agent_tool.ShellChain.Pieces.{trimmed, glue, IsSplitOf, parse_chain_ops-IsSplitOf}
use agent_tool.ShellChain.Plain.{
  Word, plain, single, text_of, Link, segment_of, IsLink, parse_chain_ops-glue,
}
use agent_tool.ShellChain.Literal.{read_literal, delegate_to_git_bash-read_literal}

two_commands : parse_chain_ops (codes "a && b") ≡ record {
  segments =
      record { text = codes "a"; op = codes "&&" } ∷ (record { text = codes "b"; op = [] } ∷ []);
  has_nested_ops = false;
}
unfolding parse_chain_ops scan_command round track track_single track_double track_parens write_byte
    cut new_scan finish_parse trim_space trim_white white_front white_back white_first white_last
two_commands = refl

nested :
    parse_chain_ops (codes "(a || b)")
    ≡ record { segments = record { text = codes "(a || b)"; op = [] } ∷ []; has_nested_ops = true }
unfolding parse_chain_ops scan_command round track track_single track_double track_parens write_byte
    cut new_scan finish_parse trim_space trim_white white_front white_back white_first white_last
nested = refl

nothing_first : has_empty_segment (parse_chain_ops (codes "&& b")) ≡ true
unfolding parse_chain_ops has_empty_segment any_empty bytes_eq scan_command round track track_single
    track_double track_parens write_byte cut new_scan finish_parse trim_space trim_white white_front
    white_back white_first white_last
nothing_first = refl

if_it_fails :
    build_ps_chain_ops (parse_chain_ops (codes "a||b")).segments
    ≡ codes "$global:LASTEXITCODE=0; a; if($global:LASTEXITCODE -ne 0){ b }"
unfolding parse_chain_ops build_ps_chain_ops ps_rest bytes_eq scan_command round track track_single
    track_double track_parens write_byte cut new_scan finish_parse trim_space trim_white white_front
    white_back white_first white_last
if_it_fails = refl

-- `a '&&' && b`.
abbrev one_link : List Link
one_link =
    record {
      words = plain b'a' ∷ (plain b' ' ∷ (single (codes "&&") ∷ (plain b' ' ∷ [])));
      op = codes "&&";
    }
    ∷ []

abbrev last_words : List Word
last_words = plain b' ' ∷ (plain b'b' ∷ [])

one_link-IsLink : All IsLink one_link
one_link-IsLink = (
  (
    (ground arith, (ground arith, ((ground arith, (ground arith, tt)), (ground arith, tt)))),
    inl refl,
  ),
  tt,
)

parse_chain_ops-glue_example :
    parse_chain_ops (glue (map segment_of one_link) ++ text_of last_words) ≡ record {
      segments =
          map trimmed (map segment_of one_link)
          ++ (record { text = trim_space (text_of last_words); op = [] } ∷ []);
      has_nested_ops = false;
    }
parse_chain_ops-glue_example =
    parse_chain_ops-glue one_link last_words one_link-IsLink (ground arith, (ground arith, tt))

parse_chain_ops-IsSplitOf_example :
    IsSplitOf (codes "a && b") (parse_chain_ops (codes "a && b")).segments
parse_chain_ops-IsSplitOf_example = parse_chain_ops-IsSplitOf (codes "a && b")

-- A curly quote in a command ends the literal, and PowerShell reads what follows as its own text.
curly_quote_ends :
    read_literal (escape_quotes (codes "a" ++ (0x2019 ∷ codes ";b")) ++ codes "'")
    ≡ some (codes "a", codes ";b'")
unfolding read_literal escape_quotes
curly_quote_ends = refl

delegate_to_git_bash-read_literal_example :
    (s t : Bytes) × (delegate_to_git_bash (codes "echo 'it'") (codes "bash") ≡ codes "& '" ++ s)
    × (read_literal s ≡ some (codes "bash", codes " -c '" ++ t))
    × (read_literal t ≡ some (codes "echo 'it'", []))
delegate_to_git_bash-read_literal_example =
    delegate_to_git_bash-read_literal (codes "echo 'it'") (codes "bash")
      (refl, (refl, (refl, (refl, tt))))
      (refl, (refl, (refl, (refl, (refl, (refl, (refl, (refl, (refl, tt)))))))))
