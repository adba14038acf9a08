-- ===== src/OutputCompact/Examples.antt =====
-- common/outputcompact.go: small outputs, and the theorems at concrete inputs.
use agent_tool.Base.{
  ◌+◌, ◌≡◌, refl, List, ◌++◌, some, Bytes, codes, join, replace_crlf, split, has_prefix, trim_space,
  trim_white, white_front, white_back, white_first, white_last, bytes_eq, index, length,
}
use agent_tool.Base.Decimal.{decimal}
use agent_tool.OutputCompact.{
  compact_diagnostic_output, normalize_output_view, input_lines_of, parse_git_line_ending_warning,
  ends_in_newline, compact_lines, fold_lines, without_last, warning_group, following_equal,
  is_diagnostic_line, any_holds, repeated_text, before_suffix, find_message, following_paths,
  format_git_line_ending_group,
}
use agent_tool.OutputCompact.Folds.{Folds}
use agent_tool.OutputCompact.Whole.{
  compact_diagnostic_output-Folds, compact_diagnostic_output_same, trailing,
}

reads_a_warning :
    parse_git_line_ending_warning (
      codes
        "warning: in the working copy of a.txt, LF will be replaced by CRLF the next time Git touches it")
    ≡ some (codes "a.txt", codes "LF will be replaced by CRLF the next time Git touches it")
unfolding parse_git_line_ending_warning has_prefix trim_space trim_white white_front white_back
    white_first white_last find_message before_suffix bytes_eq
reads_a_warning = refl

folds_errors :
    (compact_diagnostic_output (codes "error: x\nerror: x\nok\n")).text
    ≡ codes "error: x [x2]\nok\n"
unfolding compact_diagnostic_output compact_lines join fold_lines ends_in_newline replace_crlf
    without_last split warning_group parse_git_line_ending_warning has_prefix trim_space
    following_equal bytes_eq is_diagnostic_line any_holds repeated_text decimal index trim_white
    white_front white_back white_first white_last before_suffix find_message following_paths
    format_git_line_ending_group
folds_errors = refl

keeps_output : (compact_diagnostic_output (codes "a\na\n")).text ≡ codes "a\na\n"
unfolding compact_diagnostic_output compact_lines join fold_lines ends_in_newline replace_crlf
    without_last split warning_group parse_git_line_ending_warning has_prefix trim_space
    following_equal bytes_eq is_diagnostic_line any_holds repeated_text decimal index trim_white
    white_front white_back white_first white_last before_suffix find_message following_paths
    format_git_line_ending_group
keeps_output = refl

takes_the_default : normalize_output_view (codes " ") ≡ some (codes "compact")
unfolding normalize_output_view trim_space trim_white white_front white_back white_first white_last
    bytes_eq
takes_the_default = refl

compact_diagnostic_output-Folds_example :
    (out : List Bytes) × Folds (input_lines_of (replace_crlf (codes "error: x\nerror: x"))) out
    × ((compact_diagnostic_output (codes "error: x\nerror: x")).text
        ≡ join out (codes "\n") ++ trailing (replace_crlf (codes "error: x\nerror: x")))
    × ((compact_diagnostic_output (codes "error: x\nerror: x")).input_lines
        ≡ length (input_lines_of (replace_crlf (codes "error: x\nerror: x"))))
    × ((compact_diagnostic_output (codes "error: x\nerror: x")).output_lines ≡ length out)
    × ((compact_diagnostic_output (codes "error: x\nerror: x")).output_lines
          + (compact_diagnostic_output (codes "error: x\nerror: x")).omitted_lines
        ≡ (compact_diagnostic_output (codes "error: x\nerror: x")).input_lines)
compact_diagnostic_output-Folds_example =
    compact_diagnostic_output-Folds b'e' (codes "rror: x\nerror: x")

compact_diagnostic_output_same_example :
    (compact_diagnostic_output (codes "a\na\n")).text ≡ replace_crlf (codes "a\na\n")
unfolding compact_diagnostic_output compact_lines join fold_lines ends_in_newline replace_crlf
    without_last split warning_group parse_git_line_ending_warning has_prefix trim_space
    following_equal bytes_eq is_diagnostic_line any_holds repeated_text decimal index trim_white
    white_front white_back white_first white_last before_suffix find_message following_paths
    format_git_line_ending_group
compact_diagnostic_output_same_example = compact_diagnostic_output_same (codes "a\na\n") refl
