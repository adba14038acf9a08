-- ===== src/Lib.antt =====
-- The verification of agent-tool, an MCP server that offers file, shell, network and analysis tools.
--
-- A tool call is a request handled by tools/<name>/handler.go; the handlers share the packages of
-- common/. This library models the parts that decide what is written to a file and what is shown of
-- an output, each in a file of its own name with the proofs in the files below it:
--
--   Base        bytes, text operations of Go's `strings` package, decimals, UTF-8, integers.
--   Capture     common/capture.go. `BoundedCapture` is a record of the same fields; `write` is
--               `Write`, `result` is `Result`. The mutex makes every call one step.
--   RawOutput   common/rawoutput.go. `RawOutputStore` holds the map as a function and the slice
--               `order`; `put`, `get` and the two removals are functions of the store.
--   Patch       tools/patch/handler.go. Parsing of a unified diff (`parse_unified_diff`), splitting
--               (`split_keeping_terminators`), applying (`apply_hunk`, `apply_backwards`), rendering.
--   TextDiff    internal/textdiff/textdiff.go, the printer of the diffs that Patch parses.
--   LineEnding  common/lineending.go and the line-ending functions of common/fileutil.go. Patch takes
--               its dominant newline from here, and the edit tool searches the view `norm` and
--               translates its hits by `orig_offset`. LineEnding/Cursor is `LineEndingCursor`.
--               LineEnding/Newlines is the list of newlines that its majority is stated by.
--   MatchStore  tools/memtool/matchstore.go. The storage is a list or the bytes of a file. Whether a
--               temporary file can be made and how much of a write the system takes are parameters.
--   IpcPool     tools/ipc/pool.go. The map is an association list; each operation also returns the
--               handles that it closes.
--   SshJobs     tools/ssh/jobs.go. `Step` are the changes of one job: the worker's end (`finish`) and
--               requests (`cancel`), in any order; the table of jobs is an association list.
--   Edit        tools/edit/indent.go and `shiftTabs` of tools/edit/replace.go: the conversions of
--               indentation, each the change of a line (`..._line`) applied to all lines. Edit/Detect is
--               the detection of a style, Edit/Replace is `Replace` with its passes and `applySpans`.
--   PatternSearch  tools/analyze/pattern.go. `search_file` and `search_chunk` are the two loops of
--               `opPatternSearch`, over the bytes of a file; a hit is its offset.
--   ShellChain  tools/bash/chainops.go. `Scan` holds the variables of the loop of `parseChainOps`,
--               `round` is one turn of it; also the texts for PowerShell of shell_windows.go.
--   Sftp        tools/sftp/security.go; Sftp/Walk is the recursive delete of tools/sftp/operations.go,
--               over a tree of entries; what the client answers to a call is an argument.
--   OutputLimit common/outputlimit.go. A text is the list of its code points; `limit_contents` is the
--               loop of `LimitToolResultText`, with `remaining` and `markerWritten` as arguments.
--   OutputCompact  common/outputcompact.go. `fold_lines` is the loop of `CompactDiagnosticOutput`;
--               its regular expression is a prefix and one of four suffixes.
--   Navigate    common/navigate.go. `parse_parts` is the loop of `ParsePath`, `navigate_parts` that of
--               `Navigate` with its calls of itself behind a wildcard.
--   TextGuard   common/textguard.go: the counts of replacement and invisible characters, and
--               `safeCutIndex`; the table of combining marks is a parameter.
--   Ssrf        common/ssrf.go. The classes of addresses of package net are written out; the parser of
--               addresses and the resolver are parameters of `check_host_ssrf`.
--   BinDiff     tools/analyze/bindiff.go. `Diff` holds the rows and the counts of `opBinDiff`,
--               `diff_files` and `diff_chunk` are its loops.
--
-- A string is the list of its bytes, an `int` that cannot be negative a natural number; where the
-- source can meet a negative number it is an integer or the case is excluded and named. Locks are not
-- modelled: each modelled call runs under one mutex from its start to its end. Random bytes, the
-- clock and the opcodes of go-difflib are arguments.
--
-- Fuel: `make_room` gets one round more than there are entries, since each round drops one;
-- `tally_span` gets the length of the span, since each round reads at least a byte; `trim_white` gets the
-- length of the text; `walk` gets the
-- distance in the view; `search_file` gets the bytes of the file, `parse_parts`, `navigate_parts`,
-- `fold_lines` and `count_hits` at least the length of what they read, since each round takes a byte,
-- a part or a line.
--
-- Not modelled: the file, process and network access of the tools, the protocol layer, the readers of
-- executables among the analyzers, the code graph and the debugger.
mod Base
pub mod Capture
pub mod RawOutput
pub mod Patch
pub mod TextDiff
pub mod LineEnding
pub mod MatchStore
pub mod IpcPool
pub mod SshJobs
pub mod Edit
pub mod PatternSearch
pub mod ShellChain
pub mod Sftp
pub mod OutputLimit
pub mod OutputCompact
pub mod Navigate
pub mod TextGuard
pub mod Ssrf
pub mod BinDiff
