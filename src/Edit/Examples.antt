-- ===== src/Edit/Examples.antt =====
-- Runs of the conversions, and the theorems at concrete inputs.
use agent_tool.Base.{◌≡◌, refl, Bytes, codes, split, join, trim_left}
use agent_tool.Edit.{
  spaces_to_tabs, rescale_spaces, remove_tabs, on_lines, stripped, leading, spaces_to_tabs_line,
  rescale_line, remove_tabs_line,
}

to_tabs : spaces_to_tabs (codes "if x\n      y\n z") 4 ≡ codes "if x\n\t  y\n z"
unfolding spaces_to_tabs on_lines spaces_to_tabs_line leading stripped trim_left split join
to_tabs = refl

to_wider : rescale_spaces (codes "a\n  b\n     c") 2 4 ≡ codes "a\n    b\n         c"
unfolding rescale_spaces on_lines rescale_line leading stripped trim_left split join
to_wider = refl

fewer_tabs : remove_tabs (codes "\t\ta\n\tb") 2 ≡ codes "a\nb"
unfolding remove_tabs on_lines remove_tabs_line leading stripped trim_left split join
fewer_tabs = refl

abbrev tabbed : Bytes
tabbed = codes "a\n\t\tb\n"
