-- ===== src/Ere/Loops.antt =====
-- rust/crates/hyperkitty-ere/src/p3_loops.rs: the gate against loops without an end.
use hyperkitty_constraint_ds.Prelude.{
  is_empty, Text, codes, Bool, false, ◌&&◌, ◌||◌, not, List, [], ◌∷◌, ◌++◌, take, if◌then◌else◌,
}
use hyperkitty_constraint_ds.Prelude.Search.{contains, lines, join_lines}

-- A line that opens a loop whose next 50 lines, its own first, neither break nor return.
unfoldable pub opens_endless : List Text → Bool
unfolding contains join_lines
opens_endless [] = false
opens_endless (line ∷ rest) =
    let block = join_lines (take 50 (line ∷ rest)) in
    contains line (codes "loop {")
    && (not (contains block (codes "break")) && not (contains block (codes "return")))

-- The loop over the lines left, which stops at the first finding.
unfoldable pub has_endless : List Text → Bool
unfolding opens_endless
has_endless [] = false
has_endless (line ∷ rest) = opens_endless (line ∷ rest) || has_endless rest

unfoldable pub check_loops : Text → Bool × List Text
unfolding contains lines has_endless
check_loops artifact =
    let whiles =
      if contains artifact (codes "while(true)") || contains artifact (codes "while (true)")
      then codes "Infinite loop: while(true) detected" ∷ []
      else [] in
    let fors =
      if contains artifact (codes "for(;;)") || contains artifact (codes "for (;;)")
      then codes "Infinite loop: for(;;) detected" ∷ []
      else [] in
    let loops =
      if contains artifact (codes "loop {") && has_endless (lines artifact)
      then codes "Potential infinite loop: loop {} without break/return" ∷ []
      else [] in
    let findings = whiles ++ fors ++ loops in (is_empty findings, findings)
