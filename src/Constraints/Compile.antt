-- ===== src/Constraints/Compile.antt =====
-- `compile` of rust/crates/hyperkitty-constraints/src/lib.rs.
use hyperkitty_constraint_ds.Prelude.{Text}
use hyperkitty_constraint_ds.Core.{Result, ◌>>=◌}
use hyperkitty_constraint_ds.Constraints.Unicode.{Unicode}
use hyperkitty_constraint_ds.Constraints.Lexer.{tokenize}
use hyperkitty_constraint_ds.Constraints.Parser.{parse}
use hyperkitty_constraint_ds.Constraints.Ast.{ConstraintProgram}

unfoldable pub compile : Unicode → Text → Result ConstraintProgram
compile u source = do tokens ← tokenize u source; parse tokens
