-- ===== src/Examples/Dsl.antt =====
-- The older language on small inputs.
use hyperkitty_constraint_ds.Prelude.{◌≡◌, ◌↔◌, refl, codes, List, [], ◌∷◌, All}
use hyperkitty_constraint_ds.Core.{ok}
use hyperkitty_constraint_ds.Constraints.Unicode.{
  Unicode, is_ascii_space, is_ascii_letter, is_ascii_digit,
}
use hyperkitty_constraint_ds.Dsl.Token.{require, less_than_eq, number, semicolon, identifier, eof}
use hyperkitty_constraint_ds.Dsl.Lexer.{tokenize}
use hyperkitty_constraint_ds.Dsl.Lexer.Laws.{IsAnswer, tokenize-IsAnswer}
use hyperkitty_constraint_ds.Dsl.Nodes.{
  AstNode, new_node, intent, word, validate, valid, IsSafe, validate_iff,
}

abbrev ascii : Unicode
ascii = record {
  is_whitespace = is_ascii_space;
  is_alphabetic = is_ascii_letter;
  is_numeric = is_ascii_digit;
}

-- A lone `<` is dropped.
tokens :
    tokenize ascii (codes "require x <= 12 < ;")
    ≡ ok (require ∷ identifier (codes "x") ∷ less_than_eq ∷ number 12 ∷ semicolon ∷ eof ∷ [])
unfolding tokenize
tokens = refl

tokenize-IsAnswer_example : IsAnswer (tokenize ascii (codes "require x <= 12 < ;"))
tokenize-IsAnswer_example = tokenize-IsAnswer ascii (codes "require x <= 12 < ;")

graph : List AstNode
unfolding new_node
graph = new_node intent (codes "a") ∷ new_node word (codes "b") ∷ []

validate_iff_example : (validate graph ((0, 1) ∷ []) ≡ valid) ↔ All (IsSafe graph) ((0, 1) ∷ [])
validate_iff_example = validate_iff graph ((0, 1) ∷ [])
