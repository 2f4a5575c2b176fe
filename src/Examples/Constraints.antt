-- ===== src/Examples/Constraints.antt =====
-- The constraint language on a small program, with the character classes of ASCII.
use hyperkitty_constraint_ds.Prelude.{
  Bool, ℕ, ◌≡◌, ◌≢◌, ◌↔◌, refl, true, false, none, some, List, [], ◌∷◌, ◌++◌, codes, All, text_eq,
  arith, if◌then◌else◌,
}
use hyperkitty_constraint_ds.Core.{Result.ok, Result.no_fuel}
use hyperkitty_constraint_ds.Constraints.Unicode.{
  Unicode, IsUnicode, is_ascii_digit, is_ascii_letter, is_ascii_space,
}
use hyperkitty_constraint_ds.Constraints.Token.{Token, validity, l_paren, r_paren, ident, eof}
use hyperkitty_constraint_ds.Constraints.Token
use hyperkitty_constraint_ds.Constraints.Lexer.{tokenize}
use hyperkitty_constraint_ds.Constraints.Lexer.Progress.{IsLexed, tokenize-IsLexed}
use hyperkitty_constraint_ds.Constraints.Ast.{
  OtherwiseAction, Constraint, ConstraintProgram, Bindings, predicate, check,
}
use hyperkitty_constraint_ds.Constraints.Evaluator.{Evaluator, evaluate, evaluate_by_name}
use hyperkitty_constraint_ds.Constraints.Evaluator.Laws.{
  Holds, NamedAs, evaluate_iff, evaluate_by_name-NamedAs,
}
use hyperkitty_constraint_ds.Constraints.Parser.{parse}
use hyperkitty_constraint_ds.Constraints.Parser.Exact.{WritesProgram, parse_iff}
use hyperkitty_constraint_ds.Constraints.Compile.{compile}
use hyperkitty_constraint_ds.Constraints.Render.{program_text, render, IsPrintable, HasIdents}
use hyperkitty_constraint_ds.Constraints.Render.Compile.{tokenize-render, compile-program_text}

abbrev ascii : Unicode
ascii = record {
  is_whitespace = λ c. is_ascii_space c;
  is_alphabetic = λ c. is_ascii_letter c;
  is_numeric = λ c. is_ascii_digit c;
}

letter_not_space : (c : ℕ) → is_ascii_letter c ≡ true → is_ascii_space c ≡ false
letter_not_space c h = ground arith

ascii-IsUnicode : IsUnicode ascii
ascii-IsUnicode = record {
  whitespace_ascii = λ c h. refl;
  alphabetic_ascii = λ c h. refl;
  numeric_ascii = λ c h. refl;
  alphabetic_not_whitespace = letter_not_space;
}

abbrev ledger_rule : Constraint
ledger_rule = record {
  name = codes "Ledger";
  param = codes "x\"1";
  requires = predicate (codes "balanced") ∷ check (codes "signed") ∷ [];
  otherwise = OtherwiseAction.reject;
}

abbrev program : ConstraintProgram
program = record { constraints = ledger_rule ∷ [] }

abbrev evaluator : Evaluator
evaluator = record { program = program }

abbrev bindings : Bindings
bindings name = if text_eq name (codes "balanced") then some true else none

ledger_rule-HasIdents : All (HasIdents ascii) program.constraints
unfolding Token.keyword text_eq
ledger_rule-HasIdents = (
  (
    (refl, (refl, (refl, (refl, (refl, (refl, tt))))), refl),
    (
      (refl, (refl, (refl, (refl, (refl, (refl, (refl, (refl, tt))))))), refl),
      ((refl, (refl, (refl, (refl, (refl, (refl, tt))))), refl), tt),
    ),
  ),
  tt,
)

compile-program_text_example : compile ascii (program_text program) ≡ ok program
compile-program_text_example =
    compile-program_text ascii ascii-IsUnicode program ledger_rule-HasIdents

abbrev tokens : List Token
tokens = validity ∷ l_paren ∷ ident (codes "a") ∷ r_paren ∷ []

tokens-IsPrintable : All (IsPrintable ascii) tokens
unfolding Token.keyword text_eq
tokens-IsPrintable = (tt, (tt, ((refl, tt, refl), (tt, tt))))

tokenize-render_example : tokenize ascii (render tokens) ≡ ok (tokens ++ (eof ∷ []))
tokenize-render_example = tokenize-render ascii ascii-IsUnicode tokens tokens-IsPrintable

tokenize-IsLexed_example : IsLexed (tokenize ascii (codes "validity ( # x"))
tokenize-IsLexed_example = tokenize-IsLexed ascii (codes "validity ( # x")

parse_iff_example :
    ((p : ConstraintProgram) → (parse (eof ∷ []) ≡ ok p) ↔ WritesProgram (eof ∷ []) p)
    × (parse (eof ∷ []) ≢ no_fuel)
parse_iff_example = parse_iff (eof ∷ [])

evaluate_iff_example :
    (v : Bool) × (evaluate evaluator bindings ≡ ok v)
    × ((v ≡ true) ↔ All (Holds bindings) program.constraints)
evaluate_iff_example = evaluate_iff evaluator bindings

evaluate_by_name-NamedAs_example :
    NamedAs
      (codes "Ledger")
      bindings
      program.constraints
      (evaluate_by_name evaluator (codes "Ledger") bindings)
evaluate_by_name-NamedAs_example = evaluate_by_name-NamedAs evaluator (codes "Ledger") bindings
