-- ===== src/Constraints/Parser/Exact.antt =====
-- The parser against the grammar, in one statement.
use hyperkitty_constraint_ds.Prelude.{◌≡◌, ◌≢◌, ◌↔◌, ◌∙◌, sym, ap, List, map}
use hyperkitty_constraint_ds.Core.{Result, ok, err, no_fuel}
use hyperkitty_constraint_ds.Constraints.Token.{Token, eof}
use hyperkitty_constraint_ds.Constraints.Ast.{ConstraintProgram}
use hyperkitty_constraint_ds.Constraints.Grammar.{Concrete, abstract_of, program_tokens}
use hyperkitty_constraint_ds.Constraints.Parser.Complete.{parse-tokens}
use hyperkitty_constraint_ds.Constraints.Parser.Sound.{IsParsed, parse-IsParsed}
use hyperkitty_constraint_ds.Constraints.Parser.{current, parse}

-- `ts` begins with the tokens of concrete constraints, `eof` or the end of the list stands behind
-- them, and `p` is what they abbreviate.
abbrev pub WritesProgram : List Token → ConstraintProgram → Type 0
WritesProgram ts p =
    (ks : List Concrete) × (rest : List Token) × (ts ≡ program_tokens ks rest)
    × (current rest ≡ eof)
    × (p.constraints ≡ map abstract_of ks)

IsParsed-ok :
    {ts : List Token} {p : ConstraintProgram} (r : Result ConstraintProgram)
    → IsParsed ts r
    → r ≡ ok p
    → IsParsed ts (ok p)
IsParsed-ok r h e = rw e at h

not-IsParsed-no_fuel :
    (ts : List Token) (r : Result ConstraintProgram) → IsParsed ts r → r ≢ no_fuel
not-IsParsed-no_fuel ts (ok p) h e = cc
not-IsParsed-no_fuel ts (err x) h e = cc
not-IsParsed-no_fuel ts no_fuel h e = h

-- The parser accepts a token list with the program `p` exactly when the grammar writes it for `p`, and
-- on every token list it ends within its fuel.
pub parse_iff :
    (ts : List Token)
    → ((p : ConstraintProgram) → (parse ts ≡ ok p) ↔ WritesProgram ts p) × (parse ts ≢ no_fuel)
parse_iff ts = (
  λ p. (
    IsParsed-ok {ts = ts} (parse ts) (parse-IsParsed ts),
    λ w. ap parse w.2 ∙ parse-tokens w.0 w.1 w.3 ∙ (λ i. ok (record { constraints = sym w.4 i })),
  ),
  not-IsParsed-no_fuel ts (parse ts) (parse-IsParsed ts),
)
