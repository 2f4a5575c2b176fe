-- ===== src/Dsl/Token.antt =====
-- rust/crates/hyperkitty-parser/src/tokens.rs.
use hyperkitty_constraint_ds.Prelude.{ℕ, Text, Bool, true, false}

-- The number of a token is below `2 ^ 63`: the lexer makes no negative one.
pub data Token : Type 0 where
  require balance invariant entropy proof runtime identity phase otherwise reject : Token
  identifier : Text → Token
  number : ℕ → Token
  string : Text → Token
  less_than_eq equals left_paren right_paren left_brace right_brace semicolon comma : Token
  eof : Token

unfoldable pub is_keyword : Token → Bool
is_keyword require = true
is_keyword balance = true
is_keyword invariant = true
is_keyword entropy = true
is_keyword proof = true
is_keyword runtime = true
is_keyword identity = true
is_keyword phase = true
is_keyword otherwise = true
is_keyword reject = true
is_keyword _ = false
