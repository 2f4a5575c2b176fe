-- ===== src/Constraints/Token.antt =====
-- `Token` of rust/crates/hyperkitty-constraints/src/lexer.rs.
use hyperkitty_constraint_ds.Prelude.{Text, codes, text_eq, if◌then◌else◌}

pub data Token : Type 0 where
  validity require deny otherwise reject accept : Token
  ident number string : Text → Token
  l_paren r_paren l_brace r_brace semicolon colon comma arrow : Token
  eof : Token

-- The `match ident.as_str()` of `tokenize`.
unfoldable pub keyword : Text → Token
unfolding text_eq
keyword s =
    if text_eq s (codes "validity")
    then validity
    else if text_eq s (codes "require")
    then require
    else if text_eq s (codes "deny")
    then deny
    else if text_eq s (codes "otherwise")
    then otherwise
    else if text_eq s (codes "reject")
    then reject
    else if text_eq s (codes "accept")
    then accept
    else ident s
