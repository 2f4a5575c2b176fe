-- ===== src/Constraints.antt =====
-- The constraint language of rust/crates/hyperkitty-constraints: lexer, parser, syntax tree and
-- evaluator, and `compile` of src/lib.rs.
pub mod Xslt
pub mod Unicode
pub mod Token
pub mod Lexer
pub mod Ast
pub mod Evaluator
pub mod Report
pub mod Grammar
pub mod Parser
pub mod Compile
pub mod Render
