-- ===== src/Dsl.antt =====
-- hyperkitty-parser and hyperkitty-ast (rust/crates): the lexer of the older constraint language, and
-- the checks of its nodes.
pub mod Token
pub mod Lexer
pub mod Nodes
