-- ===== src/Lib.antt =====
-- HyperKitty: a Rust workspace that compiles constraint programs, routes experts without conflicts,
-- keeps a write-once log, and evolves glyphs through three algebraic layers (QRA, SLA and QLG). This
-- library models its core crates, from the sources under rust/crates.
--
-- Parts, and the files that model them:
--   Prelude           tests, lists, texts, maps, decimals and searches that the other modules share
--   Core              hyperkitty-core/src/error.rs: the error type and `Result`
--   Constraints       hyperkitty-constraints/src: `Token` and `Lexer` (lexer.rs), `Parser`
--                     (parser.rs), `Ast` (ast.rs), `Evaluator` and `Report` (evaluator.rs) and
--                     `Compile` (lib.rs).
--                     `Grammar` and `Render` are the specifications: the tokens and the text of a
--                     program. `compile` runs `tokenize` and hands its tokens to `parse`.
--                     `Xslt` (xslt_processor.rs): the enums (`Kinds`), the `Registry`, the
--                     `Artifacts` and the formalization `Machine`, whose `Correspondence`, `Status`
--                     and `Program` are its larger operations. Its program is evaluated by `Ast`.
--   Nand              hyperkitty-nand/src: `Primitive` (primitive.rs), `Boolean` (boolean.rs),
--                     `Conflicts` (conflicts.rs) and `Filter` (filter.rs). The filter asks the
--                     registry for the conflicts of the active experts and resolves them in order.
--   Worm              hyperkitty-worm/src: `Bytes`, `Header` (header.rs), `Record` (record.rs) and
--                     `Chain` (lib.rs). A chain holds records; a record starts with a header; each
--                     header holds the hash of the record before it.
--   Glyph             hyperkitty-core/src/lib.rs and canonical.rs: the six glyphs and their codes
--   Qra               hyperkitty-qra/src/lib.rs, `Witness` (hyperkitty-witness/src/lib.rs) and
--                     `Dispatch` (hyperkitty-routing/src/qra_dispatch.rs)
--   Sla               hyperkitty-sla/src/lib.rs (`Ledger`), hyperkitty-qlg/src/lib.rs and
--                     hyperkitty-isomorphism/src/lib.rs (`Sphere`)
--   Runtime           hyperkitty-runtime/src: `Validity` (validity.rs), `Reconciliation`
--                     (reconciliation.rs), `Bridge` (cminus_bridge.rs), with `Float` for `f64`, and
--                     `World` (world.rs, action.rs, tick.rs and advancement.rs);
--                     and `Nonce` (hyperkitty-magma/src/nonce.rs). A reconciliation asks the
--                     dispatcher of Qra and the gates, and its decision is committed or handed on.
--   Routing           hyperkitty-routing/src: `Nodes` (nodes.rs), `Dispatcher` (dispatch.rs),
--                     `Words`, `State` and `Pipeline` (pipeline.rs and lib.rs), with `Platform` for what
--                     they take from Rust's library. The eleven stages pass on one state; the tenth
--                     executes the nodes.
--   Ere               hyperkitty-ere/src: the gates `Secrets` (p1_secrets.rs), `Evals` (p2_eval.rs),
--                     `Loops` (p3_loops.rs) and `Telemetry` (p4_telemetry.rs), and `Receipt`
--                     (p5_hash.rs and lib.rs), which asks all four. `Rules` is what the first two
--                     share.
--   Dsl               the older language: `Token` and `Lexer` (hyperkitty-parser/src) and `Nodes`
--                     (hyperkitty-ast/src)
--   Continuity        hyperkitty-continuity/src (`Bitmask`, `Memory`) and hyperkitty-magma/src
--                     (`Envelope`)
--   Art               hyperkitty-art/src: `Theorems` (theorem_ast.rs), `Scene` (scene_graph.rs),
--                     `Svg` and `Renderer` (renderer.rs) and `Receipt` (receipt.rs and lib.rs). The
--                     pipeline draws the scene of a theorem and seals the bytes; `Platform` is
--                     what it takes from elsewhere.
--   Examples          runs at concrete inputs
--
-- Conventions. A function has the name of the source's function; a method takes its object first. A
-- panic is `none` in the functions whose source can panic. A number of `w` bits is a natural number
-- below `2 ^ w`, with the wrap of a release build written out; an `i64` is the word of its two's
-- complement. A message made by `format!` is its format string with its arguments.
--
-- Fuel. `tokenize` and the loops of the parser run on one unit more than the characters or tokens
-- left, which is enough since each round takes one away; so does the lexer of `Dsl`. The loop of
-- `exhaust` takes its fuel as an argument, and four units are enough. A number is printed with twenty
-- digits at most, which is enough for 64 bits. The other loops are structural.
--
-- Parameters. The classes of characters of Rust's `char`, `to_lowercase`, SHA-256 of the crate `sha2`,
-- the matches of the crate `regex`, the arithmetic, comparisons and texts of `f64`, the values of
-- `serde_json`, UTF-8, and the order in which a `HashMap` is iterated lie outside the repository.
--
-- Not modelled: what `run_all` prints, JSON texts, the floating point crates (jordan, jacobian, graph),
-- front ends, and files that no `mod` line includes.
mod Prelude
pub mod Core
pub mod Constraints
pub mod Nand
pub mod Worm
pub mod Glyph
pub mod Qra
pub mod Sla
pub mod Runtime
pub mod Routing
pub mod Ere
pub mod Dsl
pub mod Continuity
pub mod Art
mod Examples
