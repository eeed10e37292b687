-- ===== src/Formula.antt =====
-- The formula language of packages/engine/src/formula.ts: tokens, the tree, the parser and the evaluator.
pub mod Grammar
pub mod Tokens
pub mod Parse
pub mod Values
pub mod Functions
pub mod Evaluate
