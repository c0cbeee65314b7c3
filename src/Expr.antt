-- ===== src/Expr.antt =====
-- packages/core/src/expr/expr.ts: the whitelisted expression language. Untrusted text is tokenized,
-- parsed and type-checked against a context, within limits, and evaluated over numeric slots.
pub mod Syntax
pub mod TextEquality
pub mod Lexer
pub mod Parser
pub mod Grammar
pub mod Compile
pub mod Evaluate
pub mod Typing
pub mod Soundness
pub mod Values
pub mod Tests
