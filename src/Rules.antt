-- ===== src/Rules.antt =====
-- The signature rules: their syntax (src/core/rule-parser.js) and their evaluation
-- (src/core/rule-matcher.js).
pub mod Ast
pub mod Parser
pub mod Matcher
