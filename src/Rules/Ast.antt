-- ===== src/Rules/Ast.antt =====
-- src/core/rule-parser.js: the tokens of a rule file and the rules that the parser builds. A token's
-- line serves error messages only, and is left out.
use shield_wall.Prelude.{ℕ, Bool, Option, List, Text, JsMap}

pub data Keyword : Type 0 where
  rule meta target strings condition and or not within them truth falsity any_of all_of : Keyword

pub data Token : Type 0 where
  keyword : Keyword → Token
  identifier dollar_id string : Text → Token
  regex : Text → Text → Token
  number : ℕ → Token
  colon lbrace rbrace lparen rparen equals : Token

-- The nodes of a condition, by their `type`.
pub data Condition : Type 0 where
  and or : Condition → Condition → Condition
  not : Condition → Condition
  match : Text → Condition
  match_in : Text → Text → Condition
  any_of_them all_of_them : Condition
  any_of all_of : List Text → Condition
  boolean : Bool → Condition

pub data MetaValue : Type 0 where
  text : Text → MetaValue
  number : ℕ → MetaValue
  flag : Bool → MetaValue

-- A pattern of the section `strings`: a regular expression with its flags, or a literal that may
-- ignore case.
pub data Pattern : Type 0 where
  regex : Text → Text → Pattern
  literal : Text → Bool → Pattern

pub record Rule : Type 0 where
  pub name : Text
  pub tags : List Text
  pub meta : JsMap MetaValue
  pub targets : JsMap Text
  pub strings : JsMap Pattern
  pub condition : Option Condition
