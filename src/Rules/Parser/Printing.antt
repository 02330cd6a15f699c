-- ===== src/Rules/Parser/Printing.antt =====
-- The tokens of a condition, with parentheses only where src/core/rule-parser.js needs them to read
-- the same tree.
use shield_wall.Prelude.{true, false, List, [], ◌∷◌, ◌++◌, Text}
use shield_wall.Rules.Ast.{Keyword, Token, Condition}

abbrev pub dollars : List Text → List Token
dollars [] = []
dollars (v ∷ vs) = Token.dollar_id v ∷ dollars vs

abbrev pub leaf_tokens : Condition → List Token
leaf_tokens (Condition.match p) = Token.dollar_id p ∷ []
leaf_tokens (Condition.match_in p t) =
    Token.dollar_id p ∷ Token.keyword Keyword.within ∷ Token.dollar_id t ∷ []
leaf_tokens Condition.any_of_them = Token.keyword Keyword.any_of ∷ Token.keyword Keyword.them ∷ []
leaf_tokens Condition.all_of_them = Token.keyword Keyword.all_of ∷ Token.keyword Keyword.them ∷ []
leaf_tokens (Condition.any_of vs) =
    Token.keyword Keyword.any_of ∷ Token.lparen ∷ (dollars vs ++ Token.rparen ∷ [])
leaf_tokens (Condition.all_of vs) =
    Token.keyword Keyword.all_of ∷ Token.lparen ∷ (dollars vs ++ Token.rparen ∷ [])
leaf_tokens (Condition.boolean true) = Token.keyword Keyword.truth ∷ []
leaf_tokens (Condition.boolean false) = Token.keyword Keyword.falsity ∷ []
leaf_tokens _ = []

-- Where a condition stands: beside `or`, beside `and`, behind `not`, or as an operand.
pub data Level : Type 0 where
  disjunction conjunction negation primary : Level

-- The rest of the input is an argument, so that no list is appended.
unfoldable pub print : Level → Condition → List Token → List Token
print Level.disjunction (Condition.or l r) rest =
    print Level.disjunction l (Token.keyword Keyword.or ∷ print Level.conjunction r rest)
print _ (Condition.or l r) rest =
    Token.lparen
    ∷ print Level.disjunction l
        (Token.keyword Keyword.or ∷ print Level.conjunction r (Token.rparen ∷ rest))
print Level.primary (Condition.and l r) rest =
    Token.lparen
    ∷ print Level.conjunction l
        (Token.keyword Keyword.and ∷ print Level.negation r (Token.rparen ∷ rest))
print Level.negation (Condition.and l r) rest =
    Token.lparen
    ∷ print Level.conjunction l
        (Token.keyword Keyword.and ∷ print Level.negation r (Token.rparen ∷ rest))
print _ (Condition.and l r) rest =
    print Level.conjunction l (Token.keyword Keyword.and ∷ print Level.negation r rest)
print Level.primary (Condition.not e) rest =
    Token.lparen ∷ Token.keyword Keyword.not ∷ print Level.primary e (Token.rparen ∷ rest)
print _ (Condition.not e) rest = Token.keyword Keyword.not ∷ print Level.primary e rest
print _ c rest = leaf_tokens c ++ rest
