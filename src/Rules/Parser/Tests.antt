-- ===== src/Rules/Parser/Tests.antt =====
-- src/core/rule-parser.js: the round trip at a concrete condition.
use shield_wall.Prelude.{◌≡◌, refl, some, [], ◌∷◌, codes}
use shield_wall.Rules.Ast.{Keyword, Token, Condition}
use shield_wall.Rules.Parser.{parse_condition}
use shield_wall.Rules.Parser.Printing.{Level, print}
use shield_wall.Rules.Parser.RoundTrip.{parse_condition-print}

-- ($a or not $b) and any of ($c, $d)
abbrev sample : Condition
sample =
    Condition.and
      (Condition.or (Condition.match (codes "$a")) (Condition.not (Condition.match (codes "$b"))))
      (Condition.any_of (codes "$c" ∷ codes "$d" ∷ []))

parse_condition-print_example :
    parse_condition (print Level.disjunction sample (Token.rbrace ∷ []))
    ≡ some (sample, Token.rbrace ∷ [])
parse_condition-print_example = parse_condition-print sample (Token.rbrace ∷ []) refl refl refl

-- `a or b and c` without parentheses
parse_precedence :
    parse_condition (
      Token.dollar_id (codes "a")
      ∷ Token.keyword Keyword.or
      ∷ Token.dollar_id (codes "b")
      ∷ Token.keyword Keyword.and
      ∷ Token.dollar_id (codes "c")
      ∷ [])
    ≡ some (
      Condition.or
          (Condition.match (codes "a"))
          (Condition.and (Condition.match (codes "b")) (Condition.match (codes "c"))),
      [],
    )
unfolding parse_condition
parse_precedence = refl
