-- ===== src/Rules/Parser/RoundTrip.antt =====
-- src/core/rule-parser.js: the parser reads back what is printed, with the parentheses and the
-- precedence of `not`, `and` and `or`.
use shield_wall.Prelude.{
  ℕ, zero, suc, ◌-◌, ◌≤◌, min, ◌≡◌, refl, ap, ◌∙◌, true, false, some, List, ◌∷◌, ◌>>=◌, arith,
  length,
}
use shield_wall.Rules.Ast.{Keyword, Token, Condition}
use shield_wall.Rules.Parser.{
  Parse, expect_rparen, parse_primary, parse_not, and_loop, parse_and, or_loop, parse_or,
  parse_condition,
}
use shield_wall.Rules.Parser.Steps.{
  starts, weight, weight_pos, weight-le-print, and_loop_stop, or_loop_stop, parse_match,
  parse_vars-dollars, need, need_inner, ands, ors, ands-lt-weight, ors-lt-weight, and_step, or_step,
}
use shield_wall.Rules.Parser.Printing.{Level, print}

-- An inner parser that reads back every condition of at most `m` nodes, in front of a parenthesis.
abbrev Reads : Parse Condition → ℕ → Type 0
Reads p m =
    (c : Condition) (rest : List Token)
    → weight c ≤ m
    → p (print Level.disjunction c (Token.rparen ∷ rest)) ≡ some (c, Token.rparen ∷ rest)

module _ (p : Parse Condition) (m : ℕ) (reads : Reads p m) where
  -- In parentheses.
  wrapped :
      (c : Condition) (rest : List Token)
      → weight c ≤ m
      → parse_primary p (Token.lparen ∷ print Level.disjunction c (Token.rparen ∷ rest))
        ≡ some (c, rest)
  unfolding parse_primary expect_rparen
  wrapped c rest h = rw (reads c rest h) refl

  -- As an operand.
  primary_lem :
      (c : Condition) (rest : List Token)
      → need Level.primary c ≤ suc m
      → starts Keyword.within rest ≡ false
      → parse_primary p (print Level.primary c rest) ≡ some (c, rest)
  unfolding print need parse_primary
  primary_lem (Condition.or l r) rest h f = wrapped (Condition.or l r) rest (omega arith)
  primary_lem (Condition.and l r) rest h f = wrapped (Condition.and l r) rest (omega arith)
  primary_lem (Condition.not e) rest h f = wrapped (Condition.not e) rest (omega arith)
  primary_lem (Condition.match v) rest h f = parse_match p v rest f
  primary_lem (Condition.match_in v t) rest h f = refl
  primary_lem Condition.any_of_them rest h f = refl
  primary_lem Condition.all_of_them rest h f = refl
  primary_lem (Condition.any_of vs) rest h f =
      parse_vars-dollars Condition.any_of_them Condition.any_of vs rest
  primary_lem (Condition.all_of vs) rest h f =
      parse_vars-dollars Condition.all_of_them Condition.all_of vs rest
  primary_lem (Condition.boolean true) rest h f = refl
  primary_lem (Condition.boolean false) rest h f = refl

  -- Behind `not`, or where `not` may stand.
  negation_lem :
      (c : Condition) (rest : List Token)
      → need Level.negation c ≤ suc m
      → starts Keyword.within rest ≡ false
      → parse_not p (print Level.negation c rest) ≡ some (c, rest)
  unfolding print parse_not need weight
  negation_lem (Condition.or l r) rest h f = primary_lem (Condition.or l r) rest h f
  negation_lem (Condition.and l r) rest h f = primary_lem (Condition.and l r) rest h f
  negation_lem (Condition.not e) rest h f =
      rw (primary_lem e rest (need_inner Level.primary e (omega arith)) f) refl
  negation_lem (Condition.match v) rest h f = parse_match p v rest f
  negation_lem (Condition.match_in v t) rest h f = refl
  negation_lem Condition.any_of_them rest h f = refl
  negation_lem Condition.all_of_them rest h f = refl
  negation_lem (Condition.any_of vs) rest h f = primary_lem (Condition.any_of vs) rest h f
  negation_lem (Condition.all_of vs) rest h f = primary_lem (Condition.all_of vs) rest h f
  negation_lem (Condition.boolean true) rest h f = refl
  negation_lem (Condition.boolean false) rest h f = refl

  module _ (n : ℕ) where
    -- One round of `_parseOr`: the first operand and the loop.
    chain : Parse Condition
    chain ts = parse_and n p ts >>= λ (l, rest). or_loop n n p l rest

    conjunction_single :
        (c : Condition) (rest ts : List Token)
        → parse_not p ts ≡ some (c, rest)
        → parse_and n p ts ≡ and_loop (n - 0) p c rest
    unfolding parse_and
    conjunction_single c rest ts e = rw (e, parse_and) (ap (λ j. and_loop j p c rest) (omega arith))

    disjunction_single :
        (c : Condition) (rest ts : List Token)
        → parse_and n p ts ≡ some (c, rest)
        → chain ts ≡ or_loop (n - 0) n p c rest
    unfolding chain
    disjunction_single c rest ts e = rw (e, chain) (ap (λ j. or_loop j n p c rest) (omega arith))

    -- A chain of `and` is read to where the loop stands behind it.
    conjunction_lem :
        (c : Condition) (rest : List Token)
        → need Level.conjunction c ≤ suc m
        → weight c ≤ n
        → starts Keyword.within rest ≡ false
        → parse_and n p (print Level.conjunction c rest) ≡ and_loop (n - ands c) p c rest
    unfolding ands need weight print
    conjunction_lem (Condition.and l r) rest h k f =
        let behind = print Level.negation r rest in
        let left =
          conjunction_lem l (Token.keyword Keyword.and ∷ behind)
            (need_inner Level.conjunction l (omega arith)) (omega arith) refl in
        let right = negation_lem r rest (need_inner Level.negation r (omega arith)) f in
        let rounds : n - ands l - 1 ≡ n - suc (ands l) = omega arith in
        left
        ∙ and_step (n - ands l) p l r behind rest (omega (arith, ands-lt-weight l)) right
        ∙ ap (λ j. and_loop j p (Condition.and l r) rest) rounds
    conjunction_lem (Condition.or l r) rest h k f =
        conjunction_single (Condition.or l r) rest _ (negation_lem (Condition.or l r) rest h f)
    conjunction_lem (Condition.not e) rest h k f =
        conjunction_single (Condition.not e) rest _ (negation_lem (Condition.not e) rest h f)
    conjunction_lem (Condition.match v) rest h k f =
        conjunction_single (Condition.match v) rest _ (negation_lem (Condition.match v) rest h f)
    conjunction_lem c rest h k f = conjunction_single c rest _ (negation_lem c rest h f)

    -- An operand of `or` is read whole where no `and` stands behind it.
    operand_lem :
        (c : Condition) (rest : List Token)
        → need Level.conjunction c ≤ suc m
        → weight c ≤ n
        → starts Keyword.within rest ≡ false
        → starts Keyword.and rest ≡ false
        → parse_and n p (print Level.conjunction c rest) ≡ some (c, rest)
    operand_lem c rest h k f g =
        conjunction_lem c rest h k f ∙ and_loop_stop (n - ands c) p c rest g

    -- A chain of `or` is read to where the loop stands behind it.
    disjunction_lem :
        (c : Condition) (rest : List Token)
        → weight c ≤ suc m
        → weight c ≤ n
        → starts Keyword.within rest ≡ false
        → starts Keyword.and rest ≡ false
        → chain (print Level.disjunction c rest) ≡ or_loop (n - ors c) n p c rest
    unfolding ors need weight print
    disjunction_lem (Condition.or l r) rest h k f g =
        let behind = print Level.conjunction r rest in
        let left =
          disjunction_lem l (Token.keyword Keyword.or ∷ behind) (omega arith) (omega arith) refl
            refl in
        let right =
          operand_lem r rest (need_inner Level.conjunction r (omega arith)) (omega arith) f g in
        let rounds : n - ors l - 1 ≡ n - suc (ors l) = omega arith in
        left
        ∙ or_step (n - ors l) n p l r behind rest (omega (arith, ors-lt-weight l)) right
        ∙ ap (λ j. or_loop j n p (Condition.or l r) rest) rounds
    disjunction_lem (Condition.and l r) rest h k f g =
        disjunction_single (Condition.and l r) rest _ (operand_lem (Condition.and l r) rest h k f g)
    disjunction_lem c rest h k f g = disjunction_single c rest _ (operand_lem c rest h k f g)

-- With room for its nodes the parser reads back every condition in front of what may follow one.
parse_or_lem :
    (depth n : ℕ) (c : Condition) (rest : List Token)
    → weight c ≤ depth
    → weight c ≤ n
    → starts Keyword.within rest ≡ false
    → starts Keyword.and rest ≡ false
    → starts Keyword.or rest ≡ false
    → parse_or depth n (print Level.disjunction c rest) ≡ some (c, rest)
unfolding parse_or chain
parse_or_lem zero n c rest h k f g e = absurd (omega (arith, weight_pos c))
parse_or_lem (suc depth) n c rest h k f g e =
    let reads : Reads (parse_or depth n) (min depth n) = λ c rest w.
      parse_or_lem depth n c (Token.rparen ∷ rest) (omega arith) (omega arith) refl refl refl in
    disjunction_lem (parse_or depth n) (min depth n) reads n c rest (omega arith) k f g
    ∙ or_loop_stop (n - ors c) n (parse_or depth n) c rest e

-- Every condition that is printed is read back as the same tree, with the rest of the input left over:
-- `not` binds tighter than `and`, `and` tighter than `or`, both chains lean to the left, and
-- parentheses override this. What follows the condition is not `in`, `and` or `or`.
pub parse_condition-print :
    (c : Condition) (rest : List Token)
    → starts Keyword.within rest ≡ false
    → starts Keyword.and rest ≡ false
    → starts Keyword.or rest ≡ false
    → parse_condition (print Level.disjunction c rest) ≡ some (c, rest)
unfolding parse_condition
parse_condition-print c rest f g e =
    let n = length (print Level.disjunction c rest) in
    let fits = weight-le-print Level.disjunction c rest in
    parse_or_lem (suc n) n c rest (omega (arith, fits)) (omega (arith, fits)) f g e
