-- ===== src/Rules/Parser/Steps.antt =====
-- src/core/rule-parser.js: one step of each function of the parser on printed tokens, and the
-- room that the parser needs.
use shield_wall.Prelude.{
  ℕ, zero, suc, ◌+◌, ◌-◌, ◌≤◌, ◌<◌, ◌≡◌, refl, ap, Bool, true, false, some, List, [], ◌∷◌, ◌++◌,
  arith, length, length-append, Text,
}
use shield_wall.Rules.Ast.{Keyword, Token, Condition}
use shield_wall.Rules.Parser.{
  Parse, parse_vars, dollar_ids, expect_lparen, expect_rparen, parse_primary, parse_not, and_loop,
  parse_and, or_loop,
}
use shield_wall.Rules.Parser.Printing.{dollars, leaf_tokens, Level, print}

abbrev pub starts : Keyword → List Token → Bool
starts Keyword.or (Token.keyword Keyword.or ∷ ts) = true
starts Keyword.and (Token.keyword Keyword.and ∷ ts) = true
starts Keyword.within (Token.keyword Keyword.within ∷ ts) = true
starts _ _ = false

-- The number of nodes.
unfoldable pub weight : Condition → ℕ
weight (Condition.and l r) = suc (weight l + weight r)
weight (Condition.or l r) = suc (weight l + weight r)
weight (Condition.not e) = suc (weight e)
weight _ = 1

pub weight_pos : (c : Condition) → 0 < weight c
unfolding weight
weight_pos (Condition.and l r) = omega arith
weight_pos _ = omega arith

pub and_loop_stop :
    (k : ℕ) (p : Parse Condition) (c : Condition) (rest : List Token)
    → starts Keyword.and rest ≡ false
    → and_loop k p c rest ≡ some (c, rest)
unfolding and_loop
and_loop_stop (suc k) p c (Token.keyword Keyword.and ∷ ts) h = cc
and_loop_stop _ p c _ h = refl

pub or_loop_stop :
    (k n : ℕ) (p : Parse Condition) (c : Condition) (rest : List Token)
    → starts Keyword.or rest ≡ false
    → or_loop k n p c rest ≡ some (c, rest)
unfolding or_loop
or_loop_stop (suc k) n p c (Token.keyword Keyword.or ∷ ts) h = cc
or_loop_stop _ n p c _ h = refl

pub parse_match :
    (p : Parse Condition) (v : Text) (rest : List Token)
    → starts Keyword.within rest ≡ false
    → parse_primary p (Token.dollar_id v ∷ rest) ≡ some (Condition.match v, rest)
unfolding parse_primary
parse_match p v (Token.keyword Keyword.within ∷ ts) h = cc
parse_match p v _ h = refl

dollar_ids-dollars :
    (vs : List Text) (rest : List Token)
    → dollar_ids ((dollars vs ++ Token.rparen ∷ []) ++ rest) ≡ (vs, Token.rparen ∷ rest)
unfolding dollar_ids
dollar_ids-dollars [] rest = refl
dollar_ids-dollars (v ∷ vs) rest = rw (dollar_ids-dollars vs rest) refl

pub parse_vars-dollars :
    (them : Condition) (some_of : List Text → Condition) (vs : List Text) (rest : List Token)
    → parse_vars them some_of (Token.lparen ∷ ((dollars vs ++ Token.rparen ∷ []) ++ rest))
      ≡ some (some_of vs, rest)
unfolding parse_vars expect_lparen expect_rparen
parse_vars-dollars them some_of vs rest = rw (dollar_ids-dollars vs rest) refl

-- The nodes that an operand of the parser needs room for: one more where it stands in parentheses.
unfoldable pub need : Level → Condition → ℕ
need Level.conjunction (Condition.or l r) = suc (weight (Condition.or l r))
need Level.negation (Condition.or l r) = suc (weight (Condition.or l r))
need Level.negation (Condition.and l r) = suc (weight (Condition.and l r))
need Level.primary (Condition.or l r) = suc (weight (Condition.or l r))
need Level.primary (Condition.and l r) = suc (weight (Condition.and l r))
need Level.primary (Condition.not e) = suc (weight (Condition.not e))
need _ c = weight c

pub need_inner : (l : Level) (c : Condition) {m : ℕ} → weight c ≤ m → need l c ≤ suc m
unfolding need
need_inner Level.conjunction (Condition.or l r) h = omega arith
need_inner Level.negation (Condition.or l r) h = omega arith
need_inner Level.negation (Condition.and l r) h = omega arith
need_inner Level.primary (Condition.or l r) h = omega arith
need_inner Level.primary (Condition.and l r) h = omega arith
need_inner Level.primary (Condition.not e) h = omega arith
need_inner _ c h = omega arith

-- The rounds that the loops make for a chain.
unfoldable pub ands : Condition → ℕ
ands (Condition.and l r) = suc (ands l)
ands _ = 0

unfoldable pub ors : Condition → ℕ
ors (Condition.or l r) = suc (ors l)
ors _ = 0

pub ands-lt-weight : (c : Condition) → ands c < weight c
unfolding ands weight
ands-lt-weight (Condition.and l r) = omega (arith, ands-lt-weight l)
ands-lt-weight _ = omega arith

pub ors-lt-weight : (c : Condition) → ors c < weight c
unfolding ors weight
ors-lt-weight (Condition.or l r) = omega (arith, ors-lt-weight l)
ors-lt-weight _ = omega arith

pub and_step :
    (k : ℕ) (p : Parse Condition) (l r : Condition) (ts rest : List Token)
    → 0 < k
    → parse_not p ts ≡ some (r, rest)
    → and_loop k p l (Token.keyword Keyword.and ∷ ts) ≡ and_loop (k - 1) p (Condition.and l r) rest
unfolding and_loop
and_step zero p l r ts rest h e = absurd (omega arith)
and_step (suc k) p l r ts rest h e =
    rw (e, and_loop) (ap (λ j. and_loop j p (Condition.and l r) rest) (omega arith))

pub or_step :
    (k n : ℕ) (p : Parse Condition) (l r : Condition) (ts rest : List Token)
    → 0 < k
    → parse_and n p ts ≡ some (r, rest)
    → or_loop k n p l (Token.keyword Keyword.or ∷ ts) ≡ or_loop (k - 1) n p (Condition.or l r) rest
unfolding or_loop
or_step zero n p l r ts rest h e = absurd (omega arith)
or_step (suc k) n p l r ts rest h e =
    rw (e, or_loop) (ap (λ j. or_loop j n p (Condition.or l r) rest) (omega arith))

leaf_pos : (c : Condition) → weight c ≡ 1 → 0 < length (leaf_tokens c)
unfolding weight
leaf_pos (Condition.or l r) h = absurd (omega (arith, weight_pos l))
leaf_pos (Condition.and l r) h = absurd (omega (arith, weight_pos l))
leaf_pos (Condition.not e) h = absurd (omega (arith, weight_pos e))
leaf_pos (Condition.boolean true) h = omega arith
leaf_pos (Condition.boolean false) h = omega arith
leaf_pos _ h = omega arith

-- A condition has at least as many tokens as nodes.
pub weight-le-print :
    (l : Level) (c : Condition) (rest : List Token)
    → weight c + length rest ≤ length (print l c rest)
unfolding weight print
weight-le-print Level.disjunction (Condition.or l r) rest = omega (
  arith,
  weight-le-print Level.disjunction l (Token.keyword Keyword.or ∷ print Level.conjunction r rest),
  weight-le-print Level.conjunction r rest,
)
weight-le-print _ (Condition.or l r) rest = omega (
  arith,
  weight-le-print Level.disjunction l
      (Token.keyword Keyword.or ∷ print Level.conjunction r (Token.rparen ∷ rest)),
  weight-le-print Level.conjunction r (Token.rparen ∷ rest),
)
weight-le-print Level.primary (Condition.and l r) rest = omega (
  arith,
  weight-le-print Level.conjunction l
      (Token.keyword Keyword.and ∷ print Level.negation r (Token.rparen ∷ rest)),
  weight-le-print Level.negation r (Token.rparen ∷ rest),
)
weight-le-print Level.negation (Condition.and l r) rest = omega (
  arith,
  weight-le-print Level.conjunction l
      (Token.keyword Keyword.and ∷ print Level.negation r (Token.rparen ∷ rest)),
  weight-le-print Level.negation r (Token.rparen ∷ rest),
)
weight-le-print _ (Condition.and l r) rest = omega (
  arith,
  weight-le-print Level.conjunction l (Token.keyword Keyword.and ∷ print Level.negation r rest),
  weight-le-print Level.negation r rest,
)
weight-le-print Level.primary (Condition.not e) rest =
    omega (arith, weight-le-print Level.primary e (Token.rparen ∷ rest))
weight-le-print _ (Condition.not e) rest = omega (arith, weight-le-print Level.primary e rest)
weight-le-print Level.disjunction c rest =
    omega (arith, length-append {0} (leaf_tokens c) rest, leaf_pos c refl)
weight-le-print Level.conjunction c rest =
    omega (arith, length-append {0} (leaf_tokens c) rest, leaf_pos c refl)
weight-le-print Level.negation c rest =
    omega (arith, length-append {0} (leaf_tokens c) rest, leaf_pos c refl)
weight-le-print Level.primary c rest =
    omega (arith, length-append {0} (leaf_tokens c) rest, leaf_pos c refl)
