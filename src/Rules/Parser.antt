-- ===== src/Rules/Parser.antt =====
-- src/core/rule-parser.js, class Parser: recursive descent over the tokens. The token EOF is the end
-- of the list, and `none` is a thrown error. The nesting of parentheses is bounded by the first
-- argument of `parse_or`, and a loop's rounds by the length of its tokens, which
-- Parser/RoundTrip shows to be enough. `compiles` stands for `_isSafeRegExp` and `new RegExp`.
pub mod Printing
pub mod Steps
pub mod RoundTrip
mod Tests
use shield_wall.Prelude.{
  ℕ, zero, suc, ◌+◌, Bool, true, false, ◌&&◌, Option, none, some, List, [], ◌∷◌, ◌++◌, Text, codes,
  text_eq, ◌>>=◌, JsMap, put, length, if◌then◌else◌,
}
use shield_wall.Rules.Ast
use shield_wall.Rules.Ast.{Keyword, Token, Condition, MetaValue, Pattern, Rule}

abbrev pub Parse : Type 0 → Type 0
Parse A = List Token → Option (A × List Token)

-- `expect` at a token that has no value.
unfoldable pub expect_rparen : Parse (Unit {0})
expect_rparen (Token.rparen ∷ ts) = some (tt, ts)
expect_rparen _ = none

unfoldable pub expect_lparen : Parse (Unit {0})
expect_lparen (Token.lparen ∷ ts) = some (tt, ts)
expect_lparen _ = none

unfoldable pub expect_equals : Parse (Unit {0})
expect_equals (Token.equals ∷ ts) = some (tt, ts)
expect_equals _ = none

unfoldable pub expect_colon : Parse (Unit {0})
expect_colon (Token.colon ∷ ts) = some (tt, ts)
expect_colon _ = none

unfoldable pub expect_lbrace : Parse (Unit {0})
expect_lbrace (Token.lbrace ∷ ts) = some (tt, ts)
expect_lbrace _ = none

unfoldable pub expect_identifier : Parse Text
expect_identifier (Token.identifier s ∷ ts) = some (s, ts)
expect_identifier _ = none

unfoldable pub expect_dollar : Parse Text
expect_dollar (Token.dollar_id s ∷ ts) = some (s, ts)
expect_dollar _ = none

-- `while (this.peek().type === TOKEN.DOLLAR_ID) v.push(this.advance().value)`
unfoldable pub dollar_ids : List Token → List Text × List Token
dollar_ids (Token.dollar_id s ∷ ts) = let (vs, rest) = dollar_ids ts in (s ∷ vs, rest)
dollar_ids ts = ([], ts)

-- The part of `_parsePrimary` behind `any of` and `all of`.
unfoldable pub parse_vars : Condition → (List Text → Condition) → Parse Condition
unfolding expect_lparen expect_rparen dollar_ids
parse_vars them some_of (Token.keyword Keyword.them ∷ ts) = some (them, ts)
parse_vars them some_of ts = do
  (_, ts) ← expect_lparen ts
  (_, rest) ← expect_rparen (dollar_ids ts).1
  some (some_of (dollar_ids ts).0, rest)

-- `_parsePrimary` and `_parseNot`, given the parser of what stands in parentheses.
unfoldable pub parse_primary : Parse Condition → Parse Condition
unfolding parse_vars expect_rparen expect_dollar
parse_primary inner (Token.lparen ∷ ts) = do
  (e, ts) ← inner ts
  (_, ts) ← expect_rparen ts
  some (e, ts)
parse_primary inner (Token.keyword Keyword.any_of ∷ ts) =
    parse_vars Condition.any_of_them Condition.any_of ts
parse_primary inner (Token.keyword Keyword.all_of ∷ ts) =
    parse_vars Condition.all_of_them Condition.all_of ts
parse_primary inner (Token.dollar_id n ∷ Token.keyword Keyword.within ∷ ts) = do
  (target, ts) ← expect_dollar ts
  some (Condition.match_in n target, ts)
parse_primary inner (Token.dollar_id n ∷ ts) = some (Condition.match n, ts)
parse_primary inner (Token.keyword Keyword.truth ∷ ts) = some (Condition.boolean true, ts)
parse_primary inner (Token.keyword Keyword.falsity ∷ ts) = some (Condition.boolean false, ts)
parse_primary inner _ = none

unfoldable pub parse_not : Parse Condition → Parse Condition
unfolding parse_primary
parse_not inner (Token.keyword Keyword.not ∷ ts) = do
  (e, ts) ← parse_primary inner ts
  some (Condition.not e, ts)
parse_not inner ts = parse_primary inner ts

-- The loop of `_parseAnd`, with a bound on its rounds.
unfoldable pub and_loop : ℕ → Parse Condition → Condition → Parse Condition
unfolding parse_not
and_loop (suc n) inner l (Token.keyword Keyword.and ∷ ts) =
    parse_not inner ts >>= λ (r, rest). and_loop n inner (Condition.and l r) rest
and_loop _ inner l ts = some (l, ts)

unfoldable pub parse_and : ℕ → Parse Condition → Parse Condition
unfolding and_loop parse_not
parse_and n inner ts = parse_not inner ts >>= λ (l, rest). and_loop n inner l rest

-- The loop of `_parseOr`.
unfoldable pub or_loop : ℕ → ℕ → Parse Condition → Condition → Parse Condition
unfolding parse_and
or_loop (suc k) n inner l (Token.keyword Keyword.or ∷ ts) =
    parse_and n inner ts >>= λ (r, rest). or_loop k n inner (Condition.or l r) rest
or_loop _ n inner l ts = some (l, ts)

-- `_parseOr`, with at most `depth` nested parentheses, and `n` rounds of each loop.
unfoldable pub parse_or : ℕ → ℕ → Parse Condition
unfolding or_loop parse_and
parse_or zero n ts = none
parse_or (suc depth) n ts =
    parse_and n (parse_or depth n) ts >>= λ (l, rest). or_loop n n (parse_or depth n) l rest

unfoldable pub parse_condition : Parse Condition
unfolding parse_or
parse_condition ts = parse_or (suc (length ts)) (length ts) ts

unfoldable pub parse_meta : JsMap MetaValue → Parse (JsMap MetaValue)
unfolding put
parse_meta m (Token.identifier k ∷ Token.equals ∷ Token.string v ∷ ts) =
    parse_meta (put k (MetaValue.text v) m) ts
parse_meta m (Token.identifier k ∷ Token.equals ∷ Token.number v ∷ ts) =
    parse_meta (put k (MetaValue.number v) m) ts
parse_meta m (Token.identifier k ∷ Token.equals ∷ Token.keyword Keyword.truth ∷ ts) =
    parse_meta (put k (MetaValue.flag true) m) ts
parse_meta m (Token.identifier k ∷ Token.equals ∷ Token.keyword Keyword.falsity ∷ ts) =
    parse_meta (put k (MetaValue.flag false) m) ts
parse_meta m (Token.identifier k ∷ ts) = none
parse_meta m ts = some (m, ts)

unfoldable pub parse_target : JsMap Text → Parse (JsMap Text)
unfolding put
parse_target m (Token.dollar_id n ∷ Token.equals ∷ Token.identifier v ∷ ts) =
    parse_target (put n v m) ts
parse_target m (Token.dollar_id n ∷ ts) = none
parse_target m ts = some (m, ts)

-- Behind a literal an identifier is `nocase`, or ends the section.
unfoldable pub parse_strings : JsMap Pattern → Parse (JsMap Pattern)
unfolding put text_eq
parse_strings m (Token.dollar_id n ∷ Token.equals ∷ Token.regex p f ∷ ts) =
    parse_strings (put n (Pattern.regex p f) m) ts
parse_strings m (Token.dollar_id n ∷ Token.equals ∷ Token.string v ∷ Token.identifier s ∷ ts) =
    let more = parse_strings (put n (Pattern.literal v true) m) ts in
    if text_eq s (codes "nocase")
    then more
    else some (put n (Pattern.literal v false) m, Token.identifier s ∷ ts)
parse_strings m (Token.dollar_id n ∷ Token.equals ∷ Token.string v ∷ ts) =
    parse_strings (put n (Pattern.literal v false) m) ts
parse_strings m (Token.dollar_id n ∷ ts) = none
parse_strings m ts = some (m, ts)

-- The sections between the braces, at most `n` of them.
unfoldable pub parse_sections : ℕ → Rule → Parse Rule
unfolding expect_colon parse_meta parse_target parse_strings parse_condition
parse_sections zero r ts = none
parse_sections (suc n) r (Token.rbrace ∷ ts) = some (r, ts)
parse_sections (suc n) r (Token.keyword Keyword.meta ∷ ts) = expect_colon ts >>= λ (_, ts).
    parse_meta [] ts >>= λ (m, ts). parse_sections n (record r { meta = m }) ts
parse_sections (suc n) r (Token.keyword Keyword.target ∷ ts) = expect_colon ts >>= λ (_, ts).
    parse_target [] ts >>= λ (m, ts). parse_sections n (record r { targets = m }) ts
parse_sections (suc n) r (Token.keyword Keyword.strings ∷ ts) = expect_colon ts >>= λ (_, ts).
    parse_strings [] ts >>= λ (m, ts). parse_sections n (record r { strings = m }) ts
parse_sections (suc n) r (Token.keyword Keyword.condition ∷ ts) = expect_colon ts >>= λ (_, ts).
    parse_condition ts >>= λ (c, ts). parse_sections n (record r { condition = some c }) ts
parse_sections (suc n) r _ = none

-- `if (this.match(TOKEN.COLON)) { while (…) tags.push(…) }`
identifiers : List Token → List Text × List Token
identifiers (Token.identifier s ∷ ts) = let (vs, rest) = identifiers ts in (s ∷ vs, rest)
identifiers ts = ([], ts)

parse_tags : List Token → List Text × List Token
unfolding identifiers
parse_tags (Token.colon ∷ ts) = identifiers ts
parse_tags ts = ([], ts)

module _ (compiles : Pattern → Bool) where
  all_compile : JsMap Pattern → Bool
  all_compile [] = true
  all_compile ((k, p) ∷ m) = compiles p && all_compile m

  unfoldable pub parse_rule : Parse Rule
  unfolding expect_identifier expect_lbrace parse_tags parse_sections all_compile
  parse_rule (Token.keyword Keyword.rule ∷ ts) = do
    (name, ts) ← expect_identifier ts
    let tagged = parse_tags ts
    (_, ts) ← expect_lbrace tagged.1
    (r, rest) ←
        parse_sections (suc (length ts))
          (record {
            name = name;
            tags = tagged.0;
            meta = [];
            targets = [];
            strings = [];
            condition = none;
          })
          ts
    if all_compile r.strings then some (r, rest) else none
  parse_rule _ = none

  -- `parseFile`, with at most `n` rules.
  parse_rules : ℕ → List Token → Option (List Rule)
  unfolding parse_rule
  parse_rules n [] = some []
  parse_rules zero (t ∷ ts) = none
  parse_rules (suc n) (t ∷ ts) =
      parse_rule (t ∷ ts) >>= λ (r, rest). parse_rules n rest >>= λ rs. some (r ∷ rs)

  unfoldable pub parse_file : List Token → Option (List Rule)
  unfolding parse_rules
  parse_file ts = parse_rules (length ts) ts
