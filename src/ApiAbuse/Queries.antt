-- ===== src/ApiAbuse/Queries.antt =====
-- src/modules/api-abuse.js, `calculateQueryComplexity`: how much a GraphQL query may cost.
use shield_wall.Prelude.{
  ℕ, zero, suc, ◌+◌, ◌-◌, ◌*◌, max, Bool, false, ◌&&◌, ◌||◌, List, [], ◌∷◌, ◌++◌, drop, any, Text,
  codes, starts_with, includes, to_lower, is_space, ltb, leb, ◌==◌, if◌then◌else◌,
}
use shield_wall.ApiAbuse.{
  Indicator, deep_nesting, massive_field_count, excessive_aliases, introspection_query, batch_bombs,
}

is_word : ℕ → Bool
is_word c =
    (leb b'0' c && leb c b'9')
    || (leb b'A' c && leb c b'Z')
    || (leb b'a' c && leb c b'z')
    || c == b'_'

-- The number of letters at the start that a test holds of.
span : (ℕ → Bool) → Text → ℕ
span p [] = 0
span p (c ∷ s) = if p c then suc (span p s) else 0

-- The deepest that braces are open, from those that were opened and closed before.
pub max_depth : ℕ → ℕ → ℕ → Text → ℕ
max_depth opened closed deepest [] = deepest
max_depth opened closed deepest (c ∷ s) =
    let inner = max_depth (suc opened) closed (max deepest (suc opened - closed)) s in
    let outer = max_depth opened (suc closed) deepest s in
    let same = max_depth opened closed deepest s in
    if c == b'{' then inner else if c == b'}' then outer else same

-- The matches of an expression from left to right, which do not overlap: an expression gives the number
-- of letters that it takes, 0 if it does not match.
count_matches : (Text → ℕ) → ℕ → Text → ℕ
count_matches m skip [] = 0
count_matches m (suc skip) (c ∷ s) = count_matches m skip s
count_matches m zero (c ∷ s) =
    let here = suc (count_matches m (m (c ∷ s) - 1) s) in
    let later = count_matches m 0 s in if m (c ∷ s) == 0 then later else here

starts : (ℕ → Bool) → Text → Bool
starts p [] = false
starts p (c ∷ s) = p c

-- `\w+\s*[\(\{\:]`
field_at : Text → ℕ
unfolding is_word span is_space starts
field_at s =
    let word = span is_word s in
    let gap = span is_space (drop word s) in
    if ltb 0 word && starts (λ c. c == b'(' || c == b'{' || c == b':') (drop (word + gap) s)
    then word + gap + 1
    else 0

-- `\w+\s*:\s*\w+`
alias_at : Text → ℕ
unfolding is_word span is_space starts
alias_at s =
    let word = span is_word s in
    let gap = span is_space (drop word s) in
    let next = word + gap + 1 in
    let gap2 = span is_space (drop next s) in
    let value = span is_word (drop (next + gap2) s) in
    if ltb 0 word && starts (λ c. c == b':') (drop (word + gap) s) && ltb 0 value
    then next + gap2 + value
    else 0

-- `query\s+\w+`, for a text in lower case
query_at : Text → ℕ
unfolding is_word span is_space starts_with
query_at s =
    let gap = span is_space (drop 5 s) in
    let name = span is_word (drop (5 + gap) s) in
    if starts_with s (codes "query") && ltb 0 gap && ltb 0 name then 5 + gap + name else 0

-- The complexity, doubled since a field costs a half, and the indicators.
unfoldable pub calculate_query_complexity : Text → ℕ × List Indicator
unfolding max_depth count_matches field_at alias_at query_at includes to_lower
calculate_query_complexity query =
    let depth = max_depth 0 0 0 query in
    let field_count = count_matches field_at 0 query in
    let alias_count = count_matches alias_at 0 query in
    let lower = to_lower query in
    let introspects =
      any (includes lower) (codes "__schema" ∷ codes "__type" ∷ codes "introspectionquery" ∷ []) in
    let query_count = count_matches query_at 0 lower in
    (
      10 * depth
          + field_count
          + 4 * alias_count
          + (if introspects then 60 else 0)
          + (if ltb 3 query_count then 20 * query_count else 0),
      (if ltb 8 depth then deep_nesting depth ∷ [] else [])
          ++ (if ltb 100 field_count then massive_field_count field_count ∷ [] else [])
          ++ (if ltb 20 alias_count then excessive_aliases alias_count ∷ [] else [])
          ++ (if introspects then introspection_query ∷ [] else [])
          ++ (if ltb 3 query_count then batch_bombs query_count ∷ [] else []),
    )
