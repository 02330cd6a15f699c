-- ===== src/Rules/Matcher.antt =====
-- src/core/rule-matcher.js. What a regular expression answers is a parameter: `test p s` is
-- `compiled.test(s)` of the pattern `p`, without the flags `g` and `y`, and `find p s` the text that
-- it matches. The texts of a request come as `_safeStringify` flattened them.
pub mod Groups
pub mod Meaning
mod Tests
use shield_wall.Prelude.{
  ℕ, suc, Bool, true, false, ◌&&◌, ◌||◌, not, Option, none, some, List, [], ◌∷◌, ◌++◌, Text, codes,
  text_eq, includes, JsMap, get, length, map, any, all, keep, leb, if◌then◌else◌,
}
use shield_wall.Rules.Ast.{Condition, MetaValue, Pattern, Rule}
use shield_wall.Rules.Ast

-- A decoded request, with '' for what is missing.
pub record Decoded : Type 0 where
  pub url : Text
  pub path : Text
  pub body : Text
  pub method : Text
  pub user_agent : Text
  pub ip : Text
  pub raw_url : Text
  pub raw_body : Text
  pub session_id : Text
  pub timestamp : Text
  pub content_type : Text
  pub hostname : Text
  pub protocol : Text
  pub query : Text
  pub headers : Text
  pub cookies : Text
  pub geoip : Text
  pub fingerprint : Text
  pub rate : Text

-- `[a, b, …].join('\n')`
unfoldable pub join_lines : List Text → Text
join_lines [] = []
join_lines (x ∷ []) = x
join_lines (x ∷ y ∷ xs) = x ++ (b'\n' ∷ join_lines (y ∷ xs))

unfoldable pub full_text : Decoded → Text
unfolding join_lines
full_text d =
    join_lines (d.url ∷ d.query ∷ d.body ∷ d.headers ∷ d.cookies ∷ d.geoip ∷ d.fingerprint ∷ [])

-- The fields of the match data that a target may name.
unfoldable pub prepare_match_data : Decoded → JsMap Text
unfolding full_text
prepare_match_data d =
    (codes "url", d.url)
    ∷ (codes "path", d.path)
    ∷ (codes "body", d.body)
    ∷ (codes "method", d.method)
    ∷ (codes "userAgent", d.user_agent)
    ∷ (codes "ip", d.ip)
    ∷ (codes "rawUrl", d.raw_url)
    ∷ (codes "rawBody", d.raw_body)
    ∷ (codes "queryString", d.query)
    ∷ (codes "headerString", d.headers)
    ∷ (codes "cookieString", d.cookies)
    ∷ (codes "full", full_text d)
    ∷ (codes "sessionId", d.session_id)
    ∷ (codes "timestamp", d.timestamp)
    ∷ (codes "geoipString", d.geoip)
    ∷ (codes "fingerprintString", d.fingerprint)
    ∷ (codes "rateString", d.rate)
    ∷ (codes "contentType", d.content_type)
    ∷ (codes "hostname", d.hostname)
    ∷ (codes "protocol", d.protocol)
    ∷ []

unfoldable pub target_map : JsMap Text
target_map =
    (codes "request.url", codes "url")
    ∷ (codes "request.path", codes "path")
    ∷ (codes "request.body", codes "body")
    ∷ (codes "request.query", codes "queryString")
    ∷ (codes "request.headers", codes "headerString")
    ∷ (codes "request.cookies", codes "cookieString")
    ∷ (codes "request.method", codes "method")
    ∷ (codes "request.useragent", codes "userAgent")
    ∷ (codes "request.user_agent", codes "userAgent")
    ∷ (codes "request.ip", codes "ip")
    ∷ (codes "request.raw_url", codes "rawUrl")
    ∷ (codes "request.raw_body", codes "rawBody")
    ∷ (codes "request.session", codes "sessionId")
    ∷ (codes "request.sessionid", codes "sessionId")
    ∷ (codes "request.timestamp", codes "timestamp")
    ∷ (codes "request.time", codes "timestamp")
    ∷ (codes "request.geoip", codes "geoipString")
    ∷ (codes "request.geo", codes "geoipString")
    ∷ (codes "request.fingerprint", codes "fingerprintString")
    ∷ (codes "request.fp", codes "fingerprintString")
    ∷ (codes "request.rate", codes "rateString")
    ∷ (codes "request.content_type", codes "contentType")
    ∷ (codes "request.hostname", codes "hostname")
    ∷ (codes "request.protocol", codes "protocol")
    ∷ []

abbrev pub get_or_text : Option Text → Text → Text
get_or_text none d = d
get_or_text (some s) d = s

unfoldable pub resolve_target : Text → Rule → Decoded → Text
unfolding get target_map prepare_match_data
resolve_target name rule d = elim (get name rule.targets) [
  | none ↦ full_text d
  | some t ↦ get_or_text (get (get_or_text (get t target_map) t) (prepare_match_data d)) []
]

module _ (test : Pattern → Text → Bool) where
  unfoldable pub test_pattern : Option Pattern → Text → Bool
  test_pattern none s = false
  test_pattern (some p) [] = false
  test_pattern (some p) (c ∷ s) = test p (c ∷ s)

  some_match : JsMap Pattern → Text → Bool
  unfolding test_pattern
  some_match [] s = false
  some_match ((k, p) ∷ m) s = test_pattern (some p) s || some_match m s

  every_match : JsMap Pattern → Text → Bool
  unfolding test_pattern
  every_match [] s = true
  every_match ((k, p) ∷ m) s = test_pattern (some p) s && every_match m s

  unfoldable pub evaluate : Condition → Rule → Decoded → Bool
  unfolding some_match every_match test_pattern resolve_target
  evaluate (Condition.and l r) rule d = evaluate l rule d && evaluate r rule d
  evaluate (Condition.or l r) rule d = evaluate l rule d || evaluate r rule d
  evaluate (Condition.not e) rule d = not (evaluate e rule d)
  evaluate (Condition.match p) rule d = test_pattern (get p rule.strings) (full_text d)
  evaluate (Condition.match_in p t) rule d =
      test_pattern (get p rule.strings) (resolve_target t rule d)
  evaluate Condition.any_of_them rule d = some_match rule.strings (full_text d)
  evaluate Condition.all_of_them rule d = every_match rule.strings (full_text d)
  evaluate (Condition.any_of vs) rule d =
      any (λ v. test_pattern (get v rule.strings) (full_text d)) vs
  evaluate (Condition.all_of vs) rule d =
      all (λ v. test_pattern (get v rule.strings) (full_text d)) vs
  evaluate (Condition.boolean b) rule d = b

  -- A rule with no condition always holds.
  unfoldable pub holds : Rule → Decoded → Bool
  unfolding evaluate
  holds rule d = elim rule.condition [ none ↦ true | some c ↦ evaluate c rule d ]

-- The name that the parser gives the kind of a pattern.
unfoldable pub pattern_type : Pattern → Text
pattern_type (Pattern.regex p f) = codes "regex"
pattern_type (Pattern.literal v n) = codes "literal"

pattern_length : Pattern → ℕ
pattern_length (Pattern.regex p f) = 0
pattern_length (Pattern.literal v n) = length v

-- `def.type === 'string' && def.value.length >= 3` for one of the patterns of a rule.
unfoldable pub has_literal : JsMap Pattern → Bool
unfolding pattern_type pattern_length text_eq
has_literal [] = false
has_literal ((k, p) ∷ m) =
    (text_eq (pattern_type p) (codes "string") && leb 3 (pattern_length p)) || has_literal m

pub data Group : Type 0 where
  body url headers anything : Group

abbrev values : JsMap Text → List Text
values = map (λ e. e.1)

-- The group of a rule, by what all of its targets name.
unfoldable pub group_of : Rule → Group
unfolding includes
group_of r =
    let targets = values r.targets in
    if all (λ t. includes t (codes "body")) targets
    then body
    else if all
        (λ t. includes t (codes "url") || includes t (codes "path") || includes t (codes "query"))
        targets
    then url
    else if all
        (λ t.
          includes t (codes "header")
          || includes t (codes "cookie")
          || includes t (codes "useragent"))
        targets
    then headers
    else anything

abbrev pub same_group : Group → Group → Bool
same_group body body = true
same_group url url = true
same_group headers headers = true
same_group anything anything = true
same_group _ _ = false

unfoldable pub in_group : Group → List Rule → List Rule
unfolding group_of
in_group g = keep (λ r. same_group (group_of r) g)

abbrev pub nonempty : Text → Bool
nonempty [] = false
nonempty (c ∷ s) = true

-- The rules that are evaluated for a request.
unfoldable pub active_rules : List Rule → Decoded → List Rule
unfolding in_group
active_rules rules d =
    in_group anything rules
    ++ (in_group url rules
        ++ ((if nonempty d.body then in_group body rules else [])
            ++ (if nonempty d.headers then in_group headers rules else [])))

pub record RuleMatch : Type 0 where
  pub rule : Text
  pub tags : List Text
  pub severity : MetaValue
  pub category : MetaValue
  pub matched_patterns : List (Text × Text)

-- `value || default`
abbrev or_meta : Option MetaValue → MetaValue → MetaValue
or_meta none d = d
or_meta (some (MetaValue.text [])) d = d
or_meta (some (MetaValue.number ℕ.zero)) d = d
or_meta (some (MetaValue.flag false)) d = d
or_meta (some v) d = v

module _ (test : Pattern → Text → Bool) (find : Pattern → Text → Option Text) where
  matched_patterns : JsMap Pattern → Text → List (Text × Text)
  unfolding test_pattern
  matched_patterns [] s = []
  matched_patterns ((k, p) ∷ m) s =
      let rest = matched_patterns m s in
      if test_pattern test (some p) s
      then (k, get_or_text (find p s) (codes "(matched)")) ∷ rest
      else rest

  unfoldable pub report : Decoded → Rule → RuleMatch
  unfolding matched_patterns get
  report d r = record {
    rule = r.name;
    tags = r.tags;
    severity = or_meta (get (codes "severity") r.meta) (MetaValue.text (codes "medium"));
    category = elim r.tags [
      | [] ↦ or_meta (get (codes "category") r.meta) (MetaValue.text (codes "unknown"))
      | t ∷ ts ↦ MetaValue.text t
    ];
    matched_patterns = matched_patterns r.strings (full_text d);
  }

  -- `hit r` is what the scan for the literals of the rules says of `r`.
  match_loop : (Rule → Bool) → Decoded → List Rule → List RuleMatch
  unfolding has_literal holds report
  match_loop hit d [] = []
  match_loop hit d (r ∷ rs) =
      let rest = match_loop hit d rs in
      if has_literal r.strings && not (hit r)
      then rest
      else if holds test r d
      then report d r ∷ rest
      else rest

  unfoldable pub match_compiled_rules : (Rule → Bool) → List Rule → Decoded → List RuleMatch
  unfolding match_loop active_rules
  match_compiled_rules hit rules d = match_loop hit d (active_rules rules d)
