-- ===== src/Rules/Matcher/Tests.antt =====
-- src/core/rule-matcher.js: the properties at a concrete request, with patterns that match where their
-- text occurs.
use shield_wall.Prelude.{
  ◌≡◌, refl, ◌↔◌, Bool, true, false, Option, none, some, [], ◌∷◌, map, keep, get, Text, codes,
  text_eq, includes,
}
use mathlib.Core.List.{Perm}
use shield_wall.Rules.Ast.{Condition, Pattern, Rule}
use shield_wall.Rules.Matcher.{
  Decoded, group_of, in_group, active_rules, holds, evaluate, test_pattern, resolve_target,
  full_text, report, match_compiled_rules,
}
use shield_wall.Rules.Matcher.Groups.{match_compiled_rules-perm, match_compiled_rules-no_targets}
use shield_wall.Rules.Matcher.Meaning.{Holds, evaluate_iff}

program : Unit {0}
unfolding group_of in_group active_rules holds evaluate test_pattern resolve_target full_text report
    match_compiled_rules includes get text_eq
program = tt

occurs : Pattern → Text → Bool
unfolding includes
occurs (Pattern.regex p f) s = includes s p
occurs (Pattern.literal v n) s = includes s v

found : Pattern → Text → Option Text
found p s = none

abbrev untargeted : Rule
untargeted = record {
  name = codes "u";
  tags = [];
  meta = [];
  targets = [];
  strings = (codes "$a", Pattern.literal (codes "xp_") false) ∷ [];
  condition = some Condition.any_of_them;
}

abbrev on_url : Rule
on_url = record untargeted {
  name = codes "v";
  targets = (codes "$t", codes "request.url") ∷ [];
  condition = some (Condition.match_in (codes "$a") (codes "$t"));
}

abbrev request : Decoded
request = record {
  url = codes "/?q=xp_";
  path = codes "/";
  body = [];
  method = codes "GET";
  user_agent = [];
  ip = codes "10.0.0.1";
  raw_url = [];
  raw_body = [];
  session_id = [];
  timestamp = [];
  content_type = [];
  hostname = [];
  protocol = codes "http";
  query = [];
  headers = [];
  cookies = [];
  geoip = [];
  fingerprint = [];
  rate = [];
}

abbrev posted : Decoded
posted = record request { body = codes "hi"; headers = codes "a=b" }

abbrev never : Rule → Bool
never r = false

-- The rule without targets holds for the request, and is not reported.
untargeted_missed :
    (holds occurs untargeted request ≡ true)
    × (match_compiled_rules occurs found never (untargeted ∷ []) request ≡ [])
unfolding program occurs
untargeted_missed = (refl, refl)

match_compiled_rules-no_targets_example :
    match_compiled_rules occurs found never (untargeted ∷ on_url ∷ []) request
    ≡ match_compiled_rules occurs found never (on_url ∷ []) request
match_compiled_rules-no_targets_example =
    match_compiled_rules-no_targets occurs found never (untargeted ∷ on_url ∷ []) request refl

match_compiled_rules-perm_example :
    Perm (match_compiled_rules occurs found never (untargeted ∷ on_url ∷ []) posted) (
      map
        (report occurs found posted)
        (keep (λ r. holds occurs r posted) (untargeted ∷ on_url ∷ [])))
match_compiled_rules-perm_example =
    match_compiled_rules-perm occurs found never (untargeted ∷ on_url ∷ []) posted refl refl

evaluate_iff_example :
    (evaluate occurs (Condition.not (Condition.match (codes "$a"))) untargeted request ≡ true)
    ↔ Holds occurs untargeted request (Condition.not (Condition.match (codes "$a")))
evaluate_iff_example =
    evaluate_iff occurs untargeted request (Condition.not (Condition.match (codes "$a")))
