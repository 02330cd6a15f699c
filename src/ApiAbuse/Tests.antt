-- ===== src/ApiAbuse/Tests.antt =====
-- src/modules/api-abuse.js: the properties at concrete requests, and a few runs.
use shield_wall.Prelude.{ℕ, ◌≡◌, refl, List, [], ◌∷◌, arith, get, Text, codes}
use shield_wall.ApiAbuse.{Request, nothing, matched_fields}
use shield_wall.ApiAbuse.Queries.{calculate_query_complexity}
use shield_wall.ApiAbuse.Endpoints.{
  accesses, last_seen, latest, IsOrdered, last_access_of, within, get-accesses,
}

abbrev visits : List (Text × ℕ)
visits = (codes "/b", 400_000) ∷ (codes "/a", 350_000) ∷ (codes "/c", 50_000) ∷ []

get-accesses_example :
    last_access_of (get (codes "/a") (accesses visits))
    ≡ within (latest visits) (last_seen (codes "/a") visits)
unfolding IsOrdered latest
get-accesses_example =
    get-accesses (codes "/a") visits (omega arith, (omega arith, (omega arith, tt)))

abbrev request : Request
request = record {
  session_id = [];
  ip = codes "10.0.0.1";
  path = codes "/a";
  content_type = [];
  method_override = [];
  callback = [];
  body = nothing;
}

-- A protected field that is written with a capital is not recognised.
matched_fields-capital : matched_fields (codes "isAdmin" ∷ codes "Role" ∷ []) ≡ codes "Role" ∷ []
unfolding matched_fields
matched_fields-capital = refl

calculate_query_complexity-braces :
    (calculate_query_complexity (codes "query q { a(x: 1) { b } }")).0 ≡ 27
unfolding calculate_query_complexity
calculate_query_complexity-braces = refl
