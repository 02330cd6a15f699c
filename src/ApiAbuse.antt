-- ===== src/ApiAbuse.antt =====
-- src/modules/api-abuse.js: the endpoints that a client asks for, and what a request shows by itself. The
-- texts of the indicators are left out.
pub mod Queries
pub mod Tracking
pub mod Endpoints
mod Tests
use shield_wall.Prelude.{
  ℕ, Bool, true, false, ◌&&◌, ◌||◌, List, [], ◌∷◌, ◌++◌, length, any, keep, Text, codes, text_eq,
  includes, to_lower, ltb, ◌==◌, if◌then◌else◌,
}
use shield_wall.Scoring.{Match, high, medium}

pub data Indicator : Type 0 where
  deep_nesting : ℕ → Indicator
  massive_field_count : ℕ → Indicator
  excessive_aliases : ℕ → Indicator
  introspection_query : Indicator
  batch_bombs : ℕ → Indicator
  graphql_bomb : Indicator
  mass_assignment_suspected : ℕ → Indicator
  privilege_escalation_attempt : List Text → Indicator
  method_override : Text → Indicator
  jsonp_callback_injection : Indicator
  id_enumeration : ℕ → Indicator
  endpoint_enumeration : ℕ → Indicator

-- A body that is missing or empty, a text, or an object with its keys and the text under `query`, the empty
-- text if there is none.
pub data Body : Type 0 where
  nothing : Body
  text : Text → Body
  fields : List Text → Text → Body

pub record Request : Type 0 where
  pub session_id : Text
  pub ip : Text
  pub path : Text
  pub content_type : Text
  pub method_override : Text
  -- `query.callback || query.cb`
  pub callback : Text
  pub body : Body

-- `isGraphQL` and the query of the body.
unfoldable pub query_of : Request → Text
unfolding includes to_lower
query_of r =
    let named =
      includes (to_lower r.path) (codes "graphql") || includes (to_lower r.path) (codes "gql") in
    let graphql =
      includes r.content_type (codes "application/graphql")
      || (named && includes r.content_type (codes "application/json")) in
    if graphql then elim r.body [ nothing ↦ [] | text t ↦ t | fields keys q ↦ q ] else []

admin_fields : List Text
admin_fields =
    codes "role" ∷ codes "is_admin" ∷ codes "isAdmin" ∷ codes "permissions" ∷ codes "group" ∷ []

-- The keys that name a protected field.
unfoldable pub matched_fields : List Text → List Text
unfolding admin_fields text_eq to_lower
matched_fields keys = keep (λ k. any (text_eq (to_lower k)) admin_fields) keys

body_abuse : Body → List Indicator
unfolding matched_fields
body_abuse nothing = []
body_abuse (text t) = []
body_abuse (fields keys q) =
    (if ltb 50 (length keys) then mass_assignment_suspected (length keys) ∷ [] else [])
    ++ (if ltb 0 (length (matched_fields keys))
        then privilege_escalation_attempt (matched_fields keys) ∷ []
        else [])

is_breaking : ℕ → Bool
is_breaking c =
    c == b'<' || c == b'>' || c == b'(' || c == b')' || c == b'{' || c == b'}' || c == b';'

-- `detectRestAbuse`
unfoldable pub detect_rest_abuse : Request → List Indicator
unfolding body_abuse includes to_lower is_breaking
detect_rest_abuse r =
    let changes =
      any (includes (to_lower r.method_override))
        (codes "put" ∷ codes "delete" ∷ codes "patch" ∷ codes "options" ∷ []) in
    body_abuse r.body
    ++ (if changes then method_override r.method_override ∷ [] else [])
    ++ (if any is_breaking r.callback then jsonp_callback_injection ∷ [] else [])

-- `complexity` comes doubled.
unfoldable pub graphql_abuse : Bool → ℕ → List Indicator → List Indicator
graphql_abuse asked doubled indicators =
    if asked && ltb 400 doubled then indicators ++ graphql_bomb ∷ [] else []

is_severe : Indicator → Bool
is_severe (id_enumeration n) = true
is_severe (endpoint_enumeration n) = true
is_severe (privilege_escalation_attempt ks) = true
is_severe _ = false

-- The match for the indicators.
unfoldable pub conclude : List Indicator → List Match
unfolding is_severe
conclude [] = []
conclude (i ∷ is) =
    record {
      rule = codes "api_abuse";
      severity = if any is_severe (i ∷ is) then high else medium;
      category = codes "api";
      score = 0;
    }
    ∷ []
