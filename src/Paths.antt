-- ===== src/Paths.antt =====
-- The fixed patterns that the code tests paths with: src/core/recon-tracker.js and the table of
-- sensitive endpoints of src/core/engine.js. Each is a regular expression that the source writes out, so it is
-- a function of the path here; the flag `i` folds ASCII letters.
use shield_wall.Prelude.{
  ℕ, Bool, true, false, ◌&&◌, ◌||◌, not, List, [], ◌∷◌, ◌++◌, drop, any, Text, codes, starts_with,
  includes, to_lower, leb, ◌==◌, if◌then◌else◌,
}

abbrev is_digit : ℕ → Bool
is_digit c = leb b'0' c && leb c b'9'

-- `\w`
abbrev is_word : ℕ → Bool
is_word c = is_digit c || (leb b'a' c && leb c b'z') || (leb b'A' c && leb c b'Z') || c == b'_'

skip_digits : Text → Text
skip_digits [] = []
skip_digits (c ∷ s) = if is_digit c then skip_digits s else c ∷ s

-- `[0-9]+\/(w1|w2|...)` at the start: what follows the digits begins with `/`, so that taking all of them
-- is right.
pub versioned : List Text → Text → Bool
versioned ws [] = false
versioned ws (c ∷ s) = is_digit c && any (λ w. starts_with (skip_digits s) (codes "/" ++ w)) ws

-- `\/api\/v[0-9]+\/(w1|w2|...)` at the start.
unfoldable pub versioned_api : List Text → Text → Bool
unfolding versioned skip_digits starts_with
versioned_api ws s = starts_with s (codes "/api/v") && versioned ws (drop 6 s)

-- The same anywhere.
unfoldable pub has_versioned_api : List Text → Text → Bool
unfolding versioned_api
has_versioned_api ws [] = false
has_versioned_api ws (c ∷ s) = versioned_api ws (c ∷ s) || has_versioned_api ws s

-- A word at the start, and the end of a word after it: `w\b`.
pub is_whole : Text → Text → Bool
is_whole [] [] = true
is_whole [] (c ∷ s) = not (is_word c)
is_whole (x ∷ w) [] = false
is_whole (x ∷ w) (c ∷ s) = (x == c) && is_whole w s

-- `\b(w1|w2|...)\b` anywhere; the flag says whether the letter before belongs to a word.
has_word : List Text → Bool → Text → Bool
unfolding is_whole
has_word ws before [] = false
has_word ws before (c ∷ s) =
    (not before && any (λ w. is_whole w (c ∷ s)) ws) || has_word ws (is_word c) s

pub internal_paths : List Text
internal_paths =
    codes "v1/internal"
    ∷ codes "v1/debug"
    ∷ codes "v1/console"
    ∷ codes "v1/metrics"
    ∷ codes "v2/internal"
    ∷ codes "v2/debug"
    ∷ codes "v2/console"
    ∷ codes "v2/metrics"
    ∷ []

pub scanner_paths : List Text
scanner_paths =
    codes ".env"
    ∷ codes ".git"
    ∷ codes ".htaccess"
    ∷ codes ".aws"
    ∷ codes ".ds_store"
    ∷ codes "wp-admin"
    ∷ codes "wp-login"
    ∷ codes "phpmyadmin"
    ∷ codes "adminer"
    ∷ codes "xmlrpc"
    ∷ codes "/actuator"
    ∷ codes "/swagger"
    ∷ codes "/graphql"
    ∷ codes "/api-docs"
    ∷ codes "/.well-known"
    ∷ []

-- `SCANNER_PATTERNS.some(p => p.test(path))`
unfoldable pub is_scanner_path : Text → Bool
unfolding to_lower includes scanner_paths internal_paths has_word
is_scanner_path path =
    let p = to_lower path in any (includes p) scanner_paths || has_word internal_paths false p

pub sensitive_paths : List Text
sensitive_paths =
    codes "/auth"
    ∷ codes "/login"
    ∷ codes "/oauth"
    ∷ codes "/sso"
    ∷ codes "/api/token"
    ∷ codes "/admin"
    ∷ codes "/dashboard"
    ∷ codes "/config"
    ∷ codes "/settings"
    ∷ []

-- `isSensitiveTarget`
unfoldable pub is_sensitive_target : Text → Bool
unfolding to_lower includes sensitive_paths has_versioned_api
is_sensitive_target path =
    let p = to_lower path in
    any (includes p) sensitive_paths
    || has_versioned_api (codes "payment" ∷ codes "checkout" ∷ codes "users" ∷ codes "exec" ∷ []) p

-- `/(\/\.env|\/wp-admin|\/actuator)/i`
unfoldable pub is_probe : Text → Bool
unfolding to_lower includes
is_probe path =
    let p = to_lower path in
    includes p (codes "/.env") || includes p (codes "/wp-admin") || includes p (codes "/actuator")

begins_with : List Text → Text → Bool
unfolding starts_with
begins_with ws p = any (starts_with p) ws

-- `_getEndpointSensitivity`, in tenths.
unfoldable pub endpoint_sensitivity : Text → ℕ
unfolding to_lower begins_with versioned_api
endpoint_sensitivity path =
    let p = to_lower path in
    if begins_with
      (codes "/auth"
        ∷ codes "/login"
        ∷ codes "/register"
        ∷ codes "/reset-password"
        ∷ codes "/oauth"
        ∷ codes "/sso"
        ∷ [])
      p
    then 25
    else if begins_with
        (codes "/admin"
          ∷ codes "/cms"
          ∷ codes "/wp-admin"
          ∷ codes "/dashboard"
          ∷ codes "/control-panel"
          ∷ [])
        p
    then 30
    else if versioned_api (codes "payment" ∷ codes "checkout" ∷ codes "cart" ∷ codes "billing" ∷ [])
        p
    then 20
    else if begins_with
        (codes "/search"
          ∷ codes "/catalog"
          ∷ codes "/public"
          ∷ codes "/assets"
          ∷ codes "/_next"
          ∷ codes "/static"
          ∷ [])
        p
    then 2
    else 10
