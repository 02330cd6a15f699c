-- ===== src/Headers/Policies.antt =====
-- src/modules/header-security.js: `buildCSP`, `buildPermissions` and the middleware. A directive
-- `script-src` that is one text, and not empty, makes the middleware throw, and so does a header that Node
-- does not take: the outcome is `none`.
use shield_wall.Prelude.{
  Bool, true, false, not, Option, none, some, List, [], ◌∷◌, ◌++◌, ◌>>=◌, map, keep, JsMap, get,
  put, delete, Text, codes, text_eq, to_lower, if◌then◌else◌,
}
use shield_wall.Fingerprints.{show}
use shield_wall.Headers.{Sources, many, one, Directives, Hsts, Setting, off, value, Config}

unfoldable pub join : Text → List Text → Text
join sep [] = []
join sep (t ∷ []) = t
join sep (t ∷ u ∷ ts) = t ++ sep ++ join sep (u ∷ ts)

unfoldable pub sources_text : Sources → Text
unfolding join
sources_text (many ts) = join (codes " ") ts
sources_text (one t) = t

-- `buildCSP`
unfoldable pub build_csp : Directives → Text
unfolding join sources_text
build_csp d = join (codes "; ") (map (λ e. e.0 ++ codes " " ++ sources_text e.1) d)

allow_list : Text × List Text → Text
unfolding join
allow_list (k, []) = k ++ codes "=()"
allow_list (k, t ∷ ts) = k ++ codes "=(" ++ join (codes " ") (t ∷ ts) ++ codes ")"

-- `buildPermissions`
unfoldable pub build_permissions : JsMap (List Text) → Text
unfolding join allow_list
build_permissions f = join (codes ", ") (map allow_list f)

abbrev pub unsafe_inline : Text
unsafe_inline = codes "'unsafe-inline'"

abbrev pub script_src : Text
script_src = codes "script-src"

unfoldable pub nonce_source : Text → Text
nonce_source nonce = codes "'nonce-" ++ nonce ++ codes "'"

unfoldable pub with_nonce : Text → Directives → Option Sources → Option Directives
with_nonce nonce d none = some d
with_nonce nonce d (some (one [])) = some d
with_nonce nonce d (some (one (c ∷ t))) = none
with_nonce nonce d (some (many ts)) = some (
    put script_src (many (keep (λ v. not (text_eq v unsafe_inline)) ts ++ nonce_source nonce ∷ []))
      d)

-- The directives of one response.
unfoldable pub response_directives : Text → Directives → Option Directives
response_directives nonce d = with_nonce nonce d (get script_src d)

abbrev pub Headers : Type 0
Headers = JsMap Text

unfoldable pub remove_header : Text → Headers → Headers
remove_header name h = delete (to_lower name) h

unfoldable pub remove_all : List Text → Headers → Headers
remove_all [] h = h
remove_all (n ∷ ns) h = remove_all ns (remove_header n h)

unfoldable pub xss_text : Text → Text
xss_text [] = codes "0"
xss_text (c ∷ t) = c ∷ t

unfoldable pub hsts_text : Hsts → Text
unfolding show
hsts_text c =
    codes "max-age="
    ++ show c.max_age
    ++ (if c.include_sub_domains then codes "; includeSubDomains" else [])
    ++ (if c.preload then codes "; preload" else [])

unfoldable pub report_text : (Text → Text) → Text → Text
report_text quote uri =
    codes "{\"group\":\"csp-violations\",\"max_age\":10886400,\"endpoints\":[{\"url\":"
    ++ quote uri
    ++ codes "}]}"

-- `accepts` is Node's check of the name and the value of a header: where it answers no, `setHeader` throws,
-- and the outcome is `none`.
module _ (accepts : Text → Text → Bool) where
  unfoldable pub set_header : Text → Text → Headers → Option Headers
  unfolding put to_lower
  set_header name v h = if accepts name v then some (put (to_lower name) v h) else none

  unfoldable pub set_where : Bool → Text → Text → Headers → Option Headers
  unfolding set_header
  set_where true name v h = set_header name v h
  set_where false name v h = some h

  unfoldable pub set_if : Text → Setting → Headers → Option Headers
  unfolding set_header
  set_if name off h = some h
  set_if name (value []) h = some h
  set_if name (value (c ∷ t)) h = set_header name (c ∷ t) h

  unfoldable pub set_xss : Setting → Headers → Option Headers
  unfolding set_header xss_text
  set_xss off h = some h
  set_xss (value t) h = set_header (codes "X-XSS-Protection") (xss_text t) h

  unfoldable pub report_to : (Text → Text) → Text → Headers → Option Headers
  unfolding set_header report_text
  report_to quote [] h = some h
  report_to quote (c ∷ uri) h = set_header (codes "Report-To") (report_text quote (c ∷ uri)) h

  -- The headers after the policy of the contents.
  unfoldable pub other_headers : (Text → Text) → Config → Headers → Option Headers
  unfolding set_where set_if set_xss report_to
  other_headers quote c h = do
    h ← report_to quote c.csp.report_uri h
    h ← set_where c.hsts.enabled (codes "Strict-Transport-Security") (hsts_text c.hsts) h
    h ← set_where c.nosniff (codes "X-Content-Type-Options") (codes "nosniff") h
    h ← set_if (codes "X-Frame-Options") c.frame_options h
    h ← set_xss c.xss_protection h
    h ← set_if (codes "Referrer-Policy") c.referrer_policy h
    h ← set_if (codes "X-DNS-Prefetch-Control") c.dns_prefetch_control h
    h ← set_if (codes "X-Permitted-Cross-Domain-Policies") c.permitted_cross_domain_policies h
    h ← set_if (codes "X-Download-Options") c.download_options h
    h ←
        set_where c.permissions_policy.enabled (codes "Permissions-Policy")
          (build_permissions c.permissions_policy.features) h
    h ← set_if (codes "Cross-Origin-Embedder-Policy") c.embedder_policy h
    h ← set_if (codes "Cross-Origin-Opener-Policy") c.opener_policy h
    h ← set_if (codes "Cross-Origin-Resource-Policy") c.resource_policy h
    some (remove_all c.remove_headers h)

  unfoldable pub set_policy : Option Directives → Headers → Option Headers
  unfolding set_header
  set_policy none h = none
  set_policy (some d) h = set_header (codes "Content-Security-Policy") (build_csp d) h

  unfoldable pub with_policy : Config → Text → Headers → Option Headers
  unfolding set_policy
  with_policy c nonce h =
      if c.csp.enabled then set_policy (response_directives nonce c.csp.directives) h else some h

  -- `securityHeaders`, for a response that has not been sent yet.
  unfoldable pub security_headers : (Text → Text) → Config → Text → Headers → Option Headers
  unfolding with_policy other_headers
  security_headers quote c nonce h = with_policy c nonce h >>= other_headers quote c
