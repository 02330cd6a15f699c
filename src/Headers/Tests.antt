-- ===== src/Headers/Tests.antt =====
-- src/modules/header-security.js: the settings that it comes with.
use shield_wall.Prelude.{
  ◌≡◌, refl, ◌↔◌, ◌⊎◌, Bool, true, false, not, none, some, [], ◌∷◌, any, get, Text, codes, text_eq,
  ◌==◌,
}
use shield_wall.Headers.{many, one, Directives, value, Config}
use shield_wall.Headers.Policies.{
  script_src, response_directives, build_csp, join, sources_text, set_header, hsts_text,
  security_headers,
}
use shield_wall.Headers.Guarantees.{Allowed, response_directives-Allowed}
use shield_wall.Headers.Refusals.{IsStopped, AreRefused, security_headers-eq-none}

abbrev defaults : Directives
defaults =
    (codes "default-src", many (codes "'self'" ∷ []))
    ∷ (codes "script-src", many (codes "'self'" ∷ codes "'unsafe-inline'" ∷ []))
    ∷ []

has_scripts : get script_src defaults ≡ some (many (codes "'self'" ∷ codes "'unsafe-inline'" ∷ []))
unfolding get text_eq
has_scripts = refl

response_directives-Allowed_example :
    (e : Directives) × (response_directives (codes "abc") defaults ≡ some e)
    × Allowed (codes "abc") defaults e
response_directives-Allowed_example =
    response_directives-Allowed (codes "abc") defaults
      (codes "'self'" ∷ codes "'unsafe-inline'" ∷ []) has_scripts

abbrev config : Config
config = record {
  csp = record {
    enabled = true;
    directives = (codes "script-src", one (codes "'self'")) ∷ [];
    report_uri = [];
  };
  hsts = record {
    enabled = true;
    max_age = 31_536_000;
    include_sub_domains = true;
    preload = false;
  };
  nosniff = true;
  frame_options = value (codes "DENY");
  xss_protection = value (codes "0");
  referrer_policy = value (codes "strict-origin-when-cross-origin");
  dns_prefetch_control = value (codes "off");
  permitted_cross_domain_policies = value (codes "none");
  download_options = value (codes "noopen");
  permissions_policy = record { enabled = true; features = (codes "camera", []) ∷ [] };
  embedder_policy = value (codes "require-corp");
  opener_policy = value (codes "same-origin");
  resource_policy = value (codes "same-origin");
  remove_headers = codes "X-Powered-By" ∷ codes "Server" ∷ [];
}

-- Node takes no line feed; the test stands for its check.
abbrev one_line : Text → Text → Bool
one_line name v = not (any (λ c. c == 10) v)

security_headers-eq-none_example :
    (security_headers one_line (λ s. s) config (codes "abc") [] ≡ none)
    ↔ (IsStopped one_line config (codes "abc") ⊎ AreRefused one_line (λ s. s) config)
security_headers-eq-none_example =
    security_headers-eq-none one_line (λ s. s) config (codes "abc") []

-- A setting with a line feed is refused.
refuses_line :
    security_headers one_line
      (λ s. s)
      (record config {
        csp = record config.csp { enabled = false };
        frame_options = value (codes "DENY\n");
      })
      []
      []
    ≡ none
unfolding security_headers set_header hsts_text
refuses_line = refl

prints :
    build_csp (
      (codes "img-src", many (codes "'self'" ∷ codes "data:" ∷ []))
      ∷ (codes "a", one (codes "b"))
      ∷ [])
    ≡ codes "img-src 'self' data:; a b"
unfolding build_csp join sources_text
prints = refl
