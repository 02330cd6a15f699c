-- ===== src/Headers/Refusals.antt =====
-- src/modules/header-security.js: where the middleware throws.
use shield_wall.Prelude.{
  ◌≡◌, refl, sym, ap, ◌≢◌, ◌∙◌, ◌↔◌, ◌⊎◌, ◌>>=◌, inl, inr, Bool, true, false, Option, none, some,
  [], ◌∷◌, arith, get, Text, codes,
}
use shield_wall.Headers.{Sources, many, one, Directives, Setting, off, value, Config}
use shield_wall.Headers.Policies.{
  script_src, with_nonce, response_directives, Headers, xss_text, hsts_text, report_text, build_csp,
  build_permissions, set_header, set_where, set_if, set_xss, report_to, other_headers, set_policy,
  with_policy, security_headers,
}

abbrev pub is_text : Option Sources → Bool
is_text (some (one [])) = false
is_text (some (one (c ∷ t))) = true
is_text (some (many ts)) = false
is_text none = false

-- The sources of scripts are one text.
abbrev pub IsText : Option Sources → Type 0
IsText o = is_text o ≡ true

with_nonce-eq-none :
    (nonce : Text) (d : Directives) (o : Option Sources) → (with_nonce nonce d o ≡ none) ↔ IsText o
unfolding with_nonce
with_nonce-eq-none nonce d none = ground arith
with_nonce-eq-none nonce d (some (one [])) = ground arith
with_nonce-eq-none nonce d (some (one (x ∷ t))) = ground arith
with_nonce-eq-none nonce d (some (many ts)) = ground arith

abbrev text_in : Setting → Text
text_in off = []
text_in (value t) = t

abbrev directives_in : Option Directives → Directives
directives_in none = []
directives_in (some d) = d

module _ (accepts : Text → Text → Bool) where
  -- The headers that Node refuses, among those that the settings order.
  abbrev pub IsRefusedWhere : Bool → Text → Text → Type 0
  IsRefusedWhere b name v = (b ≡ true) × (accepts name v ≡ false)

  abbrev pub IsRefused : Text → Setting → Type 0
  IsRefused name s = (t : Text) × (s ≡ value t) × (t ≢ []) × (accepts name t ≡ false)

  abbrev pub IsRefusedXss : Setting → Type 0
  IsRefusedXss s =
      (t : Text) × (s ≡ value t) × (accepts (codes "X-XSS-Protection") (xss_text t) ≡ false)

  abbrev pub IsRefusedReport : (Text → Text) → Text → Type 0
  IsRefusedReport quote uri =
      (uri ≢ []) × (accepts (codes "Report-To") (report_text quote uri) ≡ false)

  abbrev pub IsRefusedPolicy : Option Directives → Type 0
  IsRefusedPolicy o =
      (d : Directives) × (o ≡ some d)
      × (accepts (codes "Content-Security-Policy") (build_csp d) ≡ false)

  -- One of the headers after the policy is refused.
  abbrev pub AreRefused : (Text → Text) → Config → Type 0
  AreRefused quote c =
      IsRefusedReport quote c.csp.report_uri
      ⊎ (IsRefusedWhere c.hsts.enabled (codes "Strict-Transport-Security") (hsts_text c.hsts)
          ⊎ (IsRefusedWhere c.nosniff (codes "X-Content-Type-Options") (codes "nosniff")
              ⊎ (IsRefused (codes "X-Frame-Options") c.frame_options
                  ⊎ (IsRefusedXss c.xss_protection
                      ⊎ (IsRefused (codes "Referrer-Policy") c.referrer_policy
                          ⊎ (IsRefused (codes "X-DNS-Prefetch-Control") c.dns_prefetch_control
                              ⊎ (IsRefused (codes "X-Permitted-Cross-Domain-Policies")
                                    c.permitted_cross_domain_policies
                                  ⊎ (IsRefused (codes "X-Download-Options") c.download_options
                                      ⊎ (IsRefusedWhere c.permissions_policy.enabled
                                            (codes "Permissions-Policy")
                                            (build_permissions c.permissions_policy.features)
                                          ⊎ (IsRefused (codes "Cross-Origin-Embedder-Policy")
                                                c.embedder_policy
                                              ⊎ (IsRefused (codes "Cross-Origin-Opener-Policy")
                                                    c.opener_policy
                                                  ⊎ IsRefused (codes "Cross-Origin-Resource-Policy")
                                                      c.resource_policy)))))))))))

  set_header-eq-none :
      (name v : Text) (h : Headers)
      → (set_header accepts name v h ≡ none) ↔ (accepts name v ≡ false)
  unfolding set_header
  set_header-eq-none name v h = ground arith

  where-eq-none :
      (b : Bool) (name v : Text) (h : Headers)
      → (set_where accepts b name v h ≡ none) ↔ IsRefusedWhere b name v
  unfolding set_where
  where-eq-none true name v h = ground (arith, set_header-eq-none name v h)
  where-eq-none false name v h = (λ e. cc, λ (e, _). cc)

  if-eq-none :
      (name : Text) (s : Setting) (h : Headers)
      → (set_if accepts name s h ≡ none) ↔ IsRefused name s
  unfolding set_if
  if-eq-none name off h = (λ e. cc, λ (t, e, _, _). cc)
  if-eq-none name (value []) h = (λ e. cc, λ (t, e, full, _). absurd (full (ap text_in (sym e))))
  if-eq-none name (value (x ∷ u)) h = (
    λ e. (x ∷ u, refl, λ k. cc, (set_header-eq-none name (x ∷ u) h).0 e),
    λ (t, e, full, refused).
        (set_header-eq-none name (x ∷ u) h).1 (ap (λ s. accepts name (text_in s)) e ∙ refused),
  )

  xss-eq-none : (s : Setting) (h : Headers) → (set_xss accepts s h ≡ none) ↔ IsRefusedXss s
  unfolding set_xss
  xss-eq-none off h = (λ e. cc, λ (t, e, _). cc)
  xss-eq-none (value u) h =
      let name = codes "X-XSS-Protection" in
      let set = set_header-eq-none name (xss_text u) h in
      (
        λ e. (u, refl, set.0 e),
        λ (t, e, refused). set.1 (ap (λ s. accepts name (xss_text (text_in s))) e ∙ refused),
      )

  report-eq-none :
      (quote : Text → Text) (uri : Text) (h : Headers)
      → (report_to accepts quote uri h ≡ none) ↔ IsRefusedReport quote uri
  unfolding report_to
  report-eq-none quote [] h = (λ e. cc, λ e. absurd (e.0 refl))
  report-eq-none quote (x ∷ uri) h =
      let set = set_header-eq-none (codes "Report-To") (report_text quote (x ∷ uri)) h in
      (λ e. (λ k. cc, set.0 e), λ e. set.1 e.1)

  policy-eq-none :
      (o : Option Directives) (h : Headers)
      → (set_policy accepts o h ≡ none) ↔ ((o ≡ none) ⊎ IsRefusedPolicy o)
  unfolding set_policy
  policy-eq-none none h = (λ e. inl refl, λ e. refl)
  policy-eq-none (some d) h =
      let name = codes "Content-Security-Policy" in
      let set = set_header-eq-none name (build_csp d) h in
      (
        λ e. inr (d, refl, set.0 e),
        λ e. elim e [
          | inl k ↦ absurd (cc)
          | inr (f, k, refused) ↦
              set.1 (ap (λ o. accepts name (build_csp (directives_in o))) k ∙ refused)
        ],
      )

  -- A chain throws where its first part throws or the rest does, which does not depend on the headers.
  then-eq-none :
      {P Q : Type 0} (o : Option Headers) (f : Headers → Option Headers)
      → ((o ≡ none) ↔ P)
      → ((h : Headers) → (f h ≡ none) ↔ Q)
      → ((o >>= f) ≡ none) ↔ (P ⊎ Q)
  then-eq-none none f p q = (λ e. inl (p.0 refl), λ e. refl)
  then-eq-none (some h) f p q =
      (λ e. inr ((q h).0 e), λ e. elim e [ inl x ↦ absurd (cc (p.1 x)) | inr y ↦ (q h).1 y ])

  last-eq-none :
      {P : Type 0} (o : Option Headers) (f : Headers → Headers)
      → ((o ≡ none) ↔ P)
      → ((o >>= λ h. some (f h)) ≡ none) ↔ P
  last-eq-none none f p = p
  last-eq-none (some h) f p = (λ e. cc, λ x. absurd (cc (p.1 x)))

  other_headers-eq-none :
      (quote : Text → Text) (c : Config) (h : Headers)
      → (other_headers accepts quote c h ≡ none) ↔ AreRefused quote c
  unfolding other_headers
  other_headers-eq-none quote c h = then-eq-none _ _ (report-eq-none quote c.csp.report_uri h) (λ h.
      then-eq-none _ _
        (where-eq-none c.hsts.enabled (codes "Strict-Transport-Security") (hsts_text c.hsts) h)
        (λ h.
          then-eq-none _ _
            (where-eq-none c.nosniff (codes "X-Content-Type-Options") (codes "nosniff") h)
            (λ h. then-eq-none _ _ (if-eq-none (codes "X-Frame-Options") c.frame_options h) (λ h.
              then-eq-none _ _ (xss-eq-none c.xss_protection h) (λ h.
                then-eq-none _ _ (if-eq-none (codes "Referrer-Policy") c.referrer_policy h) (λ h.
                  then-eq-none _ _
                    (if-eq-none (codes "X-DNS-Prefetch-Control") c.dns_prefetch_control h)
                    (λ h.
                      then-eq-none _ _
                        (if-eq-none (codes "X-Permitted-Cross-Domain-Policies")
                          c.permitted_cross_domain_policies h)
                        (λ h.
                          then-eq-none _ _
                            (if-eq-none (codes "X-Download-Options") c.download_options h)
                            (λ h.
                              then-eq-none _ _
                                (where-eq-none c.permissions_policy.enabled
                                  (codes "Permissions-Policy")
                                  (build_permissions c.permissions_policy.features) h)
                                (λ h.
                                  then-eq-none _ _
                                    (if-eq-none (codes "Cross-Origin-Embedder-Policy")
                                      c.embedder_policy h)
                                    (λ h.
                                      then-eq-none _ _
                                        (if-eq-none (codes "Cross-Origin-Opener-Policy")
                                          c.opener_policy h)
                                        (λ h. last-eq-none _ _ (
                                          if-eq-none (codes "Cross-Origin-Resource-Policy")
                                            c.resource_policy h)))))))))))))

  -- The policy is on, and either its sources of scripts are one text or Node refuses it.
  abbrev pub IsStopped : Config → Text → Type 0
  IsStopped c nonce =
      (c.csp.enabled ≡ true)
      × (IsText (get script_src c.csp.directives)
          ⊎ IsRefusedPolicy (response_directives nonce c.csp.directives))

  with_policy-eq-none :
      (c : Config) (nonce : Text) (h : Headers)
      → (with_policy accepts c nonce h ≡ none) ↔ IsStopped c nonce
  unfolding with_policy response_directives
  with_policy-eq-none c nonce h =
      let d = c.csp.directives in
      ground (
        arith,
        policy-eq-none (with_nonce nonce d (get script_src d)) h,
        with_nonce-eq-none nonce d (get script_src d),
      )

  -- The middleware throws exactly where its policy is on and has one text that is not empty as its sources
  -- of scripts, or where Node refuses one of the headers that the settings order, the policy among them.
  pub security_headers-eq-none :
      (quote : Text → Text) (c : Config) (nonce : Text) (h : Headers)
      → (security_headers accepts quote c nonce h ≡ none) ↔ (IsStopped c nonce ⊎ AreRefused quote c)
  unfolding security_headers
  security_headers-eq-none quote c nonce h =
      then-eq-none _ _ (with_policy-eq-none c nonce h) (other_headers-eq-none quote c)
