-- ===== src/Requests/Errors.antt =====
-- src/core/decoder.js, `decodeRequest`: when it throws. `String.fromCodePoint` has no code point from
-- 0x110000 on, and only the parameters of the URL stand in a `try`.
use shield_wall.Prelude.{
  ◌≡◌, refl, sym, ◌∙◌, ◌≢◌, ◌↔◌, ◌⊎◌, inl, inr, true, false, Option, none, some, List, [], ◌∷◌,
  arith, All, JsMap, put, Text, codes, to_lower, split, Bool-cases, Option-cases,
}
use mathlib.Core.Option.{some-ne-none}
use shield_wall.Decoder.{Library, Context, full_decode, decode_passes, has_duplicate_keys}
use shield_wall.Requests.{
  RawRequest, plain_path, decode_url, decode_headers, decode_body, query_loop, decode_request,
  or_text, first_part,
}

ne-none {ℓ} : {A : Type ℓ} (x : A) (o : Option A) → o ≡ some x → o ≢ none
ne-none x o e h = some-ne-none x (sym e ∙ h)

module _ (lib : Library) where
  -- The text is decoded without an error.
  abbrev pub Decodes : Context → Text → Type 0
  Decodes context s = full_decode lib context s ≢ none

  abbrev pub ParameterDecodes : Text × Text → Type 0
  ParameterDecodes p = Decodes Context.query_key p.0 × Decodes Context.query_value p.1

  abbrev pub ParsedDecodes : Option (Text × List (Text × Text)) → Type 0
  ParsedDecodes none = ⊥
  ParsedDecodes (some (path, ps)) = Decodes Context.path path × All ParameterDecodes ps

  -- Either all of the parsed URL is decoded, or what stands before the question mark.
  abbrev pub UrlDecodes : Text → Type 0
  UrlDecodes url =
      ParsedDecodes (lib.parse_url url) ⊎ Decodes Context.path (first_part (split b'?' url))

  query_loop-All :
      (q : JsMap Text) (ps : List (Text × Text))
      → ((query_loop lib q ps).1 ≡ true) ↔ All ParameterDecodes ps
  unfolding query_loop
  query_loop-All q [] = (λ h. tt, λ h. refl)
  query_loop-All q ((k, v) ∷ ps) = elim (Option-cases (full_decode lib Context.query_key k)) [
    | inl bad ↦ (λ h. ground (arith, bad, h), λ h. absurd (h.0.0 bad))
    | inr (j, good) ↦ elim (Option-cases (full_decode lib Context.query_value v)) [
      | inl bad ↦ (λ h. ground (arith, good, bad, h), λ h. absurd (h.0.1 bad))
      | inr (w, fine) ↦
          rw (good, fine, query_loop)
            (
              λ h. ((some-ne-none j, some-ne-none w), (query_loop-All (put j w q) ps).0 h),
              λ h. (query_loop-All (put j w q) ps).1 h.1,
            )
    ]
  ]

  decode_headers-All :
      (out : JsMap Text) (hs : List (Text × Text))
      → (decode_headers lib out hs ≢ none) ↔ All (λ h. Decodes Context.header h.1) hs
  unfolding decode_headers
  decode_headers-All out [] = (λ h. tt, λ h. ground (arith, h))
  decode_headers-All out ((k, v) ∷ hs) = elim (Option-cases (full_decode lib Context.header v)) [
    | inl bad ↦ (λ h. absurd (h (ground (arith, bad))), λ h. absurd (h.0 bad))
    | inr (w, good) ↦
        rw (good, decode_headers)
          (
            λ h. (some-ne-none w, (decode_headers-All (put (to_lower k) w out) hs).0 h),
            λ h. (decode_headers-All (put (to_lower k) w out) hs).1 h.1,
          )
  ]

  plain_path-Decodes :
      (url : Text) (q : JsMap Text)
      → (plain_path lib url q ≢ none) ↔ Decodes Context.path (first_part (split b'?' url))
  unfolding plain_path
  plain_path-Decodes url q =
      elim (Option-cases (full_decode lib Context.path (first_part (split b'?' url)))) [
        | inl bad ↦ rw (bad, plain_path) (λ h. absurd (h refl), λ h. absurd (h refl))
        | inr (p, good) ↦ rw (good, plain_path) (λ h. some-ne-none p, λ h. some-ne-none (p, q))
      ]

  decode_url-UrlDecodes : (url : Text) → (decode_url lib url ≢ none) ↔ UrlDecodes url
  unfolding decode_url
  decode_url-UrlDecodes url = elim (Option-cases (lib.parse_url url)) [
    | inl bad ↦
        rw (bad, decode_url)
          (
            λ h. inr ((plain_path-Decodes url []).0 h),
            λ h. elim h [ inl n ↦ absurd n | inr k ↦ (plain_path-Decodes url []).1 k ],
          )
    | inr ((path, ps), parsed) ↦ elim (Option-cases (full_decode lib Context.path path)) [
      | inl failed ↦
          rw (parsed, failed, decode_url)
            (
              λ h. inr ((plain_path-Decodes url []).0 h),
              λ h. elim h [ inl n ↦ absurd (n.0 refl) | inr k ↦ (plain_path-Decodes url []).1 k ],
            )
      | inr (p, done) ↦ elim (Bool-cases (query_loop lib [] ps).1) [
        | inl whole ↦
            rw (parsed, done, whole, decode_url)
              (
                λ h. inl (some-ne-none p, (query_loop-All [] ps).0 whole),
                λ h. some-ne-none (p, (query_loop lib [] ps).0),
              )
        | inr broken ↦
            let q = (query_loop lib [] ps).0 in
            rw (parsed, done, broken, decode_url)
              (
                λ h. inr ((plain_path-Decodes url q).0 h),
                λ h. elim h [
                  | inl n ↦ absurd (ground (arith, broken, (query_loop-All [] ps).1 n.1))
                  | inr k ↦ (plain_path-Decodes url q).1 k
                ],
              )
      ]
    ]
  ]

  decode_body-Decodes : (s : Text) → (decode_body lib s ≢ none) ↔ Decodes Context.body s
  unfolding decode_body full_decode decode_passes
  decode_body-Decodes [] = (λ h. some-ne-none [], λ h. some-ne-none (none, false))
  decode_body-Decodes (c ∷ s) = elim (Option-cases (full_decode lib Context.body (c ∷ s))) [
    | inl bad ↦ rw (bad, decode_body) (λ h. absurd (h refl), λ h. absurd (h refl))
    | inr (t, good) ↦
        rw (good, decode_body)
          (λ h. some-ne-none t, λ h. some-ne-none (some t, has_duplicate_keys lib (c ∷ s)))
  ]

  -- When a request is decoded without an error: its URL is (the parsed path and all parameters, or else
  -- what stands before the question mark), and so are the values of all its headers and the body. One
  -- header that is not decoded is enough that `decodeRequest` throws.
  pub decode_request-Decodes :
      (r : RawRequest)
      → (decode_request lib r ≢ none) ↔ (
          UrlDecodes (or_text (codes "/") r.url)
          × All (λ h. Decodes Context.header h.1) r.headers
          × Decodes Context.body r.raw_body)
  unfolding decode_request
  decode_request-Decodes r =
      let url = decode_url-UrlDecodes (or_text (codes "/") r.url) in
      let headers = decode_headers-All [] r.headers in
      let content = decode_body-Decodes r.raw_body in
      elim (Option-cases (decode_url lib (or_text (codes "/") r.url))) [
        | inl bad ↦ rw (bad, decode_request) (λ h. absurd (h refl), λ h. absurd (url.1 h.0 bad))
        | inr ((p, q), decoded) ↦ elim (Option-cases (decode_headers lib [] r.headers)) [
          | inl bad ↦
              rw (decoded, bad, decode_request)
                (λ h. absurd (h refl), λ h. absurd (headers.1 h.1 bad))
          | inr (hs, good) ↦ elim (Option-cases (decode_body lib r.raw_body)) [
            | inl bad ↦
                rw (decoded, good, bad, decode_request)
                  (λ h. absurd (h refl), λ h. absurd (content.1 h.2 bad))
            | inr ((t, smuggling), fine) ↦
                rw (decoded, good, fine, decode_request)
                  (
                    λ h. (
                      url.0 (ne-none (p, q) (decode_url lib (or_text (codes "/") r.url)) decoded),
                      headers.0 (ne-none hs (decode_headers lib [] r.headers) good),
                      content.0 (ne-none (t, smuggling) (decode_body lib r.raw_body) fine),
                    ),
                    λ h k. cc,
                  )
          ]
        ]
      ]
