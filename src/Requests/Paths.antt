-- ===== src/Requests/Paths.antt =====
-- src/core/decoder.js: the path that the detectors see has no part that leads up, whatever was escaped.
use shield_wall.Prelude.{
  ◌≡◌, subst, inl, inr, some, [], arith, JsMap, Text, codes, split, Bool-cases, Option-cases,
}
use mathlib.Core.Option.{some-injective}
use shield_wall.Decoder.{Library, Context, full_decode}
use shield_wall.Decoder.Paths.{IsResolved}
use shield_wall.Decoder.Passes.{full_decode-IsResolved}
use shield_wall.Requests.{
  RawRequest, DecodedRequest, plain_path, decode_url, query_loop, decode_request, or_text,
  first_part,
}

module _ (lib : Library) where
  plain_path-IsResolved :
      (url : Text) (q : JsMap Text) (out : Text × JsMap Text)
      → plain_path lib url q ≡ some out
      → IsResolved out.0
  unfolding plain_path
  plain_path-IsResolved url q out e =
      elim (Option-cases (full_decode lib Context.path (first_part (split b'?' url)))) [
        | inl failed ↦ ground (arith, failed)
        | inr (p, done) ↦
            subst (λ o. IsResolved o.0) (some-injective (p, q) out (ground (arith, done, e)))
              (full_decode-IsResolved lib (first_part (split b'?' url)) p done)
      ]

  decode_url-IsResolved :
      (url : Text) (out : Text × JsMap Text) → decode_url lib url ≡ some out → IsResolved out.0
  unfolding decode_url
  decode_url-IsResolved url out e = elim (Option-cases (lib.parse_url url)) [
    | inl bad ↦ plain_path-IsResolved url [] out (ground (arith, bad, e))
    | inr ((path, ps), parsed) ↦ elim (Option-cases (full_decode lib Context.path path)) [
      | inl failed ↦ plain_path-IsResolved url [] out (ground (arith, parsed, failed, e))
      | inr (p, done) ↦ elim (Bool-cases (query_loop lib [] ps).1) [
        | inl whole ↦
            subst (λ o. IsResolved o.0)
              (some-injective (p, (query_loop lib [] ps).0) out
                (ground (arith, parsed, done, whole, e)))
              (full_decode-IsResolved lib path p done)
        | inr broken ↦
            plain_path-IsResolved url (query_loop lib [] ps).0 out
              (ground (arith, parsed, done, broken, e))
      ]
    ]
  ]

  -- Whatever the request and whatever the library answers: between the slashes of the path that is
  -- handed to the detectors stands no `..` and no `.`, also where the parameters or the URL could not
  -- be read, and however often the path was escaped.
  pub decode_request-IsResolved :
      (r : RawRequest) (d : DecodedRequest) → decode_request lib r ≡ some d → IsResolved d.path
  unfolding decode_request
  decode_request-IsResolved r d e =
      elim (Option-cases (decode_url lib (or_text (codes "/") r.url))) [
        | inl failed ↦ ground (arith, failed)
        | inr ((p, q), done) ↦
            let same : p ≡ d.path = ground (arith, done, e) in
            subst IsResolved same (decode_url-IsResolved (or_text (codes "/") r.url) (p, q) done)
      ]
