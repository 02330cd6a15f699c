-- ===== src/Fingerprints/Spoofing.antt =====
-- src/modules/fingerprinter.js: the headers of the gateway on a request that does not come from it.
use shield_wall.Prelude.{
  ℕ, ◌<◌, ◌≡◌, refl, ap, ◌∙◌, Bool, false, none, some, [], ◌∷◌, arith, length, JsMap, get, put,
  delete, get-put_ne, Text, codes, text_eq, text_eq_refl, text_eq_iff, ne_of_text_eq, lt→ltb,
}
use shield_wall.Reputation.{Tracker}
use shield_wall.Fingerprints.{World}
use shield_wall.Fingerprints.Analysis.{
  Config, Request, is_trusted, drop_spoofed, analyze_headers, analyze_request,
}

module _ {ℓ} {V : Type ℓ} where
  delete-put : (k : Text) (v : V) (m : JsMap V) → delete k (put k v m) ≡ delete k m
  unfolding delete put
  delete-put k v [] = ground (arith, text_eq_refl k)
  delete-put k v ((i, w) ∷ m) = ground (arith, text_eq_refl k, delete-put k v m)

  delete-put_ne :
      (j k : Text) (v : V) (m : JsMap V)
      → text_eq k j ≡ false
      → delete j (put k v m) ≡ put k v (delete j m)
  unfolding delete put
  delete-put_ne j k v [] h = rw h refl
  delete-put_ne j k v ((i, w) ∷ m) h =
      ground (arith, text_eq_iff i k, text_eq_iff i j, text_eq_iff k j, delete-put_ne j k v m h)

abbrev pub ja3_header : Text
ja3_header = codes "x-ja3-fingerprint"

abbrev pub entropy_header : Text
entropy_header = codes "x-tls-random-entropy"

abbrev pub auth_header : Text
auth_header = codes "x-gateway-auth"

abbrev pub spoofed : Text → Text → JsMap Text → JsMap Text
spoofed ja3 entropy h = put ja3_header ja3 (put entropy_header entropy h)

delete-spoofed :
    (ja3 entropy : Text) (h : JsMap Text)
    → delete entropy_header (delete ja3_header (spoofed ja3 entropy h))
      ≡ delete entropy_header (delete ja3_header h)
unfolding text_eq
delete-spoofed ja3 entropy h =
    ap (delete entropy_header) (
      delete-put ja3_header ja3 (put entropy_header entropy h)
      ∙ delete-put_ne ja3_header entropy_header entropy h refl)
    ∙ delete-put entropy_header entropy (delete ja3_header h)

get-spoofed :
    (ja3 entropy : Text) (h : JsMap Text)
    → get auth_header (spoofed ja3 entropy h) ≡ get auth_header h
unfolding text_eq
get-spoofed ja3 entropy h =
    get-put_ne ja3_header auth_header ja3 (put entropy_header entropy h)
      (ne_of_text_eq ja3_header auth_header refl)
    ∙ get-put_ne entropy_header auth_header entropy h
        (ne_of_text_eq entropy_header auth_header refl)

is_trusted-spoofed :
    (c : Config) (ja3 entropy : Text) (h : JsMap Text)
    → is_trusted c (spoofed ja3 entropy h) ≡ is_trusted c h
unfolding is_trusted
is_trusted-spoofed c ja3 entropy h =
    ap (λ o. elim o as (λ _. Bool) [ none ↦ false | some given ↦ text_eq given c.gateway_secret ])
      (get-spoofed ja3 entropy h)

drop_spoofed-spoofed :
    (c : Config) (ja3 entropy : Text) (h : JsMap Text)
    → is_trusted c h ≡ false
    → 0 < length c.gateway_secret
    → drop_spoofed c (spoofed ja3 entropy h) ≡ drop_spoofed c h
unfolding drop_spoofed
drop_spoofed-spoofed c ja3 entropy h u p =
    rw (is_trusted-spoofed c ja3 entropy h, u, lt→ltb 0 (length c.gateway_secret) p)
      (delete-spoofed ja3 entropy h)

-- Where a secret of the gateway is set, and a request does not carry it: whatever the request says in
-- the headers for the JA3 and the entropy of the gateway, the outcome, the tracker and the headers that
-- are left are the same as without them.
pub analyze_request-spoofed :
    (w : World) (c : Config) (r : Request) (ja3 entropy : Text) (h : JsMap Text) (now : ℕ)
    (t : Tracker)
    → is_trusted c h ≡ false
    → 0 < length c.gateway_secret
    → analyze_request w c r (some (spoofed ja3 entropy h)) now t
      ≡ analyze_request w c r (some h) now t
unfolding analyze_request
analyze_request-spoofed w c r ja3 entropy h now t u p =
    ap (λ x. (some x, analyze_headers w c r x now t)) (drop_spoofed-spoofed c ja3 entropy h u p)
