-- ===== src/Requests/Tests.antt =====
-- src/core/decoder.js: the properties at concrete requests.
use shield_wall.Prelude.{◌≡◌, ◌≢◌, ◌↔◌, All, refl, false, none, some, [], ◌∷◌, codes}
use shield_wall.Decoder.{Library, header, body}
use shield_wall.Decoder.Paths.{IsResolved}
use shield_wall.Requests.{RawRequest, DecodedRequest, or_text, decode_request}
use shield_wall.Requests.Errors.{UrlDecodes, Decodes, decode_request-Decodes}
use shield_wall.Requests.Paths.{decode_request-IsResolved}

abbrev plain : Library
plain = record {
  nfkc = λ s. s;
  decode_uri = λ s. none;
  from_base64 = λ s. s;
  reencoded = λ s. s;
  json_keys = λ s. none;
  parse_url = λ s. some (s, []);
}

abbrev climbing : RawRequest
climbing = record {
  method = codes "get";
  url = codes "/a/%2e%2E/../etc";
  headers = (codes "Host", codes "x") ∷ [];
  raw_body = [];
  client_ip = codes "10.0.0.1";
}

abbrev climbed : DecodedRequest
climbed = record {
  method = codes "GET";
  raw_url = codes "/a/%2e%2E/../etc";
  path = codes "/etc";
  query = [];
  headers = (codes "host", codes "x") ∷ [];
  body = none;
  raw_body = [];
  ip = codes "10.0.0.1";
  json_smuggling = false;
}

climbing-climbed : decode_request plain climbing ≡ some climbed
unfolding decode_request
climbing-climbed = refl

decode_request-IsResolved_example : IsResolved climbed.path
decode_request-IsResolved_example =
    decode_request-IsResolved plain climbing climbed climbing-climbed

-- A header that names a code point which is none.
abbrev beyond : RawRequest
beyond = record climbing { headers = (codes "x", codes "\\u{110000}") ∷ [] }

beyond-raises : decode_request plain beyond ≡ none
unfolding decode_request
beyond-raises = refl

decode_request-Decodes_example : (decode_request plain climbing ≢ none) ↔ (
    UrlDecodes plain (or_text (codes "/") climbing.url)
    × All (λ h. Decodes plain header h.1) climbing.headers
    × Decodes plain body climbing.raw_body)
decode_request-Decodes_example = decode_request-Decodes plain climbing
