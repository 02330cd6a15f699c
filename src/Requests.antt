-- ===== src/Requests.antt =====
-- src/core/decoder.js, `decodeRequest` and `deepDecode`: which parts of a request are decoded. Headers come
-- with their values as text, and the body as the text that the engine made of it.
pub mod Paths
pub mod Errors
mod Tests
use shield_wall.Prelude.{
  ℕ, zero, suc, ◌-◌, Bool, true, false, ◌&&◌, Option, none, some, List, [], ◌∷◌, map, JsMap, put,
  Text, codes, text_eq, to_lower, split, leb, if◌then◌else◌,
}
use shield_wall.Decoder.{Library, Context, has_duplicate_keys, full_decode, decode_passes}

-- The values that `deepDecode` walks through; `plain` is a number, a truth value or `null`.
mutual
  pub data Json : Type 0 where
    text : Text → Json
    plain : Json
    array : Items → Json
    object : Fields → Json

  pub data Items : Type 0 where
    nil : Items
    cons : Json → Items → Items

  pub data Fields : Type 0 where
    end : Fields
    field : Text → Json → Fields → Fields

-- `Object.fromEntries`: a key that comes again keeps its place and takes the new value.
pub set_field : Text → Json → Fields → Fields
unfolding text_eq
set_field k v end = field k v end
set_field k v (field j w fs) = if text_eq j k then field j v fs else field j w (set_field k v fs)

module _ (lib : Library) (context : Context) where
  unfoldable mutual
    unfolding full_decode decode_passes set_field

    pub deep_decode : ℕ → Json → Option Json
    deep_decode zero v = some v
    deep_decode (suc left) (text s) = elim (decode_passes lib (suc left) context s) [
      | none ↦ none
      | some t ↦ some (text t)
    ]
    deep_decode (suc left) plain = some plain
    deep_decode (suc left) (array xs) = elim (deep_items left xs) [
      | none ↦ none
      | some ys ↦ some (array ys)
    ]
    deep_decode (suc left) (object fs) = elim (deep_fields left end fs) [
      | none ↦ none
      | some gs ↦ some (object gs)
    ]

    pub deep_items : ℕ → Items → Option Items
    deep_items left nil = some nil
    deep_items left (cons x xs) = elim (deep_decode left x) [
      | none ↦ none
      | some y ↦ elim (deep_items left xs) [ none ↦ none | some ys ↦ some (cons y ys) ]
    ]

    pub deep_fields : ℕ → Fields → Fields → Option Fields
    deep_fields left out end = some out
    deep_fields left out (field k v fs) = elim (full_decode lib Context.generic k) [
      | none ↦ none
      | some j ↦ elim (deep_decode left v) [
        | none ↦ none
        | some w ↦ deep_fields left (set_field j w out) fs
      ]
    ]

pub record RawRequest : Type 0 where
  pub method : Text
  pub url : Text
  pub headers : List (Text × Text)
  pub raw_body : Text
  pub client_ip : Text

pub record DecodedRequest : Type 0 where
  pub method : Text
  pub raw_url : Text
  pub path : Text
  pub query : JsMap Text
  pub headers : JsMap Text
  pub body : Option Text
  pub raw_body : Text
  pub ip : Text
  pub json_smuggling : Bool

-- `toUpperCase`, of ASCII letters.
to_upper : Text → Text
to_upper = map (λ c. if leb b'a' c && leb c b'z' then c - 32 else c)

pub or_text : Text → Text → Text
or_text d [] = d
or_text d (c ∷ s) = c ∷ s

pub first_part : List Text → Text
first_part [] = []
first_part (t ∷ ts) = t

module _ (lib : Library) where
  -- The loop over the parameters; the flag is false if a `RangeError` ended it.
  pub query_loop : JsMap Text → List (Text × Text) → JsMap Text × Bool
  unfolding full_decode put
  query_loop q [] = (q, true)
  query_loop q ((k, v) ∷ ps) = elim (full_decode lib Context.query_key k) [
    | none ↦ (q, false)
    | some j ↦ elim (full_decode lib Context.query_value v) [
      | none ↦ (q, false)
      | some w ↦ query_loop (put j w q) ps
    ]
  ]

  -- The `catch` clause.
  pub plain_path : Text → JsMap Text → Option (Text × JsMap Text)
  unfolding full_decode split first_part
  plain_path url q = elim (full_decode lib Context.path (first_part (split b'?' url))) [
    | none ↦ none
    | some p ↦ some (p, q)
  ]

  pub decode_url : Text → Option (Text × JsMap Text)
  unfolding plain_path query_loop full_decode
  decode_url url = elim (lib.parse_url url) [
    | none ↦ plain_path url []
    | some (p, ps) ↦ elim (full_decode lib Context.path p) [
      | none ↦ plain_path url []
      | some out ↦
          if (query_loop [] ps).1
          then some (out, (query_loop [] ps).0)
          else plain_path url (query_loop [] ps).0
    ]
  ]

  pub decode_headers : JsMap Text → List (Text × Text) → Option (JsMap Text)
  unfolding full_decode put to_lower
  decode_headers out [] = some out
  decode_headers out ((k, v) ∷ hs) = elim (full_decode lib Context.header v) [
    | none ↦ none
    | some w ↦ decode_headers (put (to_lower k) w out) hs
  ]

  -- The decoded body, and whether a key stands twice in it.
  pub decode_body : Text → Option (Option Text × Bool)
  unfolding full_decode has_duplicate_keys
  decode_body [] = some (none, false)
  decode_body (c ∷ s) = elim (full_decode lib Context.body (c ∷ s)) [
    | none ↦ none
    | some t ↦ some (some t, has_duplicate_keys lib (c ∷ s))
  ]

  unfoldable pub decode_request : RawRequest → Option DecodedRequest
  unfolding decode_url decode_headers decode_body to_upper or_text
  decode_request r = elim (decode_url (or_text (codes "/") r.url)) [
    | none ↦ none
    | some (p, q) ↦ elim (decode_headers [] r.headers) [
      | none ↦ none
      | some hs ↦ elim (decode_body r.raw_body) [
        | none ↦ none
        | some (b, smuggling) ↦ some (record {
          method = to_upper (or_text (codes "GET") r.method);
          raw_url = or_text (codes "/") r.url;
          path = p;
          query = q;
          headers = hs;
          body = b;
          raw_body = r.raw_body;
          ip = or_text (codes "unknown") r.client_ip;
          json_smuggling = smuggling;
        })
      ]
    ]
  ]
