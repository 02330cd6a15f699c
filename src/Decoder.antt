-- ===== src/Decoder.antt =====
-- src/core/decoder.js: the request as the detectors see it. `str.normalize`, `decodeURIComponent`, `Buffer`,
-- `JSON.parse` and `URL` belong to Node and come as `Library`.
pub mod Paths
pub mod Passes
use shield_wall.Prelude.{
  ℕ, zero, suc, ◌+◌, ◌-◌, ◌*◌, ◌%◌, Bool, true, false, ◌&&◌, ◌||◌, not, Option, none, some, List,
  [], ◌∷◌, ◌++◌, map, reverse, length, take, drop, all, keep, Text, codes, text_eq, includes, split,
  ltb, leb, ◌==◌, if◌then◌else◌,
}
use shield_wall.Escapes.{url_decode, html_entity_decode, unicode_decode}

pub record Library : Type 0 where
  -- `s.normalize('NFKC')`
  pub nfkc : Text → Text
  pub decode_uri : Text → Option Text
  -- `Buffer.from(s, 'base64')` as `utf8` text, and back as base64
  pub from_base64 : Text → Text
  pub reencoded : Text → Text
  -- The number of keys of `JSON.parse(s)`; `none` if that throws.
  pub json_keys : Text → Option ℕ
  -- The path and the parameters of `new URL(s, 'http://local')`; `none` if that throws.
  pub parse_url : Text → Option (Text × List (Text × Text))

slash : ℕ → ℕ
slash c = if c == b'\\' then b'/' else c

-- `replace(/\/+/g, '/')`; the flag says whether the letter before is a slash.
pub collapse_slashes : Bool → Text → Text
collapse_slashes after [] = []
collapse_slashes after (c ∷ s) =
    let rest = collapse_slashes (c == b'/') s in if c == b'/' && after then rest else c ∷ rest

-- The stack of parts, its top first.
pub resolve_parts : List Text → List Text → List Text
unfolding text_eq
resolve_parts stack [] = stack
resolve_parts stack (part ∷ parts) =
    resolve_parts
      (if text_eq part (codes "..")
        then drop 1 stack
        else if text_eq part (codes ".") || text_eq part []
        then stack
        else part ∷ stack)
      parts

unfoldable pub join : ℕ → List Text → Text
join sep [] = []
join sep (p ∷ []) = p
join sep (p ∷ q ∷ ps) = p ++ sep ∷ join sep (q ∷ ps)

pub ends_with_slash : Text → Bool
ends_with_slash [] = false
ends_with_slash (c ∷ []) = c == b'/'
ends_with_slash (c ∷ d ∷ s) = ends_with_slash (d ∷ s)

unfoldable pub normalize_path : Text → Text
unfolding slash collapse_slashes resolve_parts join ends_with_slash split
normalize_path str =
    let path = collapse_slashes false (map slash str) in
    let resolved = b'/' ∷ join b'/' (reverse (resolve_parts [] (split b'/' path))) in
    if ends_with_slash path && not (ends_with_slash resolved)
    then resolved ++ b'/' ∷ []
    else resolved

abbrev is_base64_letter : ℕ → Bool
is_base64_letter c =
    (leb b'A' c && leb c b'Z')
    || (leb b'a' c && leb c b'z')
    || (leb b'0' c && leb c b'9')
    || c == b'+'
    || c == b'/'

web_safe : ℕ → ℕ
web_safe c = if c == b'-' then b'+' else if c == b'_' then b'/' else c

skip_padding : Text → Text
skip_padding [] = []
skip_padding (c ∷ s) = if c == b'=' then skip_padding s else c ∷ s

-- `replace(/=+$/, '')`
pub without_padding : Text → Text
unfolding skip_padding
without_padding s = reverse (skip_padding (reverse s))

-- `[\x09\x0A\x0D\x20-\x7E\u0400-\u04FF]`
abbrev is_printable : ℕ → Bool
is_printable c =
    c == 9 || c == 10 || c == 13 || (leb 0x20 c && leb c 0x7E) || (leb 0x400 c && leb c 0x4FF)

-- The loop of `hasDuplicateKeys`. A text that `JSON.parse` accepts closes no brace that is not open, so
-- that `depth` does not fall below 0.
pub record Scan : Type 0 where
  pub depth : ℕ
  pub in_string : Bool
  pub escape : Bool
  pub keys : ℕ

pub scan_letter : ℕ → Scan → Scan
scan_letter c s =
    if s.in_string
    then if s.escape
      then record s { escape = false }
      else if c == b'\\'
      then record s { escape = true }
      else if c == b'"'
      then record s { in_string = false }
      else s
    else if c == b'"'
    then record s { in_string = true }
    else if c == b'{'
    then record s { depth = s.depth + 1 }
    else if c == b'}'
    then record s { depth = s.depth - 1 }
    else if c == b':' && s.depth == 1
    then record s { keys = s.keys + 1 }
    else s

pub scan_json : Scan → Text → Scan
unfolding scan_letter
scan_json s [] = s
scan_json s (c ∷ cs) = scan_json (scan_letter c s) cs

abbrev pub scan_start : Scan
scan_start = record { depth = 0; in_string = false; escape = false; keys = 0 }

pub data Context : Type 0 where
  path : Context
  query_key : Context
  query_value : Context
  header : Context
  body : Context
  cookie : Context
  generic : Context

pub plus_as_space : Context → Bool
plus_as_space query_value = true
plus_as_space query_key = true
plus_as_space body = true
plus_as_space path = false
plus_as_space header = false
plus_as_space cookie = true
plus_as_space generic = false

pub may_be_base64 : Context → Bool
may_be_base64 query_value = true
may_be_base64 body = true
may_be_base64 header = true
may_be_base64 path = false
may_be_base64 query_key = false
may_be_base64 cookie = true
may_be_base64 generic = false

abbrev pub max_output : ℕ
max_output = 256 * 1024

check_len : Text → Text
check_len s = if ltb max_output (length s) then take max_output s else s

not_null : ℕ → Bool
not_null c = not (c == 0)

pub finish_path : Context → Text → Text
unfolding normalize_path
finish_path path s = normalize_path s
finish_path query_key s = s
finish_path query_value s = s
finish_path header s = s
finish_path body s = s
finish_path cookie s = s
finish_path generic s = s

module _ (lib : Library) where
  unfoldable pub try_decode_base64 : Text → Option Text
  unfolding web_safe without_padding text_eq
  try_decode_base64 token =
      let normalized = map web_safe token in
      let bare = without_padding normalized in
      let decoded = lib.from_base64 normalized in
      if ltb (length token) 8
      then none
      else if ltb 0 (length bare) && all is_base64_letter bare
      then if (length bare % 4) == 1
        then none
        else if text_eq (without_padding (lib.reencoded normalized)) bare
        then if ltb (length decoded) 4
          then none
          else if all is_printable decoded
          then if ltb (length token * 8) (length decoded) then none else some decoded
          else none
        else none
      else none

  unfoldable pub has_duplicate_keys : Text → Bool
  unfolding scan_json includes
  has_duplicate_keys s = elim (lib.json_keys s) [
    | none ↦ false
    | some n ↦ includes s (codes "{") && ltb n (scan_json scan_start s).keys
  ]

  -- The layers of one pass before base64; `none` is a `RangeError`.
  pub decode_layers : Context → Text → Option Text
  unfolding check_len not_null url_decode html_entity_decode unicode_decode plus_as_space
  decode_layers context s =
      let plain = check_len (keep not_null (lib.nfkc s)) in
      let url = check_len (url_decode lib.decode_uri plain (plus_as_space context)) in
      elim (unicode_decode (check_len (html_entity_decode url))) [
        | none ↦ none
        | some t ↦ some (check_len t)
      ]

  base64_layer : Context → Text → Option Text
  unfolding may_be_base64 try_decode_base64
  base64_layer context s = if may_be_base64 context then try_decode_base64 s else none

  -- `fullDecode` with at most as many passes as the first argument says.
  unfoldable pub decode_passes : ℕ → Context → Text → Option Text
  unfolding decode_layers base64_layer finish_path text_eq check_len
  decode_passes zero context s = some s
  decode_passes (suc passes) context [] = some []
  decode_passes (suc passes) context (c ∷ cs) = elim (decode_layers context (c ∷ cs)) [
    | none ↦ none
    | some t ↦ elim (base64_layer context t) [
      | some decoded ↦ decode_passes passes context (check_len decoded)
      | none ↦
          let again = decode_passes passes context (finish_path context t) in
          if text_eq (finish_path context t) (c ∷ cs) then some (finish_path context t) else again
    ]
  ]

  unfoldable pub full_decode : Context → Text → Option Text
  unfolding decode_passes
  full_decode context s = decode_passes 5 context s
