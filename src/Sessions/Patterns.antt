-- ===== src/Sessions/Patterns.antt =====
-- src/modules/session-anomaly.js: the patterns, and the cache of the sensitive paths.
use shield_wall.Prelude.{
  ℕ, Bool, true, false, ◌&&◌, ◌||◌, Option, none, some, List, [], ◌∷◌, length, drop, any, all, Text,
  codes, text_eq, starts_with, includes, to_lower, split, ltb, leb, ◌==◌, if◌then◌else◌,
}

is_digit : ℕ → Bool
is_digit c = leb b'0' c && leb c b'9'

is_hex : ℕ → Bool
unfolding is_digit
is_hex c = is_digit c || (leb b'a' c && leb c b'f') || (leb b'A' c && leb c b'F')

-- `isValidSessionId`
unfoldable pub is_valid_session_id : Text → Bool
unfolding is_hex
is_valid_session_id s = leb 16 (length s) && leb (length s) 64 && all is_hex s

is_one_of : List Text → Text → Bool
unfolding text_eq to_lower
is_one_of names key = any (text_eq (to_lower key)) names

-- `TRACKED_ID_PARAM_PATTERN` and `BATCH_PARAM_HINTS`
unfoldable pub is_tracked_param : Text → Bool
unfolding is_one_of
is_tracked_param key =
    is_one_of
      (codes "id"
        ∷ codes "uid"
        ∷ codes "user_id"
        ∷ codes "account_id"
        ∷ codes "resource_id"
        ∷ codes "order_id"
        ∷ codes "file_id"
        ∷ codes "doc_id"
        ∷ codes "customer_id"
        ∷ codes "invoice_id"
        ∷ codes "project_id"
        ∷ [])
      key

unfoldable pub is_batch_param : Text → Bool
unfolding is_one_of
is_batch_param key =
    is_one_of
      (codes "ids"
        ∷ codes "id_list"
        ∷ codes "list"
        ∷ codes "items"
        ∷ codes "batch"
        ∷ codes "ids[]"
        ∷ [])
      key

-- `NUMERIC_ID_PATTERN` and `UUID_PATTERN`
unfoldable pub is_numeric_id : Text → Bool
unfolding is_digit
is_numeric_id s = ltb 0 (length s) && all is_digit s

has_lengths : List ℕ → List Text → Bool
unfolding is_hex
has_lengths [] [] = true
has_lengths [] (p ∷ ps) = false
has_lengths (n ∷ ns) [] = false
has_lengths (n ∷ ns) (p ∷ ps) = length p == n && all is_hex p && has_lengths ns ps

unfoldable pub is_uuid : Text → Bool
unfolding has_lengths split
is_uuid s = has_lengths (8 ∷ 4 ∷ 4 ∷ 4 ∷ 12 ∷ []) (split b'-' s)

is_short_number : Text → Bool
unfolding is_digit
is_short_number s = leb 1 (length s) && leb (length s) 3 && all is_digit s

-- `normalizeIp`
unfoldable pub normalize_ip : Text → Text
unfolding starts_with to_lower includes split is_short_number
normalize_ip ip =
    let parts = split b'.' (drop 7 ip) in
    if starts_with (to_lower ip) (codes "::ffff:") && length parts == 4 && all is_short_number parts
    then drop 7 ip
    else if includes ip (codes ":")
    then to_lower ip
    else ip

-- `/Android|iPhone|.../i`
unfoldable pub is_mobile_ua : Text → Bool
unfolding includes to_lower
is_mobile_ua agent = any (includes (to_lower agent)) (
    codes "android"
    ∷ codes "iphone"
    ∷ codes "ipad"
    ∷ codes "ipod"
    ∷ codes "mobile"
    ∷ codes "windows phone"
    ∷ [])

ends_part : Text → Bool
ends_part [] = true
ends_part (c ∷ s) = c == b'/' || c == b'?' || c == b'#'

-- The expression of a path: it stands at the start, and a part ends after it.
unfoldable pub is_under : Text → Text → Bool
unfolding starts_with ends_part
is_under path p = starts_with path p && ends_part (drop (length p) path)

unfoldable pub texts_eq : List Text → List Text → Bool
unfolding text_eq
texts_eq [] [] = true
texts_eq [] (y ∷ ys) = false
texts_eq (x ∷ xs) [] = false
texts_eq (x ∷ xs) (y ∷ ys) = text_eq x y && texts_eq xs ys

-- `_sensitivePathRegexps` and `_sensitivePathSignature`, whose JSON stands for the list itself.
pub record Cache : Type 0 where
  pub regexps : Option (List Text)
  pub signature : Option (List Text)

unfoldable pub has_signature : List Text → Cache → Bool
unfolding texts_eq
has_signature paths c = elim c.signature [ none ↦ false | some s ↦ texts_eq paths s ]

-- `_getSensitivePathRegexps` and `_invalidateSensitiveRegexps`
unfoldable pub get_regexps : List Text → Cache → Cache × List Text
unfolding has_signature
get_regexps paths c = elim c.regexps [
  | some ps ↦ (c, ps)
  | none ↦
      if has_signature paths c
      then (c, [])
      else (record { regexps = some paths; signature = some paths }, paths)
]

unfoldable pub invalidate : Cache → Cache
invalidate c = record c { regexps = none }
