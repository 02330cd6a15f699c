-- ===== src/Escapes.antt =====
-- src/core/decoder.js, `urlDecode`, `htmlEntityDecode` and `unicodeDecode`: the escapes that are undone.
-- Each regular expression with the flag `g` is a matcher, which at a place of the text answers with the
-- replacement and the number of letters that it takes, or with nothing; `replace_all` runs it.
use shield_wall.Prelude.{
  ℕ, zero, suc, double, ◌+◌, ◌-◌, ◌*◌, ◌/◌, ◌%◌, ◌^◌, max, Bool, ◌&&◌, Option, none, some, [], ◌∷◌,
  ◌++◌, map, length, drop, Text, codes, starts_with, to_lower, ltb, leb, ◌==◌, if◌then◌else◌,
}

abbrev pub Matcher : Type 0
Matcher = Text → Option (Text × ℕ)

-- The first argument counts the letters of a match that are still to be passed over.
unfoldable pub replace_from : Matcher → ℕ → Text → Text
replace_from m skip [] = []
replace_from m (suc skip) (c ∷ s) = replace_from m skip s
replace_from m zero (c ∷ s) = elim (m (c ∷ s)) [
  | none ↦ c ∷ replace_from m 0 s
  | some (out, n) ↦ out ++ replace_from m (n - 1) s
]

unfoldable pub replace_all : Matcher → Text → Text
unfolding replace_from
replace_all m s = replace_from m 0 s

-- The value of a digit in base 16.
pub digit_value : ℕ → Option ℕ
digit_value c =
    if leb b'0' c && leb c b'9'
    then some (c - b'0')
    else if leb b'a' c && leb c b'f'
    then some (c - b'a' + 10)
    else if leb b'A' c && leb c b'F'
    then some (c - b'A' + 10)
    else none

in_base : ℕ → Option ℕ → Option ℕ
in_base base none = none
in_base base (some d) = if ltb d base then some d else none

-- `[0-9A-Fa-f]{0,max}` and the like at the start, as many as there are: the value and the count.
pub number_from : ℕ → ℕ → ℕ → ℕ → Text → ℕ × ℕ
unfolding digit_value in_base
number_from base zero value count s = (value, count)
number_from base (suc max) value count [] = (value, count)
number_from base (suc max) value count (c ∷ s) = elim (in_base base (digit_value c)) [
  | none ↦ (value, count)
  | some d ↦ number_from base max (value * base + d) (count + 1) s
]

unfoldable pub number_at : ℕ → ℕ → Text → ℕ × ℕ
unfolding number_from
number_at base max s = number_from base max 0 0 s

-- `String.fromCharCode`, whose argument is taken modulo 2 ^ 16.
abbrev pub char_code : ℕ → Text
char_code v = (v % 2 ^ 16) ∷ []

-- `String.fromCodePoint`: a surrogate pair where one unit is not enough, a `RangeError` above 10FFFF.
unfoldable pub code_point : ℕ → Option Text
code_point v =
    if ltb v 0x10000
    then some (v ∷ [])
    else if ltb 0x10FFFF v
    then none
    else some ((0xD800 + (v - 0x10000) / 0x400) ∷ (0xDC00 + v % 0x400) ∷ [])

-- A prefix with an optional `;` after it, in lower case: `&lt;?` with the flag `i`.
pub entity : Text → Text → Matcher
unfolding starts_with to_lower
entity name out s =
    if starts_with (to_lower s) name
    then some (out, length name + (if starts_with (drop (length name) s) (codes ";") then 1 else 0))
    else none

-- A prefix with digits after it: their value, and the letters that both take.
pub prefixed : Text → ℕ → ℕ → ℕ → Text → Option (ℕ × ℕ)
unfolding starts_with number_at
prefixed name base least most s =
    let (value, count) = number_at base most (drop (length name) s) in
    if starts_with s name && leb least count then some (value, length name + count) else none

-- Digits of a fixed number.
pub escape : Text → ℕ → ℕ → ℕ → Matcher
unfolding prefixed
escape name base least most s = elim (prefixed name base least most s) [
  | none ↦ none
  | some (value, n) ↦ some (char_code value, n)
]

-- Of the double that `parseInt` gives; `Infinity` counts as 0.
char_code_of : Option ℕ → Text
char_code_of none = char_code 0
char_code_of (some v) = char_code v

-- Digits of any number with an optional `;` after them.
pub numeric_entity : Text → ℕ → Matcher
unfolding prefixed starts_with double char_code_of
numeric_entity name base s = elim (prefixed name base 1 (length s) s) [
  | none ↦ none
  | some (value, n) ↦
      some (char_code_of (double value), n + (if starts_with (drop n s) (codes ";") then 1 else 0))
]

-- `\u{1F600}`: the value and the letters that it takes.
unfoldable pub braced : Text → Option (ℕ × ℕ)
unfolding prefixed starts_with
braced s = elim (prefixed (codes "\\u{") 16 1 6 s) [
  | none ↦ none
  | some (value, n) ↦ if starts_with (drop n s) (codes "}") then some (value, n + 1) else none
]

-- The replacement of those, which raises a `RangeError` (`none`) at a value that is no code point.
unfoldable pub replace_points : ℕ → Text → Option Text
unfolding braced code_point
replace_points skip [] = some []
replace_points (suc skip) (c ∷ s) = replace_points skip s
replace_points zero (c ∷ s) = elim (braced (c ∷ s)) [
  | none ↦ elim (replace_points 0 s) [ none ↦ none | some t ↦ some (c ∷ t) ]
  | some (value, n) ↦ elim (code_point value) [
    | none ↦ none
    | some out ↦ elim (replace_points (n - 1) s) [ none ↦ none | some t ↦ some (out ++ t) ]
  ]
]

pub plus_to_space : Text → Text
plus_to_space = map (λ c. if c == b'+' then b' ' else c)

-- `decodeURIComponent` is an argument; where it throws, `none`, the bytes are replaced one by one.
unfoldable pub url_decode : (Text → Option Text) → Text → Bool → Text
unfolding plus_to_space replace_all escape
url_decode decode_uri str plus_as_space =
    let input = if plus_as_space then plus_to_space str else str in
    elim (decode_uri input) [
      | none ↦ replace_all (escape (codes "%") 16 2 2) input
      | some out ↦ out
    ]

unfoldable pub html_entity_decode : Text → Text
unfolding replace_all entity numeric_entity
html_entity_decode s =
    let lt = replace_all (entity (codes "&lt") (codes "<")) s in
    let gt = replace_all (entity (codes "&gt") (codes ">")) lt in
    let quot = replace_all (entity (codes "&quot") (codes "\"")) gt in
    let apos = replace_all (entity (codes "&#39") (codes "'")) quot in
    let amp = replace_all (entity (codes "&amp") (codes "&")) apos in
    let hex = replace_all (numeric_entity (codes "&#x") 16) amp in
    replace_all (numeric_entity (codes "&#") 10) hex

pub after_points : Text → Text
unfolding replace_all escape
after_points s =
    let long = replace_all (escape (codes "\\u") 16 4 4) s in
    let short = replace_all (escape (codes "\\x") 16 2 2) long in
    replace_all (escape (codes "\\0") 8 1 3) short

unfoldable pub unicode_decode : Text → Option Text
unfolding replace_all escape replace_points after_points
unicode_decode s = elim (replace_points 0 (replace_all (escape (codes "%u") 16 4 4) s)) [
  | none ↦ none
  | some t ↦ some (after_points t)
]
