-- ===== src/Fingerprints.antt =====
-- src/modules/fingerprinter.js: the fingerprints of a connection and their parts. `Number` of a part of a
-- JA3, `parseFloat` of an entropy and the hash are the library's; the parts of a JA3 are natural numbers.
pub mod Analysis
pub mod Spoofing
pub mod Scores
mod Tests
use shield_wall.Prelude.{
  ℕ, zero, suc, ◌+◌, ◌*◌, ◌/◌, ◌%◌, ◌^◌, Bool, ◌&&◌, ◌||◌, not, Option, none, some, List, [], ◌∷◌,
  ◌++◌, map, length, get_elem?, keep, Text, codes, text_eq, includes, split, ltb, leb, ◌==◌,
  if◌then◌else◌,
}

-- What the library makes of texts: a number, `parseInt`, an entropy in tenths (rounded down), each
-- where it is finite, and twelve digits of a hash.
pub record World : Type 0 where
  pub number : Text → Option ℕ
  pub parse_int : Text → Option ℕ
  pub entropy : Text → Option ℕ
  pub hash : Text → Text

-- `isGrease`, whose shift takes a number of 32 bits with its sign.
unfoldable pub is_grease : ℕ → Bool
is_grease v = let w = v % 2 ^ 32 in ltb w (2 ^ 31) && (w / 256 == w % 256) && (w % 16 == 10)

pub record Ja3 : Type 0 where
  pub ver : Text
  pub ciphers : List ℕ
  pub extensions : List ℕ
  pub groups : List ℕ
  pub formats : List ℕ

finite : List (Option ℕ) → List ℕ
finite [] = []
finite (none ∷ os) = finite os
finite (some n ∷ os) = n ∷ finite os

-- `parseList`, of a part that may be missing or empty.
parse_list : World → Option Text → List ℕ
unfolding finite split
parse_list w none = []
parse_list w (some []) = []
parse_list w (some (c ∷ s)) = finite (map w.number (split b'-' (c ∷ s)))

or_empty : Option Text → Text
or_empty none = []
or_empty (some s) = s

-- `parseJa3`, of a header that may be missing.
unfoldable pub parse_ja3 : World → Text → Option Ja3
unfolding parse_list or_empty split
parse_ja3 w s =
    let p = split b',' s in
    if length s == 0 || ltb 1000 (length s)
    then none
    else if ltb (length p) 2
    then none
    else some (record {
      ver = or_empty (get_elem? p 0);
      ciphers = parse_list w (get_elem? p 1);
      extensions = parse_list w (get_elem? p 2);
      groups = parse_list w (get_elem? p 3);
      formats = parse_list w (get_elem? p 4);
    })

-- The settings by their numbers: the last one of a number counts.
pub record H2 : Type 0 where
  pub header_table_size : Option ℕ
  pub initial_window_size : Option ℕ

pair_of : World → Text → Option (ℕ × ℕ)
unfolding split or_empty
pair_of w s =
    let p = split b':' s in
    elim (w.parse_int (or_empty (get_elem? p 0))) [
      | none ↦ none
      | some k ↦ elim (w.parse_int (or_empty (get_elem? p 1))) [
        | none ↦ none
        | some v ↦ some (k, v)
      ]
    ]

pairs_of : World → List Text → List (ℕ × ℕ)
unfolding pair_of
pairs_of w [] = []
pairs_of w (s ∷ ss) =
    let rest = pairs_of w ss in elim (pair_of w s) [ none ↦ rest | some p ↦ p ∷ rest ]

setting : ℕ → List (ℕ × ℕ) → Option ℕ
setting k [] = none
setting k ((j, v) ∷ ps) =
    let later = setting k ps in
    elim later [ some u ↦ some u | none ↦ if j == k then some v else none ]

h2_of : List (ℕ × ℕ) → Option H2
unfolding setting
h2_of [] = none
h2_of (p ∷ ps) =
    some
      (record { header_table_size = setting 1 (p ∷ ps); initial_window_size = setting 4 (p ∷ ps) })

-- `parseH2Fp`
unfoldable pub parse_h2_fp : World → Text → Option H2
unfolding h2_of pairs_of split text_eq
parse_h2_fp w s =
    if length s == 0 || text_eq s (codes "h1") then none else h2_of (pairs_of w (split b';' s))

pub data Family : Type 0 where
  chrome : Family
  firefox : Family
  safari : Family

-- `detectBrowserFamily`, of a text in small letters.
unfoldable pub detect_browser_family : Text → Option Family
unfolding includes
detect_browser_family ua =
    if includes ua (codes "edg/")
    then some chrome
    else if includes ua (codes "chrome") || includes ua (codes "chromium")
    then some chrome
    else if includes ua (codes "firefox")
    then some firefox
    else if includes ua (codes "safari")
    then some safari
    else none

-- `String` of a number, on as many rounds as it may have digits.
show_onto : ℕ → ℕ → Text → Text
show_onto zero n acc = acc
show_onto (suc k) n acc =
    let digit = b'0' + n % 10 in
    let longer = show_onto k (n / 10) (digit ∷ acc) in if n / 10 == 0 then digit ∷ acc else longer

unfoldable pub show : ℕ → Text
unfolding show_onto
show n = show_onto (suc n) n []

pad_two : Text → Text
pad_two s = if ltb (length s) 2 then b'0' ∷ s else s

join_dashes : List ℕ → Text
unfolding show
join_dashes [] = []
join_dashes (n ∷ []) = show n
join_dashes (n ∷ m ∷ ns) = show n ++ codes "-" ++ join_dashes (m ∷ ns)

or_the_empty : List ℕ → Text
unfolding join_dashes
or_the_empty [] = codes "EMPTY"
or_the_empty (n ∷ ns) = join_dashes (n ∷ ns)

without_grease : List ℕ → List ℕ
unfolding is_grease
without_grease = keep (λ v. not (is_grease v))

-- `generateJa4L`
unfoldable pub generate_ja4l : World → Ja3 → Text → Text
unfolding without_grease or_the_empty pad_two show includes text_eq
generate_ja4l w parts alpn =
    let c = without_grease parts.ciphers in
    let e = without_grease parts.extensions in
    (if text_eq parts.ver (codes "771") then codes "t12" else codes "t13")
    ++ codes "d"
    ++ pad_two (show (length c))
    ++ pad_two (show (length e))
    ++ (if includes alpn (codes "h2") then codes "h2" else codes "h1")
    ++ codes "_"
    ++ w.hash (or_the_empty c)
    ++ codes "_"
    ++ w.hash (or_the_empty e)

pub data Classification : Type 0 where
  unknown : Classification
  clean : Classification
  elevated : Classification
  suspicious : Classification
  likely_bot : Classification

-- The limits are 0.6 and 0.3 of the threshold.
unfoldable pub classify : ℕ → ℕ → Classification
classify score threshold =
    if leb threshold score
    then likely_bot
    else if leb (threshold * 6) (score * 10)
    then suspicious
    else if leb (threshold * 3) (score * 10)
    then elevated
    else clean
