-- ===== src/Address.antt =====
-- The client's address, as src/modules/brute-force.js reads it (`_ip`, `_isValidIP`). The same two
-- functions stand in rate-limiter.js, bot-detection.js, ddos-protection.js and core/engine.js.
use shield_wall.Prelude.{
  ℕ, Bool, false, ◌&&◌, ◌||◌, Option, none, some, List, [], ◌∷◌, map, Text, codes, split, trim,
  length, all, leb, ◌==◌, if◌then◌else◌,
}

abbrev is_digit : ℕ → Bool
is_digit c = leb b'0' c && leb c b'9'

abbrev is_hex : ℕ → Bool
is_hex c = is_digit c || (leb b'a' c && leb c b'f') || (leb b'A' c && leb c b'F')

-- `25[0-5]|2[0-4][0-9]|[01]?[0-9][0-9]?`, over a whole part.
pub is_octet : Text → Bool
is_octet (a ∷ b ∷ c ∷ []) =
    (a == b'2' && b == b'5' && leb b'0' c && leb c b'5')
    || (a == b'2' && leb b'0' b && leb b b'4' && is_digit c)
    || ((a == b'0' || a == b'1') && is_digit b && is_digit c)
is_octet (a ∷ b ∷ []) = is_digit a && is_digit b
is_octet (a ∷ []) = is_digit a
is_octet _ = false

-- `[0-9a-fA-F]{1,4}`
pub is_group : Text → Bool
is_group g = leb 1 (length g) && leb (length g) 4 && all is_hex g

unfoldable pub is_valid_ip : Text → Bool
unfolding is_octet is_group split
is_valid_ip ip =
    let octets = split b'.' ip in
    let groups = split b':' ip in
    (length octets == 4 && all is_octet octets) || (length groups == 8 && all is_group groups)

-- What a request says of its sender: the header, and `req.ip` or the socket's address.
pub record Sender : Type 0 where
  pub forwarded_for : Option Text
  pub ip : Option Text

find_valid : List Text → Option Text
find_valid [] = none
find_valid (ip ∷ ips) = if is_valid_ip ip then some ip else find_valid ips

direct : Option Text → Text
direct none = codes "unknown"
direct (some ip) = ip

unfoldable pub client_ip : Bool → Sender → Text
unfolding find_valid direct is_valid_ip trim split
client_ip trust_proxy s = elim s.forwarded_for [
  | none ↦ direct s.ip
  | some header ↦
      if trust_proxy
      then elim (find_valid (map trim (split b',' header))) [ none ↦ direct s.ip | some ip ↦ ip ]
      else direct s.ip
]
