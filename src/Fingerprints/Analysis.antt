-- ===== src/Fingerprints/Analysis.antt =====
-- src/modules/fingerprinter.js: `_analyzeRequest`, with `getAlpn` and `extractH2Fingerprint` of
-- src/core/decoder.js and the tracker of src/modules/reputation.js. A header that is missing reads as the
-- empty text, which the code treats alike. The threshold of the settings is a whole number.
use shield_wall.Prelude.{
  ℕ, ◌+◌, ◌*◌, ◌/◌, min, Bool, true, false, ◌&&◌, ◌||◌, not, Option, none, some, List, [], ◌∷◌,
  ◌++◌, length, any, JsMap, get, delete, Text, codes, text_eq, includes, to_lower, split, trim, ltb,
  leb, ◌==◌, if◌then◌else◌,
}
use shield_wall.Address.{is_valid_ip}
use shield_wall.Reputation.{Tracker, get_rarity_score, record_fingerprint, track_drift}
use shield_wall.Fingerprints.{
  World, is_grease, Ja3, parse_ja3, H2, parse_h2_fp, detect_browser_family, show, generate_ja4l,
  Classification, classify,
}

pub record Config : Type 0 where
  pub enable_drift_detection : Bool
  pub block_threshold : ℕ
  pub structure_cap : ℕ
  pub consistency_cap : ℕ
  pub behavioral_cap : ℕ
  -- `process.env.GATEWAY_SECRET`
  pub gateway_secret : Text

-- A request without its headers.
pub record Request : Type 0 where
  -- `req.ip`, or the address of the socket.
  pub ip : Text
  pub asn : Option ℕ
  pub alpn_protocol : Text
  pub http_version : Text
  -- The settings of the stream, which are the size of the table, the streams and the size of the window.
  pub origin_settings : Option (ℕ × ℕ × ℕ)

pub data Signal : Type 0 where
  e_monotonic_extensions : Signal
  e_grease_missing : Signal
  c_tls13_incomplete : Signal
  c_h2_anomalous_window : Signal
  x_hosting_asn : Signal
  e_low_random_entropy : Signal
  e_weak_random_entropy : Signal
  e_gateway_grease_missing : Signal

pub data Outcome : Type 0 where
  invalid_headers : Outcome
  invalid_ja3 : Outcome
  -- The fingerprint, that of the gateway, the address, the score, its class and the signals.
  analysis : Text → Option Text → Text → ℕ → Classification → List Signal → Outcome

-- A header; the empty text where there is none.
unfoldable pub header : JsMap Text → Text → Text
unfolding get
header h k = elim (get k h) [ none ↦ [] | some v ↦ v ]

-- `a || b`
unfoldable pub or_else : Text → Text → Text
or_else [] b = b
or_else (c ∷ a) b = c ∷ a

unfoldable pub get_alpn : Request → JsMap Text → Text
unfolding header or_else text_eq
get_alpn r h = or_else r.alpn_protocol (
    or_else (header h (codes "x-alpn")) (
      or_else (header h (codes "cf-alpn"))
        (if text_eq r.http_version (codes "2.0") then codes "h2" else codes "http/1.1")))

settings_text : Option (ℕ × ℕ × ℕ) → Text
settings_text none = codes "h1"
settings_text (some (table, streams, window)) =
    codes "1:" ++ show table ++ codes ";3:" ++ show streams ++ codes ";4:" ++ show window

unfoldable pub extract_h2_fingerprint : Request → JsMap Text → Text
unfolding header or_else settings_text text_eq
extract_h2_fingerprint r h = or_else (header h (codes "x-h2-fingerprint")) (
    or_else (header h (codes "ck-h2-settings")) (
      if text_eq r.http_version (codes "2.0") then settings_text r.origin_settings else codes "h1"))

unfoldable pub is_trusted : Config → JsMap Text → Bool
unfolding text_eq get
is_trusted c h = elim (get (codes "x-gateway-auth") h) [
  | none ↦ false
  | some given ↦ text_eq given c.gateway_secret
]

-- Headers that only the gateway may set.
unfoldable pub drop_spoofed : Config → JsMap Text → JsMap Text
drop_spoofed c h =
    if not (is_trusted c h) && ltb 0 (length c.gateway_secret)
    then delete (codes "x-tls-random-entropy") (delete (codes "x-ja3-fingerprint") h)
    else h

first_text : List Text → Text
first_text [] = []
first_text (t ∷ ts) = t

unfoldable pub client_ip : Request → JsMap Text → Text
unfolding header first_text split trim is_valid_ip
client_ip r h =
    let forwarded = trim (first_text (split b',' (header h (codes "x-forwarded-for")))) in
    if is_valid_ip forwarded then forwarded else if is_valid_ip r.ip then r.ip else codes "unknown"

unfoldable pub is_monotonic : List ℕ → Bool
is_monotonic [] = true
is_monotonic (n ∷ []) = true
is_monotonic (n ∷ m ∷ ns) = leb n m && is_monotonic (m ∷ ns)

abbrev pub Scored : Type 0
Scored = ℕ × List Signal

-- `scores.x += points; signals.push(signal)`
unfoldable pub add_if : Bool → ℕ → Signal → Scored → Scored
add_if b points signal s = if b then (s.0 + points, s.1 ++ signal ∷ []) else s

unfoldable pub cap : ℕ → Scored → Scored
cap most s = (min s.0 most, s.1)

unfoldable pub is_chrome : Text → Bool
unfolding includes
is_chrome ua = includes ua (codes "chrome") || includes ua (codes "edg/")

unfoldable pub structure : Config → Text → Ja3 → Scored
structure c ua parts = cap c.structure_cap (
    add_if (is_chrome ua && not (any is_grease parts.extensions)) 30 e_grease_missing (
      add_if (ltb 4 (length parts.extensions) && is_monotonic parts.extensions) 40
        e_monotonic_extensions (0, [])))

unfoldable pub is_odd_window : Option H2 → Bool
is_odd_window none = false
is_odd_window (some h) = elim h.initial_window_size [
  | none ↦ false
  | some n ↦ ltb n 1_048_576 || ltb 16_777_216 n
]

unfoldable pub is_some {ℓ} : {A : Type ℓ} → Option A → Bool
is_some none = false
is_some (some a) = true

unfoldable pub consistency : Config → World → Text → Text → Ja3 → Scored
consistency c w ua h2 parts = cap c.consistency_cap (
    add_if (is_some (detect_browser_family ua) && is_odd_window (parse_h2_fp w h2)) 35
      c_h2_anomalous_window
      (add_if (any (λ v. v == 43) parts.extensions && not (any (λ v. v == 51) parts.extensions)) 40
        c_tls13_incomplete (0, [])))

-- The tracker after a request, and the score of the behaviour.
unfoldable pub behavioral : Config → Text → Text → ℕ → Tracker → Tracker × ℕ
unfolding get_rarity_score record_fingerprint track_drift text_eq
behavioral c ip ja4l now t =
    let rarity = get_rarity_score ja4l t in
    let seen = record_fingerprint ja4l t in
    let drifted = track_drift ip ja4l now seen in
    if c.enable_drift_detection && not (text_eq ip (codes "unknown"))
    then (drifted.0, min (drifted.1 + rarity) c.behavioral_cap)
    else (seen, min rarity c.behavioral_cap)

unfoldable pub is_hosting : Option ℕ → Bool
is_hosting none = false
is_hosting (some n) = any (λ a. a == n) (14061 ∷ 16509 ∷ 24940 ∷ 13335 ∷ 15169 ∷ [])

unfoldable pub entropy_of : World → Text → Option ℕ
entropy_of w [] = none
entropy_of w (c ∷ s) = w.entropy (c ∷ s)

-- The entropy is in tenths.
unfoldable pub add_entropy : Option ℕ → Scored → Scored
add_entropy none s = s
add_entropy (some e) s =
    if ltb e 50
    then add_if true 30 e_low_random_entropy s
    else add_if (ltb e 65) 15 e_weak_random_entropy s

-- `Math.round` of a product with 1.4 or 1.
unfoldable pub multiplied : Bool → ℕ → ℕ
multiplied true n = (n * 28 + 10) / 20
multiplied false n = n

unfoldable pub unless_empty : Text → Option Text
unless_empty [] = none
unless_empty (c ∷ s) = some (c ∷ s)

-- From a JA3 on.
unfoldable pub judge : World → Config → Request → JsMap Text → Ja3 → ℕ → Tracker → Tracker × Outcome
judge w c r h parts now t =
    let ip = client_ip r h in
    let ua = to_lower (header h (codes "user-agent")) in
    let s = structure c ua parts in
    let k = consistency c w ua (extract_h2_fingerprint r h) parts in
    let ja4l = generate_ja4l w parts (get_alpn r h) in
    let (tracker, score) = behavioral c ip ja4l now t in
    let hosted = is_hosting r.asn in
    let hosting = if hosted then x_hosting_asn ∷ [] else [] in
    let b =
      add_entropy (entropy_of w (header h (codes "x-tls-random-entropy")))
        (score, s.1 ++ k.1 ++ hosting) in
    let f =
      add_if (text_eq (header h (codes "x-tls-has-grease")) (codes "false") && is_chrome ua) 25
        e_gateway_grease_missing (s.0, b.1) in
    let total = multiplied hosted (f.0 + k.0 + min b.0 c.behavioral_cap) in
    (
      tracker,
      analysis ja4l (unless_empty (header h (codes "x-ja4-fingerprint"))) ip total
          (classify total c.block_threshold) f.1,
    )

unfoldable pub with_ja3 :
    World → Config → Request → JsMap Text → ℕ → Tracker → Option Ja3 → Tracker × Outcome
with_ja3 w c r h now t none = (t, invalid_ja3)
with_ja3 w c r h now t (some parts) = judge w c r h parts now t

unfoldable pub analyze_headers :
    World → Config → Request → JsMap Text → ℕ → Tracker → Tracker × Outcome
analyze_headers w c r h now t = with_ja3 w c r h now t (
    parse_ja3 w
      (or_else (header h (codes "ja3-fingerprint")) (header h (codes "x-ja3-fingerprint"))))

-- `_analyzeRequest`: the headers that are left, the tracker and the outcome.
unfoldable pub analyze_request :
    World
    → Config
    → Request
    → Option (JsMap Text)
    → ℕ
    → Tracker
    → Option (JsMap Text) × (Tracker × Outcome)
analyze_request w c r none now t = (none, (t, invalid_headers))
analyze_request w c r (some h) now t =
    (some (drop_spoofed c h), analyze_headers w c r (drop_spoofed c h) now t)
