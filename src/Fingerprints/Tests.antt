-- ===== src/Fingerprints/Tests.antt =====
-- src/modules/fingerprinter.js: the analysis of concrete requests.
use shield_wall.Prelude.{
  ℕ, ◌+◌, ◌-◌, ◌*◌, ◌≡◌, refl, true, false, ◌&&◌, Option, none, some, [], ◌∷◌, arith, take, JsMap,
  delete, Text, codes, to_lower, trim, leb, if◌then◌else◌,
}
use shield_wall.Reputation.{
  new_tracker, get_rarity_score, record_fingerprint, track_drift, drift_history, newest,
  still_valid, shown_or_nothing, count_distinct, drift_score,
}
use shield_wall.Address.{is_valid_ip}
use shield_wall.Fingerprints.{
  World, is_grease, parse_ja3, parse_h2_fp, detect_browser_family, generate_ja4l, classify,
}
use shield_wall.Fingerprints.Analysis.{
  Config, Request, Outcome, analysis, is_trusted, drop_spoofed, header, or_else, client_ip,
  structure, consistency, behavioral, is_hosting, add_entropy, add_if, cap, is_chrome, is_monotonic,
  entropy_of, unless_empty, with_ja3, is_odd_window, is_some, multiplied, judge,
  extract_h2_fingerprint, get_alpn, analyze_headers, analyze_request,
}
use shield_wall.Fingerprints.Spoofing.{spoofed, analyze_request-spoofed}
use shield_wall.Fingerprints.Scores.{IsScored, analyze_request-IsScored}

-- A number in decimal digits.
abbrev decimal : ℕ → Text → Option ℕ
decimal n [] = some n
decimal n (c ∷ s) = if leb b'0' c && leb c b'9' then decimal (n * 10 + (c - b'0')) s else none

abbrev world : World
world = record {
  number = decimal 0;
  parse_int = decimal 0;
  entropy = λ s. none;
  hash = λ s. take 12 s;
}

abbrev config : Config
config = record {
  enable_drift_detection = true;
  block_threshold = 65;
  structure_cap = 60;
  consistency_cap = 50;
  behavioral_cap = 50;
  gateway_secret = codes "secret";
}

abbrev request : Request
request = record {
  ip = codes "10.0.0.1";
  asn = none;
  alpn_protocol = codes "h2";
  http_version = codes "1.1";
  origin_settings = none;
}

abbrev headers : JsMap Text
headers =
    (codes "user-agent", codes "Chrome")
    ∷ (codes "ja3-fingerprint", codes "771,4865,0-1-2-3-4")
    ∷ (codes "x-tls-has-grease", codes "false")
    ∷ []

not_trusted : is_trusted config headers ≡ false
unfolding is_trusted
not_trusted = refl

analyze_request-spoofed_example :
    analyze_request world config request
      (some (spoofed (codes "771,1") (codes "7.9") headers))
      1_000
      (new_tracker 60_000 5)
    ≡ analyze_request world config request (some headers) 1_000 (new_tracker 60_000 5)
analyze_request-spoofed_example =
    analyze_request-spoofed world config request (codes "771,1") (codes "7.9") headers 1_000
      (new_tracker 60_000 5) not_trusted (omega arith)

analyze_request-IsScored_example :
    IsScored config
      (analyze_request world config request (some headers) 1_000 (new_tracker 60_000 5)).1.1
analyze_request-IsScored_example =
    analyze_request-IsScored world config request (some headers) 1_000 (new_tracker 60_000 5)

-- The limit of the structure is 60.
score_of : Outcome → ℕ
score_of (analysis ja4l gateway ip total class signals) = total
score_of _ = 0

goes_over :
    score_of (analyze_request world config request (some headers) 1_000 (new_tracker 60_000 5)).1.1
    ≡ 85
unfolding score_of analyze_request drop_spoofed is_trusted analyze_headers with_ja3 parse_ja3 header
    or_else judge client_ip is_valid_ip structure consistency add_if cap is_chrome is_monotonic
    is_grease is_odd_window is_some detect_browser_family parse_h2_fp extract_h2_fingerprint
    get_alpn generate_ja4l behavioral get_rarity_score record_fingerprint track_drift drift_history
    newest still_valid shown_or_nothing count_distinct drift_score is_hosting add_entropy entropy_of
    unless_empty multiplied classify new_tracker trim to_lower delete
goes_over = refl
