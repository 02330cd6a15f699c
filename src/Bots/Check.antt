-- ===== src/Bots/Check.antt =====
-- src/modules/bot-detection.js: `check`, with the flag of a honeypot.
use shield_wall.Prelude.{
  ℕ, ◌*◌, Bool, true, false, ◌&&◌, ◌||◌, not, Option, none, some, List, [], ◌∷◌, ◌++◌, reverse,
  length, any, all, keep, JsMap, get, put, Text, codes, starts_with, includes, to_lower, ltb,
  if◌then◌else◌,
}
use shield_wall.Address.{is_valid_ip}
use shield_wall.Bots.{
  Indicator, headless_ua, sec_ch_ua_headless, automation_ua, tls_ua_mismatch_low_entropy,
  no_static_assets_fetched, header, detect_headless_browser, detect_automation_tool, Visit, Data,
  Store, take_lock, after_lock,
}

pub record Request : Type 0 where
  pub user_agent : Text
  pub headers : JsMap Text
  pub ip : Text
  pub session_id : Text
  pub path : Text
  pub method : Text
  pub honeypot_triggered : Bool

unfoldable pub id_of : Request → Text
unfolding is_valid_ip
id_of r =
    if ltb 0 (length r.session_id)
    then r.session_id
    else if is_valid_ip r.ip
    then r.ip
    else codes "unknown"

unfoldable pub flagged : Request → Store → Option Data → Store
flagged r s none = s
flagged r s (some d) =
    if r.honeypot_triggered
    then record s { sessions = put (id_of r) (record d { is_bot = true }) s.sessions }
    else s

-- A honeypot flags a session that is there.
unfoldable pub flag : Request → Store → Store
flag r s = flagged r s (get (id_of r) s.sessions)

is_asset : Text → Bool
unfolding starts_with to_lower
is_asset path =
    any (λ e. starts_with (reverse (to_lower path)) (reverse e))
      (codes ".js"
        ∷ codes ".css"
        ∷ codes ".png"
        ∷ codes ".jpg"
        ∷ codes ".svg"
        ∷ codes ".woff2"
        ∷ codes ".ico"
        ∷ [])

-- More than 95 of a hundred requests, of more than 15.
fetches_no_assets : List Visit → Bool
unfolding is_asset
fetches_no_assets vs =
    let pages = length (keep (λ v. not (is_asset v.path)) vs) in
    ltb 15 (length vs) && ltb (length vs * 95) (pages * 100)

no_assets : Option Data → Bool
unfolding fetches_no_assets
no_assets none = false
no_assets (some d) = fetches_no_assets d.requests

-- What `check` finds before it waits, with `flag` done.
unfoldable pub before_lock : (Text → Bool) → Request → Store → List Indicator
unfolding detect_headless_browser detect_automation_tool header includes to_lower no_assets get
before_lock is_low r s =
    let entropy = header r.headers (codes "x-tls-random-entropy") in
    detect_headless_browser r.user_agent r.headers
    ++ detect_automation_tool r.user_agent
    ++ (if includes (to_lower r.user_agent) (codes "chrome")
          && ltb 0 (length (header r.headers (codes "x-ja4-fingerprint")))
          && is_low (if ltb 0 (length entropy) then entropy else codes "0")
        then tls_ua_mismatch_low_entropy ∷ []
        else [])
    ++ (if no_assets (get (id_of r) s.sessions) then no_static_assets_fetched ∷ [] else [])

is_automation : Indicator → Bool
is_automation (automation_ua p) = true
is_automation _ = false

is_headless : Indicator → Bool
is_headless (headless_ua p) = true
is_headless sec_ch_ua_headless = true
is_headless _ = false

pub data Severity : Type 0 where
  high : Severity
  medium : Severity

-- The severity of the match, where there are indicators.
unfoldable pub severity : Text → List Indicator → Option Severity
unfolding is_automation is_headless starts_with to_lower
severity path [] = none
severity path (x ∷ xs) =
    if starts_with (to_lower path) (codes "/api/") && all is_automation (x ∷ xs)
    then some medium
    else if any (λ i. is_automation i || is_headless i) (x ∷ xs)
    then some high
    else some medium

-- `check`, where nothing happens during the wait.
unfoldable pub check :
    (Text → Bool) → Request → ℕ → Store → Store × (List Indicator × Option Severity)
check is_low r now s =
    let t = flag r s in
    let (u, shown) = after_lock (id_of r) r.path r.method now (take_lock (id_of r) t) in
    let indicators = before_lock is_low r t ++ shown in
    (u, (indicators, severity r.path indicators))
