-- ===== src/Bots.antt =====
-- src/modules/bot-detection.js: the indicators of one request, and the sessions. Paths and methods are texts
-- that every request has. Whether `parseFloat` of an entropy is below 6 is the library's.
pub mod Check
pub mod Bounds
pub mod Flags
mod Tests
use shield_wall.Prelude.{
  ℕ, ◌+◌, ◌-◌, Bool, true, false, ◌&&◌, not, Option, none, some, List, [], ◌∷◌, ◌++◌, map,
  delete_all, length, drop, any, keep, JsMap, get, put, delete, evict_oldest, sweep, Text, codes,
  text_eq, includes, to_lower, ltb, leb, if◌then◌else◌,
}
use shield_wall.Address.{is_valid_ip}

pub data Indicator : Type 0 where
  headless_ua : Text → Indicator
  missing_accept_language : Indicator
  sec_ch_ua_headless : Indicator
  automation_ua : Text → Indicator
  tls_ua_mismatch_low_entropy : Indicator
  no_static_assets_fetched : Indicator
  honeypot_flagged : Indicator
  excessive_request_rate : Indicator
  sequential_path_access : Indicator

-- The expressions are literal texts in any case; here in small letters.
abbrev headless_patterns : List Text
headless_patterns =
    codes "headlesschrome"
    ∷ codes "phantomjs"
    ∷ codes "selenium"
    ∷ codes "webdriver"
    ∷ codes "puppeteer"
    ∷ codes "playwright"
    ∷ codes "cypress"
    ∷ codes "webdriver"
    ∷ codes "selenium"
    ∷ codes "phantomjs"
    ∷ []

abbrev automation_patterns : List Text
automation_patterns =
    codes "bot"
    ∷ codes "crawler"
    ∷ codes "spider"
    ∷ codes "scraper"
    ∷ codes "wget"
    ∷ codes "curl"
    ∷ codes "python-requests"
    ∷ codes "httpclient"
    ∷ codes "axios"
    ∷ codes "node-fetch"
    ∷ codes "postman"
    ∷ codes "insomnia"
    ∷ []

found_in : Text → List Text → List Text
unfolding includes to_lower
found_in s = keep (λ p. includes (to_lower s) p)

unfoldable pub header : JsMap Text → Text → Text
unfolding get
header h k = elim (get k h) [ none ↦ [] | some v ↦ v ]

-- `detectHeadlessBrowser`
unfoldable pub detect_headless_browser : Text → JsMap Text → List Indicator
unfolding found_in header includes to_lower
detect_headless_browser ua h =
    map headless_ua (found_in ua headless_patterns)
    ++ (if ltb (length (header h (codes "accept-language"))) 2
        then missing_accept_language ∷ []
        else [])
    ++ (if includes (to_lower (header h (codes "sec-ch-ua"))) (codes "headless")
        then sec_ch_ua_headless ∷ []
        else [])

-- `detectAutomationTool`
unfoldable pub detect_automation_tool : Text → List Indicator
unfolding found_in
detect_automation_tool ua = map automation_ua (found_in ua automation_patterns)

pub record Visit : Type 0 where
  pub timestamp : ℕ
  pub path : Text
  pub method : Text

pub record Data : Type 0 where
  pub first_seen : ℕ
  pub last_seen : ℕ
  pub requests : List Visit
  pub is_bot : Bool

-- `SESSION_DATA` and `SESSION_LOCKS`, whose promise is never other than fulfilled (`true`).
pub record Store : Type 0 where
  pub sessions : JsMap Data
  pub locks : JsMap Bool

unfoldable pub max_sessions : ℕ
max_sessions = 5_000

unfoldable pub max_requests : ℕ
max_requests = 100

-- `m.keys().next().value`
unfoldable pub oldest : JsMap Data → Text
oldest [] = []
oldest ((k, d) ∷ m) = k

unfoldable pub make_room : Store → Store
make_room s =
    if leb max_sessions (length s.sessions)
    then record { sessions = evict_oldest s.sessions; locks = delete (oldest s.sessions) s.locks }
    else s

unfoldable pub new_data : ℕ → Data
new_data now = record { first_seen = now; last_seen = now; requests = []; is_bot = false }

-- The tables with room for a session, and the session.
unfoldable pub session : ℕ → Store → Option Data → Store × Data
session now s none = (make_room s, new_data now)
session now s (some d) = (s, d)

unfoldable pub push_visit : Visit → List Visit → List Visit
push_visit v vs = if leb max_requests (length vs) then drop 1 vs ++ v ∷ [] else vs ++ v ∷ []

unfoldable pub is_recent : ℕ → Visit → Bool
is_recent now v = ltb now (v.timestamp + 10_000)

-- `uniquePaths.size === paths.length`
unfoldable pub are_different : List Visit → Bool
are_different [] = true
are_different (v ∷ vs) = not (any (λ u. text_eq v.path u.path) vs) && are_different vs

unfoldable pub first_time : List Visit → ℕ
first_time [] = 0
first_time (v ∷ vs) = v.timestamp

unfoldable pub last_five : List Visit → List Visit
last_five vs = drop (length vs - 5) vs

unfoldable pub is_scan : ℕ → List Visit → Bool
unfolding first_time
is_scan now vs =
    leb 5 (length vs) && are_different (last_five vs) && ltb now (first_time (last_five vs) + 5_000)

unfoldable pub shown_by_visits : ℕ → List Visit → List Indicator
shown_by_visits now vs =
    (if ltb 50 (length (keep (is_recent now) vs)) then excessive_request_rate ∷ [] else [])
    ++ (if is_scan now vs then sequential_path_access ∷ [] else [])

unfoldable pub visit : Text → Text → ℕ → Data → Data × List Indicator
visit path method now d =
    let vs = push_visit (record { timestamp = now; path = path; method = method }) d.requests in
    if d.is_bot
    then (record d { last_seen = now }, honeypot_flagged ∷ [])
    else (record d { last_seen = now; requests = vs }, shown_by_visits now vs)

-- `analyzeBehavior` up to the wait, and after it.
unfoldable pub take_lock : Text → Store → Store
take_lock id s = record s { locks = put id true s.locks }

unfoldable pub enter_visit : Text → Text → Text → ℕ → Store × Data → Store × List Indicator
enter_visit id path method now (t, d) =
    let (e, shown) = visit path method now d in (record t { sessions = put id e t.sessions }, shown)

unfoldable pub after_lock : Text → Text → Text → ℕ → Store → Store × List Indicator
after_lock id path method now s = enter_visit id path method now (session now s (get id s.sessions))

-- The timer: thirty minutes without a request.
unfoldable pub unless_idle : ℕ → Data → Option Data
unless_idle now d = if ltb (d.last_seen + 1_800_000) now then none else some d

unfoldable pub idle_keys : ℕ → JsMap Data → List Text
idle_keys now [] = []
idle_keys now ((k, d) ∷ m) =
    let rest = idle_keys now m in if ltb (d.last_seen + 1_800_000) now then k ∷ rest else rest

unfoldable pub clean : ℕ → Store → Store
unfolding unless_idle idle_keys
clean now s = record {
  sessions = sweep (unless_idle now) s.sessions;
  locks = delete_all (idle_keys now s.sessions) s.locks;
}
