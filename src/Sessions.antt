-- ===== src/Sessions.antt =====
-- src/modules/session-anomaly.js: what it keeps for a session and for an address. The settings come merged
-- with the defaults; times, areas and percentages are whole numbers.
pub mod Patterns
pub mod Reload
pub mod Buckets
pub mod Spikes
pub mod Detectors
pub mod Check
pub mod Bounds
pub mod Anonymous
mod Tests
use shield_wall.Prelude.{ℕ, Option, List, JsMap, Text}

pub record Config : Type 0 where
  pub max_session_age_ms : ℕ
  pub max_ip_sessions : ℕ
  pub ip_session_ttl_ms : ℕ
  pub ip_session_window_ms : ℕ
  pub hosting_asns : List ℕ
  pub suspicious_xff_hops : ℕ
  pub sensitive_paths : List Text
  -- `velocity`, in km/h and in milliseconds
  pub impossible_travel_short_window : ℕ
  pub impossible_travel_mid_window : ℕ
  pub impossible_travel_long_window : ℕ
  pub short_window_ms : ℕ
  pub long_window_ms : ℕ
  pub rapid_country_switch_mobile_ms : ℕ
  pub rapid_country_switch_desktop_ms : ℕ
  pub rapid_country_switch_no_city_ms : ℕ
  -- `thresholds`
  pub credential_stuffing_farm_per_ip : ℕ
  pub error_spike_count : ℕ
  pub error_window_ms : ℕ
  pub error_bucket_count : ℕ
  pub session_ip_flood : ℕ
  pub session_ip_flood_cap : ℕ
  pub lateral_movement_ids : ℕ
  pub lateral_movement_cap : ℕ
  pub rate_velocity_distinct_paths : ℕ
  pub rate_velocity_window_ms : ℕ
  pub orphan_api_window : ℕ
  pub history_size : ℕ

pub record ErrorWindow : Type 0 where
  -- `errorBuckets`, `errorBucketOffset` and `errorBucketStart`
  pub counts : List ℕ
  pub offset : ℕ
  pub start : ℕ

-- `geo.city`, as the floating-point numbers that the code hands on.
pub record Place : Type 0 where
  pub latitude : ℕ
  pub longitude : ℕ

pub record Location : Type 0 where
  pub country : Text
  pub place : Option Place
  pub timestamp : ℕ

pub record Screen : Type 0 where
  pub width : ℕ
  pub height : ℕ

-- The empty text where a value is missing.
pub record Fingerprint : Type 0 where
  pub user_agent : Text
  pub canvas : Text
  pub screen : Option Screen

pub record Session : Type 0 where
  pub first_seen : ℕ
  pub last_seen : ℕ
  pub ips : JsMap ℕ
  pub user_agent : Text
  pub last_location : Option Location
  pub fingerprint : Option Fingerprint
  pub errors : ErrorWindow

pub record Visit : Type 0 where
  pub path : Text
  pub ts : ℕ

pub record IpEntry : Type 0 where
  pub sessions : List Text
  pub last_used : ℕ

pub record Store : Type 0 where
  -- `SESSION_DATA`, `SESSION_GRAPHS`, `RESOURCE_ACCESS` and `IP_SESSION_MAP`
  pub sessions : JsMap Session
  pub graphs : JsMap (List Visit)
  pub resources : JsMap (JsMap (List Text))
  pub ip_sessions : JsMap IpEntry

pub data Indicator : Type 0 where
  vpn_node_switch : Indicator
  impossible_travel : Indicator
  rapid_country_switch_no_city : Indicator
  vpn_country_switch : Indicator
  rapid_country_switch : Indicator
  ua_changed : Indicator
  canvas_changed : Indicator
  screen_changed : Indicator
  fingerprint_takeover : ℕ → Indicator
  credential_stuffing_farm : ℕ → Indicator
  fuzzing_error_spike : ℕ → Indicator
  sensitive_no_referer : Indicator
  cross_origin_sensitive : Indicator
  orphan_api_call : Indicator
  rate_velocity : ℕ → Indicator
  lateral_movement : ℕ → Text → Indicator
  session_ip_flood : ℕ → Indicator
