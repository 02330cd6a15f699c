-- ===== src/Engine.antt =====
-- src/core/engine.js: from the matches of the detectors to the verdict on a request. What the modules
-- and the rules report is an argument (`none` for a module that threw), as is what the decoder makes of
-- the request. Mitigation keys its sessions by the address of the connection, where a missing one is
-- the text `unknown` here and `undefined` in the source.
-- The circuit breaker is left out: `getReputation` is not exported by modules/reputation.js, so that calling
-- it throws, the error is caught, and the threshold stays.
pub mod Verdicts
pub mod Mitigated
mod Tests
use shield_wall.Prelude.{
  ℕ, zero, suc, ◌+◌, ◌-◌, ◌*◌, ◌/◌, ◌%◌, ◌^◌, ◌≤◌, ◌<◌, min, max, ◌≡◌, refl, sym, ap, subst, ◌∙◌,
  ◌≢◌, ◌↔◌, ◌⊎◌, inl, inr, ite, if_pos, if_neg, Bool, true, false, ◌&&◌, ◌||◌, not, Option, none,
  some, List, [], ◌∷◌, ◌++◌, map, filter, reverse, arith, dec_lt, dec_le, ℕ_discrete, length,
  get_elem?, set_at, take, drop, any, all, length-append, length-filter-le, length-take,
  length-drop, All, All-mono, All-append, All-append_left, All-append_right, keep, keep-append,
  keep-eq-nil, keep_comm, JsMap, get, put, delete, evict_oldest, sweep, get-put, get-delete,
  get-put_ne, get-put_self, get-delete_ne, get-delete_self, get-evict_oldest_self, length-delete-le,
  length-evict_oldest-le, length-evict_oldest, length-put-le, length-put_present, length-put_absent,
  length-sweep-le, IsMap, put-IsMap, delete-IsMap, evict_oldest-IsMap, get-sweep, sweep-IsMap, Text,
  codes, text_eq, text_eq_refl, text_eq_iff, text_eq_ne, ne_of_text_eq, starts_with, includes,
  to_lower, split_onto, split, is_space, trim_start, trim, ltb, leb, ◌==◌, if◌then◌else◌, ltb→lt,
  lt→ltb, leb→le, le→leb, ==_iff, Bool-cases, Option-cases, both_branches, AllValues, AllValues-get,
  AllValues-put, AllValues-delete, AllValues-evict_oldest, recent, length-recent-le, recent-recent,
  recent-append, recent-All, All-recent,
}
use shield_wall.Address.{Sender, client_ip}
use shield_wall.Paths.{is_probe, is_sensitive_target, endpoint_sensitivity}
use shield_wall.Recon.{Trace, record_recon_attempt, get_reputation_taint}
use shield_wall.Mitigation.{Crypto, Session, Action, block, process}
use shield_wall.Mitigation
use shield_wall.Scoring.{Severity, high, critical, info, Match, get_highest_severity, risk_score}

-- An entry of `excludePaths`: a string, or a `RegExp` of the configuration, which is its `test`.
pub data Exclusion : Type 0 where
  prefix : Text → Exclusion
  pattern : (Text → Bool) → Exclusion

pub excludes : Text → Exclusion → Bool
unfolding starts_with
excludes path (prefix ex) = starts_with path ex
excludes path (pattern test) = test path

pub record Options : Type 0 where
  pub block_mode : Bool
  pub block_threshold : ℕ
  pub exclude_paths : List Exclusion
  pub exclude_ips : List Text
  pub trust_proxy : Bool

pub record Stats : Type 0 where
  pub total_requests : ℕ
  pub blocked_requests : ℕ
  pub detected_threats : ℕ

-- The engine with the tables of the two modules that it drives.
pub record Engine : Type 0 where
  pub options : Options
  pub stats : Stats
  pub sessions : JsMap Session
  pub recon : JsMap Trace

pub record Request : Type 0 where
  pub sender : Sender
  -- `req.path`, and what the decoder makes of the request
  pub raw_path : Text
  pub path : Text
  pub method : Text
  pub json_smuggling : Bool
  pub header_size : ℕ
  -- `url.searchParams.get('__shield_solve')` and `url.pathname`
  pub solution : Option Text
  pub pathname : Text

unfoldable pub is_excluded : Options → Request → Bool
unfolding excludes client_ip text_eq
is_excluded o r =
    any (excludes r.raw_path) o.exclude_paths
    || any (text_eq (client_ip o.trust_proxy r.sender)) o.exclude_ips

allowed_methods : List Text
allowed_methods =
    codes "GET"
    ∷ codes "POST"
    ∷ codes "PUT"
    ∷ codes "DELETE"
    ∷ codes "HEAD"
    ∷ codes "OPTIONS"
    ∷ codes "PATCH"
    ∷ []

-- The matches of the protocol checks.
pub protocol_matches : Request → List Match
unfolding allowed_methods text_eq
protocol_matches r =
    (if any (text_eq r.method) allowed_methods
      then []
      else record {
        rule = codes "protocol_anomaly:verb_tampering";
        severity = high;
        category = codes "bypass";
        score = 0;
      }
        ∷ [])
    ++ (if r.json_smuggling
        then record {
          rule = codes "protocol_anomaly:json_smuggling";
          severity = critical;
          category = codes "zero-day";
          score = 0;
        }
          ∷ []
        else [])
    ++ (if ltb 16384 r.header_size
        then record {
          rule = codes "protocol_anomaly:oversized_headers";
          severity = critical;
          category = codes "dos";
          score = 0;
        }
          ∷ []
        else [])

module_matches : List (Option (List Match)) → List Match
module_matches [] = []
module_matches (none ∷ found) = module_matches found
module_matches (some ms ∷ found) = ms ++ module_matches found

unfoldable pub all_matches : Request → List (Option (List Match)) → List Match → List Match
unfolding protocol_matches module_matches
all_matches r found rules = protocol_matches r ++ module_matches found ++ rules

pub record Verdict : Type 0 where
  pub blocked : Bool
  pub matches : List Match
  pub risk : ℕ
  pub highest : Severity
  pub mitigation : Option Action

abbrev pub clean : Verdict
clean = record { blocked = false; matches = []; risk = 0; highest = info; mitigation = none }

correlation : Match
correlation = record {
  rule = codes "recon_to_exploit_correlation";
  severity = high;
  category = codes "apt_sequence";
  score = 0;
}

-- `req.ip || req.connection.remoteAddress`
pub peer : Sender → Text
unfolding client_ip
peer s = client_ip false s

-- `mitigationAction?.type === 'block'`
unfoldable pub is_block : Option Action → Bool
is_block none = false
is_block (some (block status)) = true
is_block (some _) = false

-- What the taint of the address adds to the risk of a request for a sensitive endpoint.
pub taint_penalty : Text → ℕ → ℕ
unfolding is_sensitive_target
taint_penalty path taint = if ltb 15 taint && is_sensitive_target path then taint * 100_000 else 0

-- The request is counted, and a probe is remembered.
pub enter : Engine → Engine
enter e = record e { stats = record e.stats { total_requests = suc e.stats.total_requests } }

pub probe : Engine → Request → ℕ → Engine
unfolding is_probe client_ip record_recon_attempt
probe e r now =
    if is_probe r.path
    then record e {
      recon =
          record_recon_attempt (client_ip e.options.trust_proxy r.sender) r.path 404 now e.recon;
    }
    else e

module _ (crypto : Crypto) where
  -- From the risk to the verdict, when there are matches.
  unfoldable pub judge : Engine → Request → List Match → Text → ℕ → Engine × Verdict
  unfolding client_ip get_reputation_taint taint_penalty correlation risk_score endpoint_sensitivity
      process is_block get_highest_severity peer
  judge e r found nonce now =
      let ip = client_ip e.options.trust_proxy r.sender in
      let (recon, taint) = get_reputation_taint ip now e.recon in
      let penalty = taint_penalty r.path taint in
      let risk = risk_score (endpoint_sensitivity r.path) found + penalty in
      let matches = if ltb 0 penalty then found ++ correlation ∷ [] else found in
      let by_score = e.options.block_mode && leb (e.options.block_threshold * 100_000) risk in
      let asked : Mitigation.Request = record {
        ip = peer r.sender;
        solution = r.solution;
        pathname = r.pathname;
      } in
      let (sessions, action) = process crypto e.sessions asked (risk / 1000) nonce now in
      let blocked = by_score || is_block action in
      (
        record e {
          sessions = sessions;
          recon = recon;
          stats = record e.stats {
            detected_threats = e.stats.detected_threats + length matches;
            blocked_requests = e.stats.blocked_requests + (if blocked then 1 else 0);
          };
        },
        record {
          blocked = blocked;
          matches = matches;
          risk = risk;
          highest = get_highest_severity matches;
          mitigation = action;
        },
      )

  judge_found : Engine → Request → List Match → Text → ℕ → Engine × Verdict
  unfolding judge
  judge_found e r [] nonce now = (e, clean)
  judge_found e r (m ∷ ms) nonce now = judge e r (m ∷ ms) nonce now

  unfoldable pub analyze :
      Engine → Request → List (Option (List Match)) → List Match → Text → ℕ → Engine × Verdict
  unfolding is_excluded enter probe all_matches judge_found
  analyze e r found rules nonce now =
      if is_excluded e.options r
      then (enter e, clean)
      else judge_found (probe (enter e) r now) r (all_matches r found rules) nonce now
