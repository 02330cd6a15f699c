-- ===== src/Reputation.antt =====
-- src/modules/reputation.js, `FingerprintTracker`: how often each fingerprint was seen, and which ones an
-- address showed lately. A frequency is compared exactly, as a fraction.
pub mod Popularity
pub mod Drift
mod Tests
use shield_wall.Prelude.{
  ℕ, zero, suc, ◌+◌, ◌-◌, ◌*◌, ◌/◌, ◌%◌, ◌^◌, ◌≤◌, ◌<◌, min, max, ◌≡◌, refl, sym, ap, subst, ◌∙◌,
  ◌≢◌, ◌↔◌, ◌⊎◌, inl, inr, ite, if_pos, if_neg, Bool, true, false, ◌&&◌, ◌||◌, not, Option, none,
  some, List, [], ◌∷◌, ◌++◌, map, filter, reverse, arith, dec_lt, dec_le, ℕ_discrete, length,
  get_elem?, set_at, take, drop, any, all, length-append, length-filter-le, length-take,
  length-drop, All, All-mono, All-append, All-append_left, All-append_right, keep, keep-append,
  keep-eq-nil, keep_comm, JsMap, get, put, delete, evict_oldest, sweep, get-put, get-delete,
  get-put_ne, get-put_self, get-delete_ne, get-delete_self, get-evict_oldest_self, length-delete-le,
  length-evict_oldest-le, length-evict_oldest, length-put-le, length-put_present, length-put_absent,
  length-sweep-le, IsMap, put-IsMap, delete-IsMap, evict_oldest-IsMap, get-sweep, sweep-IsMap, Text,
  codes, text_eq, text_eq_refl, text_eq_iff, text_eq_ne, ne_of_text_eq, starts_with, includes,
  to_lower, split_onto, split, is_space, trim_start, trim, ltb, leb, ◌==◌, if◌then◌else◌, ltb→lt,
  lt→ltb, leb→le, le→leb, ==_iff, Bool-cases, Option-cases, both_branches, AllValues, AllValues-get,
  AllValues-put, AllValues-delete, AllValues-evict_oldest, recent, length-recent-le, recent-recent,
  recent-append, recent-All, All-recent,
}

pub record Shown : Type 0 where
  pub fp : Text
  pub ts : ℕ

pub record Tracker : Type 0 where
  pub history : JsMap (List Shown)
  pub popularity : JsMap ℕ
  pub total_seen : ℕ
  pub last_decay_at : ℕ
  pub ttl_ms : ℕ
  pub max_history : ℕ

unfoldable pub new_tracker : ℕ → ℕ → Tracker
new_tracker ttl max_history = record {
  history = [];
  popularity = [];
  total_seen = 0;
  last_decay_at = 0;
  ttl_ms = ttl;
  max_history = max_history;
}

-- `this.popularity.get(fp) || 0`
pub count_of : Option ℕ → ℕ
count_of none = 0
count_of (some n) = n

unfoldable pub record_fingerprint : Text → Tracker → Tracker
unfolding count_of
record_fingerprint fp t = record t {
  total_seen = suc t.total_seen;
  popularity = put fp (count_of (get fp t.popularity) + 1) t.popularity;
}

-- The limits are 0.001, 0.01 and 0.05.
unfoldable pub get_rarity_score : Text → Tracker → ℕ
unfolding count_of
get_rarity_score fp t =
    let count = count_of (get fp t.popularity) in
    if ltb t.total_seen 100
    then 0
    else if ltb (count * 1000) t.total_seen
    then 25
    else if ltb (count * 100) t.total_seen
    then 15
    else if ltb (count * 20) t.total_seen
    then 5
    else 0

unfoldable pub still_valid : ℕ → ℕ → List Shown → List Shown
still_valid ttl now = keep (λ h. ltb now (h.ts + ttl))

-- `slice(-n)`, which keeps everything where `n` is 0.
unfoldable pub newest {ℓ} : {A : Type ℓ} → ℕ → List A → List A
newest n xs = if n == 0 then xs else drop (length xs - n) xs

-- `new Set(...).size`
unfoldable pub count_distinct : List Text → ℕ
count_distinct [] = 0
count_distinct (t ∷ ts) =
    let rest = count_distinct ts in if any (text_eq t) ts then rest else suc rest

unfoldable pub shown_or_nothing : Option (List Shown) → List Shown
shown_or_nothing none = []
shown_or_nothing (some hs) = hs

-- `Math.round` of the share of a half that the changes make up. A tracker keeps two entries or more: with
-- one there is no second fingerprint, and the source divides by a number below 0 where it keeps none.
unfoldable pub drift_score : ℕ → ℕ → ℕ
drift_score max_history unique =
    if leb unique 1
    then 0
    else min 50 (((unique - 1) * 100 + (max_history - 1)) / (2 * (max_history - 1)))

unfoldable pub drift_history : Text → Text → ℕ → Tracker → List Shown
drift_history ip fp now t = newest t.max_history (
    still_valid t.ttl_ms now
      (shown_or_nothing (get ip t.history) ++ record { fp = fp; ts = now } ∷ []))

unfoldable pub track_drift : Text → Text → ℕ → Tracker → Tracker × ℕ
track_drift ip fp now t =
    let trimmed = drift_history ip fp now t in
    (
      record t { history = put ip trimmed t.history },
      drift_score t.max_history (count_distinct (map (λ h. h.fp) trimmed)),
    )

unfoldable pub unless_gone : List Shown → Option (List Shown)
unless_gone [] = none
unless_gone (h ∷ hs) = some (h ∷ hs)

halve : ℕ → Option ℕ
halve count = if count / 2 == 0 then none else some (count / 2)

-- The decay, at most once an hour, and only after a million fingerprints.
pub decay : ℕ → Tracker → Tracker
unfolding halve sweep
decay now t =
    if ltb 1_000_000 t.total_seen && ltb (t.last_decay_at + 3_600_000) now
    then record t {
      popularity = sweep halve t.popularity;
      total_seen = t.total_seen / 2;
      last_decay_at = now;
    }
    else t

unfoldable pub cleanup : ℕ → Tracker → Tracker
unfolding decay still_valid unless_gone sweep
cleanup now t =
    decay now
      (record t { history = sweep (λ hs. unless_gone (still_valid t.ttl_ms now hs)) t.history })
