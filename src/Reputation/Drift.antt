-- ===== src/Reputation/Drift.antt =====
-- src/modules/reputation.js: the bounds of `trackDrift`.
use shield_wall.Prelude.{
  length-keep-le, AllValues-sweep, ℕ, ◌+◌, ◌-◌, ◌≤◌, ◌<◌, ◌≡◌, refl, sym, ap, subst, ◌∙◌, some,
  List, [], ◌∷◌, map, arith, length, length-drop, JsMap, sweep, Text, ltb, AllValues, AllValues-put,
}
use mathlib.Core.Option.{some-injective}
use shield_wall.Reputation.{
  Shown, Tracker, newest, count_distinct, still_valid, unless_gone, drift_history, drift_score,
  track_drift, record_fingerprint, cleanup, new_tracker, decay,
}
use shield_wall.Reputation.Popularity.{Call, records, cleans, tracks, step, run}

length-newest-le {ℓ} : {A : Type ℓ} (n : ℕ) (xs : List A) → 0 < n → length (newest n xs) ≤ n
unfolding newest
length-newest-le n xs h = ground (arith, length-drop (length xs - n) xs)

length-drift_history-le :
    (ip fp : Text) (now : ℕ) (t : Tracker)
    → 0 < t.max_history
    → length (drift_history ip fp now t) ≤ t.max_history
unfolding drift_history
length-drift_history-le ip fp now t h = length-newest-le t.max_history _ h

-- No history is longer than the tracker allows.
abbrev pub IsShort : ℕ → JsMap (List Shown) → Type 0
IsShort n m = AllValues (λ hs. length hs ≤ n) m

unless_gone-some : (hs ks : List Shown) → unless_gone hs ≡ some ks → hs ≡ ks
unfolding unless_gone
unless_gone-some [] ks h = ground arith
unless_gone-some (h ∷ hs) ks e = some-injective _ _ e

cleanup_history :
    (now : ℕ) (t : Tracker)
    → (cleanup now t).history ≡ sweep (λ hs. unless_gone (still_valid t.ttl_ms now hs)) t.history
unfolding cleanup decay
cleanup_history now t = ground arith

cleanup_ttl : (now : ℕ) (t : Tracker) → (cleanup now t).ttl_ms ≡ t.ttl_ms
unfolding cleanup decay
cleanup_ttl now t = ground arith

cleanup_size : (now : ℕ) (t : Tracker) → (cleanup now t).max_history ≡ t.max_history
unfolding cleanup decay
cleanup_size now t = ground arith

length-still_valid-le :
    (n ttl now : ℕ) (hs ks : List Shown)
    → length hs ≤ n
    → unless_gone (still_valid ttl now hs) ≡ some ks
    → length ks ≤ n
unfolding still_valid
length-still_valid-le n ttl now hs ks l e = omega (
  arith,
  length-keep-le (λ (h : Shown). ltb now (h.ts + ttl)) hs,
  ap length (unless_gone-some (still_valid ttl now hs) ks e),
)

-- A tracker whose settings are those it was made with.
pub record IsTracker (ttl n : ℕ) (t : Tracker) : Type 0 where
  pub ttl_kept : t.ttl_ms ≡ ttl
  pub size_kept : t.max_history ≡ n
  pub short : IsShort n t.history

step-IsTracker :
    (ttl n : ℕ) (t : Tracker) (c : Call) → 0 < n → IsTracker ttl n t → IsTracker ttl n (step t c)
unfolding step record_fingerprint track_drift
step-IsTracker ttl n t (records fp) p h = record {
  ttl_kept = h.ttl_kept;
  size_kept = h.size_kept;
  short = h.short;
}
step-IsTracker ttl n t (cleans now) p h = record {
  ttl_kept = cleanup_ttl now t ∙ h.ttl_kept;
  size_kept = cleanup_size now t ∙ h.size_kept;
  short = subst (IsShort n) (sym (cleanup_history now t)) (
      AllValues-sweep (λ (hs : List Shown). length hs ≤ n)
        (λ hs. unless_gone (still_valid t.ttl_ms now hs))
        (λ hs ks l e. length-still_valid-le n t.ttl_ms now hs ks l e) t.history h.short);
}
step-IsTracker ttl n t (tracks ip fp now) p h = record {
  ttl_kept = h.ttl_kept;
  size_kept = h.size_kept;
  short =
      AllValues-put (λ (hs : List Shown). length hs ≤ n) ip (drift_history ip fp now t) t.history
        (subst (λ k. length (drift_history ip fp now t) ≤ k) h.size_kept
          (length-drift_history-le ip fp now t (subst (λ k. 0 < k) (sym h.size_kept) p)))
        h.short;
}

run-IsTracker :
    (ttl n : ℕ) (t : Tracker) (cs : List Call)
    → 0 < n
    → IsTracker ttl n t
    → IsTracker ttl n (run t cs)
unfolding run
run-IsTracker ttl n t [] p h = h
run-IsTracker ttl n t (c ∷ cs) p h =
    run-IsTracker ttl n (step t c) cs p (step-IsTracker ttl n t c p h)

new-IsTracker : (ttl n : ℕ) → IsTracker ttl n (new_tracker ttl n)
unfolding new_tracker
new-IsTracker ttl n = record { ttl_kept = refl; size_kept = refl; short = tt }

score-le : (n unique : ℕ) → drift_score n unique ≤ 50
unfolding drift_score
score-le n unique = ground arith

-- After any calls on a new tracker that keeps one entry or more: the history of every address has at
-- most the entries that the tracker keeps, and the score of any further fingerprint is at most 50.
pub track_drift-run :
    (ttl n : ℕ) (cs : List Call) (ip fp : Text) (now : ℕ)
    → 0 < n
    → IsShort n (run (new_tracker ttl n) cs).history
      × ((track_drift ip fp now (run (new_tracker ttl n) cs)).1 ≤ 50)
unfolding track_drift
track_drift-run ttl n cs ip fp now p =
    let t = run (new_tracker ttl n) cs in
    (
      (run-IsTracker ttl n (new_tracker ttl n) cs p (new-IsTracker ttl n)).short,
      score-le t.max_history (count_distinct (map (λ h. h.fp) (drift_history ip fp now t))),
    )
