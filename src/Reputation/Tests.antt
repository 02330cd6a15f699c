-- ===== src/Reputation/Tests.antt =====
-- src/modules/reputation.js: the counts at concrete calls.
use shield_wall.Reputation.{
  track_drift, drift_history, newest, still_valid, shown_or_nothing, count_distinct, drift_score,
  cleanup, decay, unless_gone,
}
use shield_wall.Reputation.Popularity.{Call, tracks, cleans, step, run}
use shield_wall.Prelude.{put, sweep, text_eq, ◌≤◌}
use shield_wall.Prelude.{◌≤◌, ◌≡◌, refl, List, [], ◌∷◌, get, Text, codes}
use shield_wall.Reputation.{count_of, get_rarity_score, new_tracker, record_fingerprint}
use shield_wall.Reputation.Popularity.{Call, records, cleans, run, sum, sum-run}

abbrev calls : List Call
calls = records (codes "a") ∷ records (codes "b") ∷ cleans 7 ∷ records (codes "a") ∷ []

sum-run_example :
    (sum (run (new_tracker 60_000 5) calls).popularity
      ≤ (run (new_tracker 60_000 5) calls).total_seen)
    × ((fp : Text)
        → count_of (get fp (run (new_tracker 60_000 5) calls).popularity)
          ≤ (run (new_tracker 60_000 5) calls).total_seen)
sum-run_example = sum-run 60_000 5 calls

-- Below a hundred fingerprints none is rare.
starts_cold :
    get_rarity_score (codes "x") (record_fingerprint (codes "a") (new_tracker 60_000 5)) ≡ 0
unfolding get_rarity_score record_fingerprint new_tracker get
starts_cold = refl

abbrev drifts : List Call
drifts =
    tracks (codes "10.0.0.1") (codes "a") 1_000
    ∷ tracks (codes "10.0.0.1") (codes "b") 2_000
    ∷ cleans 2_500
    ∷ []

-- Three fingerprints, of five that fit: half of the 50 points.
drifts_score :
    (track_drift (codes "10.0.0.1") (codes "c") 3_000 (run (new_tracker 60_000 5) drifts)).1 ≡ 25
unfolding track_drift drift_history newest still_valid shown_or_nothing count_distinct drift_score
    run step new_tracker cleanup decay get put sweep unless_gone text_eq
drifts_score = refl
