-- ===== src/Sequence/Cleanup.antt =====
-- src/modules/sequence-anomaly.js: what `_cleanup` leaves of the tables.
use shield_wall.Prelude.{ℕ, ◌≤◌, length-cap_oldest-le, length}
use shield_wall.Sequence.Detectors.{Entry, Config}
use shield_wall.Sequence.Fanout.{max_last_activity}
use shield_wall.Sequence.Check.{Store, cleanup}

pub record IsCapped (c : Config) (s : Store) : Type 0 where
  pub histories : length s.histories ≤ c.max_param_keys
  pub resources : length s.resources ≤ c.max_resources

-- A cleanup brings both tables within their limits, whatever they held before.
pub cleanup-IsCapped : (c : Config) (now : ℕ) (s : Store) → IsCapped c (cleanup c now s)
unfolding cleanup
cleanup-IsCapped c now s = record {
  histories = length-cap_oldest-le (λ (e : Entry). e.last_activity) c.max_param_keys _;
  resources = length-cap_oldest-le max_last_activity c.max_resources _;
}
