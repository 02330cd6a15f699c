-- ===== src/Sequence/Scans.antt =====
-- src/modules/sequence-anomaly.js: a client that asks for one identifier after the other at a steady pace.
use shield_wall.Prelude.{
  ℕ, zero, suc, ◌+◌, ◌-◌, ◌*◌, ◌≤◌, ◌<◌, ◌≡◌, refl, sym, ap, subst, ◌∙◌, true, false, some, List,
  [], ◌∷◌, map, arith, double, length, take, drop, length-drop, Text, le→leb,
}
use native.Mathlib.Nat.{mul-le-mul_left, mul-le-mul_right, mul-suc, mul_assoc, mul_comm}
use shield_wall.Sequence.History.{last}
use shield_wall.Sequence.Params.{ParamClass}
use shield_wall.Sequence.Detectors.{
  number, Seen, Diff, up, diff_of, is_allowed, is_sequential, last_ts, time_diff, is_above,
  is_below, velocity_of, is_slow, Config, Signal, sequential_scraping, scraping,
}

-- The identifiers from `v` on, at these times.
abbrev pub scan : ℕ → List ℕ → List Seen
scan v [] = []
scan v (t ∷ ts) = record { val = number v; ts = t } ∷ scan (suc v) ts

-- No time is earlier than the one before, or later by more than the gap.
abbrev Follows : ℕ → ℕ → List ℕ → Type 0
Follows gap t [] = Unit
Follows gap t (u ∷ us) = (t ≤ u) × (u ≤ t + gap) × Follows gap u us

abbrev pub IsPaced : ℕ → List ℕ → Type 0
IsPaced gap [] = Unit
IsPaced gap (t ∷ ts) = Follows gap t ts

drop-scan : (k v : ℕ) (ts : List ℕ) → drop k (scan v ts) ≡ scan (v + k) (drop k ts)
drop-scan zero v ts = ap (λ n. scan n ts) (omega arith)
drop-scan (suc k) v [] = refl
drop-scan (suc k) v (t ∷ ts) = drop-scan k (suc v) ts ∙ ap (λ n. scan n (drop k ts)) (omega arith)

length-scan : (v : ℕ) (ts : List ℕ) → length (scan v ts) ≡ length ts
length-scan v [] = refl
length-scan v (t ∷ ts) = ap suc (length-scan (suc v) ts)

IsPaced-tail : (gap t : ℕ) (ts : List ℕ) → Follows gap t ts → IsPaced gap ts
IsPaced-tail gap t [] h = tt
IsPaced-tail gap t (u ∷ us) h = h.2

drop-IsPaced : (gap k : ℕ) (ts : List ℕ) → IsPaced gap ts → IsPaced gap (drop k ts)
drop-IsPaced gap zero ts h = h
drop-IsPaced gap (suc k) [] h = tt
drop-IsPaced gap (suc k) (t ∷ ts) h = drop-IsPaced gap k ts (IsPaced-tail gap t ts h)

diff_of-suc : (v : ℕ) → diff_of (number v) (number (suc v)) ≡ some (up 1)
unfolding diff_of double
diff_of-suc v =
    let one : suc v - v ≡ 1 = omega arith in rw (le→leb v (suc v) (omega arith), one) refl

module _ (allowed : List Diff) (one : is_allowed allowed (some (up 1)) ≡ true) where
  is_sequential-scan : (v : ℕ) (ts : List ℕ) → is_sequential allowed (scan v ts) ≡ true
  unfolding is_sequential
  is_sequential-scan v [] = refl
  is_sequential-scan v (t ∷ []) = refl
  is_sequential-scan v (t ∷ u ∷ ts) = rw (diff_of-suc v, one) (is_sequential-scan (suc v) (u ∷ ts))

last_ts-le :
    (gap v t : ℕ) (ts : List ℕ) → Follows gap t ts → last_ts t (scan v ts) ≤ t + gap * length ts
unfolding last_ts
last_ts-le gap v t [] h = omega arith
last_ts-le gap v t (u ∷ us) h =
    omega (arith, last_ts-le gap (suc v) u us h.2, h.0, h.1, mul-suc gap (length us))

time_diff-le : (gap v : ℕ) (ts : List ℕ) → IsPaced gap ts → time_diff (scan v ts) ≤ gap * length ts
unfolding time_diff
time_diff-le gap v [] h = omega arith
time_diff-le gap v (t ∷ ts) h =
    omega (arith, last_ts-le gap (suc v) t ts h, mul-suc gap (length ts))

-- So many requests a second are made with such a gap.
steady : (least gap n ms : ℕ) → ms ≤ gap * n → gap * least ≤ 1000 → least * ms ≤ n * 1000
steady least gap n ms h k = omega (
  arith,
  mul-le-mul_left least h,
  mul_assoc least gap n,
  ap (λ x. x * n) (mul_comm least gap),
  mul-le-mul_right n k,
  mul_comm n 1000,
)

is_slow-velocity_of :
    (least most n ms : ℕ)
    → least ≤ most
    → least * ms ≤ n * 1000
    → is_slow least (velocity_of most n ms) ≡ false
unfolding is_slow velocity_of is_below is_above
is_slow-velocity_of least most n ms h k = ground arith

-- Settings under which successive identifiers with such a gap are not too slow.
pub record Detects (c : Config) (gap : ℕ) : Type 0 where
  pub on : c.sequential_scraping_on ≡ true
  pub one : is_allowed c.allowed_diffs (some (up 1)) ≡ true
  pub fast : gap * c.min_sequence_velocity ≤ 1000
  pub ordered : c.min_sequence_velocity ≤ c.max_sequence_velocity
  pub room : 0 < c.history_max_len
  pub fits : c.min_sequence_length ≤ c.history_max_len

abbrev pub report : Config → Text → ParamClass → List Seen → Signal
report c key class history =
    sequential_scraping key class (map (λ h. h.val) (take 5 history)) (length history)
      (velocity_of c.max_sequence_velocity (length history) (time_diff history))

module _ (c : Config) (gap : ℕ) (d : Detects c gap) (key : Text) (class : ParamClass) where
  scraping-scan :
      (v : ℕ) (ts : List ℕ)
      → IsPaced gap ts
      → c.min_sequence_length ≤ length ts
      → scraping c key class (scan v ts) ≡ report c key class (scan v ts) ∷ []
  unfolding scraping
  scraping-scan v ts p l = ground (
    arith,
    length-scan v ts,
    is_sequential-scan c.allowed_diffs d.one v ts,
    is_slow-velocity_of c.min_sequence_velocity c.max_sequence_velocity (length (scan v ts))
        (time_diff (scan v ts)) d.ordered
        (steady c.min_sequence_velocity gap (length (scan v ts)) (time_diff (scan v ts))
          (subst (λ n. time_diff (scan v ts) ≤ gap * n) (sym (length-scan v ts))
            (time_diff-le gap v ts p))
          d.fast),
  )

  -- The last part of a scan is a scan.
  pub scraping-last :
      (v : ℕ) (ts : List ℕ)
      → IsPaced gap ts
      → c.min_sequence_length ≤ length ts
      → scraping c key class (last c.history_max_len (scan v ts))
        ≡ report c key class (last c.history_max_len (scan v ts)) ∷ []
  scraping-last v ts p l =
      let k = length (scan v ts) - c.history_max_len in
      subst (λ h. scraping c key class h ≡ report c key class h ∷ []) (sym (drop-scan k v ts))
        (scraping-scan (v + k) (drop k ts) (drop-IsPaced gap k ts p)
          (omega (arith, length-drop k ts, length-scan v ts, d.fits)))
