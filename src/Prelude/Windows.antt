-- ===== src/Prelude/Windows.antt =====
-- The sliding windows that the modules keep: `ts.filter(t => now - t < window)`. The source
-- subtracts numbers that may be negative, so the test is `now < t + window` here; the spelling
-- `t > now - window` is the same test.
use Prim.Native.Nat.{ℕ, ◌+◌, ◌≤◌, ◌<◌}
use mathlib.Core.Path.{◌≡◌, refl}
use mathlib.Core.List.{List, [], ◌∷◌, ◌++◌, filter}
use native.Mathlib.Omega.{arith}
use native.Mathlib.Decide.{dec_lt}
use shield_wall.Prelude.Lists.{length, length-filter-le, All}

unfoldable pub recent : ℕ → ℕ → List ℕ → List ℕ
unfolding dec_lt
recent window now = filter (λ t. dec_lt now (t + window))

pub length-recent-le : (w now : ℕ) (ts : List ℕ) → length (recent w now ts) ≤ length ts
unfolding recent
length-recent-le w now ts = length-filter-le (λ t. dec_lt now (t + w)) ts

-- What an earlier filter dropped, a later one would have dropped too.
pub recent-recent :
    (w : ℕ) {now later : ℕ} (ts : List ℕ)
    → now ≤ later
    → recent w later (recent w now ts) ≡ recent w later ts
unfolding recent
recent-recent w [] h = refl
recent-recent w (t ∷ ts) h = ground (arith, recent-recent w ts h)

pub recent-append :
    (w now : ℕ) (xs ys : List ℕ) → recent w now (xs ++ ys) ≡ recent w now xs ++ recent w now ys
unfolding recent
recent-append w now [] ys = refl
recent-append w now (x ∷ xs) ys = ground (arith, recent-append w now xs ys)

-- A window over times that are all recent drops nothing.
pub recent-All : (w now : ℕ) (ts : List ℕ) → All (λ t. now < t + w) ts → recent w now ts ≡ ts
unfolding recent
recent-All w now [] h = refl
recent-All w now (t ∷ ts) h = ground (arith, recent-All w now ts h.1)

pub All-recent : (w now : ℕ) (ts : List ℕ) → All (λ t. now < t + w) (recent w now ts)
unfolding recent
All-recent w now [] = tt
All-recent w now (t ∷ ts) = ground (arith, All-recent w now ts)
