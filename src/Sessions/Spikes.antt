-- ===== src/Sessions/Spikes.antt =====
-- src/modules/session-anomaly.js: what the buckets of client errors count, and that the loop over them ends.
use shield_wall.Prelude.{
  ℕ, zero, suc, ◌+◌, ◌%◌, ◌≤◌, ◌<◌, ◌≡◌, refl, ap, ◌∙◌, List, [], ◌∷◌, arith, dec_lt, length,
  set_at, keep, leb, recent,
}
use shield_wall.Sessions.{ErrorWindow}
use shield_wall.Sessions.Buckets.{count_at, total, advance, slide, count_error, record_error}

slide-stop : (fuel w now : ℕ) (b : ErrorWindow) → now < b.start + w → slide fuel w now b ≡ b
unfolding slide
slide-stop zero w now b h = refl
slide-stop (suc fuel) w now b h = ground (arith, h)

slide-step :
    (fuel w now : ℕ) (b : ErrorWindow)
    → b.start + w ≤ now
    → slide (suc fuel) w now b ≡ slide fuel w now (advance w b)
unfolding slide
slide-step fuel w now b h = ground (arith, h)

idle-ends :
    (fuel other w now : ℕ) (b : ErrorWindow)
    → now < b.start + w
    → (now < (slide fuel w now b).start + w) × (slide fuel w now b ≡ slide other w now b)
idle-ends fuel other w now b before =
    rw (slide-stop fuel w now b before, slide-stop other w now b before) (before, refl)

-- Where the width of a bucket is not zero: with one round for each millisecond since the start, or more,
-- the loop comes to its end, where its condition is false, and how many rounds more there are makes no
-- difference.
pub slide-ends :
    (fuel other w now : ℕ) (b : ErrorWindow)
    → 0 < w
    → now ≤ b.start + fuel
    → now ≤ b.start + other
    → (now < (slide fuel w now b).start + w) × (slide fuel w now b ≡ slide other w now b)
unfolding advance
slide-ends zero other w now b h k l = idle-ends zero other w now b (omega (arith, h, k))
slide-ends (suc fuel) zero w now b h k l = idle-ends (suc fuel) zero w now b (omega (arith, h, l))
slide-ends (suc fuel) (suc other) w now b h k l = elim (dec_lt now (b.start + w)) [
  | yes before ↦ idle-ends (suc fuel) (suc other) w now b before
  | no after ↦
      rw
        (
          slide-step fuel w now b (omega (arith, after)),
          slide-step other w now b (omega (arith, after)),
        )
        (slide-ends fuel other w now (advance w b) h (omega (arith, h, k)) (omega (arith, h, l)))
]

-- All buckets but the one that counts.
abbrev others : ErrorWindow → ℕ
others b = total (set_at b.counts b.offset 0)

set_at-set_at : (ns : List ℕ) (i v w : ℕ) → set_at (set_at ns i v) i w ≡ set_at ns i w
set_at-set_at [] i v w = refl
set_at-set_at (n ∷ ns) zero v w = refl
set_at-set_at (n ∷ ns) (suc i) v w = ap (λ ms. n ∷ ms) (set_at-set_at ns i v w)

total-set_at-le : (ns : List ℕ) (i : ℕ) → total (set_at ns i 0) ≤ total ns
unfolding total
total-set_at-le [] i = omega arith
total-set_at-le (n ∷ ns) zero = omega arith
total-set_at-le (n ∷ ns) (suc i) = omega (arith, total-set_at-le ns i)

count_at-le-total : (ns : List ℕ) (i : ℕ) → count_at ns i ≤ total ns
unfolding total count_at
count_at-le-total [] i = omega arith
count_at-le-total (n ∷ ns) zero = omega arith
count_at-le-total (n ∷ ns) (suc i) = omega (arith, count_at-le-total ns i)

total-split : (ns : List ℕ) (i : ℕ) → total ns ≤ count_at ns i + total (set_at ns i 0)
unfolding total count_at
total-split [] i = omega arith
total-split (n ∷ ns) zero = omega arith
total-split (n ∷ ns) (suc i) = omega (arith, total-split ns i)

total-le-count : (b : ErrorWindow) → total b.counts ≤ count_at b.counts b.offset + others b
total-le-count b = total-split b.counts b.offset

count_at-set_at-le : (ns : List ℕ) (i v : ℕ) → count_at (set_at ns i v) i ≤ v
unfolding count_at
count_at-set_at-le [] i v = omega arith
count_at-set_at-le (n ∷ ns) zero v = omega arith
count_at-set_at-le (n ∷ ns) (suc i) v = count_at-set_at-le ns i v

-- Errors of a session, the last one first.
pub record_errors : ℕ → ErrorWindow → List ℕ → ErrorWindow
unfolding record_error
record_errors w b [] = b
record_errors w b (t ∷ ts) = record_error w t (record_errors w b ts)

unfoldable pub latest : ℕ → List ℕ → ℕ
latest begun [] = begun
latest begun (t ∷ ts) = t

unfoldable pub IsOrdered : ℕ → List ℕ → Type 0
unfolding latest
IsOrdered begun [] = Unit
IsOrdered begun (t ∷ ts) = (latest begun ts ≤ t) × IsOrdered begun ts

-- The buckets after errors: nothing stands in the others, and the one that counts has no error from
-- before its start.
record IsCurrent (b : ErrorWindow) (begun : ℕ) (ts : List ℕ) : Type 0 where
  started : b.start ≤ latest begun ts
  single : others b ≡ 0
  counted : count_at b.counts b.offset ≤ length (keep (λ t. leb b.start t) ts)

set_at-zero :
    (ns : List ℕ) (i j : ℕ) → total (set_at ns i 0) ≡ 0 → total (set_at (set_at ns i 0) j 0) ≡ 0
set_at-zero ns i j h = omega (arith, h, total-set_at-le (set_at ns i 0) j)

-- What a round leaves: a new start, and nothing in any bucket.
advance-IsCurrent :
    (w begun now : ℕ) (b : ErrorWindow) (ts : List ℕ)
    → b.start + w ≤ now
    → others b ≡ 0
    → IsCurrent (advance w b) now []
unfolding advance latest
advance-IsCurrent w begun now b ts h single = record {
  started = h;
  single = set_at-zero b.counts b.offset (suc b.offset % length b.counts) single;
  counted = omega (
    arith,
    single,
    count_at-le-total (set_at b.counts b.offset 0) (suc b.offset % length b.counts),
  );
}

-- The loop leaves the window of the errors, or one in which nothing is counted.
slide-IsCurrent :
    (fuel w now : ℕ) (b : ErrorWindow) (ts : List ℕ)
    → b.start ≤ now
    → others b ≡ 0
    → count_at b.counts b.offset ≤ length (keep (λ t. leb b.start t) ts)
    → let c = slide fuel w now b in
      (c.start ≤ now)
      × (others c ≡ 0)
      × (count_at c.counts c.offset ≤ length (keep (λ t. leb c.start t) ts))
unfolding slide latest
slide-IsCurrent zero w now b ts h k l = (h, k, l)
slide-IsCurrent (suc fuel) w now b ts h k l = elim (dec_lt now (b.start + w)) [
  | yes before ↦ rw (slide-stop (suc fuel) w now b before) (h, k, l)
  | no after ↦
      let next = advance-IsCurrent w 0 now b [] (omega (arith, after)) k in
      rw (slide-step fuel w now b (omega (arith, after))) (
        slide-IsCurrent fuel w now (advance w b) ts next.started next.single
          (omega (arith, next.counted)))
]

record_error-IsCurrent :
    (w begun t : ℕ) (b : ErrorWindow) (ts : List ℕ)
    → latest begun ts ≤ t
    → IsCurrent b begun ts
    → IsCurrent (record_error w t b) begun (t ∷ ts)
unfolding record_error count_error latest
record_error-IsCurrent w begun t b ts h current =
    let c = slide t w t b in
    let slid =
      slide-IsCurrent t w t b ts (omega (arith, h, current.started)) current.single
        current.counted in
    record {
      started = slid.0;
      single =
          ap total (set_at-set_at c.counts c.offset (suc (count_at c.counts c.offset)) 0) ∙ slid.1;
      counted = ground (
        arith,
        slid.0,
        slid.2,
        count_at-set_at-le c.counts c.offset (suc (count_at c.counts c.offset)),
      );
    }

record_errors-IsCurrent :
    (w : ℕ) (b : ErrorWindow) (ts : List ℕ)
    → total b.counts ≡ 0
    → IsOrdered b.start ts
    → IsCurrent (record_errors w b ts) b.start ts
unfolding record_errors IsOrdered latest
record_errors-IsCurrent w b [] empty h = record {
  started = omega arith;
  single = omega (arith, empty, total-set_at-le b.counts b.offset);
  counted = omega (arith, empty, count_at-le-total b.counts b.offset);
}
record_errors-IsCurrent w b (t ∷ ts) empty h =
    record_error-IsCurrent w b.start t (record_errors w b ts) ts h.0
      (record_errors-IsCurrent w b ts empty h.1)

length-keep-recent :
    (w now start : ℕ) (ts : List ℕ)
    → now < start + w
    → length (keep (λ t. leb start t) ts) ≤ length (recent w now ts)
unfolding recent
length-keep-recent w now start [] h = omega arith
length-keep-recent w now start (t ∷ ts) h = ground (arith, length-keep-recent w now start ts h)

record_error-start : (w t : ℕ) (b : ErrorWindow) → 0 < w → t < (record_error w t b).start + w
unfolding record_error count_error
record_error-start w t b h = (slide-ends t t w t b h (omega arith) (omega arith)).0

-- For client errors in the order of time, from an empty window on: the number that is compared with the
-- limit is never greater than the number of the errors within one bucket before the last of them,
-- however many buckets the window has.
pub total-record_errors-le :
    (w : ℕ) (b : ErrorWindow) (t : ℕ) (ts : List ℕ)
    → 0 < w
    → total b.counts ≡ 0
    → IsOrdered b.start (t ∷ ts)
    → total (record_errors w b (t ∷ ts)).counts ≤ length (recent w t (t ∷ ts))
unfolding record_errors
total-record_errors-le w b t ts h empty ordered =
    let c = record_error w t (record_errors w b ts) in
    let current = record_errors-IsCurrent w b (t ∷ ts) empty ordered in
    omega (
      arith,
      current.single,
      current.counted,
      total-le-count c,
      length-keep-recent w t c.start (t ∷ ts) (record_error-start w t (record_errors w b ts) h),
    )
