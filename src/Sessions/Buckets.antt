-- ===== src/Sessions/Buckets.antt =====
-- src/modules/session-anomaly.js, `check`: the buckets of client errors. The loop runs on fuel.
use shield_wall.Prelude.{ℕ, zero, suc, ◌+◌, ◌%◌, List, [], ◌∷◌, length, set_at, leb, if◌then◌else◌}
use shield_wall.Sessions.{ErrorWindow}

unfoldable pub count_at : List ℕ → ℕ → ℕ
count_at [] i = 0
count_at (n ∷ ns) zero = n
count_at (n ∷ ns) (suc i) = count_at ns i

unfoldable pub total : List ℕ → ℕ
total [] = 0
total (n ∷ ns) = n + total ns

-- One round of the loop.
unfoldable pub advance : ℕ → ErrorWindow → ErrorWindow
advance bucket_ms b = record {
  counts = set_at b.counts b.offset 0;
  offset = suc b.offset % length b.counts;
  start = b.start + bucket_ms;
}

unfoldable pub slide : ℕ → ℕ → ℕ → ErrorWindow → ErrorWindow
unfolding advance
slide zero bucket_ms now b = b
slide (suc fuel) bucket_ms now b =
    let rest = slide fuel bucket_ms now (advance bucket_ms b) in
    if leb (b.start + bucket_ms) now then rest else b

unfoldable pub count_error : ErrorWindow → ErrorWindow
unfolding count_at
count_error b = record b { counts = set_at b.counts b.offset (suc (count_at b.counts b.offset)) }

-- A client error at a time.
unfoldable pub record_error : ℕ → ℕ → ErrorWindow → ErrorWindow
unfolding slide count_error
record_error bucket_ms now b = count_error (slide now bucket_ms now b)
