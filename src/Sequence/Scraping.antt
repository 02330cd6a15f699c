-- ===== src/Sequence/Scraping.antt =====
-- src/modules/sequence-anomaly.js: when `_detectSequential` reports a client, whatever the others do.
use shield_wall.Prelude.{
  ℕ, ◌≤◌, ◌<◌, ◌≡◌, refl, ap, ◌∙◌, true, false, none, List, [], ◌∷◌, ◌++◌, length, get,
}
use shield_wall.Sessions.Patterns.{is_numeric_id}
use shield_wall.Sequence.{ring_iterate}
use shield_wall.Sequence.History.{last, ring_iterate-push_each}
use shield_wall.Sequence.Params.{ClassCache}
use shield_wall.Sequence.Detectors.{
  Seen, Entry, Config, Signal, is_page, scraping, detect_sequential, detect_velocity_spike,
}
use shield_wall.Sequence.Fanout.{detect_global_fanout}
use shield_wall.Sequence.Check.{Store, track_val, enter, shown_by_entry, track}
use shield_wall.Sequence.Scans.{scan, IsPaced, Detects, report, scraping-last}
use shield_wall.Sequence.Histories.{
  Access, Event, place, seen, after, IsRoomy, past, seen_in, seen_at, enter-Keeps, after-Keeps,
}

-- Nothing was accessed before.
abbrev pub fresh : ClassCache → Store
fresh cache = record { histories = []; resources = []; classes = cache }

-- The entry of an access that follows others.
abbrev pub entry_after : Config → ClassCache → List Event → Access → Entry
entry_after c cache es a =
    enter c a.class (track_val a.val) a.time (get (place a) (after c es (fresh cache)).histories)

abbrev pub signals_after : Config → ClassCache → List Event → Access → List Signal
signals_after c cache es a = (track c a.ip a.time a.key a.val a.class (after c es (fresh cache))).1

-- After any accesses by any clients and any cleanups, by the timer or ordered, none of which finds more
-- keys in the table than its limit: the history of a parameter that one more access is tested with holds
-- the accesses under the same key of the table, the last one included, in their order, since the last
-- cleanup that found the key without an access for longer than the histories live; and of these the last
-- ones that fit into its length, where this is positive.
pub ring_iterate-entry_after :
    (c : Config) (cache : ClassCache) (es : List Event) (a : Access)
    → 0 < c.history_max_len
    → IsRoomy c es (fresh cache)
    → ring_iterate (entry_after c cache es a).ring
      ≡ last c.history_max_len (seen_at c (place a) es ++ seen a ∷ [])
ring_iterate-entry_after c cache es a h room =
    let o = get (place a) (after c es (fresh cache)).histories in
    let p = past c (place a) es none in
    let kept = enter-Keeps c a o p (after-Keeps c (place a) es (fresh cache) refl room) in
    ap ring_iterate kept.1 ∙ ring_iterate-push_each c.history_max_len (seen_in p ++ seen a ∷ []) h

module _ (c : Config) (gap : ℕ) (d : Detects c gap) (a : Access) (p : is_page a.class ≡ false) where
  abbrev pub reported : List Seen → Signal
  reported history = report c a.key a.class (last c.history_max_len history)

  detect_sequential-scan :
      (e : Entry) (v : ℕ) (ts : List ℕ)
      → ring_iterate e.ring ≡ last c.history_max_len (scan v ts)
      → IsPaced gap ts
      → c.min_sequence_length ≤ length ts
      → detect_sequential c a.key a.class e ≡ reported (scan v ts) ∷ []
  unfolding detect_sequential scraping
  detect_sequential-scan e v ts r q l =
      rw (d.on, p, r) (scraping-last c gap d a.key a.class v ts q l)

  -- A client is reported with every access that prolongs a scan of successive numbers under one key to
  -- at least the length of a sequence, where the numbers are as `parseInt` rounds them, the times between
  -- the accesses are at most a gap that the least velocity allows, the settings are in order and the
  -- parameter is no page number. Accesses of other clients and of other parameters may come in between,
  -- and cleanups that find no more keys in the table than its limit; the scan are the accesses since the
  -- last cleanup that found the key without an access for longer than the histories live.
  pub track-scan :
      (cache : ClassCache) (es : List Event) (v : ℕ) (ts : List ℕ)
      → is_numeric_id a.val ≡ true
      → IsRoomy c es (fresh cache)
      → seen_at c (place a) es ++ seen a ∷ [] ≡ scan v ts
      → IsPaced gap ts
      → c.min_sequence_length ≤ length ts
      → (rest : List Signal) × (signals_after c cache es a ≡ reported (scan v ts) ∷ rest)
  unfolding track shown_by_entry
  track-scan cache es v ts n room e q l =
      let s = after c es (fresh cache) in
      (
        detect_velocity_spike c a.key (entry_after c cache es a)
            ++ (detect_global_fanout c a.key a.class a.val a.ip a.time s.resources).1,
        rw
            (
              n,
              detect_sequential-scan (entry_after c cache es a) v ts
                  (ring_iterate-entry_after c cache es a d.room room
                    ∙ ap (last c.history_max_len) e)
                  q l,
            )
            refl,
      )
