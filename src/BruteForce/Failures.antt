-- ===== src/BruteForce/Failures.antt =====
-- src/modules/brute-force.js: how failed sign-ins add up until an address is locked out.
use shield_wall.Prelude.{
  ℕ, suc, ◌+◌, ◌≤◌, ◌<◌, ◌≡◌, refl, ap, ◌∙◌, true, ◌&&◌, Option, none, some, List, [], ◌∷◌, ◌++◌,
  arith, length, length-append, All, All-mono, All-append_left, All-append_right, get, put, get-put,
  length-put_present, length-put_absent, length-put_absent, text_eq_refl, ltb, leb, if◌then◌else◌,
  recent, recent-All,
}
use mathlib.Core.List.{append-nil, append_assoc}
use shield_wall.BruteForce.{
  Config, Entry, Guard, Request, ip_of, guards, is_failure, check, block_span, make_room,
  fail_account, fail_entry, record_response,
}
use shield_wall.BruteForce.Blocking.{check_after, fail_entry_first}

-- Failed sign-ins of one sender at the given times.
pub failures : Guard → Request → ℕ → List ℕ → Guard
failures g r status [] = g
failures g r status (t ∷ ts) = failures (record_response g r status none t) r status ts

-- A time in the window that ends at `last`.
abbrev pub Within : ℕ → ℕ → ℕ → Type 0
Within window last t = (t ≤ last) × (last < t + window)

-- A failed sign-in in full, where nothing has to be evicted.
record_response_failure :
    (g : Guard) (r : Request) (status now : ℕ)
    → guards g r ≡ true
    → is_failure g.config status ≡ true
    → length g.state < g.max_state_size
    → record_response g r status none now ≡ record g {
      state = put (ip_of g r) (fail_entry g.config now (get (ip_of g r) g.state)) g.state;
    }
unfolding record_response make_room fail_account
record_response_failure g r status now s f room = ground arith

-- One more failure below the limit only adds its time.
fail_entry_few :
    (c : Config) (last t : ℕ) (e : Entry) (rest : List ℕ)
    → All (Within c.window_ms last) (e.attempts ++ t ∷ rest)
    → length e.attempts + 1 < c.max_attempts
    → fail_entry c t (some e) ≡ record e { attempts = e.attempts ++ t ∷ [] }
unfolding fail_entry
fail_entry_few c last t e rest h few = rw kept (ground (arith, length-append e.attempts (t ∷ [])))
  where
    kept : recent c.window_ms t e.attempts ≡ e.attempts
    kept = recent-All c.window_ms t e.attempts (
        All-mono
          (λ x within.
            omega (
              arith,
              within,
              (All-append_right (Within c.window_ms last) e.attempts (t ∷ rest) h).0,
            ))
          e.attempts (All-append_left (Within c.window_ms last) e.attempts (t ∷ rest) h))

failures_cons :
    (g next : Guard) (r : Request) (status t : ℕ) (ts : List ℕ)
    → record_response g r status none t ≡ next
    → failures g r status (t ∷ ts) ≡ failures next r status ts
unfolding failures
failures_cons g next r status t ts e = ap (λ q. failures q r status ts) e

failures_nil : (g : Guard) (r : Request) (status : ℕ) → failures g r status [] ≡ g
unfolding failures
failures_nil g r status = refl

module _ (r : Request) (status last : ℕ) where
  -- While the limit is not reached, each failure adds its time to the entry and changes nothing else.
  failures_entry :
      (g : Guard) (ts : List ℕ) (e : Entry)
      → guards g r ≡ true
      → is_failure g.config status ≡ true
      → length g.state < g.max_state_size
      → get (ip_of g r) g.state ≡ some e
      → All (Within g.window_ms last) (e.attempts ++ ts)
      → length e.attempts + length ts < g.max_attempts
      → ((failures g r status ts).config ≡ g.config)
        × (length (failures g r status ts).state ≡ length g.state)
        × (get (ip_of g r) (failures g r status ts).state
            ≡ some (record e { attempts = e.attempts ++ ts }))
  failures_entry g [] e s f room found h few =
      rw (failures_nil g r status, append-nil) (refl, refl, found)
  failures_entry g (t ∷ ts) e s f room found h few =
      let e' : Entry = record e { attempts = e.attempts ++ t ∷ [] } in
      let ip = ip_of g r in
      let grown = length-put_present ip e' e g.state found in
      let regroup = append_assoc e.attempts (t ∷ []) ts in
      let count = length-append e.attempts (t ∷ []) in
      let once = fail_entry_few g.config last t e ts h (omega arith) in
      let next : Guard = record g { state = put ip e' g.state } in
      let (config, size, held) =
        failures_entry next ts e' s f (omega (arith, grown))
          (rw (get-put ip ip e' g.state, text_eq_refl ip) refl) (rw regroup h)
          (omega (arith, count)) in
      let stored : record_response g r status none t ≡ next =
        rw (record_response_failure g r status t s f room, found, once) in
      rw (failures_cons g next r status t ts stored)
        (config, size ∙ grown, held ∙ ap (λ xs. some (record e { attempts = xs })) regroup)

failures_snoc :
    (g : Guard) (r : Request) (status : ℕ) (ts : List ℕ) (t : ℕ)
    → failures g r status (ts ++ t ∷ []) ≡ record_response (failures g r status ts) r status none t
unfolding failures
failures_snoc g r status [] t = refl
failures_snoc g r status (u ∷ ts) t =
    failures_snoc (record_response g r status none u) r status ts t

-- The entry that the failures at `ts` leave behind.
abbrev entry_of : List ℕ → Option Entry
entry_of [] = none
entry_of (t ∷ ts) = some (record { attempts = t ∷ ts; block_until = 0; block_count = 0 })

failures_fresh :
    (g : Guard) (r : Request) (status last : ℕ) (ts : List ℕ)
    → guards g r ≡ true
    → is_failure g.config status ≡ true
    → suc (length g.state) < g.max_state_size
    → get (ip_of g r) g.state ≡ none
    → All (Within g.window_ms last) ts
    → length ts < g.max_attempts
    → ((failures g r status ts).config ≡ g.config)
      × (length (failures g r status ts).state < g.max_state_size)
      × (get (ip_of g r) (failures g r status ts).state ≡ entry_of ts)
failures_fresh g r status last [] s f room absent h few =
    rw (failures_nil g r status) (refl, omega arith, absent)
failures_fresh g r status last (t ∷ ts) s f room absent h few =
    let e : Entry = record { attempts = t ∷ []; block_until = 0; block_count = 0 } in
    let ip = ip_of g r in
    let grown = length-put_absent ip e g.state absent in
    let next : Guard = record g { state = put ip e g.state } in
    let first = fail_entry_first g.config t (omega arith) in
    let stored : record_response g r status none t ≡ next =
      rw (record_response_failure g r status t s f (omega arith), absent, first) in
    let (config, size, held) =
      failures_entry r status last next ts e s f (omega (arith, grown))
        (rw (get-put ip ip e g.state, text_eq_refl ip) refl) h (omega arith) in
    rw (failures_cons g next r status t ts stored) (config, omega (arith, size, grown), held)

-- When an address locks that has failed at `ts` and fails again at `t`.
block_until-fail_entry :
    (c : Config) (last : ℕ) (ts : List ℕ) (t : ℕ)
    → All (Within c.window_ms last) (ts ++ t ∷ [])
    → (fail_entry c t (entry_of ts)).block_until
      ≡ (if leb c.max_attempts (length ts + 1) then t + block_span c 1 else 0)
unfolding fail_entry recent
block_until-fail_entry c last [] t h = ground arith
block_until-fail_entry c last (u ∷ ts) t h =
    rw kept (ground (arith, length-append (u ∷ ts) (t ∷ [])))
  where
    P : ℕ → Type 0
    P = Within c.window_ms last

    kept : recent c.window_ms t (u ∷ ts) ≡ u ∷ ts
    kept = recent-All c.window_ms t (u ∷ ts) (
        All-mono (λ x within. omega (arith, within, (All-append_right P (u ∷ ts) (t ∷ []) h).0))
          (u ∷ ts) (All-append_left P (u ∷ ts) (t ∷ []) h))

-- Where the guard's table stays below its limit with one address more: failed sign-ins of an address that
-- it does not know, on a path that it guards and at times that lie in one window, no more than the limit,
-- lock it out exactly when their number reaches the limit: with fewer it is admitted at every later time,
-- and with the last one that the limit allows it is refused until the first block has passed.
pub failures-lock :
    (g : Guard) (r : Request) (status last : ℕ) (ts : List ℕ) (t later : ℕ)
    → guards g r ≡ true
    → is_failure g.config status ≡ true
    → suc (length g.state) < g.max_state_size
    → get (ip_of g r) g.state ≡ none
    → All (Within g.window_ms last) (ts ++ t ∷ [])
    → length ts + 1 ≤ g.max_attempts
    → (check (failures g r status (ts ++ t ∷ [])) r later).1.blocked
      ≡ (leb g.max_attempts (length ts + 1) && ltb later (t + block_span g.config 1))
unfolding failures
failures-lock g r status last ts t later s f room absent h few =
    let before = failures g r status ts in
    let P = Within g.window_ms last in
    let (config, size, held) =
      failures_fresh g r status last ts s f room absent (All-append_left P ts (t ∷ []) h)
        (omega arith) in
    let ruled : guards before r ≡ true = rw config s in
    let failed : is_failure before.config status ≡ true = rw config f in
    let (blocked, _) = check_after before r status none t later ruled failed (rw config size) in
    rw
      (
        failures_snoc g r status ts t,
        blocked,
        config,
        held,
        block_until-fail_entry g.config last ts t h,
      )
      (ground arith)
