-- ===== src/BruteForce/Blocking.antt =====
-- src/modules/brute-force.js: when an address is locked out, and for how long.
use shield_wall.Prelude.{
  ℕ, suc, ◌+◌, ◌-◌, ◌*◌, ◌≤◌, ◌<◌, min, ◌≡◌, refl, ◌∙◌, true, false, Option, none, some, [], ◌∷◌,
  arith, length, length-append, JsMap, get, put, evict_oldest, get-put, get-delete,
  get-evict_oldest_self, Text, text_eq_refl, ltb, recent,
}
use native.Mathlib.Nat.{pow-suc}
use shield_wall.BruteForce.{
  Config, Entry, Guard, Request, ip_of, guards, is_failure, check, check_entry, block_span,
  make_room, fail_account, fail_entry, record_response,
}

-- No block lasts longer than the configured maximum. With progressive backoff each block after the
-- first lasts twice as long as the one before it, cut off at the maximum; without it every block
-- lasts the configured time, cut off at the maximum.
pub block_span-doubles :
    (c : Config) (n : ℕ)
    → (block_span c (suc n) ≤ c.max_block_duration_ms)
      × (c.progressive_backoff ≡ true
          → block_span c (suc (suc n)) ≡ min (2 * block_span c (suc n)) c.max_block_duration_ms)
      × (c.progressive_backoff ≡ false
          → block_span c (suc n) ≡ min c.block_duration_ms c.max_block_duration_ms)
unfolding block_span
block_span-doubles c n =
    let p = pow-suc 2 n in
    let e : suc (suc n) - 1 ≡ suc n = omega arith in
    let f : suc n - 1 ≡ n = omega arith in
    (omega arith, λ h. rw (h, e, f, p) (omega arith), λ h. rw h (omega arith))

-- What the map holds for the sender after a failed sign-in, where no entry has to be evicted.
pub get-record_response :
    (g : Guard) (r : Request) (status : ℕ) (account : Option Text) (now : ℕ)
    → guards g r ≡ true
    → is_failure g.config status ≡ true
    → length g.state < g.max_state_size
    → get (ip_of g r) (record_response g r status account now).state
      ≡ some (fail_entry g.config now (get (ip_of g r) g.state))
unfolding record_response make_room
get-record_response g r status account now s f room =
    let e = fail_entry g.config now (get (ip_of g r) g.state) in
    ground (arith, get-put (ip_of g r) (ip_of g r) e g.state, text_eq_refl (ip_of g r))

-- A recorded response leaves the configuration alone.
pub config-record_response :
    (g : Guard) (r : Request) (status : ℕ) (account : Option Text) (now : ℕ)
    → (record_response g r status account now).config ≡ g.config
unfolding record_response
config-record_response g r status account now = ground arith

-- `check` where the map holds an entry for the sender.
check_found :
    (g : Guard) (r : Request) (now : ℕ) (e : Entry)
    → guards g r ≡ true
    → get (ip_of g r) g.state ≡ some e
    → ((check g r now).1.blocked ≡ ltb now e.block_until)
      × (now < e.block_until → (check g r now).1.retry_after ≡ e.block_until - now)
unfolding check check_entry
check_found g r now e s h = rw (s, h, check) (ground arith)

pub check_after :
    (g : Guard) (r : Request) (status : ℕ) (account : Option Text) (now later : ℕ)
    → guards g r ≡ true
    → is_failure g.config status ≡ true
    → length g.state < g.max_state_size
    → let e = fail_entry g.config now (get (ip_of g r) g.state) in
      let verdict = (check (record_response g r status account now) r later).1 in
      (verdict.blocked ≡ ltb later e.block_until)
      × (later < e.block_until → verdict.retry_after ≡ e.block_until - later)
check_after g r status account now later s f room =
    let after = record_response g r status account now in
    let c = config-record_response g r status account now in
    let same : guards after r ≡ true = rw c s in
    let held = get-record_response g r status account now s f room in
    let e = fail_entry g.config now (get (ip_of g r) g.state) in
    check_found after r later e same (rw c held)

-- A failed sign-in that brings the recent attempts of an address to the limit locks it out: every
-- later request to a guarded path is refused while less than the block's span has passed, with the
-- time that is left, and admitted afterwards. The map of addresses has room, so that nothing is
-- evicted.
pub record_response-locks :
    (g : Guard) (r : Request) (status : ℕ) (account : Option Text) (now later : ℕ) (e : Entry)
    → guards g r ≡ true
    → is_failure g.config status ≡ true
    → length g.state < g.max_state_size
    → get (ip_of g r) g.state ≡ some e
    → g.max_attempts ≤ length (recent g.window_ms now e.attempts) + 1
    → let verdict = (check (record_response g r status account now) r later).1 in
      let deadline = now + block_span g.config (suc e.block_count) in
      (later < deadline → (verdict.blocked ≡ true) × (verdict.retry_after ≡ deadline - later))
      × (deadline ≤ later → verdict.blocked ≡ false)
unfolding fail_entry
record_response-locks g r status account now later e s f room found many =
    let kept = recent g.window_ms now e.attempts in
    let after = check_after g r status account now later s f room in
    ground (arith, after, length-append kept (now ∷ []), found)

pub fail_entry_first :
    (c : Config) (t : ℕ)
    → 1 < c.max_attempts
    → fail_entry c t none ≡ record { attempts = t ∷ []; block_until = 0; block_count = 0 }
unfolding fail_entry recent
fail_entry_first c t h = ground arith

-- A sign-in that does not fail clears its sender: the address is admitted at every later time, until
-- it fails again.
pub record_response-clears :
    (g : Guard) (r : Request) (status : ℕ) (account : Option Text) (now later : ℕ)
    → is_failure g.config status ≡ false
    → guards g r ≡ true
    → (check (record_response g r status account now) r later).1.blocked ≡ false
unfolding record_response check
record_response-clears g r status account now later f s = ground (
  arith,
  get-delete (ip_of g r) (ip_of g r) (make_room g.max_state_size g.state),
  text_eq_refl (ip_of g r),
)

-- When the map of addresses is full, a failed sign-in of the address that was inserted first evicts
-- that address's own entry: its earlier attempts are forgotten, and it is admitted at every later
-- time, however many failures it had. The limit on attempts is above 1.
pub record_response-forgets_oldest :
    (g : Guard) (r : Request) (status : ℕ) (now later : ℕ) (e : Entry) (rest : JsMap Entry)
    → guards g r ≡ true
    → is_failure g.config status ≡ true
    → 1 < g.max_attempts
    → g.state ≡ (ip_of g r, e) ∷ rest
    → g.max_state_size ≤ length g.state
    → (check (record_response g r status none now) r later).1.blocked ≡ false
unfolding record_response make_room fail_account
record_response-forgets_oldest g r status now later e rest s f many first full =
    let ip = ip_of g r in
    let fresh : Entry = record { attempts = now ∷ []; block_until = 0; block_count = 0 } in
    let evicted : get ip (evict_oldest g.state) ≡ none =
      rw first (get-evict_oldest_self ip e rest) in
    let stored : record_response g r status none now
        ≡ record g { state = put ip fresh (evict_oldest g.state) } =
      ground (arith, evicted, fail_entry_first g.config now many) in
    let held : get ip (put ip fresh (evict_oldest g.state)) ≡ some fresh =
      rw (get-put ip ip fresh (evict_oldest g.state), text_eq_refl ip) refl in
    rw stored (
      (check_found (record g { state = put ip fresh (evict_oldest g.state) }) r later fresh s
        held).0
      ∙ later_ltb_zero)
  where
    later_ltb_zero : ltb later 0 ≡ false
    later_ltb_zero = ground arith
