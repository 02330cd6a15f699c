-- ===== src/BruteForce/Invariant.antt =====
-- src/modules/brute-force.js: histories of calls, and what holds of the two maps after any of them.
use shield_wall.Prelude.{
  ℕ, zero, suc, ◌≤◌, ◌<◌, Option, none, some, List, [], ◌∷◌, Text, JsMap, IsMap, get, put,
  evict_oldest, length, length-put-le, length-delete-le, length-evict_oldest, length-sweep-le,
  length-put_present, put-IsMap, delete-IsMap, evict_oldest-IsMap, sweep-IsMap, inl, inr, arith,
  Option-cases,
}
use shield_wall.BruteForce.{
  Options, Guard, Request, new_guard, ip_of, check, check_entry, check_account, make_room,
  fail_account, fail_entry, record_response, gc, gc_entry, gc_account, reset, destroy, or_default,
}

pub record IsValid (g : Guard) : Type 0 where
  pub bounded : length g.state ≤ g.max_state_size
  pub accounts_bounded : length g.account_state ≤ g.max_account_state_size
  pub distinct : IsMap g.state
  pub accounts_distinct : IsMap g.account_state
  pub room : 0 < g.max_state_size
  pub accounts_room : 0 < g.max_account_state_size

pub data Call : Type 0 where
  checks : Request → Call
  checks_account : Option Text → Call
  responds : Request → ℕ → Option Text → Call
  collects : Call
  resets : Text → Call
  destroys : Call

pub step : Guard → ℕ × Call → Guard
step g (now, checks r) = (check g r now).0
step g (now, checks_account account) = (check_account g account now).0
step g (now, responds r status account) = record_response g r status account now
step g (now, collects) = gc g now
step g (now, resets ip) = reset g ip
step g (now, destroys) = destroy g

pub run : Guard → List (ℕ × Call) → Guard
run g [] = g
run g (c ∷ cs) = run (step g c) cs

module _ {ℓ} {V : Type ℓ} (limit : ℕ) (m : JsMap V) (pos : 0 < limit) (h : length m ≤ limit) where
  -- Room is made before an insertion, so the insertion keeps the limit.
  put-make_room-le : (k : Text) (v : V) → length (put k v (make_room limit m)) ≤ limit
  unfolding make_room
  put-make_room-le k v =
      ground (arith, length-put-le k v m, length-put-le k v (evict_oldest m), length-evict_oldest m)

  length-make_room-le : length (make_room limit m) ≤ limit
  unfolding make_room
  length-make_room-le = ground (arith, length-evict_oldest m)

make_room-IsMap {ℓ} : {V : Type ℓ} (limit : ℕ) (m : JsMap V) → IsMap m → IsMap (make_room limit m)
unfolding make_room
make_room-IsMap limit m h = ground (arith, evict_oldest-IsMap m h)

check-IsValid : (g : Guard) (r : Request) (now : ℕ) → IsValid g → IsValid (check g r now).0
unfolding check check_entry
check-IsValid g r now v = elim (Option-cases (get (ip_of g r) g.state)) [
  | inl e ↦ rw (e, check) (ground arith)
  | inr (x, e) ↦
      rw (e, check)
        (ground (
          arith,
          length-put_present (ip_of g r) (record x { block_until = 0; attempts = [] }) x g.state e,
          put-IsMap (ip_of g r) (record x { block_until = 0; attempts = [] }) g.state v.distinct,
        ))
]

check_account-IsValid :
    (g : Guard) (account : Option Text) (now : ℕ)
    → IsValid g
    → IsValid (check_account g account now).0
unfolding check_account
check_account-IsValid g none now v = v
check_account-IsValid g (some account) now v = elim (Option-cases (get account g.account_state)) [
  | inl e ↦ rw (e, check_account) v
  | inr (x, e) ↦
      rw (e, check_account)
        (record {
          bounded = v.bounded;
          accounts_bounded =
              omega
                (arith, v.accounts_bounded, length-put_present {0} account _ x g.account_state e);
          distinct = v.distinct;
          accounts_distinct = put-IsMap account _ g.account_state v.accounts_distinct;
          room = v.room;
          accounts_room = v.accounts_room;
        })
]

fail_account-bounded :
    (g : Guard) (account : Option Text) (now : ℕ)
    → IsValid g
    → (length (fail_account g account now) ≤ g.max_account_state_size)
      × IsMap (fail_account g account now)
unfolding fail_account
fail_account-bounded g none now v = (v.accounts_bounded, v.accounts_distinct)
fail_account-bounded g (some account) now v =
    elim (Option-cases (get account (make_room g.max_account_state_size g.account_state))) [
      | inl e ↦ rw (e, fail_account) (fits _, put-IsMap account _ _ distinct)
      | inr (x, e) ↦ rw (e, fail_account) (fits _, put-IsMap account _ _ distinct)
    ]
  where
    distinct : IsMap (make_room g.max_account_state_size g.account_state)
    distinct = make_room-IsMap g.max_account_state_size g.account_state v.accounts_distinct

    fits :
        (x : List ℕ)
        → length (put account x (make_room g.max_account_state_size g.account_state))
          ≤ g.max_account_state_size
    fits x =
        put-make_room-le g.max_account_state_size g.account_state v.accounts_room v.accounts_bounded
          account x

record_response-IsValid :
    (g : Guard) (r : Request) (status : ℕ) (account : Option Text) (now : ℕ)
    → IsValid g
    → IsValid (record_response g r status account now)
unfolding record_response
record_response-IsValid g r status account now v =
    let room = make_room g.max_state_size g.state in
    let distinct = make_room-IsMap g.max_state_size g.state v.distinct in
    let e = fail_entry g.config now (get (ip_of g r) room) in
    ground (
      arith,
      fail_account-bounded g account now v,
      put-make_room-le {0} g.max_state_size g.state v.room v.bounded (ip_of g r) e,
      length-make_room-le {0} g.max_state_size g.state v.room v.bounded,
      length-delete-le {0} (ip_of g r) room,
      put-IsMap {0} (ip_of g r) e room distinct,
      delete-IsMap {0} (ip_of g r) room distinct,
    )

gc-IsValid : (g : Guard) (now : ℕ) → IsValid g → IsValid (gc g now)
unfolding gc
gc-IsValid g now v = record {
  bounded = omega (arith, v.bounded, length-sweep-le {0} (gc_entry g.window_ms now) g.state);
  accounts_bounded =
      omega (
        arith,
        v.accounts_bounded,
        length-sweep-le {0} (gc_account g.window_ms now) g.account_state,
      );
  distinct = sweep-IsMap _ g.state v.distinct;
  accounts_distinct = sweep-IsMap _ g.account_state v.accounts_distinct;
  room = v.room;
  accounts_room = v.accounts_room;
}

reset-IsValid : (g : Guard) (ip : Text) → IsValid g → IsValid (reset g ip)
unfolding reset
reset-IsValid g ip v = record {
  bounded = omega (arith, v.bounded, length-delete-le {0} ip g.state);
  accounts_bounded = v.accounts_bounded;
  distinct = delete-IsMap ip g.state v.distinct;
  accounts_distinct = v.accounts_distinct;
  room = v.room;
  accounts_room = v.accounts_room;
}

destroy-IsValid : (g : Guard) → IsValid g → IsValid (destroy g)
unfolding destroy
destroy-IsValid g v = ground arith

-- Every call keeps both maps within their limits, and their keys distinct.
pub step-IsValid : (g : Guard) (c : ℕ × Call) → IsValid g → IsValid (step g c)
unfolding step
step-IsValid g (now, checks r) v = check-IsValid g r now v
step-IsValid g (now, checks_account account) v = check_account-IsValid g account now v
step-IsValid g (now, responds r status account) v = record_response-IsValid g r status account now v
step-IsValid g (now, collects) v = gc-IsValid g now v
step-IsValid g (now, resets ip) v = reset-IsValid g ip v
step-IsValid g (now, destroys) v = destroy-IsValid g v

run-IsValid : (g : Guard) (cs : List (ℕ × Call)) → IsValid g → IsValid (run g cs)
unfolding run
run-IsValid g [] v = v
run-IsValid g (c ∷ cs) v = run-IsValid (step g c) cs (step-IsValid g c v)

or_default-pos : (o : Option ℕ) (d : ℕ) → 0 < d → 0 < or_default o d
unfolding or_default
or_default-pos none d h = h
or_default-pos (some zero) d h = h
or_default-pos (some (suc n)) d h = omega arith

new_guard-IsValid : (o : Options) → IsValid (new_guard o)
unfolding new_guard
new_guard-IsValid o = record {
  bounded = omega arith;
  accounts_bounded = omega arith;
  distinct = tt;
  accounts_distinct = tt;
  room = or_default-pos o.max_state_size 50_000 (omega arith);
  accounts_room = or_default-pos o.max_account_state_size 100_000 (omega arith);
}

-- After any history of calls on a guard built from any options, the map of addresses and the map of
-- accounts hold no more entries than the limits of the configuration, no key twice, and both limits
-- are positive.
pub run-new_guard-IsValid : (o : Options) (cs : List (ℕ × Call)) → IsValid (run (new_guard o) cs)
run-new_guard-IsValid o cs = run-IsValid _ cs (new_guard-IsValid o)
