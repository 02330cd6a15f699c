-- ===== src/Sequence/Histories.antt =====
-- src/modules/sequence-anomaly.js: the history of a parameter among the accesses of all clients and the
-- cleanups.
use shield_wall.Prelude.{
  ℕ, ◌+◌, ◌≤◌, ◌≡◌, refl, sym, ap, subst, ◌∙◌, Bool, true, false, Option, none, some, List, [], ◌∷◌,
  ◌++◌, arith, length, JsMap, IsMap, get, get-put, put-IsMap, sweep, get-sweep, sweep-IsMap,
  length-sweep-le, cap_oldest_room, Text, text_eq, text_eq_iff, ltb, if◌then◌else◌,
}
use shield_wall.Sequence.{Ring, empty_ring, ring_push}
use shield_wall.Sequence.History.{push_each}
use shield_wall.Sequence.Params.{ParamClass}
use shield_wall.Sequence.Detectors.{Seen, Entry, Config}
use shield_wall.Sequence.Check.{
  Store, map_key, track_val, entry_or_new, enter, track, unless_old, cleanup,
}

-- One parameter of one request, with its class.
pub record Access : Type 0 where
  pub ip : Text
  pub key : Text
  pub class : ParamClass
  pub val : Text
  pub time : ℕ

abbrev pub place : Access → Text
place a = map_key a.ip a.key a.class

abbrev pub seen : Access → Seen
seen a = record { val = track_val a.val; ts = a.time }

-- A parameter is tracked, or `_cleanup` runs: by the timer, or where `check` ordered it.
pub data Event : Type 0 where
  accesses : Access → Event
  cleans : ℕ → Event

abbrev pub step : Config → Event → Store → Store
step c (accesses a) s = (track c a.ip a.time a.key a.val a.class s).0
step c (cleans now) s = cleanup c now s

abbrev pub after : Config → List Event → Store → Store
after c [] s = s
after c (e ∷ es) s = after c es (step c e s)

-- No cleanup finds more keys in the table than its limit.
abbrev pub IsRoomy : Config → List Event → Store → Type 0
IsRoomy c [] s = Unit
IsRoomy c (accesses a ∷ es) s = IsRoomy c es (step c (accesses a) s)
IsRoomy c (cleans now ∷ es) s =
    (length s.histories ≤ c.max_param_keys) × IsRoomy c es (step c (cleans now) s)

-- What is known of a key of the table: the time of the last access and all accesses, if there are any.
abbrev pub Past : Type 0
Past = Option (ℕ × List Seen)

abbrev pub seen_in : Past → List Seen
seen_in none = []
seen_in (some (t, xs)) = xs

-- A cleanup forgets a key that was not accessed for longer than the histories live.
abbrev pub forget : ℕ → ℕ → Past → Past
forget ttl now none = none
forget ttl now (some (t, xs)) = if ltb (t + ttl) now then none else some (t, xs)

abbrev pub remember : Config → Text → Event → Past → Past
remember c k (accesses a) p =
    if text_eq (place a) k then some (a.time, seen_in p ++ seen a ∷ []) else p
remember c k (cleans now) p = forget c.param_history_ttl_ms now p

abbrev pub past : Config → Text → List Event → Past → Past
past c k [] p = p
past c k (e ∷ es) p = past c k es (remember c k e p)

-- The accesses under one key since the last cleanup that forgot it.
abbrev pub seen_at : Config → Text → List Event → List Seen
seen_at c k es = seen_in (past c k es none)

abbrev pub ring_of : Option Entry → Ring Seen
ring_of none = empty_ring
ring_of (some e) = e.ring

-- The entry of the table holds what is known.
abbrev pub Keeps : ℕ → Option Entry → Past → Type 0
Keeps n none none = Unit
Keeps n none (some p) = ⊥
Keeps n (some e) none = ⊥
Keeps n (some e) (some (t, xs)) = (e.last_activity ≡ t) × (e.ring ≡ push_each n empty_ring xs)

pub ring_of-Keeps :
    (n : ℕ) (o : Option Entry) (p : Past)
    → Keeps n o p
    → ring_of o ≡ push_each n empty_ring (seen_in p)
ring_of-Keeps n none none h = refl
ring_of-Keeps n none (some p) h = absurd h
ring_of-Keeps n (some e) none h = absurd h
ring_of-Keeps n (some e) (some (t, xs)) h = h.1

push_each-append {ℓ} :
    {A : Type ℓ} (n : ℕ) (r : Ring A) (xs : List A) (x : A)
    → push_each n r (xs ++ x ∷ []) ≡ ring_push n x (push_each n r xs)
push_each-append n r [] x = refl
push_each-append n r (y ∷ xs) x = push_each-append n (ring_push n y r) xs x

-- The entry of an access, with the ring before it.
entered :
    (c : Config) (a : Access) (o : Option Entry)
    → ((enter c a.class (track_val a.val) a.time o).last_activity ≡ a.time)
      × ((enter c a.class (track_val a.val) a.time o).ring
          ≡ ring_push c.history_max_len (seen a) (ring_of o))
unfolding enter entry_or_new
entered c a none = (refl, refl)
entered c a (some e) = (refl, refl)

pub enter-Keeps :
    (c : Config) (a : Access) (o : Option Entry) (p : Past)
    → Keeps c.history_max_len o p
    → Keeps c.history_max_len
        (some (enter c a.class (track_val a.val) a.time o))
        (some (a.time, seen_in p ++ seen a ∷ []))
enter-Keeps c a o p h =
    let (time, ring) = entered c a o in
    let n = c.history_max_len in
    (
      time,
      ring
          ∙ (ap (ring_push n (seen a)) (ring_of-Keeps n o p h)
              ∙ sym (push_each-append n empty_ring (seen_in p) (seen a))),
    )

module _ (c : Config) (k : Text) where
  Follows : Store → Past → Type 0
  Follows s p = IsMap s.histories × Keeps c.history_max_len (get k s.histories) p

  track-Keeps :
      (a : Access) (m : JsMap Entry) (p : Past) (b : Bool)
      → text_eq (place a) k ≡ b
      → Keeps c.history_max_len (get k m) p
      → Keeps c.history_max_len
          (if b then some (enter c a.class (track_val a.val) a.time (get (place a) m)) else get k m)
          (if b then some (a.time, seen_in p ++ seen a ∷ []) else p)
  track-Keeps a m p true e h =
      enter-Keeps c a (get (place a) m) p
        (subst (λ j. Keeps c.history_max_len (get j m) p) (sym ((text_eq_iff (place a) k).0 e)) h)
  track-Keeps a m p false e h = h

  unless_old-Keeps :
      (now : ℕ) (o : Option Entry) (p : Past)
      → Keeps c.history_max_len o p
      → Keeps c.history_max_len
          (elim o [ none ↦ none | some v ↦ unless_old c.param_history_ttl_ms now v ])
          (forget c.param_history_ttl_ms now p)
  unfolding unless_old
  unless_old-Keeps now none none h = tt
  unless_old-Keeps now none (some p) h = absurd h
  unless_old-Keeps now (some e) none h = absurd h
  unless_old-Keeps now (some e) (some (t, xs)) h = ground (arith, h)

  track-Follows :
      (a : Access) (s : Store) (p : Past)
      → Follows s p
      → Follows (step c (accesses a) s) (remember c k (accesses a) p)
  unfolding track Follows
  track-Follows a s p h =
      let e = enter c a.class (track_val a.val) a.time (get (place a) s.histories) in
      (
        put-IsMap (place a) e s.histories h.0,
        subst (λ o. Keeps c.history_max_len o (remember c k (accesses a) p))
            (sym (get-put (place a) k e s.histories))
            (track-Keeps a s.histories p (text_eq (place a) k) refl h.1),
      )

  cleanup-Follows :
      (now : ℕ) (s : Store) (p : Past)
      → length s.histories ≤ c.max_param_keys
      → Follows s p
      → Follows (cleanup c now s) (forget c.param_history_ttl_ms now p)
  unfolding cleanup Follows
  cleanup-Follows now s p room h =
      let f = unless_old c.param_history_ttl_ms now in
      let swept = sweep f s.histories in
      subst (λ m. IsMap m × Keeps c.history_max_len (get k m) (forget c.param_history_ttl_ms now p))
        (sym (
          cap_oldest_room (λ (e : Entry). e.last_activity) c.max_param_keys swept
            (omega (arith, room, length-sweep-le f s.histories))))
        (
          sweep-IsMap f s.histories h.0,
          subst (λ o. Keeps c.history_max_len o (forget c.param_history_ttl_ms now p))
              (sym (get-sweep f k s.histories h.0))
              (unless_old-Keeps now (get k s.histories) p h.1),
        )

  after-Follows :
      (es : List Event) (s : Store) (p : Past)
      → IsRoomy c es s
      → Follows s p
      → Follows (after c es s) (past c k es p)
  after-Follows [] s p r h = h
  after-Follows (accesses a ∷ es) s p r h =
      after-Follows es (step c (accesses a) s) (remember c k (accesses a) p) r
        (track-Follows a s p h)
  after-Follows (cleans now ∷ es) s p r h =
      after-Follows es (cleanup c now s) (forget c.param_history_ttl_ms now p) r.1
        (cleanup-Follows now s p r.0 h)

  pub after-Keeps :
      (es : List Event) (s : Store)
      → s.histories ≡ []
      → IsRoomy c es s
      → Keeps c.history_max_len (get k (after c es s).histories) (past c k es none)
  unfolding Follows get
  after-Keeps es s none_yet r =
      (after-Follows es s none r
        (subst (λ m. IsMap m × Keeps c.history_max_len (get k m) none) (sym none_yet) (tt, tt))).1
