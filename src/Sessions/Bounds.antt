-- ===== src/Sessions/Bounds.antt =====
-- src/modules/session-anomaly.js: what bounds the tables of one session.
use shield_wall.Prelude.{
  ℕ, suc, ◌-◌, ◌≤◌, inl, inr, Option, none, some, List, [], ◌∷◌, ◌++◌, arith, length, length-append,
  length-drop, JsMap, get, put, delete, delete_all, sweep, length-put-le, length-sweep-le, Text,
  ltb, if◌then◌else◌, Option-cases, both_branches, AllValues, AllValues-get, AllValues-put,
  AllValues-delete,
}
use shield_wall.Sessions.{Config, Session, Visit, Store, Indicator}
use shield_wall.Sessions.Detectors.{
  add_once, add_capped, append_visit, enter_session_ip, lateral, values_of, is_identifier,
}
use shield_wall.Sessions.Patterns.{normalize_ip}
use shield_wall.Sessions.Check.{
  World, Request, id_of, new_session, session_or_new, or_nothing, enter_session, lineage, check,
  cleanup, expired, slash_path,
}

length-add_once-le : (x : Text) (xs : List Text) → length (add_once x xs) ≤ suc (length xs)
unfolding add_once
length-add_once-le x xs = ground (arith, length-append xs (x ∷ []))

length-add_capped-le :
    (cap : ℕ) (x : Text) (xs : List Text) → length xs ≤ cap → length (add_capped cap x xs) ≤ cap
unfolding add_capped
length-add_capped-le cap x xs h = ground (arith, h, length-add_once-le x xs)

length-append_visit-le :
    (c : Config) (v : Visit) (vs : List Visit) → length (append_visit c v vs) ≤ c.history_size
unfolding append_visit
length-append_visit-le c v vs =
    let all_of = vs ++ v ∷ [] in omega (arith, length-drop (length all_of - c.history_size) all_of)

length-enter_session_ip-le :
    (c : Config) (ip : Text) (now : ℕ) (ips : JsMap ℕ)
    → length ips ≤ c.session_ip_flood_cap
    → length (enter_session_ip c ip now ips) ≤ c.session_ip_flood_cap
unfolding enter_session_ip
length-enter_session_ip-le c ip now ips h =
    let keeps : ℕ → Option ℕ =
      λ ts. if ltb ts (now - c.ip_session_window_ms) then none else some ts in
    ground (arith, h, length-sweep-le keeps ips, length-put-le ip now (sweep keeps ips))

-- The sets of identifiers of a session.
abbrev pub IsCapped : Config → JsMap (List Text) → Type 0
IsCapped c m = AllValues (λ xs. length xs ≤ c.lateral_movement_cap) m

-- Each session has at most `session_ip_flood_cap` addresses, `history_size` visits and, for a parameter,
-- `lateral_movement_cap` identifiers.
pub record IsTame (c : Config) (t : Store) : Type 0 where
  pub addresses : AllValues (λ s. length s.ips ≤ c.session_ip_flood_cap) t.sessions
  pub visits : AllValues (λ vs. length vs ≤ c.history_size) t.graphs
  pub identifiers : AllValues (IsCapped c) t.resources

length-values_of-le :
    (c : Config) (key : Text) (m : JsMap (List Text))
    → IsCapped c m
    → length (values_of (get key m)) ≤ c.lateral_movement_cap
unfolding values_of
length-values_of-le c key m h = elim (Option-cases (get key m)) [
  | inl e ↦ rw (e, values_of) (omega arith)
  | inr (xs, e) ↦
      rw (e, values_of) (AllValues-get (λ ys. length ys ≤ c.lateral_movement_cap) key xs m h e)
]

lateral-IsCapped :
    (c : Config) (m : JsMap (List Text)) (ps : List (Text × Text))
    → IsCapped c m
    → IsCapped c (lateral c m ps).0
unfolding lateral
lateral-IsCapped c m [] h = h
lateral-IsCapped c m ((key, val) ∷ ps) h =
    let seen = add_capped c.lateral_movement_cap val (values_of (get key m)) in
    both_branches {A = JsMap (List Text) × List Indicator} (λ x. IsCapped c x.0)
      (is_identifier key val)
      (lateral-IsCapped c (put key seen m) ps (
        AllValues-put P key seen m
          (length-add_capped-le c.lateral_movement_cap val (values_of (get key m))
            (length-values_of-le c key m h))
          h))
      (lateral-IsCapped c m ps h)
  where
    P : List Text → Type 0
    P xs = length xs ≤ c.lateral_movement_cap

length-ips-le :
    (c : Config) (r : Request) (now : ℕ) (id : Text) (m : JsMap Session)
    → AllValues (λ s. length s.ips ≤ c.session_ip_flood_cap) m
    → length (session_or_new c r now (get id m)).ips ≤ c.session_ip_flood_cap
unfolding session_or_new new_session
length-ips-le c r now id m h = elim (Option-cases (get id m)) [
  | inl e ↦ rw (e, session_or_new) (omega arith)
  | inr (s, e) ↦
      rw (e, session_or_new) (AllValues-get (λ x. length x.ips ≤ c.session_ip_flood_cap) id s m h e)
]

or_nothing-IsCapped :
    (c : Config) (id : Text) (m : JsMap (JsMap (List Text)))
    → AllValues (IsCapped c) m
    → IsCapped c (or_nothing (get id m))
unfolding or_nothing
or_nothing-IsCapped c id m h = elim (Option-cases (get id m)) [
  | inl e ↦ rw (e, or_nothing) tt
  | inr (x, e) ↦ rw (e, or_nothing) (AllValues-get (IsCapped c) id x m h e)
]

check-IsTame :
    (w : World) (c : Config) (r : Request) (now : ℕ) (t : Store)
    → IsTame c t
    → IsTame c (check w c r now t).0
unfolding check enter_session lineage
check-IsTame w c r now t h =
    let id = id_of r in
    let known = session_or_new c r now (get id t.sessions) in
    let accessed = or_nothing (get id t.resources) in
    record {
      addresses =
          AllValues-put (λ s. length s.ips ≤ c.session_ip_flood_cap) id
            (enter_session w c r now known).0 t.sessions
            (length-enter_session_ip-le c (normalize_ip r.ip) now known.ips
              (length-ips-le c r now id t.sessions h.addresses))
            h.addresses;
      visits =
          AllValues-put (λ vs. length vs ≤ c.history_size) id
            (lineage c r.path now (or_nothing (get id t.graphs))).0 t.graphs
            (length-append_visit-le c (record { path = slash_path r.path; ts = now })
              (or_nothing (get id t.graphs)))
            h.visits;
      identifiers =
          AllValues-put (IsCapped c) id (lateral c accessed r.params).0 t.resources
            (lateral-IsCapped c accessed r.params
              (or_nothing-IsCapped c id t.resources h.identifiers))
            h.identifiers;
    }

delete_all-AllValues {ℓ} :
    {V : Type ℓ} (P : V → Type 0) (ks : List Text) (m : JsMap V)
    → AllValues P m
    → AllValues P (delete_all ks m)
unfolding delete_all
delete_all-AllValues P [] m h = h
delete_all-AllValues P (k ∷ ks) m h =
    delete_all-AllValues P ks (delete k m) (AllValues-delete P k m h)

cleanup-IsTame : (c : Config) (now : ℕ) (t : Store) → IsTame c t → IsTame c (cleanup c now t)
unfolding cleanup
cleanup-IsTame c now t h =
    let gone = expired c now t.sessions in
    record {
      addresses =
          delete_all-AllValues (λ s. length s.ips ≤ c.session_ip_flood_cap) gone t.sessions
            h.addresses;
      visits = delete_all-AllValues (λ vs. length vs ≤ c.history_size) gone t.graphs h.visits;
      identifiers = delete_all-AllValues (IsCapped c) gone t.resources h.identifiers;
    }

pub data Call : Type 0 where
  checks : Request → ℕ → Call
  cleans : ℕ → Call

pub after : World → Config → Store → List Call → Store
after w c t [] = t
after w c t (checks r now ∷ cs) = after w c (check w c r now t).0 cs
after w c t (cleans now ∷ cs) = after w c (cleanup c now t) cs

abbrev pub empty_store : Store
empty_store = record { sessions = []; graphs = []; resources = []; ip_sessions = [] }

after-keeps :
    (w : World) (c : Config) (t : Store) (cs : List Call) → IsTame c t → IsTame c (after w c t cs)
unfolding after
after-keeps w c t [] h = h
after-keeps w c t (checks r now ∷ cs) h =
    after-keeps w c (check w c r now t).0 cs (check-IsTame w c r now t h)
after-keeps w c t (cleans now ∷ cs) h =
    after-keeps w c (cleanup c now t) cs (cleanup-IsTame c now t h)

-- After any requests and cleanings from empty tables on, each session has at most
-- `session_ip_flood_cap` addresses, its history at most `history_size` visits, and each of its
-- parameters at most `lateral_movement_cap` identifiers.
pub after-IsTame : (w : World) (c : Config) (cs : List Call) → IsTame c (after w c empty_store cs)
after-IsTame w c cs =
    after-keeps w c empty_store cs (record { addresses = tt; visits = tt; identifiers = tt })
