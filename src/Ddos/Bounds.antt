-- ===== src/Ddos/Bounds.antt =====
-- src/modules/ddos-protection.js: the size of the two maps, and when a request is reported.
use shield_wall.Prelude.{
  ℕ, ◌≤◌, ◌≡◌, refl, sym, subst, ◌∙◌, inl, inr, ◌&&◌, not, List, [], ◌∷◌, ◌++◌, arith, length,
  JsMap, get, put, evict_oldest, get-put_self, length-evict_oldest-le, length-evict_oldest,
  length-put-le, length-put_present, length-sweep-le, Text, Bool-cases, Option-cases, both_branches,
  recent,
}
use shield_wall.Address.{is_valid_ip}
use shield_wall.Ddos.{
  Ddos, Slow, Request, Indicator, max_tracker_size, make_room, touch, tracked, bad_header,
  check_slowloris, requests_of, check_connection_flood, conclude, inspect, has_ip, check, clean,
  add_to_whitelist, remove_from_whitelist, recent_or_gone, active_or_gone,
}

-- Neither map has more than 10000 keys.
pub record IsCapped (s : Ddos) : Type 0 where
  pub connections : length s.connections ≤ max_tracker_size
  pub slowloris : length s.slowloris ≤ max_tracker_size

module _ {ℓ} {V : Type ℓ} (ip : Text) (v : V) (m : JsMap V) (h : length m ≤ max_tracker_size) where
  length-make_room-le : length (make_room ip m) ≤ max_tracker_size
  unfolding make_room
  length-make_room-le = elim (Option-cases (get ip m)) [
    | inl e ↦ rw (e, make_room) (ground (arith, length-evict_oldest-le m))
    | inr (w, e) ↦ rw (e, make_room) h
  ]

  length-put-make_room-le : length (put ip v (make_room ip m)) ≤ max_tracker_size
  unfolding make_room
  length-put-make_room-le = elim (Option-cases (get ip m)) [
    | inl e ↦
        rw (e, make_room)
          (ground (
            arith,
            length-put-le ip v m,
            length-put-le ip v (evict_oldest m),
            length-evict_oldest m,
          ))
    | inr (w, e) ↦ rw (e, make_room) (rw (length-put_present ip v w m e) h)
  ]

length-touch : (ip : Text) (now : ℕ) (m : JsMap Slow) → length (touch ip now m) ≡ length m
unfolding touch
length-touch ip now m = elim (Option-cases (get ip m)) [
  | inl e ↦ rw (e, touch) refl
  | inr (t, e) ↦ rw (e, touch) (length-put_present ip (record t { last_activity = now }) t m e)
]

length-put-touch :
    (ip : Text) (now : ℕ) (v : Slow) (m : JsMap Slow)
    → length (put ip v (touch ip now m)) ≡ length (put ip v m)
unfolding touch
length-put-touch ip now v m = elim (Option-cases (get ip m)) [
  | inl e ↦ rw (e, touch) refl
  | inr (t, e) ↦
      let u : Slow = record t { last_activity = now } in
      rw (e, touch)
        (length-put_present ip v u (put ip u m) (get-put_self ip u m)
          ∙ (length-put_present ip u t m e ∙ sym (length-put_present ip v t m e)))
]

check_slowloris-IsCapped :
    (r : Request) (now : ℕ) (s : Ddos) → IsCapped s → IsCapped (check_slowloris r now s).0
unfolding check_slowloris
check_slowloris-IsCapped r now s h =
    let room = make_room r.ip s.slowloris in
    let entry = tracked r.ip now s.slowloris in
    let touched-le =
      subst (λ n. n ≤ max_tracker_size) (sym (length-touch r.ip now room))
        (length-make_room-le r.ip entry s.slowloris h.slowloris) in
    let stored-le =
      subst (λ n. n ≤ max_tracker_size) (sym (length-put-touch r.ip now entry room))
        (length-put-make_room-le r.ip entry s.slowloris h.slowloris) in
    elim (Bool-cases (is_valid_ip r.ip)) [
      | inr bad ↦ rw (bad, check_slowloris) h
      | inl valid ↦ elim (Option-cases (bad_header r.headers)) [
        | inl fine ↦
            rw (valid, fine, check_slowloris)
              (record { connections = h.connections; slowloris = stored-le })
        | inr (i, wrong) ↦
            rw (valid, wrong, check_slowloris)
              (record { connections = h.connections; slowloris = touched-le })
      ]
    ]

check_connection_flood-IsCapped :
    (ip : Text) (now : ℕ) (s : Ddos) → IsCapped s → IsCapped (check_connection_flood ip now s).0
unfolding check_connection_flood
check_connection_flood-IsCapped ip now s h = record {
  connections =
      length-put-make_room-le ip
        (recent 60_000 now (requests_of (get ip s.connections)) ++ now ∷ []) s.connections
        h.connections;
  slowloris = h.slowloris;
}

conclude-IsCapped : (is : List Indicator) (s : Ddos) → IsCapped s → IsCapped (conclude is s).0
unfolding conclude
conclude-IsCapped [] s h = h
conclude-IsCapped (i ∷ is) s h = record { connections = h.connections; slowloris = h.slowloris }

inspect-IsCapped : (r : Request) (now : ℕ) (s : Ddos) → IsCapped s → IsCapped (inspect r now s).0
unfolding inspect
inspect-IsCapped r now s h =
    let slow = check_slowloris r now s in
    let flood = check_connection_flood r.ip now slow.0 in
    conclude-IsCapped (slow.1 ++ flood.1) flood.0
      (check_connection_flood-IsCapped r.ip now slow.0 (check_slowloris-IsCapped r now s h))

check-IsCapped : (r : Request) (now : ℕ) (s : Ddos) → IsCapped s → IsCapped (check r now s).0
unfolding check
check-IsCapped r now s h = elim (Bool-cases (is_valid_ip r.ip)) [
  | inr bad ↦ rw (bad, check) h
  | inl valid ↦ elim (Bool-cases (has_ip r.ip s.whitelist)) [
    | inl trusted ↦ rw (valid, trusted, check) h
    | inr other ↦ rw (valid, other, check) (inspect-IsCapped r now s h)
  ]
]

pub data Call : Type 0 where
  checks : Request → ℕ → Call
  cleans : ℕ → Call
  trusts : Text → Call
  distrusts : Text → Call

pub step : Ddos → Call → Ddos
step s (checks r now) = (check r now s).0
step s (cleans now) = clean now s
step s (trusts ip) = add_to_whitelist ip s
step s (distrusts ip) = remove_from_whitelist ip s

pub run : Ddos → List Call → Ddos
run s [] = s
run s (c ∷ cs) = run (step s c) cs

step-keeps : (s : Ddos) (c : Call) → IsCapped s → IsCapped (step s c)
unfolding step clean add_to_whitelist remove_from_whitelist
step-keeps s (checks r now) h = check-IsCapped r now s h
step-keeps s (cleans now) h = record {
  connections = omega (
    arith,
    h.connections,
    length-sweep-le (λ ts. recent_or_gone (recent 60_000 now ts)) s.connections,
  );
  slowloris = omega (arith, h.slowloris, length-sweep-le (active_or_gone now) s.slowloris);
}
step-keeps s (trusts ip) h =
    both_branches IsCapped (is_valid_ip ip && not (has_ip ip s.whitelist))
      (record { connections = h.connections; slowloris = h.slowloris }) h
step-keeps s (distrusts ip) h = record { connections = h.connections; slowloris = h.slowloris }

-- After any calls, if both maps start with at most 10000 keys, they have at most 10000 keys.
pub run-IsCapped : (s : Ddos) (cs : List Call) → IsCapped s → IsCapped (run s cs)
unfolding run
run-IsCapped s [] h = h
run-IsCapped s (c ∷ cs) h = run-IsCapped (step s c) cs (step-keeps s c h)
