-- ===== src/Recon/Taint.antt =====
-- src/core/recon-tracker.js: the taint of an address over a history of attempts, and the size of the table.
use shield_wall.Prelude.{
  ℕ, ◌+◌, ◌≤◌, ◌≡◌, refl, inl, inr, Option, none, some, List, [], ◌∷◌, ◌++◌, arith, length,
  length-append, length-drop, JsMap, get, delete, evict_oldest, get-put_self, length-delete-le,
  length-evict_oldest, length-put-le, length-put_present, length-sweep-le, IsMap, get-sweep, Text,
  ltb, leb, if◌then◌else◌, Option-cases, both_branches, AllValues, AllValues-get, AllValues-put,
  AllValues-delete, AllValues-evict_oldest,
}
use shield_wall.Recon.{
  Trace, ttl, max_entries, ensure, points, cap, observe, record_recon_attempt, get_reputation_taint,
  unless_old, cleanup,
}

-- The score that is stored, however old.
abbrev pub stored : Option Trace → ℕ
stored none = 0
stored (some t) = t.score

get-ensure :
    (ip : Text) (now : ℕ) (m : JsMap Trace)
    → (t : Trace) × (get ip (ensure ip now m) ≡ some t) × (t.score ≡ stored (get ip m))
unfolding ensure
get-ensure ip now m = elim (Option-cases (get ip m)) [
  | inl e ↦
      rw (e, ensure)
        (
          record { score = 0; last_seen = now; paths = [] },
          get-put_self ip (record { score = 0; last_seen = now; paths = [] })
              (if leb max_entries (length m) then evict_oldest m else m),
          refl,
        )
  | inr (t, e) ↦ rw (e, ensure) (t, e, refl)
]

get-record_recon_attempt :
    (ip path : Text) (status now : ℕ) (m : JsMap Trace)
    → (t : Trace) × (get ip (record_recon_attempt ip path status now m)
        ≡ some (observe path status now t))
      × (t.score ≡ stored (get ip m))
unfolding record_recon_attempt
get-record_recon_attempt ip path status now m =
    let (t, e, same) = get-ensure ip now m in
    (
      t,
      rw (e, record_recon_attempt) (get-put_self ip (observe path status now t) (ensure ip now m)),
      same,
    )

-- Right after an attempt, and for an hour from then on, the taint of its address is the score that
-- was stored for it (0 if there was none) and the points of the attempt.
pub taint-attempt :
    (ip path : Text) (status now later : ℕ) (m : JsMap Trace)
    → later ≤ now + ttl
    → (get_reputation_taint ip later (record_recon_attempt ip path status now m)).1
      ≡ stored (get ip m) + points path status
unfolding get_reputation_taint observe
taint-attempt ip path status now later m h =
    let (t, e, same) = get-record_recon_attempt ip path status now m in
    rw (e, get_reputation_taint) (ground (arith, same))

-- The bound on the table and on the paths of each entry.
abbrev pub IsBounded : JsMap Trace → Type 0
IsBounded m = (length m ≤ max_entries) × AllValues (λ t. length t.paths ≤ 10) m

abbrev FewPaths : JsMap Trace → Type 0
FewPaths m = AllValues (λ t. length t.paths ≤ 10) m

-- An entry for the address is there, and the table is as small as it was.
length-ensure-le :
    (ip : Text) (now : ℕ) (m : JsMap Trace)
    → length m ≤ max_entries
    → length (ensure ip now m) ≤ max_entries
unfolding ensure
length-ensure-le ip now m h = elim (Option-cases (get ip m)) [
  | inl e ↦
      rw (e, ensure)
        (ground (
          arith,
          length-put-le ip (record { score = 0; last_seen = now; paths = [] }) m,
          length-put-le ip (record { score = 0; last_seen = now; paths = [] }) (evict_oldest m),
          length-evict_oldest m,
        ))
  | inr (t, e) ↦ rw (e, ensure) h
]

ensure-FewPaths : (ip : Text) (now : ℕ) (m : JsMap Trace) → FewPaths m → FewPaths (ensure ip now m)
unfolding ensure
ensure-FewPaths ip now m h = elim (Option-cases (get ip m)) [
  | inl e ↦
      rw (e, ensure)
        (AllValues-put (λ t. length t.paths ≤ 10) ip
          (record { score = 0; last_seen = now; paths = [] })
          (if leb max_entries (length m) then evict_oldest m else m) (omega arith)
          (both_branches FewPaths (leb max_entries (length m))
            (AllValues-evict_oldest (λ t. length t.paths ≤ 10) m h) h))
  | inr (t, e) ↦ rw (e, ensure) h
]

length-observe-le :
    (path : Text) (status now : ℕ) (t : Trace)
    → length t.paths ≤ 10
    → length (observe path status now t).paths ≤ 10
unfolding observe cap
length-observe-le path status now t h =
    ground (arith, length-append t.paths (path ∷ []), length-drop 1 (t.paths ++ path ∷ []))

record_recon_attempt-IsBounded :
    (ip path : Text) (status now : ℕ) (m : JsMap Trace)
    → IsBounded m
    → IsBounded (record_recon_attempt ip path status now m)
unfolding record_recon_attempt
record_recon_attempt-IsBounded ip path status now m h =
    let (t, e, same) = get-ensure ip now m in
    let few = ensure-FewPaths ip now m h.1 in
    let small =
      length-observe-le path status now t
        (AllValues-get (λ t. length t.paths ≤ 10) ip t (ensure ip now m) few e) in
    rw (e, record_recon_attempt)
      (
        rw (length-put_present ip (observe path status now t) t (ensure ip now m) e)
            (length-ensure-le ip now m h.0),
        AllValues-put (λ t. length t.paths ≤ 10) ip (observe path status now t) (ensure ip now m)
            small few,
      )

get_reputation_taint-IsBounded :
    (ip : Text) (now : ℕ) (m : JsMap Trace)
    → IsBounded m
    → IsBounded (get_reputation_taint ip now m).0
unfolding get_reputation_taint
get_reputation_taint-IsBounded ip now m h = elim (Option-cases (get ip m)) [
  | inl e ↦ rw (e, get_reputation_taint) h
  | inr (t, e) ↦
      rw (e, get_reputation_taint)
        (both_branches {A = JsMap Trace × ℕ} (λ r. IsBounded r.0) (ltb (t.last_seen + ttl) now)
          {x = (delete ip m, 0)} {y = (m, t.score)}
          (
            omega (arith, length-delete-le ip m),
            AllValues-delete (λ t. length t.paths ≤ 10) ip m h.1,
          )
          h)
]

cleanup-FewPaths : (now : ℕ) (m : JsMap Trace) → FewPaths m → FewPaths (cleanup now m)
unfolding cleanup unless_old
cleanup-FewPaths now [] h = tt
cleanup-FewPaths now ((ip, t) ∷ m) h = ground (arith, cleanup-FewPaths now m h.1)

pub data Call : Type 0 where
  attempts : Text → Text → ℕ → Call
  asks : Text → Call
  cleans : Call

abbrev pub step : JsMap Trace → ℕ × Call → JsMap Trace
unfolding record_recon_attempt get_reputation_taint cleanup
step m (now, attempts ip path status) = record_recon_attempt ip path status now m
step m (now, asks ip) = (get_reputation_taint ip now m).0
step m (now, cleans) = cleanup now m

abbrev pub run : JsMap Trace → List (ℕ × Call) → JsMap Trace
run m [] = m
run m (c ∷ cs) = run (step m c) cs

step-IsBounded : (m : JsMap Trace) (c : ℕ × Call) → IsBounded m → IsBounded (step m c)
unfolding cleanup step record_recon_attempt
step-IsBounded m (now, attempts ip path status) h =
    record_recon_attempt-IsBounded ip path status now m h
step-IsBounded m (now, asks ip) h = get_reputation_taint-IsBounded ip now m h
step-IsBounded m (now, cleans) h =
    (omega (arith, length-sweep-le (unless_old now) m), cleanup-FewPaths now m h.1)

run_from-IsBounded : (m : JsMap Trace) (cs : List (ℕ × Call)) → IsBounded m → IsBounded (run m cs)
run_from-IsBounded m [] h = h
run_from-IsBounded m (c ∷ cs) h = run_from-IsBounded (step m c) cs (step-IsBounded m c h)

-- The timer, if the addresses of the table are distinct: it changes no taint at its own time or later.
pub taint-cleanup :
    (ip : Text) (now later : ℕ) (m : JsMap Trace)
    → IsMap m
    → now ≤ later
    → (get_reputation_taint ip later (cleanup now m)).1 ≡ (get_reputation_taint ip later m).1
unfolding get_reputation_taint cleanup unless_old
taint-cleanup ip now later m h le = elim (Option-cases (get ip m)) [
  | inl e ↦ rw (get-sweep (unless_old now) ip m h, e, get_reputation_taint) refl
  | inr (t, e) ↦ rw (get-sweep (unless_old now) ip m h, e, get_reputation_taint) (ground arith)
]

-- After any calls at any times, starting with an empty table, the table has at most 20000 entries,
-- and each remembers at most ten paths.
pub run-IsBounded : (cs : List (ℕ × Call)) → IsBounded (run [] cs)
run-IsBounded cs = run_from-IsBounded [] cs (omega arith, tt)
