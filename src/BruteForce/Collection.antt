-- ===== src/BruteForce/Collection.antt =====
-- src/modules/brute-force.js: the periodic collection does not change what callers see.
use shield_wall.Prelude.{
  ℕ, ◌+◌, ◌≤◌, ◌<◌, ◌≡◌, refl, sym, ◌∙◌, inl, inr, true, Option, none, some, List, [], ◌∷◌, arith,
  length, JsMap, get, IsMap, get-sweep, Text, text_eq_iff, leb, if◌then◌else◌, Option-cases, recent,
  length-recent-le, recent-recent,
}
use shield_wall.BruteForce.{
  Config, Entry, Guard, Request, Verdict, pass, ip_of, guards, check, check_entry, check_account,
  gc, gc_entry, gc_account, is_blocked_at, get_blocked_ips, blocked_entries,
}

-- A collection never changes a later answer on an address: a request at a later time is refused
-- after it exactly when it would have been refused without it, with the same time to wait.
pub check-gc :
    (g : Guard) (r : Request) (now later : ℕ)
    → IsMap g.state
    → now ≤ later
    → ((check (gc g now) r later).1.blocked ≡ (check g r later).1.blocked)
      × ((check (gc g now) r later).1.retry_after ≡ (check g r later).1.retry_after)
unfolding check gc gc_entry check_entry
check-gc g r now later distinct h =
    ground (arith, get-sweep (gc_entry g.window_ms now) (ip_of g r) g.state distinct)

-- The answer on an account, from the failures that the map holds for it.
answer_account : Config → ℕ → Option (List ℕ) → Verdict
answer_account c now none = pass
answer_account c now (some attempts) =
    if leb c.account_max_attempts (length (recent c.window_ms now attempts))
    then record {
      blocked = true;
      retry_after = c.block_duration_ms;
      attempts = length (recent c.window_ms now attempts);
    }
    else pass

check_account-answer :
    (g : Guard) (account : Text) (now : ℕ)
    → (check_account g (some account) now).1
      ≡ answer_account g.config now (get account g.account_state)
unfolding check_account answer_account
check_account-answer g account now = elim (Option-cases (get account g.account_state)) [
  | inl e ↦ rw (e, check_account, answer_account) refl
  | inr (x, e) ↦ rw (e, check_account, answer_account) refl
]

answer_account-swept :
    (c : Config) (now later : ℕ) (attempts : List ℕ)
    → 0 < c.account_max_attempts
    → now ≤ later
    → answer_account c later (gc_account c.window_ms now attempts)
      ≡ answer_account c later (some attempts)
unfolding answer_account gc_account
answer_account-swept c now later attempts pos h = ground (
  arith,
  recent-recent c.window_ms attempts h,
  length-recent-le c.window_ms later (recent c.window_ms now attempts),
)

-- A collection never changes a later answer on an account: it is locked, with the same number of
-- recent failures, exactly when it would have been without the collection. The limit is positive.
pub check_account-gc :
    (g : Guard) (account : Option Text) (now later : ℕ)
    → IsMap g.account_state
    → 0 < g.account_max_attempts
    → now ≤ later
    → (check_account (gc g now) account later).1 ≡ (check_account g account later).1
unfolding gc check_account
check_account-gc g none now later distinct pos h = refl
check_account-gc g (some account) now later distinct pos h =
    check_account-answer (gc g now) account later
    ∙ swept (get account g.account_state) refl
    ∙ sym (check_account-answer g account later)
  where
    swept :
        (found : Option (List ℕ))
        → get account g.account_state ≡ found
        → answer_account g.config later (get account (gc g now).account_state)
          ≡ answer_account g.config later (get account g.account_state)
    swept none e =
        rw (get-sweep (gc_account g.window_ms now) account g.account_state distinct, e) refl
    swept (some attempts) e =
        rw (get-sweep (gc_account g.window_ms now) account g.account_state distinct, e)
          (answer_account-swept g.config now later attempts pos h)

get-blocked_entries :
    (ip : Text) (now : ℕ) (m : JsMap Entry)
    → IsMap m
    → get ip (blocked_entries now m) ≡ elim (get ip m) [
      | none ↦ none
      | some e ↦ if is_blocked_at now e then some e.block_until else none
    ]
unfolding get blocked_entries
get-blocked_entries ip now [] h = refl
get-blocked_entries ip now ((j, e) ∷ m) h =
    ground (arith, text_eq_iff j ip, get-blocked_entries ip now m h.1)

-- The list of blocked addresses agrees with what `check` answers: it holds an address exactly when a
-- request from there to a guarded path would be refused, with the time at which the block ends.
pub get-get_blocked_ips :
    (g : Guard) (r : Request) (now : ℕ)
    → IsMap g.state
    → guards g r ≡ true
    → let verdict = (check g r now).1 in
      get (ip_of g r) (get_blocked_ips g now)
      ≡ (if verdict.blocked then some (now + verdict.retry_after) else none)
unfolding check check_entry get_blocked_ips
get-get_blocked_ips g r now distinct s =
    ground (arith, get-blocked_entries (ip_of g r) now g.state distinct)
