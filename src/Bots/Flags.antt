-- ===== src/Bots/Flags.antt =====
-- src/modules/bot-detection.js: what becomes of a session whose first request a honeypot caught.
use shield_wall.Prelude.{ℕ, ◌≡◌, refl, sym, subst, Bool, false, none, some, get, get-put_self, Text}
use shield_wall.Bots.{
  Data, Store, new_data, session, visit, enter_visit, take_lock, after_lock, make_room,
}
use shield_wall.Bots.Check.{flagged, Request, flag, id_of, check}

new-visit : (path method : Text) (now : ℕ) → (visit path method now (new_data now)).0.is_bot ≡ false
unfolding visit new_data
new-visit path method now = refl

-- The session is there and not flagged.
abbrev pub IsFree : Text → Store → Type 0
IsFree id s = (d : Data) × (get id s.sessions ≡ some d) × (d.is_bot ≡ false)

entered_new :
    (id path method : Text) (now : ℕ) (s : Store)
    → IsFree id (enter_visit id path method now (session now s none)).0
unfolding enter_visit session
entered_new id path method now s =
    let v = (visit path method now (new_data now)).0 in
    (v, get-put_self id v (make_room s).sessions, new-visit path method now)

-- The first request of a session that is not there leaves it unflagged, also where it fell into a
-- honeypot.
pub check-unknown :
    (is_low : Text → Bool) (r : Request) (now : ℕ) (s : Store)
    → get (id_of r) s.sessions ≡ none
    → IsFree (id_of r) (check is_low r now s).0
unfolding check take_lock flag flagged after_lock
check-unknown is_low r now s e =
    let id = id_of r in
    subst (λ o. IsFree id (after_lock id r.path r.method now (take_lock id (flagged r s o))).0)
      (sym e)
      (subst
        (λ o. IsFree id (enter_visit id r.path r.method now (session now (take_lock id s) o)).0)
        (sym e) (entered_new id r.path r.method now (take_lock id s)))
