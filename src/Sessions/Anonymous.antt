-- ===== src/Sessions/Anonymous.antt =====
-- src/modules/session-anomaly.js: clients that send no session id.
use shield_wall.Prelude.{
  ℕ, ◌≡◌, refl, sym, ap, subst, ◌∙◌, false, Option, none, some, List, [], ◌∷◌, ◌++◌, map, any, All,
  get, get-put_self, Text, text_eq,
}
use mathlib.Core.List.{append-nil, append_assoc}
use shield_wall.Sessions.{Config, Store, IpEntry}
use shield_wall.Sessions.Patterns.{normalize_ip, is_valid_session_id}
use shield_wall.Sessions.Detectors.{add_once, enter_ip}
use shield_wall.Sessions.Check.{World, Request, id_of, check}

-- Requests with their times.
pub serve : World → Config → Store → List (Request × ℕ) → Store
serve w c t [] = t
serve w c t ((r, now) ∷ rs) = serve w c (check w c r now t).0 rs

-- A request of the address without a valid session id.
abbrev pub IsAnonymous : Text → Request × ℕ → Type 0
IsAnonymous ip q = (normalize_ip q.0.ip ≡ ip) × (is_valid_session_id q.0.session_id ≡ false)

abbrev pub random_ids : List (Request × ℕ) → List Text
random_ids = map (λ q. q.0.random_id)

abbrev pub IsNew : Text → List Text → Type 0
IsNew x xs = any (text_eq x) xs ≡ false

-- Ids that differ from each other and from given ones.
unfoldable pub AreNew : List Text → List Text → Type 0
AreNew seen [] = Unit
AreNew seen (x ∷ xs) = IsNew x seen × AreNew (seen ++ x ∷ []) xs

unfoldable pub sessions_of : Option IpEntry → List Text
sessions_of none = []
sessions_of (some e) = e.sessions

-- The sessions that the table holds for an address.
unfoldable pub sessions_at : Text → Store → List Text
unfolding sessions_of
sessions_at ip t = sessions_of (get ip t.ip_sessions)

enter_ip-new :
    (id : Text) (now : ℕ) (o : Option IpEntry)
    → IsNew id (sessions_of o)
    → (enter_ip id now o).sessions ≡ sessions_of o ++ id ∷ []
unfolding enter_ip sessions_of add_once
enter_ip-new id now none h = refl
enter_ip-new id now (some e) h = rw h refl

check-sessions :
    (w : World) (c : Config) (r : Request) (now : ℕ) (t : Store)
    → sessions_at (normalize_ip r.ip) (check w c r now t).0
      ≡ (enter_ip (id_of r) now (get (normalize_ip r.ip) t.ip_sessions)).sessions
unfolding check sessions_of sessions_at
check-sessions w c r now t =
    let ip = normalize_ip r.ip in
    rw (get-put_self ip (enter_ip (id_of r) now (get ip t.ip_sessions)) t.ip_sessions) refl

id_of-anonymous : (r : Request) → is_valid_session_id r.session_id ≡ false → id_of r ≡ r.random_id
unfolding id_of
id_of-anonymous r h = rw h refl

check-anonymous :
    (w : World) (c : Config) (ip : Text) (r : Request) (now : ℕ) (t : Store)
    → normalize_ip r.ip ≡ ip
    → is_valid_session_id r.session_id ≡ false
    → IsNew r.random_id (sessions_at ip t)
    → sessions_at ip (check w c r now t).0 ≡ sessions_at ip t ++ r.random_id ∷ []
unfolding sessions_of sessions_at
check-anonymous w c ip r now t same invalid new =
    let at : Text → List Text = λ i. sessions_at i (check w c r now t).0 in
    ap at (sym same)
    ∙ (check-sessions w c r now t
        ∙ (ap (λ i. (enter_ip (id_of r) now (get i t.ip_sessions)).sessions) same
            ∙ (ap (λ i. (enter_ip i now (get ip t.ip_sessions)).sessions)
                  (id_of-anonymous r invalid)
                ∙ enter_ip-new r.random_id now (get ip t.ip_sessions) new)))

-- Each request of an address without a valid session id, with random ids that are new, counts as one more
-- session of the address.
pub sessions_at-serve :
    (w : World) (c : Config) (ip : Text) (t : Store) (rs : List (Request × ℕ))
    → All (IsAnonymous ip) rs
    → AreNew (sessions_at ip t) (random_ids rs)
    → sessions_at ip (serve w c t rs) ≡ sessions_at ip t ++ random_ids rs
unfolding serve AreNew
sessions_at-serve w c ip t [] h k = sym (append-nil (sessions_at ip t))
sessions_at-serve w c ip t ((r, now) ∷ rs) h k =
    let u = (check w c r now t).0 in
    let one : sessions_at ip u ≡ sessions_at ip t ++ r.random_id ∷ [] =
      check-anonymous w c ip r now t h.0.0 h.0.1 k.0 in
    sessions_at-serve w c ip u rs h.1 (subst (λ xs. AreNew xs (random_ids rs)) (sym one) k.1)
    ∙ (ap (λ xs. xs ++ random_ids rs) one
        ∙ append_assoc (sessions_at ip t) (r.random_id ∷ []) (random_ids rs))
