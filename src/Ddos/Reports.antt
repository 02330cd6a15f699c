-- ===== src/Ddos/Reports.antt =====
-- src/modules/ddos-protection.js, `check`: which requests are reported, and with which severity.
use shield_wall.Prelude.{
  ℕ, ◌≤◌, ◌<◌, ◌≡◌, refl, sym, ap, subst, ◌↔◌, inl, inr, true, false, Option, none, some, List, [],
  ◌∷◌, ◌++◌, Bool, ◌≢◌, All, any, codes, text_eq_iff, arith, length, length-append, get, Text, ltb,
  if◌then◌else◌, Bool-cases, Option-cases, recent,
}
use shield_wall.Address.{is_valid_ip}
use shield_wall.Ddos.{
  Ddos, Request, HeaderValue, nested, items, function, scalar, bad_key, bad_value, Indicator,
  prototype_pollution, max_connections, bad_header, size_indicators, check_slowloris, requests_of,
  check_connection_flood, conclude, inspect, has_ip, check, header_indicators, parameter_flood,
  oversized_body,
}

-- The requests of the last minute that the map still holds for an address.
abbrev pub held : Text → ℕ → Ddos → List ℕ
unfolding requests_of
held ip now s = recent 60_000 now (requests_of (get ip s.connections))

abbrev pub Fits : Option ℕ → Type 0
Fits none = ⊥
Fits (some n) = n ≤ 8192

-- The sizes that are let through: a header blob that can be written in 8192 letters, 50 parameters, and
-- a body of 100 MB.
abbrev pub IsModest : Request → Type 0
IsModest r = Fits r.header_size × (r.query_keys ≤ 50) × (r.content_length ≤ 104_857_600)

-- No object, no array that holds one, no function.
abbrev pub IsFlat : HeaderValue → Type 0
IsFlat nested = ⊥
IsFlat (items objects) = All (λ o. o ≡ false) objects
IsFlat function = ⊥
IsFlat scalar = Unit

-- A header whose name does not reach the prototype, and whose value is flat.
abbrev pub IsInOrder : Text × HeaderValue → Type 0
IsInOrder (k, v) =
    (k ≢ codes "__proto__") × (k ≢ codes "constructor") × (k ≢ codes "prototype") × IsFlat v

bad_key-eq-false :
    (k : Text)
    → (bad_key k ≡ false)
      ↔ ((k ≢ codes "__proto__") × (k ≢ codes "constructor") × (k ≢ codes "prototype"))
unfolding bad_key
bad_key-eq-false k = ground (
  arith,
  text_eq_iff k (codes "__proto__"),
  text_eq_iff k (codes "constructor"),
  text_eq_iff k (codes "prototype"),
)

any-eq-false : (bs : List Bool) → (any (λ o. o) bs ≡ false) ↔ All (λ o. o ≡ false) bs
any-eq-false [] = (λ h. tt, λ h. refl)
any-eq-false (b ∷ bs) = ground (arith, any-eq-false bs)

bad_value-eq-none : (v : HeaderValue) → (bad_value v ≡ none) ↔ IsFlat v
unfolding bad_value
bad_value-eq-none nested = (λ h. cc, λ h. absurd h)
bad_value-eq-none (items objects) = ground (arith, any-eq-false objects)
bad_value-eq-none function = (λ h. cc, λ h. absurd h)
bad_value-eq-none scalar = (λ h. tt, λ h. refl)

first-eq-none :
    (i : Indicator) (b : Bool) (o rest : Option Indicator)
    → ((if b then some i else elim o [ none ↦ rest | some j ↦ some j ]) ≡ none)
      ↔ ((b ≡ false) × (o ≡ none) × (rest ≡ none))
first-eq-none i true o rest = (λ h. cc, λ h. cc)
first-eq-none i false none rest = (λ h. (refl, refl, h), λ h. h.2)
first-eq-none i false (some j) rest = (λ h. cc, λ h. cc)

bad_header-eq-none : (hs : List (Text × HeaderValue)) → (bad_header hs ≡ none) ↔ All IsInOrder hs
unfolding bad_header
bad_header-eq-none [] = (λ h. tt, λ h. refl)
bad_header-eq-none ((k, v) ∷ hs) =
    let first = first-eq-none (prototype_pollution k) (bad_key k) (bad_value v) (bad_header hs) in
    let name = bad_key-eq-false k in
    let flat = bad_value-eq-none v in
    let rest = bad_header-eq-none hs in
    (
      λ h. let (a, b, c) = first.0 h in let n = name.0 a in ((n.0, n.1, n.2, flat.0 b), rest.0 c),
      λ ((p, q, r, f), g). first.1 (name.1 (p, q, r), flat.1 f, rest.1 g),
    )

conclude-nil : (is : List Indicator) (s : Ddos) → ((conclude is s).1 ≡ []) ↔ (is ≡ [])
unfolding conclude
conclude-nil [] s = (λ h. refl, λ h. refl)
conclude-nil (i ∷ is) s = (λ h. ground (arith, h), λ h. ground (arith, h))

append-eq-nil {ℓ} : {A : Type ℓ} (xs ys : List A) → (xs ++ ys ≡ []) ↔ ((xs ≡ []) × (ys ≡ []))
append-eq-nil [] ys = (λ h. (refl, h), λ h. h.1)
append-eq-nil (x ∷ xs) ys = (λ h. cc, λ h. cc)

header_indicators-nil : (o : Option ℕ) → (header_indicators o ≡ []) ↔ Fits o
unfolding header_indicators
header_indicators-nil none = (λ h. cc, λ h. absurd h)
header_indicators-nil (some n) = ground arith

one-nil {ℓ} : {A : Type ℓ} (x : A) (a b : ℕ) → ((if ltb a b then x ∷ [] else []) ≡ []) ↔ (b ≤ a)
one-nil x a b = ground arith

size_indicators-nil : (r : Request) → (size_indicators r ≡ []) ↔ IsModest r
unfolding size_indicators
size_indicators-nil r =
    let flood = if ltb 50 r.query_keys then parameter_flood r.query_keys ∷ [] else [] in
    let large =
      if ltb 104_857_600 r.content_length then oversized_body r.content_length ∷ [] else [] in
    let outer = append-eq-nil (header_indicators r.header_size) (flood ++ large) in
    let inner = append-eq-nil flood large in
    let header = header_indicators-nil r.header_size in
    let parameters = one-nil (parameter_flood r.query_keys) 50 r.query_keys in
    let content = one-nil (oversized_body r.content_length) 104_857_600 r.content_length in
    (
      λ h.
          let (a, b) = outer.0 h in
          let (c, d) = inner.0 b in (header.0 a, parameters.0 c, content.0 d),
      λ h. outer.1 (header.1 h.0, inner.1 (parameters.1 h.1, content.1 h.2)),
    )

flood-nil :
    (ip : Text) (now : ℕ) (s : Ddos)
    → ((check_connection_flood ip now s).1 ≡ []) ↔ (length (held ip now s) < max_connections)
unfolding check_connection_flood requests_of
flood-nil ip now s = ground (arith, length-append (held ip now s) (now ∷ []))

slow-nil :
    (r : Request) (now : ℕ) (s : Ddos)
    → is_valid_ip r.ip ≡ true
    → ((check_slowloris r now s).1 ≡ []) ↔ ((bad_header r.headers ≡ none) × IsModest r)
unfolding check_slowloris
slow-nil r now s valid = elim (Option-cases (bad_header r.headers)) [
  | inl fine ↦ rw (valid, fine, check_slowloris) (ground (arith, size_indicators-nil r))
  | inr (i, wrong) ↦ rw (valid, wrong, check_slowloris) (ground arith)
]

check_slowloris-connections :
    (r : Request) (now : ℕ) (s : Ddos) → (check_slowloris r now s).0.connections ≡ s.connections
unfolding check_slowloris
check_slowloris-connections r now s = elim (Bool-cases (is_valid_ip r.ip)) [
  | inr bad ↦ rw (bad, check_slowloris) refl
  | inl valid ↦ elim (Option-cases (bad_header r.headers)) [
    | inl fine ↦ rw (valid, fine, check_slowloris) refl
    | inr (i, wrong) ↦ rw (valid, wrong, check_slowloris) refl
  ]
]

held-connections :
    (ip : Text) (now : ℕ) (s t : Ddos)
    → s.connections ≡ t.connections
    → length (held ip now s) ≡ length (held ip now t)
unfolding held
held-connections ip now s t e = ap (λ c. length (recent 60_000 now (requests_of (get ip c)))) e

inspect-nil :
    (r : Request) (now : ℕ) (s : Ddos)
    → is_valid_ip r.ip ≡ true
    → ((inspect r now s).1 ≡ [])
      ↔ ((bad_header r.headers ≡ none) × IsModest r × (length (held r.ip now s) < max_connections))
unfolding inspect
inspect-nil r now s valid =
    let slow = check_slowloris r now s in
    let flood = check_connection_flood r.ip now slow.0 in
    let whole = conclude-nil (slow.1 ++ flood.1) flood.0 in
    let both = append-eq-nil slow.1 flood.1 in
    let calm = slow-nil r now s valid in
    let few = flood-nil r.ip now slow.0 in
    let same = held-connections r.ip now slow.0 s (check_slowloris-connections r now s) in
    (
      λ h.
          let (a, b) = both.0 (whole.0 h) in
          let (c, d) = calm.0 a in (c, d, subst (λ n. n < max_connections) same (few.0 b)),
      λ h.
          whole.1
            (both.1 (calm.1 (h.0, h.1), few.1 (subst (λ n. n < max_connections) (sym same) h.2))),
    )

-- For an address that is valid and not trusted: the request passes without a match exactly if each of
-- its headers is in order (its name is not "__proto__", "constructor" or "prototype", its value is no
-- object, no array that holds one and no function), its sizes are let through, and the last minute holds
-- fewer than 300 requests of the address.
pub check-nil :
    (r : Request) (now : ℕ) (s : Ddos)
    → is_valid_ip r.ip ≡ true
    → has_ip r.ip s.whitelist ≡ false
    → ((check r now s).1 ≡ [])
      ↔ (All IsInOrder r.headers × IsModest r × (length (held r.ip now s) < max_connections))
unfolding check
check-nil r now s valid other =
    let headers = bad_header-eq-none r.headers in
    let whole = inspect-nil r now s valid in
    rw (valid, other, check)
      (
        λ h. let (a, b, c) = whole.0 h in (headers.0 a, b, c),
        λ h. whole.1 (headers.1 h.0, h.1, h.2),
      )
