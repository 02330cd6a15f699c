-- ===== src/TrapRouter/Routes.antt =====
-- src/modules/trap-router.js: which requests pass, how often a trap answers, and the trap of robots.txt.
use shield_wall.Prelude.{
  ℕ, ◌≤◌, ◌≡◌, refl, sym, ap, subst, ◌∙◌, ◌≢◌, ◌↔◌, ◌⊎◌, inl, inr, Bool, true, false, ◌&&◌, not,
  List, [], ◌∷◌, ◌++◌, arith, length, length-append, All, JsMap, get, get-put_ne, get-put_self,
  Text, codes, text_eq, text_eq_iff, includes, to_lower, if◌then◌else◌, Bool-cases, recent,
  recent-recent, recent-append,
}
use mathlib.Core.List.{append-nil, append_assoc}
use shield_wall.TrapRouter.{
  Router, Request, Options, passes, refused, is_attack, is_legit_bot, is_suspicious, is_trap,
  normalize_path, raw_path, get_client_ip, hits_of, check_rate_limit, serve, spring, trap_route,
  route,
}

-- The test for search engines, unless they are blocked as well.
abbrev pub IsSearchEngine : Router → Request → Type 0
IsSearchEngine s r = (s.options.block_legit_bots ≡ false) × (is_legit_bot r.user_agent ≡ true)

abbrev pub path_of : Request → Text
path_of r = normalize_path (raw_path r)

-- No method to probe with, no token, no trap path, not robots.txt.
abbrev pub IsPlain : Router → Request → Type 0
IsPlain s r =
    (is_suspicious r.method ≡ false)
    × (includes (path_of r) (to_lower s.token) ≡ false)
    × (is_trap s.options.trap_paths (path_of r) ≡ false)
    × (text_eq (path_of r) (codes "/robots.txt") ≡ false)

serve-ne-passes : (o : Options) (path : Text) → serve o path ≢ passes
unfolding serve
serve-ne-passes o path = ground arith

serve-ne-refused : (o : Options) (path : Text) → serve o path ≢ refused 429
unfolding serve
serve-ne-refused o path = ground arith

spring-ne-passes : (s : Router) (ip path : Text) (now : ℕ) → (spring s ip path now).2 ≢ passes
unfolding spring
spring-ne-passes s ip path now = ground (arith, serve-ne-passes s.options path)

trap_route-passes :
    (s : Router) (r : Request) (now : ℕ) → ((trap_route s r now).2 ≡ passes) ↔ IsPlain s r
unfolding trap_route
trap_route-passes s r now =
    ground (arith, spring-ne-passes s (get_client_ip s.options.trust_proxy r) (path_of r) now)

and-parts : (b c : Bool) → (not b && c ≡ true) ↔ ((b ≡ false) × (c ≡ true))
and-parts true c = ground arith
and-parts false c = ground arith

true-ne-false : true ≢ false
true-ne-false h = ground (arith, h)

-- A request passes exactly if its URL shows no attack and it either names itself a search engine (where
-- these are let through) or is plain: no TRACE, TRACK or CONNECT, no token of robots.txt in its path, no
-- trap path, and not robots.txt itself.
pub route-passes :
    (s : Router) (r : Request) (now : ℕ)
    → ((route s r now).2 ≡ passes)
      ↔ ((is_attack r.url ≡ false) × (IsSearchEngine s r ⊎ IsPlain s r))
unfolding route
route-passes s r now =
    let trap = trap_route-passes s r now in
    elim (Bool-cases (is_attack r.url)) [
      | inl attack ↦ rw (attack, route) ((λ h. ground (arith, h)), (λ h. ground (arith, h.0)))
      | inr harmless ↦
          elim (Bool-cases (not s.options.block_legit_bots && is_legit_bot r.user_agent)) [
            | inl engine ↦
                rw (harmless, engine, route)
                  (
                    (λ h. (
                      refl,
                      inl (
                          (and-parts s.options.block_legit_bots (is_legit_bot r.user_agent)).0
                            engine),
                    )),
                    (λ h. refl),
                  )
            | inr other ↦
                rw (harmless, other, route)
                  (
                    (λ h. (refl, inr (trap.0 h))),
                    (λ h. elim h.1 [
                      | inl e ↦ absurd (
                          true-ne-false (
                            sym (
                              (and-parts s.options.block_legit_bots (is_legit_bot r.user_agent)).1
                                e)
                            ∙ other))
                      | inr k ↦ trap.1 k
                    ]),
                  )
          ]
    ]

-- Trap paths that addresses asked for: the address, the path and the time.
pub springs : Router → List (Text × Text × ℕ) → Router
springs s [] = s
springs s ((ip, path, now) ∷ cs) = springs (spring s ip path now).0 cs

pub times_of : Text → List (Text × Text × ℕ) → List ℕ
unfolding text_eq
times_of ip [] = []
times_of ip ((j, path, t) ∷ cs) = if text_eq ip j then t ∷ times_of ip cs else times_of ip cs

spring-hits :
    (s : Router) (ip path : Text) (now : ℕ)
    → (spring s ip path now).0.trap_hits ≡ (check_rate_limit ip now s.trap_hits).0
unfolding spring
spring-hits s ip path now = ground arith

recent-hit :
    (xs ys : List ℕ) (t now : ℕ)
    → t ≤ now
    → recent 10_000 now ((recent 10_000 t xs ++ t ∷ []) ++ ys) ≡ recent 10_000 now (xs ++ t ∷ ys)
recent-hit xs ys t now h =
    let held = recent 10_000 now xs in
    let this = recent 10_000 now (t ∷ []) in
    rw
      (
        recent-append 10_000 now (recent 10_000 t xs ++ t ∷ []) ys,
        recent-append 10_000 now (recent 10_000 t xs) (t ∷ []),
        recent-recent 10_000 xs h,
        recent-append 10_000 now xs (t ∷ ys),
      )
      (append_assoc held this (recent 10_000 now ys)
        ∙ ap (λ z. held ++ z) (sym (recent-append 10_000 now (t ∷ []) ys)))

one-hit :
    (ip j : Text) (t now : ℕ) (m : JsMap (List ℕ)) (ys : List ℕ)
    → t ≤ now
    → recent 10_000 now (hits_of (get ip (check_rate_limit j t m).0) ++ ys)
      ≡ recent 10_000 now (hits_of (get ip m) ++ (if text_eq ip j then t ∷ ys else ys))
unfolding check_rate_limit
one-hit ip j t now m ys h =
    let hits = recent 10_000 t (hits_of (get j m)) ++ t ∷ [] in
    elim (Bool-cases (text_eq ip j)) [
      | inl same ↦
          let e : ip ≡ j = (text_eq_iff ip j).0 same in
          rw (same, e, get-put_self j hits m) (recent-hit (hits_of (get j m)) ys t now h)
      | inr other ↦
          rw
            (
              other,
              get-put_ne j ip hits m
                  (λ e. true-ne-false (sym ((text_eq_iff ip j).1 (sym e)) ∙ other)),
            )
            refl
    ]

hits-springs :
    (s : Router) (cs : List (Text × Text × ℕ)) (ip : Text) (now : ℕ)
    → All (λ c. c.2 ≤ now) cs
    → recent 10_000 now (hits_of (get ip (springs s cs).trap_hits))
      ≡ recent 10_000 now (hits_of (get ip s.trap_hits) ++ times_of ip cs)
unfolding springs times_of
hits-springs s [] ip now h =
    ap (recent 10_000 now) (sym (append-nil (hits_of (get ip s.trap_hits))))
hits-springs s ((j, path, t) ∷ cs) ip now h =
    hits-springs (spring s j path t).0 cs ip now h.1
    ∙ (ap (λ m. recent 10_000 now (hits_of (get ip m) ++ times_of ip cs)) (spring-hits s j path t)
        ∙ one-hit ip j t now s.trap_hits (times_of ip cs) h.0)

spring-limited :
    (s : Router) (ip path : Text) (now : ℕ)
    → ((spring s ip path now).2 ≡ refused 429)
      ↔ (3 ≤ length (recent 10_000 now (hits_of (get ip s.trap_hits))))
unfolding spring check_rate_limit
spring-limited s ip path now =
    let held = recent 10_000 now (hits_of (get ip s.trap_hits)) in
    ground (arith, length-append held (now ∷ []), serve-ne-refused s.options path)

-- An address is refused with code 429 on a trap path exactly if it asked for three trap paths or more
-- in the last ten seconds, whatever other addresses asked for in between.
pub spring-refused :
    (s : Router) (cs : List (Text × Text × ℕ)) (ip path : Text) (now : ℕ)
    → s.trap_hits ≡ []
    → All (λ c. c.2 ≤ now) cs
    → ((spring (springs s cs) ip path now).2 ≡ refused 429)
      ↔ (3 ≤ length (recent 10_000 now (times_of ip cs)))
unfolding get hits_of
spring-refused s cs ip path now fresh h =
    let same = hits-springs s cs ip now h in
    subst (λ ts. ((spring (springs s cs) ip path now).2 ≡ refused 429) ↔ (3 ≤ length ts))
      (same ∙ ap (λ m. recent 10_000 now (hits_of (get ip m) ++ times_of ip cs)) fresh)
      (spring-limited (springs s cs) ip path now)
