-- ===== src/TrapRouter/Robots.antt =====
-- src/modules/trap-router.js: who follows the path that robots.txt forbids.
use shield_wall.Prelude.{
  ℕ, ◌≡◌, refl, ap, inl, inr, true, false, [], ◌∷◌, ◌++◌, arith, Text, codes, starts_with, includes,
  to_lower, if◌then◌else◌, Bool-cases,
}
use shield_wall.TrapRouter.{
  Router, Request, refused, is_attack, is_legit_bot, is_suspicious, normalize_path, raw_path,
  drop_slash, or_else, get_client_ip, trap_route, route, record_attempt,
}

drop_slash-append : (d : ℕ) (s : Text) → drop_slash (d ∷ s ++ b'/' ∷ []) ≡ d ∷ s
unfolding drop_slash
drop_slash-append d [] = refl
drop_slash-append d (c ∷ []) = refl
drop_slash-append d (c ∷ e ∷ s) = ap (λ t. d ∷ t) (drop_slash-append c (e ∷ s))

starts_with_refl : (s : Text) → starts_with s s ≡ true
unfolding starts_with
starts_with_refl [] = refl
starts_with_refl (c ∷ s) = ground (arith, starts_with_refl s)

includes-tail : (c : ℕ) (s : Text) → includes (c ∷ s) s ≡ true
unfolding includes starts_with
includes-tail c [] = refl
includes-tail c (d ∷ s) = ground (arith, starts_with_refl s)

-- The path that robots.txt forbids.
abbrev pub bait : Text → Text
bait token = b'/' ∷ token ++ b'/' ∷ []

includes-normalize_path :
    (token : Text) → includes (normalize_path (bait token)) (to_lower token) ≡ true
unfolding normalize_path to_lower
includes-normalize_path token =
    rw (drop_slash-append b'/' token) (includes-tail b'/' (to_lower token))

-- A request for the path that robots.txt forbids, with a method that is not suspicious, whose URL shows
-- no attack and that does not name itself a search engine: it is refused with code 403, the hits on
-- trap paths do not change, and a tracker is told of it.
pub route-bait :
    (s : Router) (r : Request) (now : ℕ)
    → r.path ≡ bait s.token
    → is_attack r.url ≡ false
    → is_legit_bot r.user_agent ≡ false
    → is_suspicious r.method ≡ false
    → route s r now ≡ (
      s,
      if s.has_tracker
          then record {
            ip = get_client_ip s.options.trust_proxy r;
            target = normalize_path (bait s.token);
            status = 403;
            reason = codes "Trap_Token_Triggered";
          }
            ∷ []
          else [],
      refused 403,
    )
unfolding route trap_route raw_path or_else record_attempt normalize_path to_lower
route-bait s r now asked harmless unknown plain =
    rw (harmless, unknown, plain, asked, includes-normalize_path s.token)
      (elim (Bool-cases s.options.block_legit_bots) [ inl e ↦ rw e refl | inr e ↦ rw e refl ])
