-- ===== src/AutoRules.antt =====
-- src/core/engine.js, `_generateAutoRule`: the rules that the engine makes of the bodies that it found
-- dangerous. The MD5 hash, cut to eight letters, is an argument; writing the file is left out.
pub mod Limits
mod Tests
use shield_wall.Prelude.{
  ℕ, zero, suc, ◌+◌, ◌-◌, ◌*◌, ◌/◌, ◌%◌, ◌^◌, ◌≤◌, ◌<◌, min, max, ◌≡◌, refl, sym, ap, subst, ◌∙◌,
  ◌≢◌, ◌↔◌, ◌⊎◌, inl, inr, ite, if_pos, if_neg, Bool, true, false, ◌&&◌, ◌||◌, not, Option, none,
  some, List, [], ◌∷◌, ◌++◌, map, filter, reverse, arith, dec_lt, dec_le, ℕ_discrete, length,
  get_elem?, set_at, take, drop, any, all, length-append, length-filter-le, length-take,
  length-drop, All, All-mono, All-append, All-append_left, All-append_right, keep, keep-append,
  keep-eq-nil, keep_comm, JsMap, get, put, delete, evict_oldest, sweep, get-put, get-delete,
  get-put_ne, get-put_self, get-delete_ne, get-delete_self, get-evict_oldest_self, length-delete-le,
  length-evict_oldest-le, length-evict_oldest, length-put-le, length-put_present, length-put_absent,
  length-sweep-le, IsMap, put-IsMap, delete-IsMap, evict_oldest-IsMap, get-sweep, sweep-IsMap, Text,
  codes, text_eq, text_eq_refl, text_eq_iff, text_eq_ne, ne_of_text_eq, starts_with, includes,
  to_lower, split_onto, split, is_space, trim_start, trim, ltb, leb, ◌==◌, if◌then◌else◌, ltb→lt,
  lt→ltb, leb→le, le→leb, ==_iff, Bool-cases, Option-cases, both_branches, AllValues, AllValues-get,
  AllValues-put, AllValues-delete, AllValues-evict_oldest, recent, length-recent-le, recent-recent,
  recent-append, recent-All, All-recent,
}

-- What the function reads of the match and of the request: whether the rule is
-- `smart_anomaly_detection` and the severity `critical`, the raw body (empty if it is missing), the
-- number of novel indicators (0 if they are missing), and the address.
pub record Trigger : Type 0 where
  pub critical_anomaly : Bool
  pub raw_body : Text
  pub novel_indicators : ℕ
  pub ip : Text

pub record Generator : Type 0 where
  pub enabled : Bool
  pub hashes : List Text
  pub rate_limit : JsMap ℕ

is_special : ℕ → Bool
is_special c = any (λ s. c == s) (codes ".*+?^${}()|[]\\")

-- `replace(/[.*+?^${}()|[\]\\]/g, '\\$&')`
pub escape_specials : Text → Text
unfolding is_special
escape_specials [] = []
escape_specials (c ∷ s) =
    let rest = escape_specials s in if is_special c then b'\\' ∷ c ∷ rest else c ∷ rest

-- `replace(/\s+/g, '\\s+')`; the flag says whether a run of white space goes on.
pub collapse_spaces : Bool → Text → Text
unfolding is_space
collapse_spaces run [] = []
collapse_spaces run (c ∷ s) =
    let within = collapse_spaces true s in
    let after = collapse_spaces false s in
    if is_space c then (if run then within else codes "\\s+" ++ within) else c ∷ after

unfoldable pub escaped_prefix : Text → Text
unfolding escape_specials collapse_spaces
escaped_prefix body = collapse_spaces false (escape_specials (take 32 body))

-- `this._autoRuleRateLimit.get(ip) || 0`
last_generated : Option ℕ → ℕ
last_generated none = 0
last_generated (some t) = t

module _ (hash_of : Text → Text) where
  -- From the moment that the limit for the address is passed.
  pub add_rule : Text → Generator → Generator × Option Text
  unfolding text_eq
  add_rule escaped g =
      if ltb (length escaped) 8
      then (g, none)
      else if any (text_eq (hash_of escaped)) g.hashes
      then (g, none)
      else (record g { hashes = g.hashes ++ hash_of escaped ∷ [] }, some escaped)

  -- The new state, and the pattern of the rule if one is made.
  unfoldable pub generate_auto_rule : Generator → Trigger → ℕ → Generator × Option Text
  unfolding add_rule escaped_prefix last_generated
  generate_auto_rule g t now =
      if not g.enabled
      then (g, none)
      else if not t.critical_anomaly
      then (g, none)
      else if ltb (length t.raw_body) 10
      then (g, none)
      else if leb 50 (length g.hashes)
      then (g, none)
      else if ltb t.novel_indicators 3
      then (g, none)
      else if ltb now (last_generated (get t.ip g.rate_limit) + 60_000)
      then (g, none)
      else add_rule (escaped_prefix t.raw_body)
          (record g { rate_limit = put t.ip now g.rate_limit })

  pub run : Generator → List (ℕ × Trigger) → Generator
  unfolding generate_auto_rule
  run g [] = g
  run g ((now, t) ∷ calls) = run (generate_auto_rule g t now).0 calls
