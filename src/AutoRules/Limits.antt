-- ===== src/AutoRules/Limits.antt =====
-- src/core/engine.js, `_generateAutoRule`: the limits on the rules that the engine makes.
use shield_wall.Prelude.{
  ℕ, suc, ◌+◌, ◌≤◌, ◌<◌, ◌≡◌, ap, ◌∙◌, none, some, List, [], ◌∷◌, arith, length, length-append, get,
  put, get-put_self, Text,
}
use shield_wall.AutoRules.{
  Trigger, Generator, escaped_prefix, last_generated, add_rule, generate_auto_rule, run,
}

module _ (hash_of : Text → Text) where
  length-add_rule-le :
      (escaped : Text) (g : Generator)
      → length (add_rule hash_of escaped g).0.hashes ≤ suc (length g.hashes)
  unfolding add_rule
  length-add_rule-le escaped g = ground (arith, length-append g.hashes (hash_of escaped ∷ []))

  add_rule-rate_limit :
      (escaped : Text) (g : Generator) → (add_rule hash_of escaped g).0.rate_limit ≡ g.rate_limit
  unfolding add_rule
  add_rule-rate_limit escaped g = ground arith

  length-generate_auto_rule-le :
      (g : Generator) (t : Trigger) (now : ℕ)
      → length g.hashes ≤ 50
      → length (generate_auto_rule hash_of g t now).0.hashes ≤ 50
  unfolding generate_auto_rule
  length-generate_auto_rule-le g t now h = ground (
    arith,
    length-add_rule-le (escaped_prefix t.raw_body)
        (record g { rate_limit = put t.ip now g.rate_limit }),
  )

  -- An engine that starts with at most 50 generated rules never has more, after any calls.
  pub length-run-le :
      (g : Generator) (calls : List (ℕ × Trigger))
      → length g.hashes ≤ 50
      → length (run hash_of g calls).hashes ≤ 50
  unfolding run
  length-run-le g [] h = h
  length-run-le g ((now, t) ∷ calls) h =
      length-run-le (generate_auto_rule hash_of g t now).0 calls
        (length-generate_auto_rule-le g t now h)

  generated-rate_limit :
      (g : Generator) (t : Trigger) (now : ℕ) (pattern : Text)
      → (generate_auto_rule hash_of g t now).1 ≡ some pattern
      → (generate_auto_rule hash_of g t now).0.rate_limit ≡ put t.ip now g.rate_limit
  unfolding generate_auto_rule
  generated-rate_limit g t now pattern h = ground (
    arith,
    add_rule-rate_limit (escaped_prefix t.raw_body)
        (record g { rate_limit = put t.ip now g.rate_limit }),
  )

  limited :
      (g : Generator) (t : Trigger) (now last : ℕ)
      → get t.ip g.rate_limit ≡ some last
      → now < last + 60_000
      → generate_auto_rule hash_of g t now ≡ (g, none)
  unfolding generate_auto_rule last_generated
  limited g t now last e h = rw (e, generate_auto_rule) (ground arith)

  -- A call that makes a rule: less than a minute later no call for the same address makes another,
  -- whatever it brings, and it changes nothing.
  pub generate-generate :
      (g : Generator) (t u : Trigger) (now later : ℕ) (pattern : Text)
      → (generate_auto_rule hash_of g t now).1 ≡ some pattern
      → u.ip ≡ t.ip
      → later < now + 60_000
      → generate_auto_rule hash_of (generate_auto_rule hash_of g t now).0 u later
        ≡ ((generate_auto_rule hash_of g t now).0, none)
  generate-generate g t u now later pattern h same le =
      limited (generate_auto_rule hash_of g t now).0 u later now
        (ap (λ ip. get ip (generate_auto_rule hash_of g t now).0.rate_limit) same
          ∙ (ap (get t.ip) (generated-rate_limit g t now pattern h)
              ∙ get-put_self t.ip now g.rate_limit))
        le
