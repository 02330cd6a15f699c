-- ===== src/Sequence/Throws.antt =====
-- src/modules/sequence-anomaly.js: which requests `check` throws on after the settings were set again.
use shield_wall.Prelude.{
  ℕ, ◌≡◌, refl, ap, ◌∙◌, Bool, true, false, ◌||◌, not, Option, none, some, List, [], ◌∷◌, length,
  any, JsMap, Text, ltb, if◌then◌else◌,
}
use shield_wall.Sessions.Patterns.{normalize_ip}
use shield_wall.Sequence.Params.{
  classify_param, is_resource_id, Value, iter_params, invalidate, get_class_matchers, has_signature,
}
use shield_wall.Sequence.Reload.{
  Event, classifies, reloads, happen, unused, stale, classify_param-stale, happen-stale,
}
use shield_wall.Sequence.Detectors.{Entry, Config, Signal}
use shield_wall.Sequence.Fanout.{Resources}
use shield_wall.Sequence.Check.{
  Store, check_param, continue, check_params, check, or_unknown, with_class, with_order,
}

-- The tables when the settings were set again.
abbrev pub broken : Config → JsMap Entry → Resources → Store
broken c histories resources = record {
  histories = histories;
  resources = resources;
  classes = stale c.param_classes;
}

shown : Bool → Option (List Signal)
shown b = if b then none else some []

abbrev Result : Type 0
Result = Store × Option (List Signal)

skipped_or :
    (b : Bool) (s : Store)
    → ◌≡◌ {A = Result} (if not b then (s, some []) else (s, none)) (s, shown b)
unfolding shown
skipped_or true s = refl
skipped_or false s = refl

continue-shown : (a b : Bool) (s : Store) → continue (s, shown a) (s, shown b) ≡ (s, shown (a || b))
unfolding continue shown
continue-shown true b s = refl
continue-shown false true s = refl
continue-shown false false s = refl

module _ (c : Config) (histories : JsMap Entry) (resources : Resources) where
  abbrev left : Store
  left = broken c histories resources

  module _ (ip : Text) (now : ℕ) where
    -- A parameter that is no identifier is passed over; any other throws.
    check_param-broken :
        (key val : Text) → check_param c ip now key val left ≡ (left, shown (is_resource_id val))
    unfolding check_param shown
    check_param-broken key val =
        ap
          (λ o.
            if not (is_resource_id val)
            then (left, some [])
            else with_class c ip now key val left o)
          (classify_param-stale c.param_classes key)
        ∙ skipped_or (is_resource_id val) left

    check_params-broken :
        (ps : List (Text × Text))
        → check_params c ip now ps left ≡ (left, shown (any (λ p. is_resource_id p.1) ps))
    unfolding check_params shown
    check_params-broken [] = refl
    check_params-broken ((key, val) ∷ ps) =
        ap (λ (o : Store × Option (List Signal)). continue o (check_params c ip now ps o.0))
          (check_param-broken key val)
        ∙ (ap (continue (left, shown (is_resource_id val))) (check_params-broken ps)
            ∙ continue-shown (is_resource_id val) (any (λ p. is_resource_id p.1) ps) left)

  with_order-shown :
      (b : Bool)
      → with_order c (left, shown b)
        ≡ (left, if b then none else some ([], ltb c.max_param_keys (length histories)))
  unfolding with_order shown
  with_order-shown true = refl
  with_order-shown false = refl

  -- After one lookup of a class and settings that are set again with the same classes, whatever
  -- lookups and such settings follow: `check` throws exactly where one of the values of the request is
  -- a number or a UUID, shows nothing on the other requests, and leaves the tables as they are.
  pub check-happen :
      (first : Text) (es : List Event) (ip : Text) (params : List (Text × Value)) (now : ℕ)
      → check c ip params now (record {
        histories = histories;
        resources = resources;
        classes = happen c.param_classes unused (classifies first ∷ reloads ∷ es);
      })
        ≡ (
          left,
          if any (λ p. is_resource_id p.1) (iter_params params)
              then none
              else some ([], ltb c.max_param_keys (length histories)),
        )
  unfolding check happen classify_param get_class_matchers invalidate has_signature
  check-happen first es ip params now =
      ap
        (λ k.
          check c ip params now
            (record { histories = histories; resources = resources; classes = k }))
        (happen-stale c.param_classes es)
      ∙ (ap (with_order c)
            (check_params-broken (normalize_ip (or_unknown ip)) now (iter_params params))
          ∙ with_order-shown (any (λ p. is_resource_id p.1) (iter_params params)))
