-- ===== src/Rules/Matcher/Meaning.antt =====
-- src/core/rule-matcher.js: `evaluate` decides the meaning of a condition.
use shield_wall.Prelude.{
  ◌≡◌, ◌≢◌, refl, sym, ap, subst, ◌∙◌, ◌↔◌, ◌⊎◌, inl, inr, Bool, true, Option, none, some, List, [],
  ◌∷◌, arith, any, all, All, JsMap, get, Text,
}
use shield_wall.Rules.Ast.{Condition, Pattern, Rule}
use shield_wall.Rules.Matcher.{
  Decoded, test_pattern, some_match, every_match, get_or_text, target_map, prepare_match_data,
  resolve_target, full_text, evaluate,
}

-- Some entry of a list has the property.
abbrev Some {ℓ} : {A : Type ℓ} → (A → Type 0) → List A → Type 0
Some P [] = ⊥
Some P (x ∷ xs) = P x ⊎ Some P xs

any_iff {ℓ} :
    {A : Type ℓ} {P : A → Type 0} (p : A → Bool) (h : (x : A) → (p x ≡ true) ↔ P x) (xs : List A)
    → (any p xs ≡ true) ↔ Some P xs
any_iff p h [] = (λ h. cc, λ h. absurd h)
any_iff p h (x ∷ xs) = ground (arith, any_iff p h xs, h x)

all_iff {ℓ} :
    {A : Type ℓ} {P : A → Type 0} (p : A → Bool) (h : (x : A) → (p x ≡ true) ↔ P x) (xs : List A)
    → (all p xs ≡ true) ↔ All P xs
all_iff p h [] = (λ h. tt, λ h. refl)
all_iff p h (x ∷ xs) = ground (arith, all_iff p h xs, h x)

or_text_iff :
    (o : Option Text) (s e : Text) → ((o ≡ some s) ⊎ ((o ≡ none) × (s ≡ e))) ↔ (s ≡ get_or_text o e)
or_text_iff none s e = (λ h. elim h [ inl k ↦ absurd (cc) | inr k ↦ k.1 ], λ k. inr (refl, k))
or_text_iff (some t) s e = (
  λ h. elim h [ inl k ↦ ap (λ o. get_or_text o []) (sym k) | inr k ↦ absurd (cc) ],
  λ k. inl (ap some (sym k)),
)

module _ (test : Pattern → Text → Bool) (rule : Rule) (d : Decoded) where
  -- The text is not empty and matches the pattern.
  abbrev pub Hits : Text → Pattern → Type 0
  Hits s p = (s ≢ []) × (test p s ≡ true)

  -- The pattern of that name is defined, and the text matches it.
  abbrev pub Matches : Text → Text → Type 0
  Matches v s = (p : Pattern) × (get v rule.strings ≡ some p) × Hits s p

  -- The field that a target means: under its name in the table of targets, if it has one there.
  abbrev pub IsField : Text → Text → Type 0
  IsField t f = (get t target_map ≡ some f) ⊎ ((get t target_map ≡ none) × (f ≡ t))

  -- What a field of the request holds.
  abbrev pub IsContent : Text → Text → Type 0
  IsContent f s =
      (get f (prepare_match_data d) ≡ some s) ⊎ ((get f (prepare_match_data d) ≡ none) × (s ≡ []))

  -- The text of a target: the field that the rule gives the name, which is empty where the request has no
  -- such field, and the whole text for a name that the rule does not give.
  abbrev pub IsTargetText : Text → Text → Type 0
  IsTargetText name s =
      ((get name rule.targets ≡ none) × (s ≡ full_text d))
      ⊎ ((t : Text) × (f : Text) × (get name rule.targets ≡ some t) × IsField t f × IsContent f s)

  abbrev field : Text → Text
  field t = get_or_text (get t target_map) t

  abbrev content : Text → Text
  content f = get_or_text (get f (prepare_match_data d)) []

  abbrev text_of : Option Text → Text
  text_of none = full_text d
  text_of (some t) = content (field t)

  abbrev pub Holds : Condition → Type 0
  Holds (Condition.and l r) = Holds l × Holds r
  Holds (Condition.or l r) = Holds l ⊎ Holds r
  Holds (Condition.not e) = ¬ (Holds e)
  Holds (Condition.match p) = Matches p (full_text d)
  Holds (Condition.match_in p t) = (s : Text) × IsTargetText t s × Matches p s
  Holds Condition.any_of_them = Some (λ e. Hits (full_text d) e.1) rule.strings
  Holds Condition.all_of_them = All (λ e. Hits (full_text d) e.1) rule.strings
  Holds (Condition.any_of vs) = Some (λ v. Matches v (full_text d)) vs
  Holds (Condition.all_of vs) = All (λ v. Matches v (full_text d)) vs
  Holds (Condition.boolean b) = b ≡ true

  hit_iff : (s : Text) (p : Pattern) → (test_pattern test (some p) s ≡ true) ↔ Hits s p
  unfolding test_pattern
  hit_iff [] p = (λ h. cc, λ h. absurd (h.0 refl))
  hit_iff (c ∷ s) p = (λ h. (λ k. cc, h), λ h. h.1)

  defined_iff :
      (s : Text) (o : Option Pattern)
      → (test_pattern test o s ≡ true) ↔ ((p : Pattern) × (o ≡ some p) × Hits s p)
  unfolding test_pattern
  defined_iff s none = (λ h. cc, λ (p, k, _). cc)
  defined_iff s (some q) = (
    λ h. (q, refl, (hit_iff s q).0 h),
    λ (p, k, h). ap (λ o. test_pattern test o s) k ∙ (hit_iff s p).1 h,
  )

  named_iff : (s v : Text) → (test_pattern test (get v rule.strings) s ≡ true) ↔ Matches v s
  named_iff s v = defined_iff s (get v rule.strings)

  field_iff : (t f : Text) → IsField t f ↔ (f ≡ field t)
  field_iff t f = or_text_iff (get t target_map) f t

  text_iff :
      (o : Option Text) (s : Text)
      → (((o ≡ none) × (s ≡ full_text d))
          ⊎ ((t : Text) × (f : Text) × (o ≡ some t) × IsField t f × IsContent f s))
        ↔ (s ≡ text_of o)
  text_iff none s =
      (λ h. elim h [ inl e ↦ e.1 | inr (t, f, k, _, _) ↦ absurd (cc) ], λ e. inl (refl, e))
  text_iff (some u) s = (
    λ h. elim h [
      | inl e ↦ absurd (cc)
      | inr (t, f, k, named, held) ↦
          (or_text_iff (get f (prepare_match_data d)) s []).0 held
          ∙ ap content ((field_iff t f).0 named ∙ ap field (ap (λ o. get_or_text o []) (sym k)))
    ],
    λ e. inr (
      u,
      field u,
      refl,
      (field_iff u (field u)).1 refl,
      (or_text_iff (get (field u) (prepare_match_data d)) s []).1 e,
    ),
  )

  target_iff : (name s : Text) → IsTargetText name s ↔ (s ≡ resolve_target name rule d)
  unfolding resolve_target
  target_iff name s = text_iff (get name rule.targets) s

  match_in_iff :
      (p t : Text)
      → (test_pattern test (get p rule.strings) (resolve_target t rule d) ≡ true)
        ↔ ((s : Text) × IsTargetText t s × Matches p s)
  match_in_iff p t =
      let r = resolve_target t rule d in
      (
        λ h. (r, (target_iff t r).1 refl, (named_iff r p).0 h),
        λ (s, is, m).
            subst (λ u. test_pattern test (get p rule.strings) u ≡ true) ((target_iff t s).0 is)
              ((named_iff s p).1 m),
      )

  some_match_iff :
      (m : JsMap Pattern) (s : Text) → (some_match test m s ≡ true) ↔ Some (λ e. Hits s e.1) m
  unfolding some_match
  some_match_iff [] s = (λ h. cc, λ h. absurd h)
  some_match_iff ((k, p) ∷ m) s = ground (arith, some_match_iff m s, hit_iff s p)

  every_match_iff :
      (m : JsMap Pattern) (s : Text) → (every_match test m s ≡ true) ↔ All (λ e. Hits s e.1) m
  unfolding every_match
  every_match_iff [] s = (λ h. tt, λ h. refl)
  every_match_iff ((k, p) ∷ m) s = ground (arith, every_match_iff m s, hit_iff s p)

  -- The evaluation of a condition answers yes exactly when the condition holds as it reads: `and`,
  -- `or` and `not` as in logic, the quantifiers over the named patterns or over all patterns of the
  -- rule. A pattern matches a text where the rule defines it, the text is not empty, and the test of the
  -- pattern accepts the text; the text is that of the target for `in`, and the whole text elsewhere.
  pub evaluate_iff : (c : Condition) → (evaluate test c rule d ≡ true) ↔ Holds c
  unfolding evaluate
  evaluate_iff (Condition.and l r) = ground (arith, evaluate_iff l, evaluate_iff r)
  evaluate_iff (Condition.or l r) = ground (arith, evaluate_iff l, evaluate_iff r)
  evaluate_iff (Condition.not e) = ground (arith, evaluate_iff e)
  evaluate_iff (Condition.match p) = named_iff (full_text d) p
  evaluate_iff (Condition.match_in p t) = match_in_iff p t
  evaluate_iff Condition.any_of_them = some_match_iff rule.strings (full_text d)
  evaluate_iff Condition.all_of_them = every_match_iff rule.strings (full_text d)
  evaluate_iff (Condition.any_of vs) = any_iff _ (named_iff (full_text d)) vs
  evaluate_iff (Condition.all_of vs) = all_iff _ (named_iff (full_text d)) vs
  evaluate_iff (Condition.boolean b) = (λ h. h, λ h. h)
