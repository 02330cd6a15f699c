-- ===== src/Rules/Matcher/Groups.antt =====
-- src/core/rule-matcher.js: which rules are evaluated for a request, and which are reported.
use shield_wall.Prelude.{
  ◌≡◌, refl, ◌⊎◌, inl, inr, Bool, true, false, Option, List, [], ◌∷◌, ◌++◌, map, arith, keep,
  keep-append, keep_comm, JsMap, Text, if◌then◌else◌,
}
use mathlib.Core.List.{Perm, perm_middle}
use mathlib.Core.List.Perm
use shield_wall.Rules.Ast.{Pattern, Rule}
use shield_wall.Rules.Matcher.{
  Decoded, Group, body, url, headers, anything, group_of, same_group, in_group, nonempty,
  active_rules, has_literal, holds, report, match_loop, match_compiled_rules,
}

-- The parser calls the kinds of patterns `regex` and `literal`, and never `string`.
has_literal_lem : (m : JsMap Pattern) → has_literal m ≡ false
unfolding has_literal
has_literal_lem [] = refl
has_literal_lem ((k, Pattern.regex p f) ∷ m) = has_literal_lem m
has_literal_lem ((k, Pattern.literal v n) ∷ m) = has_literal_lem m

module _ (test : Pattern → Text → Bool) (find : Pattern → Text → Option Text) where
  match_loop-keep :
      (hit : Rule → Bool) (d : Decoded) (rs : List Rule)
      → match_loop test find hit d rs ≡ map (report test find d) (keep (λ r. holds test r d) rs)
  unfolding match_loop
  match_loop-keep hit d [] = refl
  match_loop-keep hit d (r ∷ rs) =
      ground (arith, has_literal_lem r.strings, match_loop-keep hit d rs)

  -- The scan for literals never decides anything: whatever it answers, the rules that are reported are
  -- those of the active rules whose condition holds, in their order.
  pub match_compiled_rules-keep :
      (hit : Rule → Bool) (rules : List Rule) (d : Decoded)
      → match_compiled_rules test find hit rules d
        ≡ map (report test find d) (keep (λ r. holds test r d) (active_rules rules d))
  unfolding match_compiled_rules
  match_compiled_rules-keep hit rules d = match_loop-keep hit d (active_rules rules d)

-- Where the next rule goes.
placed :
    (r : Rule) (rs : List Rule) (g : Group)
    → group_of r ≡ g
    → Perm rs
        (in_group anything rs ++ (in_group url rs ++ (in_group body rs ++ in_group headers rs)))
    → Perm (r ∷ rs) (
        in_group anything (r ∷ rs)
        ++ (in_group url (r ∷ rs) ++ (in_group body (r ∷ rs) ++ in_group headers (r ∷ rs))))
unfolding in_group
placed r rs anything e ih = rw e (Perm.cons r ih)
placed r rs url e ih =
    rw e (Perm.trans (Perm.cons r ih) (Perm.symm (perm_middle (in_group anything rs) _)))
placed r rs body e ih = rw e (
    Perm.trans (Perm.cons r ih) (
      Perm.trans (Perm.symm (perm_middle (in_group anything rs) _)) (
        Perm.append (Perm.refl (in_group anything rs))
          (Perm.symm (perm_middle (in_group url rs) _)))))
placed r rs headers e ih = rw e (
    Perm.trans (Perm.cons r ih) (
      Perm.trans (Perm.symm (perm_middle (in_group anything rs) _)) (
        Perm.append (Perm.refl (in_group anything rs)) (
          Perm.trans (Perm.symm (perm_middle (in_group url rs) _)) (
            Perm.append (Perm.refl (in_group url rs))
              (Perm.symm (perm_middle (in_group body rs) _)))))))

-- Every rule falls into exactly one group.
in_group_perm :
    (rules : List Rule)
    → Perm rules (
        in_group anything rules
        ++ (in_group url rules ++ (in_group body rules ++ in_group headers rules)))
unfolding in_group
in_group_perm [] = Perm.nil
in_group_perm (r ∷ rs) = placed r rs (group_of r) refl (in_group_perm rs)

-- A filter commutes with the choice of the active rules.
keep-active_rules :
    (p : Rule → Bool) (rules : List Rule) (d : Decoded)
    → keep p (active_rules rules d) ≡ active_rules (keep p rules) d
unfolding active_rules in_group
keep-active_rules p rules d =
    let group = λ (g : Group). in_group g rules in
    ground (
      arith,
      keep-append p (group anything) (
          group url
          ++ ((if nonempty d.body then group body else [])
              ++ (if nonempty d.headers then group headers else []))),
      keep-append p (group url) (
          (if nonempty d.body then group body else [])
          ++ (if nonempty d.headers then group headers else [])),
      keep-append p (if nonempty d.body then group body else [])
          (if nonempty d.headers then group headers else []),
      keep_comm p (λ r. same_group (group_of r) anything) rules,
      keep_comm p (λ r. same_group (group_of r) url) rules,
      keep_comm p (λ r. same_group (group_of r) body) rules,
      keep_comm p (λ r. same_group (group_of r) headers) rules,
    )

-- For a request with a body and with headers the rules that are reported are, up to their order,
-- exactly the loaded rules whose condition holds, whatever the scan for literals answers.
pub match_compiled_rules-perm :
    (test : Pattern → Text → Bool) (find : Pattern → Text → Option Text) (hit : Rule → Bool)
    (rules : List Rule) (d : Decoded)
    → nonempty d.body ≡ true
    → nonempty d.headers ≡ true
    → Perm
        (match_compiled_rules test find hit rules d)
        (map (report test find d) (keep (λ r. holds test r d) rules))
unfolding active_rules
match_compiled_rules-perm test find hit rules d b h =
    let p = λ (r : Rule). holds test r d in
    let all_active : active_rules (keep p rules) d
        ≡ in_group anything (keep p rules)
          ++ (in_group url (keep p rules)
              ++ (in_group body (keep p rules) ++ in_group headers (keep p rules))) =
      rw (b, h) refl in
    rw (match_compiled_rules-keep test find hit rules d, keep-active_rules p rules d, all_active)
      (Perm.map _ (Perm.symm (in_group_perm (keep p rules))))

abbrev pub has_targets : Rule → Bool
has_targets r = elim r.targets [ [] ↦ false | t ∷ ts ↦ true ]

targets_cases :
    (r : Rule) → ((has_targets r ≡ false) × (group_of r ≡ body)) ⊎ (has_targets r ≡ true)
unfolding group_of
targets_cases r = go r.targets refl
  where
    go :
        (ts : JsMap Text)
        → r.targets ≡ ts
        → ((has_targets r ≡ false) × (group_of r ≡ body)) ⊎ (has_targets r ≡ true)
    go [] e = inl (rw e refl, rw e refl)
    go (t ∷ ts) e = inr (rw e refl)

in_group_targeted :
    (g : Group) (rules : List Rule)
    → same_group body g ≡ false
    → in_group g (keep has_targets rules) ≡ in_group g rules
unfolding in_group
in_group_targeted g [] h = refl
in_group_targeted g (r ∷ rs) h = ground (arith, targets_cases r, in_group_targeted g rs h)

-- A rule that names no target counts as a rule on the body: for a request with no body, whatever its
-- address, query and headers hold, the report is the same as if all rules without targets had been
-- taken out.
pub match_compiled_rules-no_targets :
    (test : Pattern → Text → Bool) (find : Pattern → Text → Option Text) (hit : Rule → Bool)
    (rules : List Rule) (d : Decoded)
    → d.body ≡ []
    → match_compiled_rules test find hit rules d
      ≡ match_compiled_rules test find hit (keep has_targets rules) d
unfolding match_compiled_rules active_rules
match_compiled_rules-no_targets test find hit rules d bare =
    let targeted = λ (g : Group). in_group_targeted g rules in
    rw (bare, targeted anything refl, targeted url refl, targeted headers refl) refl
