-- ===== src/Scoring/Bounds.antt =====
-- src/core/engine.js: the highest severity is the highest, and more matches never lower the risk.
use shield_wall.Prelude.{
  ℕ, ◌+◌, ◌≤◌, ◌≡◌, refl, sym, subst, ◌⊎◌, inl, inr, Bool, true, false, List, [], ◌∷◌, ◌++◌, arith,
  length, any, length-append, All, Text, ltb, ltb→lt, Bool-cases,
}
use shield_wall.Scoring.{
  Severity, info, Match, priority, highest_loop, get_highest_severity, weighted_sum, category_of,
  add_category, category_hits, is_bot, is_payload_anomaly, boost, risk_score,
}

-- Some match has that severity.
abbrev pub Occurs : Severity → List Match → Type 0
Occurs s [] = ⊥
Occurs s (m ∷ ms) = (s ≡ m.severity) ⊎ Occurs s ms

abbrev IsAbove : ℕ → List Match → Severity → Type 0
IsAbove hp ms t = (hp ≤ priority t) × All (λ m. priority m.severity ≤ priority t) ms

highest_loop_higher :
    (h : Severity) (hp : ℕ) (m : Match) (ms : List Match)
    → ltb hp (priority m.severity) ≡ true
    → highest_loop h hp (m ∷ ms) ≡ highest_loop m.severity (priority m.severity) ms
unfolding highest_loop
highest_loop_higher h hp m ms e = rw e refl

highest_loop_same :
    (h : Severity) (hp : ℕ) (m : Match) (ms : List Match)
    → ltb hp (priority m.severity) ≡ false
    → highest_loop h hp (m ∷ ms) ≡ highest_loop h hp ms
unfolding highest_loop
highest_loop_same h hp m ms e = rw e refl

highest_loop-IsAbove :
    (h : Severity) (ms : List Match) → IsAbove (priority h) ms (highest_loop h (priority h) ms)
unfolding highest_loop
highest_loop-IsAbove h [] = (omega arith, tt)
highest_loop-IsAbove h (m ∷ ms) = elim (Bool-cases (ltb (priority h) (priority m.severity))) [
  | inl e ↦
      let ih = highest_loop-IsAbove m.severity ms in
      subst (IsAbove (priority h) (m ∷ ms)) (sym (highest_loop_higher h (priority h) m ms e))
        (omega (arith, ih.0, ltb→lt (priority h) (priority m.severity) e), ih)
  | inr e ↦
      let ih = highest_loop-IsAbove h ms in
      subst (IsAbove (priority h) (m ∷ ms)) (sym (highest_loop_same h (priority h) m ms e))
        (ih.0, (ground (arith, ih.0), ih.1))
]

highest_loop-Occurs :
    (h : Severity) (hp : ℕ) (ms : List Match)
    → (highest_loop h hp ms ≡ h) ⊎ Occurs (highest_loop h hp ms) ms
unfolding highest_loop
highest_loop-Occurs h hp [] = inl refl
highest_loop-Occurs h hp (m ∷ ms) =
    ground
      (arith, highest_loop-Occurs h hp ms, highest_loop-Occurs m.severity (priority m.severity) ms)

-- The highest severity of a list of matches: no match has a higher priority, and it is `info` or the
-- severity of one of the matches.
pub get_highest_severity-is_max :
    (ms : List Match)
    → All (λ m. priority m.severity ≤ priority (get_highest_severity ms)) ms
      × ((get_highest_severity ms ≡ info) ⊎ Occurs (get_highest_severity ms) ms)
unfolding get_highest_severity priority
get_highest_severity-is_max ms = ((highest_loop-IsAbove info ms).1, highest_loop-Occurs info 0 ms)

weighted_sum-append :
    (s : ℕ) (ms ns : List Match) → weighted_sum s (ms ++ ns) ≡ weighted_sum s ms + weighted_sum s ns
unfolding weighted_sum
weighted_sum-append s [] ns = omega arith
weighted_sum-append s (m ∷ ms) ns = omega (arith, weighted_sum-append s ms ns)

add_category-le : (seen : List Text) (c : Text) → length seen ≤ length (add_category seen c)
unfolding add_category
add_category-le seen c = ground (arith, length-append seen (c ∷ []))

category_hits-append_le :
    (seen : List Text) (ms ns : List Match)
    → length (category_hits seen ms) ≤ length (category_hits seen (ms ++ ns))
unfolding category_hits
category_hits-append_le seen [] [] = omega arith
category_hits-append_le seen [] (n ∷ ns) = omega (
  arith,
  add_category-le seen (category_of n.category n.rule),
  category_hits-append_le (add_category seen (category_of n.category n.rule)) [] ns,
)
category_hits-append_le seen (m ∷ ms) ns =
    category_hits-append_le (add_category seen (category_of m.category m.rule)) ms ns

any-append_left {ℓ} :
    {A : Type ℓ} (p : A → Bool) (xs ys : List A) → any p xs ≡ true → any p (xs ++ ys) ≡ true
any-append_left p [] ys h = ground arith
any-append_left p (x ∷ xs) ys h = ground (arith, any-append_left p xs ys)

boost-append_le : (ms ns : List Match) → boost ms ≤ boost (ms ++ ns)
unfolding boost
boost-append_le ms ns = grind (
  arith,
  category_hits-append_le [] ms ns,
  any-append_left is_bot ms ns,
  any-append_left is_payload_anomaly ms ns,
)

-- More matches never lower the risk of a request.
pub risk_score-append_le :
    (sensitivity : ℕ) (ms ns : List Match)
    → risk_score sensitivity ms ≤ risk_score sensitivity (ms ++ ns)
unfolding risk_score
risk_score-append_le sensitivity ms ns =
    grind (arith, weighted_sum-append sensitivity ms ns, boost-append_le ms ns)
