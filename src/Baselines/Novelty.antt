-- ===== src/Baselines/Novelty.antt =====
-- src/modules/adaptive-baselines.js: what the tests for new methods and new parameters can show.
use shield_wall.Prelude.{
  ℕ, suc, ◌+◌, ◌≤◌, ◌<◌, ◌≡◌, refl, ◌∙◌, Bool, true, false, ◌||◌, Option, none, some, List, [], ◌∷◌,
  ◌++◌, arith, length, any, any-append, All, All-mono, keep-eq-nil, JsMap, get, put, get-put,
  length-put-le, length-put_present, Text, text_eq, text_eq_refl, ltb, if◌then◌else◌,
}
use shield_wall.Baselines.{
  Averages, Profile, Baseline, Signal, param_count_anomaly, unknown_params_anomaly,
  unusual_method_anomaly, max_known_params, learning_threshold, add_method, Request, shown_by_value,
  learnt, admit, enter_value, enter_param, enter_params, is_unknown, unknown_in, judge,
}

abbrev pub is_unusual : Signal → Bool
is_unusual (unusual_method_anomaly m) = true
is_unusual _ = false

-- A method or parameters that the path was not asked with before.
abbrev pub is_novelty : Signal → Bool
is_novelty (unusual_method_anomaly m) = true
is_novelty (unknown_params_anomaly n) = true
is_novelty _ = false

add_method_lem : (m : Text) (ms : List Text) → any (text_eq m) (add_method m ms) ≡ true
unfolding add_method
add_method_lem m ms = ground (arith, any-append (text_eq m) ms (m ∷ []), text_eq_refl m)

module _ {A : Type 0} (lib : Averages A) where
  no_novelty_value :
      (count : ℕ) (p v : Text) (f : Profile A)
      → any is_novelty (shown_by_value lib count p v f) ≡ false
  unfolding shown_by_value
  no_novelty_value count p v f = ground arith

  no_novelty_param :
      (count : ℕ) (p v : Text) (known : JsMap (Profile A)) (o : Option (Profile A))
      → any is_novelty (enter_value lib count p v known o).1 ≡ false
  unfolding enter_value
  no_novelty_param count p v known none = refl
  no_novelty_param count p v known (some f) = no_novelty_value count p v f

  no_novelty_params :
      (count : ℕ) (ps : JsMap Text) (known : JsMap (Profile A))
      → any is_novelty (enter_params lib count ps known).1 ≡ false
  unfolding enter_params enter_param
  no_novelty_params count [] known = refl
  no_novelty_params count ((p, v) ∷ ps) known =
      let admitted = admit lib p known (get p known) in
      let first = enter_value lib count p v admitted (get p admitted) in
      any-append is_novelty first.1 (enter_params lib count ps first.0).1
      ∙ ground (
        arith,
        no_novelty_param count p v admitted (get p admitted),
        no_novelty_params count ps first.0,
      )

  knows : JsMap (Profile A) → Text → Bool
  knows known q = elim (get q known) [ none ↦ false | some f ↦ true ]

  knows-put :
      (p q : Text) (f : Profile A) (known : JsMap (Profile A))
      → knows (put p f known) q ≡ (text_eq p q || knows known q)
  unfolding knows
  knows-put p q f known = ground (arith, get-put p q f known)

  known_some :
      (p : Text) (known : JsMap (Profile A)) (f : Profile A)
      → get p known ≡ some f
      → knows known p ≡ true
  unfolding knows
  known_some p known f e = rw (e, knows) refl

  admit-knows :
      (p q : Text) (known : JsMap (Profile A)) (o : Option (Profile A))
      → knows known q ≡ true
      → knows (admit lib p known o) q ≡ true
  unfolding admit
  admit-knows p q known none h =
      ground (arith, h, knows-put p q (record { types = []; avg_len = lib.zero_average }) known)
  admit-knows p q known (some f) h = h

  admit-knows_self :
      (p : Text) (known : JsMap (Profile A)) (o : Option (Profile A))
      → get p known ≡ o
      → length known < max_known_params
      → knows (admit lib p known o) p ≡ true
  unfolding admit
  admit-knows_self p known none e h = ground (
    arith,
    h,
    text_eq_refl p,
    knows-put p p (record { types = []; avg_len = lib.zero_average }) known,
  )
  admit-knows_self p known (some f) e h = known_some p known f e

  length-admit-le :
      (p : Text) (known : JsMap (Profile A)) (o : Option (Profile A))
      → length (admit lib p known o) ≤ suc (length known)
  unfolding admit
  length-admit-le p known none =
      ground (arith, length-put-le p (record { types = []; avg_len = lib.zero_average }) known)
  length-admit-le p known (some f) = omega arith

  enter_value-knows :
      (count : ℕ) (p v q : Text) (known : JsMap (Profile A)) (o : Option (Profile A))
      → knows known q ≡ true
      → knows (enter_value lib count p v known o).0 q ≡ true
  unfolding enter_value
  enter_value-knows count p v q known none h = h
  enter_value-knows count p v q known (some f) h =
      ground (arith, h, knows-put p q (learnt lib count v f) known)

  length-enter_value :
      (count : ℕ) (p v : Text) (known : JsMap (Profile A)) (o : Option (Profile A))
      → get p known ≡ o
      → length (enter_value lib count p v known o).0 ≡ length known
  unfolding enter_value
  length-enter_value count p v known none e = refl
  length-enter_value count p v known (some f) e =
      length-put_present p (learnt lib count v f) f known e

  enter_params-knows :
      (count : ℕ) (q : Text) (ps : JsMap Text) (known : JsMap (Profile A))
      → knows known q ≡ true
      → knows (enter_params lib count ps known).0 q ≡ true
  unfolding enter_params enter_param
  enter_params-knows count q [] known h = h
  enter_params-knows count q ((p, v) ∷ ps) known h =
      let admitted = admit lib p known (get p known) in
      enter_params-knows count q ps (enter_value lib count p v admitted (get p admitted)).0 (
        enter_value-knows count p v q admitted (get p admitted)
          (admit-knows p q known (get p known) h))

  each_known :
      (count : ℕ) (ps : JsMap Text) (known : JsMap (Profile A))
      → length known + length ps ≤ max_known_params
      → All (λ e. knows (enter_params lib count ps known).0 e.0 ≡ true) ps
  unfolding enter_params enter_param
  each_known count [] known h = tt
  each_known count ((p, v) ∷ ps) known h =
      let admitted = admit lib p known (get p known) in
      let next = (enter_value lib count p v admitted (get p admitted)).0 in
      (
        enter_params-knows count p ps next (
            enter_value-knows count p v p admitted (get p admitted)
              (admit-knows_self p known (get p known) refl (omega arith))),
        each_known count ps next (
            omega (
              arith,
              length-admit-le p known (get p known),
              length-enter_value count p v admitted (get p admitted) refl,
            )),
      )

  not_unknown :
      (known : JsMap (Profile A)) (e : Text × Text)
      → knows known e.0 ≡ true
      → is_unknown lib known e ≡ false
  unfolding knows is_unknown
  not_unknown known e h = ground (arith, h)

  none_unknown :
      (count : ℕ) (ps : JsMap Text) (known : JsMap (Profile A))
      → length known + length ps ≤ max_known_params
      → unknown_in lib (enter_params lib count ps known).0 ps ≡ []
  unfolding unknown_in
  none_unknown count ps known h =
      let final = (enter_params lib count ps known).0 in
      keep-eq-nil (is_unknown lib final) ps
        (All-mono (λ e k. not_unknown final e k) ps (each_known count ps known h))

  none_of_both :
      (xs ys : List Signal)
      → any is_novelty xs ≡ false
      → any is_novelty ys ≡ false
      → any is_novelty (xs ++ ys) ≡ false
  none_of_both xs ys h k = ground (arith, any-append is_novelty xs ys, h, k)

  count_only :
      (many : Bool) (n : ℕ)
      → any is_novelty (if many then param_count_anomaly n ∷ [] else []) ≡ false
  count_only many n = ground arith

  no_unknown :
      (unknown : Bool) (k : ℕ)
      → unknown ≡ false
      → any is_novelty (if unknown then unknown_params_anomaly k ∷ [] else []) ≡ false
  no_unknown unknown k u = ground arith

  no_unusual :
      (known : Bool) (m : Text)
      → known ≡ true
      → any is_novelty (if known then [] else unusual_method_anomaly m ∷ []) ≡ false
  no_unusual known m h = ground arith

  nothing_new :
      (learns many : Bool) (shown : List Signal) (n k : ℕ) (m : Text) {unknown known : Bool}
      → any is_novelty shown ≡ false
      → unknown ≡ false
      → known ≡ true
      → any is_novelty (
          if learns
          then []
          else shown
            ++ (if many then param_count_anomaly n ∷ [] else [])
            ++ (if unknown then unknown_params_anomaly k ∷ [] else [])
            ++ (if known then [] else unusual_method_anomaly m ∷ []))
        ≡ false
  nothing_new true many shown n k m s u h = refl
  nothing_new false many shown n k m {unknown} {known} s u h =
      let counted = if many then param_count_anomaly n ∷ [] else [] in
      let unknowns = if unknown then unknown_params_anomaly k ∷ [] else [] in
      let unusuals = if known then [] else unusual_method_anomaly m ∷ [] in
      none_of_both (shown ++ counted ++ unknowns) unusuals
        (none_of_both (shown ++ counted) unknowns (none_of_both shown counted s (count_only many n))
          (no_unknown unknown k u))
        (no_unusual known m h)

  few : (xs : JsMap Text) → xs ≡ [] → ltb 3 (length xs) ≡ false
  few xs e = rw e refl

  -- Where the parameters that a path knows and those of the request are together at most 500, no request
  -- shows a new method or new parameters, whatever the path was asked with before: both are learnt
  -- before the tests.
  pub judge-is_novelty :
      (r : Request) (b : Baseline A)
      → length b.known_params + length r.params ≤ max_known_params
      → any is_novelty (judge lib r b).1 ≡ false
  unfolding judge
  judge-is_novelty r b h =
      let final = (enter_params lib (suc b.count) r.params b.known_params).0 in
      nothing_new (ltb (suc b.count) learning_threshold) _
        (enter_params lib (suc b.count) r.params b.known_params).1 (length r.params)
        (length (unknown_in lib final r.params)) r.method
        (no_novelty_params (suc b.count) r.params b.known_params)
        (few (unknown_in lib final r.params) (none_unknown (suc b.count) r.params b.known_params h))
        (add_method_lem r.method b.methods)
