-- ===== src/Prelude/Caps.antt =====
-- A `Map` that is cut down to a limit: the entries are sorted by the time of their last use, and those
-- that come first are deleted.
use Prim.Native.Nat.{ℕ, zero, suc, ◌+◌, ◌-◌, ◌≤◌}
use mathlib.Core.Path.{◌≡◌, refl, sym, ap, ◌∙◌}
use mathlib.Core.Bool.{Bool, true, false}
use mathlib.Core.List.{List, [], ◌∷◌, ◌++◌, map}
use native.Mathlib.Omega.{arith}
use shield_wall.Prelude.Tests.{if◌then◌else◌, ltb}
use shield_wall.Prelude.Lists.{
  length, length-keep-le, All, All-mono, keep, keep-append, keep-eq-nil, take, drop, length-drop,
}
use shield_wall.Prelude.Strings.{Text, text_eq, text_eq_refl}
use shield_wall.Prelude.Maps.{JsMap, delete}

module _ {ℓ} {A : Type ℓ} where
  take-append-drop : (n : ℕ) (xs : List A) → take n xs ++ drop n xs ≡ xs
  take-append-drop zero xs = refl
  take-append-drop (suc n) [] = refl
  take-append-drop (suc n) (x ∷ xs) = ap (λ ys. x ∷ ys) (take-append-drop n xs)

module _ {ℓ} {V : Type ℓ} where
  unfoldable pub delete_all : List Text → JsMap V → JsMap V
  unfolding delete
  delete_all [] m = m
  delete_all (k ∷ ks) m = delete_all ks (delete k m)

  -- Whether the entry is under none of the keys.
  unnamed : List Text → Text × V → Bool
  unnamed [] e = true
  unnamed (k ∷ ks) e = if text_eq e.0 k then false else unnamed ks e

  keep-delete :
      (ks : List Text) (k : Text) (m : JsMap V)
      → keep (unnamed ks) (delete k m) ≡ keep (unnamed (k ∷ ks)) m
  unfolding delete unnamed
  keep-delete ks k [] = refl
  keep-delete ks k (e ∷ m) = ground (arith, keep-delete ks k m)

  keep_every : (m : JsMap V) → m ≡ keep (unnamed []) m
  unfolding unnamed
  keep_every [] = refl
  keep_every (e ∷ m) = ap (λ es. e ∷ es) (keep_every m)

  delete_all_lem : (ks : List Text) (m : JsMap V) → delete_all ks m ≡ keep (unnamed ks) m
  unfolding delete_all
  delete_all_lem [] m = keep_every m
  delete_all_lem (k ∷ ks) m = delete_all_lem ks (delete k m) ∙ keep-delete ks k m

  pub length-delete_all-le : (ks : List Text) (m : JsMap V) → length (delete_all ks m) ≤ length m
  length-delete_all-le ks m = rw (delete_all_lem ks m) (length-keep-le (unnamed ks) m)

  one_more_key :
      (ks : List Text) (k : Text) (e : Text × V) → unnamed ks e ≡ false → unnamed (k ∷ ks) e ≡ false
  unfolding unnamed
  one_more_key ks k e h = ground (arith, h)

  own_key : (ks : List Text) (e : Text × V) → unnamed (e.0 ∷ ks) e ≡ false
  unfolding unnamed
  own_key ks e = rw (text_eq_refl e.0) refl

  own_keys : (m : JsMap V) → All (λ e. unnamed (map (λ f. f.0) m) e ≡ false) m
  own_keys [] = tt
  own_keys (e ∷ m) =
      (own_key (map (λ f. f.0) m) e, All-mono (one_more_key (map (λ f. f.0) m) e.0) m (own_keys m))

module _ {ℓ} {V : Type ℓ} (used : V → ℕ) where
  insert_used : Text × V → JsMap V → JsMap V
  insert_used e [] = e ∷ []
  insert_used e (f ∷ fs) = if ltb (used e.1) (used f.1) then e ∷ f ∷ fs else f ∷ insert_used e fs

  -- The entries by the time of their last use; those of one time stay in their order.
  by_last_use : JsMap V → JsMap V → JsMap V
  unfolding insert_used
  by_last_use sorted [] = sorted
  by_last_use sorted (e ∷ es) = by_last_use (insert_used e sorted) es

  unfoldable pub cap_oldest : ℕ → JsMap V → JsMap V
  unfolding by_last_use delete_all
  cap_oldest limit m = delete_all (map (λ e. e.0) (take (length m - limit) (by_last_use [] m))) m

  -- Sorting neither adds nor drops an entry.
  module _ (p : Text × V → Bool) where
    length-keep-insert_used :
        (e : Text × V) (es : JsMap V)
        → length (keep p (insert_used e es)) ≡ length (keep p (e ∷ es))
    unfolding insert_used
    length-keep-insert_used e [] = refl
    length-keep-insert_used e (f ∷ fs) = ground (arith, length-keep-insert_used e fs)

    length-keep-by_last_use :
        (sorted es : JsMap V)
        → length (keep p (by_last_use sorted es)) ≡ length (keep p sorted) + length (keep p es)
    unfolding by_last_use
    length-keep-by_last_use sorted [] = omega arith
    length-keep-by_last_use sorted (e ∷ es) =
        ground (
          arith,
          length-keep-insert_used e sorted,
          length-keep-by_last_use (insert_used e sorted) es,
        )

  nothing_left : length (keep (unnamed {V = V} []) []) ≡ 0
  nothing_left = refl

  length-by_last_use : (m : JsMap V) → length (by_last_use [] m) ≡ length m
  length-by_last_use m = omega (
    arith,
    ap length (keep_every (by_last_use [] m)),
    length-keep-by_last_use (unnamed []) [] m,
    ap length (keep_every m),
    nothing_left,
  )

  drop_left :
      (n : ℕ) (s : JsMap V) → length (keep (unnamed (map (λ f. f.0) (take n s))) s) ≤ length s - n
  drop_left n s =
      let ks = map (λ f. f.0) (take n s) in
      omega (
        arith,
        ap (λ xs. length (keep (unnamed ks) xs)) (sym (take-append-drop n s))
            ∙ (ap length (keep-append (unnamed ks) (take n s) (drop n s))
                ∙ ap (λ xs. length (xs ++ keep (unnamed ks) (drop n s)))
                    (keep-eq-nil (unnamed ks) (take n s) (own_keys (take n s)))),
        length-keep-le (unnamed ks) (drop n s),
        length-drop n s,
      )

  -- A map within the limit is left as it is.
  pub cap_oldest_room : (limit : ℕ) (m : JsMap V) → length m ≤ limit → cap_oldest limit m ≡ m
  unfolding cap_oldest delete_all
  cap_oldest_room limit m h =
      let none_over : length m - limit ≡ 0 = omega arith in
      ap (λ n. delete_all (map (λ e. e.0) (take n (by_last_use [] m))) m) none_over

  pub length-cap_oldest-le : (limit : ℕ) (m : JsMap V) → length (cap_oldest limit m) ≤ limit
  unfolding cap_oldest
  length-cap_oldest-le limit m =
      let s = by_last_use [] m in
      let n = length m - limit in
      let ks = map (λ f. f.0) (take n s) in
      omega (
        arith,
        ap length (delete_all_lem ks m),
        length-keep-by_last_use (unnamed ks) [] m,
        drop_left n s,
        length-by_last_use m,
      )
