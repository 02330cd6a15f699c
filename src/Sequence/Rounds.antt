-- ===== src/Sequence/Rounds.antt =====
-- src/modules/sequence-anomaly.js: what the loop of `_ringIterate` reads from the buffer.
use shield_wall.Prelude.{
  ℕ, zero, suc, ◌+◌, ◌-◌, ◌%◌, ◌≤◌, ◌<◌, ◌≡◌, refl, sym, ap, ◌∙◌, Option, none, some, List, [], ◌∷◌,
  ◌++◌, arith, length, get_elem?, take, drop, length-drop,
}
use native.Mathlib.Nat.{mod-eq_of_lt, mod-eq-sub-mod}
use shield_wall.Sequence.{push_found, wrap_loop}

module _ {ℓ} {A : Type ℓ} where
  same_at : (f : ℕ → List A) (m n : ℕ) → m ≡ n → f m ≡ f n
  same_at f m n e = ap f e

  pub append_nil : (xs : List A) → xs ++ [] ≡ xs
  append_nil [] = refl
  append_nil (x ∷ xs) = ap (λ ys. x ∷ ys) (append_nil xs)

  pub append_assoc : (xs ys zs : List A) → (xs ++ ys) ++ zs ≡ xs ++ (ys ++ zs)
  append_assoc [] ys zs = refl
  append_assoc (x ∷ xs) ys zs = ap (λ ws. x ∷ ws) (append_assoc xs ys zs)

  take-length : (xs : List A) → take (length xs) xs ≡ xs
  take-length [] = refl
  take-length (x ∷ xs) = ap (λ ys. x ∷ ys) (take-length xs)

  pub drop-length : (xs : List A) → drop (length xs) xs ≡ []
  drop-length [] = refl
  drop-length (x ∷ xs) = drop-length xs

  pub drop-append : (xs ys : List A) (n : ℕ) → n ≤ length xs → drop n (xs ++ ys) ≡ drop n xs ++ ys
  drop-append xs ys zero h = refl
  drop-append [] ys (suc n) h = ground arith
  drop-append (x ∷ xs) ys (suc n) h = drop-append xs ys n (omega arith)

  -- The element at a place, and those from the place on.
  push_found-get_elem? :
      (xs : List A) (n : ℕ) (ys : List A)
      → n < length xs
      → push_found (get_elem? xs n) ys ≡ take 1 (drop n xs) ++ ys
  unfolding push_found
  push_found-get_elem? [] n ys h = ground arith
  push_found-get_elem? (x ∷ xs) zero ys h = refl
  push_found-get_elem? (x ∷ xs) (suc n) ys h = push_found-get_elem? xs n ys (omega arith)

  take-one-append :
      (xs : List A) (n k : ℕ)
      → take 1 (drop n xs) ++ take k (drop (suc n) xs) ≡ take (suc k) (drop n xs)
  take-one-append [] zero zero = refl
  take-one-append [] zero (suc k) = refl
  take-one-append [] (suc n) zero = refl
  take-one-append [] (suc n) (suc k) = refl
  take-one-append (x ∷ []) zero zero = refl
  take-one-append (x ∷ []) zero (suc k) = refl
  take-one-append (x ∷ y ∷ xs) zero k = refl
  take-one-append (x ∷ xs) (suc n) k = take-one-append xs n k

  push-take :
      (buf out : List A) (n k : ℕ)
      → n < length buf
      → out ≡ take k (drop (suc n) buf)
      → push_found (get_elem? buf n) out ≡ take (suc k) (drop n buf)
  push-take buf out n k h e =
      push_found-get_elem? buf n out h
      ∙ (ap (λ o. take 1 (drop n buf) ++ o) e ∙ take-one-append buf n k)

  -- Rounds that stay within the buffer, and those after the wrap.
  wrap_loop_before :
      (buf : List A) (head i k : ℕ)
      → head + i + k ≤ length buf
      → wrap_loop buf head i k ≡ take k (drop (head + i) buf)
  unfolding wrap_loop
  wrap_loop_before buf head i zero h = refl
  wrap_loop_before buf head i (suc k) h =
      rw (mod-eq_of_lt {n = head + i} {m = length buf} (omega arith)) (
        push-take buf (wrap_loop buf head (i + 1) k) (head + i) k (omega arith) (
          wrap_loop_before buf head (i + 1) k (omega arith)
          ∙ same_at (λ n. take k (drop n buf)) (head + (i + 1)) (suc (head + i)) (omega arith)))

  wrap_loop_after :
      (buf : List A) (head i k : ℕ)
      → length buf ≤ head + i
      → head + i + k ≤ length buf + length buf
      → wrap_loop buf head i k ≡ take k (drop (head + i - length buf) buf)
  unfolding wrap_loop
  wrap_loop_after buf head i zero h l = refl
  wrap_loop_after buf head i (suc k) h l =
      rw
        (
          mod-eq-sub-mod {n = head + i} {m = length buf} h,
          mod-eq_of_lt {n = head + i - length buf} {m = length buf} (omega arith),
        )
        (push-take buf (wrap_loop buf head (i + 1) k) (head + i - length buf) k (omega arith) (
          wrap_loop_after buf head (i + 1) k (omega arith) (omega arith)
          ∙ same_at (λ n. take k (drop n buf)) (head + (i + 1) - length buf)
              (suc (head + i - length buf)) (omega arith)))

  push_found-append :
      (o : Option A) (xs ys : List A) → push_found o (xs ++ ys) ≡ push_found o xs ++ ys
  unfolding push_found
  push_found-append none xs ys = refl
  push_found-append (some x) xs ys = refl

  wrap_loop_split :
      (buf : List A) (head i a b : ℕ)
      → wrap_loop buf head i (a + b) ≡ wrap_loop buf head i a ++ wrap_loop buf head (i + a) b
  unfolding wrap_loop
  wrap_loop_split buf head i zero b =
      same_at (wrap_loop buf head i) (0 + b) (b) (omega arith)
      ∙ same_at (λ j. wrap_loop buf head j b) (i) (i + 0) (omega arith)
  wrap_loop_split buf head i (suc a) b =
      same_at (wrap_loop buf head i) (suc a + b) (suc (a + b)) (omega arith)
      ∙ (ap (push_found (get_elem? buf ((head + i) % length buf))) (
            wrap_loop_split buf head (i + 1) a b
            ∙ same_at (λ j. wrap_loop buf head (i + 1) a ++ wrap_loop buf head j b) (i + 1 + a)
                (i + suc a) (omega arith))
          ∙ push_found-append (get_elem? buf ((head + i) % length buf))
              (wrap_loop buf head (i + 1) a) (wrap_loop buf head (i + suc a) b))

  pub take_all : (n : ℕ) (xs : List A) → length xs ≡ n → take n xs ≡ xs
  take_all n xs e = ap (λ k. take k xs) (sym e) ∙ take-length xs

  -- A whole round trip through the buffer.
  pub wrap_loop_lem :
      (buf : List A) (head : ℕ)
      → head ≤ length buf
      → wrap_loop buf head 0 (length buf) ≡ drop head buf ++ take head buf
  wrap_loop_lem buf head h =
      same_at (wrap_loop buf head 0) (length buf) (length buf - head + head) (omega arith)
      ∙ (wrap_loop_split buf head 0 (length buf - head) head
          ∙ (ap (λ xs. xs ++ wrap_loop buf head (0 + (length buf - head)) head)
                (wrap_loop_before buf head 0 (length buf - head) (omega arith)
                  ∙ (same_at (λ n. take (length buf - head) (drop n buf)) (head + 0) (head)
                        (omega arith)
                      ∙ take_all (length buf - head) (drop head buf) (length-drop head buf)))
              ∙ ap (λ xs. drop head buf ++ xs)
                  (wrap_loop_after buf head (0 + (length buf - head)) head (omega arith)
                      (omega arith)
                    ∙ same_at (λ n. take head (drop n buf))
                        (head + (0 + (length buf - head)) - length buf) (0) (omega arith))))
