-- ===== src/Sequence/History.antt =====
-- src/modules/sequence-anomaly.js: the ring buffer holds the last entries of the history, oldest first.
use shield_wall.Prelude.{
  ℕ, zero, suc, ◌+◌, ◌-◌, ◌≤◌, ◌<◌, ◌≡◌, refl, sym, ap, ◌∙◌, inl, inr, false, List, [], ◌∷◌, ◌++◌,
  arith, length, take, drop, length-append, length-take, length-drop, ltb, ltb→lt, Bool-cases,
}
use shield_wall.Sequence.{Ring, empty_ring, ring_push, ring_iterate}
use shield_wall.Sequence.Rounds.{append_nil, append_assoc, drop-append}
use shield_wall.Sequence.Contents.{
  IsRing, head-le, ring_iterate_lem, ring_iterate_room, ring_iterate_full, ring_push-IsRing,
  drop-suc,
}

module _ {ℓ} {A : Type ℓ} where
  -- The last `n` elements.
  abbrev pub last : ℕ → List A → List A
  last n xs = drop (length xs - n) xs

  drop_nil : (n : ℕ) → drop {A = A} n [] ≡ []
  drop_nil zero = refl
  drop_nil (suc n) = refl

  drop_cong : (m n : ℕ) (xs ys : List A) → m ≡ n → xs ≡ ys → drop m xs ≡ drop n ys
  drop_cong m n xs ys p q = ap (λ k. drop k xs) p ∙ ap (drop n) q

  drop-drop : (m n : ℕ) (xs : List A) → drop m (drop n xs) ≡ drop (n + m) xs
  drop-drop m zero xs = drop_cong m (0 + m) xs xs (omega arith) refl
  drop-drop m (suc n) [] = drop_nil m ∙ sym (drop_nil (suc n + m))
  drop-drop m (suc n) (x ∷ xs) =
      drop-drop m n xs ∙ drop_cong (suc (n + m)) (suc n + m) (x ∷ xs) (x ∷ xs) (omega arith) refl

  -- What was dropped before would be dropped now.
  last-last : (n : ℕ) (xs ys : List A) → last n (last n xs ++ ys) ≡ last n (xs ++ ys)
  last-last n xs ys =
      let k = length xs - n in
      drop_cong (length (drop k xs ++ ys) - n) (length xs + length ys - n - k) (drop k xs ++ ys)
        (drop k (xs ++ ys)) (omega (arith, length-append (drop k xs) ys, length-drop k xs))
        (sym (drop-append xs ys k (omega arith)))
      ∙ (drop-drop (length xs + length ys - n - k) k (xs ++ ys)
          ∙ drop_cong (k + (length xs + length ys - n - k)) (length (xs ++ ys) - n) (xs ++ ys)
              (xs ++ ys) (omega (arith, length-append xs ys)) refl)

  filled : (xs : List A) (n : ℕ) → ltb (length xs) n ≡ false → length xs ≤ n → length xs ≡ n
  filled xs n l h = ground arith

  length-ring_iterate : (n : ℕ) (r : Ring A) → IsRing n r → length (ring_iterate r) ≡ length r.buf
  length-ring_iterate n r h =
      ap length (ring_iterate_lem n r h)
      ∙ omega (
        arith,
        length-append (drop r.head r.buf) (take r.head r.buf),
        length-drop r.head r.buf,
        length-take r.head r.buf,
        head-le n r h,
      )

  one_over :
      (n : ℕ) (x : A) (r : Ring A)
      → IsRing n r
      → length r.buf ≡ n
      → 1 ≡ length (ring_iterate r ++ x ∷ []) - n
  one_over n x r h full =
      omega (arith, length-append (ring_iterate r) (x ∷ []), length-ring_iterate n r h)

  ring_iterate-push :
      (n : ℕ) (x : A) (r : Ring A)
      → IsRing n r
      → ring_iterate (ring_push n x r) ≡ last n (ring_iterate r ++ x ∷ [])
  ring_iterate-push n x r h =
      let read = ring_iterate_lem n r h in
      elim (Bool-cases (ltb (length r.buf) n)) [
        | inl l ↦
            let room = ltb→lt (length r.buf) n l in
            let all : ring_iterate r ≡ r.buf =
              read ∙ (ap (λ j. drop j r.buf ++ take j r.buf) (h.start room) ∙ append_nil r.buf) in
            ring_iterate_room n x r h room
            ∙ drop_cong 0 (length (ring_iterate r ++ x ∷ []) - n) (r.buf ++ x ∷ [])
                (ring_iterate r ++ x ∷ [])
                (omega (arith, length-append (ring_iterate r) (x ∷ []), ap length all))
                (ap (λ ys. ys ++ x ∷ []) (sym all))
        | inr l ↦
            let full : length r.buf ≡ n = filled r.buf n l h.bounded in
            let head_in : r.head < length r.buf = omega (arith, h.inside) in
            ring_iterate_full n x r h full
            ∙ (sym (drop-suc r.buf (take r.head r.buf ++ x ∷ []) r.head head_in)
                ∙ drop_cong 1 (length (ring_iterate r ++ x ∷ []) - n)
                    (drop r.head r.buf ++ (take r.head r.buf ++ x ∷ [])) (ring_iterate r ++ x ∷ [])
                    (one_over n x r h full)
                    (sym (append_assoc (drop r.head r.buf) (take r.head r.buf) (x ∷ []))
                      ∙ ap (λ ys. ys ++ x ∷ []) (sym read)))
      ]

  -- Every entry of a list is pushed in its turn.
  abbrev pub push_each : ℕ → Ring A → List A → Ring A
  push_each n r [] = r
  push_each n r (x ∷ xs) = push_each n (ring_push n x r) xs

  history :
      (n : ℕ) (r : Ring A) (past xs : List A)
      → IsRing n r
      → ring_iterate r ≡ last n past
      → ring_iterate (push_each n r xs) ≡ last n (past ++ xs)
  history n r past [] h e = e ∙ ap (last n) (sym (append_nil past))
  history n r past (x ∷ xs) h e =
      history n (ring_push n x r) (past ++ x ∷ []) xs (ring_push-IsRing n x r h) (
        ring_iterate-push n x r h
        ∙ (ap (λ ys. last n (ys ++ x ∷ [])) e ∙ last-last n past (x ∷ [])))
      ∙ ap (last n) (append_assoc past (x ∷ []) xs)

  empty-IsRing : (n : ℕ) → 0 < n → IsRing {A = A} n empty_ring
  empty-IsRing n h = record { counted = refl; bounded = omega arith; inside = h; start = λ l. refl }

  ring_iterate_empty : ring_iterate (empty_ring {A = A}) ≡ []
  unfolding ring_iterate
  ring_iterate_empty = refl

  -- The ring buffer of any positive length: after any entries it reads as the last of them, at most
  -- as many as its length, the oldest first.
  pub ring_iterate-push_each :
      (n : ℕ) (xs : List A) → 0 < n → ring_iterate (push_each n empty_ring xs) ≡ last n xs
  ring_iterate-push_each n xs h =
      history n empty_ring [] xs (empty-IsRing n h) (ring_iterate_empty ∙ sym (drop_nil (0 - n)))
