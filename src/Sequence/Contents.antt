-- ===== src/Sequence/Contents.antt =====
-- src/modules/sequence-anomaly.js: what one entry more does to the contents of the ring buffer.
use shield_wall.Prelude.{
  ℕ, zero, suc, ◌+◌, ◌%◌, ◌≤◌, ◌<◌, ◌≡◌, refl, sym, ap, subst, ◌∙◌, inl, inr, false, List, [], ◌∷◌,
  ◌++◌, arith, length, set_at, take, drop, length-append, ltb, ltb→lt, lt→ltb, Bool-cases,
}
use native.Mathlib.Nat.{mod-eq_of_lt, mod_self, mod-lt}
use shield_wall.Sequence.{Ring, ring_push, ring_iterate}
use shield_wall.Sequence.Rounds.{append_nil, drop-length, take_all, wrap_loop_lem}

-- A buffer that is not full starts at 0.
pub record IsRing {ℓ} {A : Type ℓ} (max_len : ℕ) (r : Ring A) : Type 0 where
  pub counted : r.count ≡ length r.buf
  pub bounded : length r.buf ≤ max_len
  pub inside : r.head < max_len
  pub start : length r.buf < max_len → r.head ≡ 0

add_one : (i : ℕ) → i + 1 ≡ suc i
add_one i = omega arith

last_place : (i n : ℕ) → ltb (suc i) n ≡ false → i < n → n ≡ i + 1
last_place i n l h = ground arith

-- The last place is followed by the first.
wraps : (i n : ℕ) → ltb (suc i) n ≡ false → i < n → (i + 1) % n ≡ 0
wraps i n l h = subst (λ k. k % n ≡ 0) (last_place i n l h) (mod_self n)

module _ {ℓ} {A : Type ℓ} where
  ap2 : {xs ys us vs : List A} → xs ≡ ys → us ≡ vs → xs ++ us ≡ ys ++ vs
  ap2 {xs} {ys} {us} {vs} p q = ap (λ ws. ws ++ us) p ∙ ap (λ ws. ys ++ ws) q

  drop_all : (n : ℕ) (xs : List A) → length xs ≡ n → drop n xs ≡ []
  drop_all n xs e = ap (λ k. drop k xs) (sym e) ∙ drop-length xs

  pub head-le : (n : ℕ) (r : Ring A) → IsRing n r → r.head ≤ length r.buf
  head-le n r h = grind (arith, h.counted, h.bounded, h.inside, h.start)

  pub ring_iterate_lem :
      (n : ℕ) (r : Ring A) → IsRing n r → ring_iterate r ≡ drop r.head r.buf ++ take r.head r.buf
  unfolding ring_iterate
  ring_iterate_lem n r h = ground (arith, h.counted, wrap_loop_lem r.buf r.head (head-le n r h))

  length-set_at : (xs : List A) (i : ℕ) (x : A) → length (set_at xs i x) ≡ length xs
  length-set_at [] i x = refl
  length-set_at (y ∷ xs) zero x = refl
  length-set_at (y ∷ xs) (suc i) x = ap suc (length-set_at xs i x)

  -- What is written stands at the end of the part that was read first.
  drop-set_at : (xs : List A) (i : ℕ) (x : A) → drop (suc i) (set_at xs i x) ≡ drop (suc i) xs
  drop-set_at [] i x = refl
  drop-set_at (y ∷ xs) zero x = refl
  drop-set_at (y ∷ xs) (suc i) x = drop-set_at xs i x

  take-set_at :
      (xs : List A) (i : ℕ) (x : A)
      → i < length xs
      → take (suc i) (set_at xs i x) ≡ take i xs ++ x ∷ []
  take-set_at [] i x h = ground arith
  take-set_at (y ∷ xs) zero x h = refl
  take-set_at (y ∷ xs) (suc i) x h = ap (λ ys. y ∷ ys) (take-set_at xs i x (omega arith))

  pub drop-suc :
      (xs ys : List A) (i : ℕ) → i < length xs → drop 1 (drop i xs ++ ys) ≡ drop (suc i) xs ++ ys
  drop-suc [] ys i h = ground arith
  drop-suc (x ∷ xs) ys zero h = refl
  drop-suc (x ∷ xs) ys (suc i) h = drop-suc xs ys i (omega arith)

  pub ring_push-IsRing : (n : ℕ) (x : A) (r : Ring A) → IsRing n r → IsRing n (ring_push n x r)
  unfolding ring_push
  ring_push-IsRing n x r h = ground (
    arith,
    h.counted,
    h.bounded,
    h.inside,
    h.start,
    length-append r.buf (x ∷ []),
    length-set_at r.buf r.head x,
    mod-lt (r.head + 1) {m = n} (omega (arith, h.inside)),
  )

  ring_push_room :
      (n : ℕ) (x : A) (r : Ring A)
      → length r.buf < n
      → ring_push n x r
        ≡ record { buf = r.buf ++ x ∷ []; head = r.head; count = length (r.buf ++ x ∷ []) }
  unfolding ring_push
  ring_push_room n x r h = rw (lt→ltb (length r.buf) n h) refl

  ring_push_full :
      (n : ℕ) (x : A) (r : Ring A)
      → length r.buf ≡ n
      → ring_push n x r ≡ record { buf = set_at r.buf r.head x; head = (r.head + 1) % n; count = n }
  unfolding ring_push
  ring_push_full n x r h = ground (arith, h)

  -- What the new buffer reads, with its first place before or after the wrap.
  overwritten :
      (n : ℕ) (x : A) (xs : List A) (i : ℕ)
      → length xs ≡ n
      → i < n
      → drop ((i + 1) % n) (set_at xs i x) ++ take ((i + 1) % n) (set_at xs i x)
        ≡ drop (suc i) xs ++ (take i xs ++ x ∷ [])
  overwritten n x xs i e h = elim (Bool-cases (ltb (suc i) n)) [
    | inl l ↦
        subst
          (λ j.
            drop j (set_at xs i x) ++ take j (set_at xs i x)
            ≡ drop (suc i) xs ++ (take i xs ++ x ∷ []))
          (sym (mod-eq_of_lt {n = i + 1} {m = n} (omega (arith, ltb→lt (suc i) n l)) ∙ add_one i))
          (ap2 (drop-set_at xs i x) (take-set_at xs i x (omega arith)))
    | inr l ↦
        subst
          (λ j.
            drop j (set_at xs i x) ++ take j (set_at xs i x)
            ≡ drop (suc i) xs ++ (take i xs ++ x ∷ []))
          (sym (wraps i n l h))
          (append_nil (set_at xs i x)
            ∙ (sym (
                  take_all (suc i) (set_at xs i x)
                    (omega (arith, length-set_at xs i x, last_place i n l h)))
                ∙ (take-set_at xs i x (omega arith)
                    ∙ ap (λ ys. ys ++ (take i xs ++ x ∷ []))
                        (sym (drop_all (suc i) xs (omega (arith, last_place i n l h)))))))
  ]

  pub ring_iterate_full :
      (n : ℕ) (x : A) (r : Ring A)
      → IsRing n r
      → length r.buf ≡ n
      → ring_iterate (ring_push n x r) ≡ drop (suc r.head) r.buf ++ (take r.head r.buf ++ x ∷ [])
  ring_iterate_full n x r h e =
      ring_iterate_lem n (ring_push n x r) (ring_push-IsRing n x r h)
      ∙ (ap (λ (t : Ring A). drop t.head t.buf ++ take t.head t.buf) (ring_push_full n x r e)
          ∙ overwritten n x r.buf r.head e h.inside)

  pub ring_iterate_room :
      (n : ℕ) (x : A) (r : Ring A)
      → IsRing n r
      → length r.buf < n
      → ring_iterate (ring_push n x r) ≡ r.buf ++ x ∷ []
  ring_iterate_room n x r h l =
      ring_iterate_lem n (ring_push n x r) (ring_push-IsRing n x r h)
      ∙ (ap (λ (t : Ring A). drop t.head t.buf ++ take t.head t.buf) (ring_push_room n x r l)
          ∙ (ap (λ j. drop j (r.buf ++ x ∷ []) ++ take j (r.buf ++ x ∷ [])) (h.start l)
              ∙ append_nil (r.buf ++ x ∷ [])))
