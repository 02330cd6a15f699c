-- ===== src/Mitigation/Comparison.antt =====
-- src/core/mitigation.js, `_verifySolution`: the comparison in constant time decides equality.
use shield_wall.Prelude.{
  ℕ, zero, suc, ◌/◌, ◌%◌, ◌≤◌, max, ◌≡◌, refl, sym, ap, ◌∙◌, ◌≢◌, ◌↔◌, Bool, true, false, Option,
  none, some, List, [], ◌∷◌, arith, length, JsMap, get, Text,
}
use Prim.Native.Nat.{bit_or, bit_xor, digits, differ, bit_or-bitwise, bit_xor-bitwise}
use shield_wall.Mitigation.{Crypto, Session, diff, same_bytes, solves, verify_solution}

or_digits-eq-zero : (n a b : ℕ) → a ≤ n → digits (λ b. b) max n a b ≡ 0 → (a ≡ 0) × (b ≡ 0)
or_digits-eq-zero zero zero b h e = (refl, e)
or_digits-eq-zero zero (suc a) b h e = absurd (omega arith)
or_digits-eq-zero (suc n) zero b h e = (refl, e)
or_digits-eq-zero (suc n) (suc a) b h e =
    let halves = or_digits-eq-zero n (suc a / 2) (b / 2) (omega arith) (omega arith) in
    omega (arith, halves)

bit_or-eq-zero : (a b : ℕ) → bit_or a b ≡ 0 → (a ≡ 0) × (b ≡ 0)
bit_or-eq-zero a b e = or_digits-eq-zero a a b (omega arith) (sym (bit_or-bitwise a b) ∙ e)

differ-eq-zero : (x y : ℕ) → differ x y ≡ 0 → x ≡ y
differ-eq-zero zero y e = sym e
differ-eq-zero (suc x) zero e = e
differ-eq-zero (suc x) (suc y) e = ap suc (differ-eq-zero x y e)

differ_self : (x : ℕ) → differ x x ≡ 0
differ_self zero = refl
differ_self (suc x) = differ_self x

xor_digits-eq-zero : (n a b : ℕ) → a ≤ n → digits (λ b. b) differ n a b ≡ 0 → a ≡ b
xor_digits-eq-zero zero zero b h e = sym e
xor_digits-eq-zero zero (suc a) b h e = absurd (omega arith)
xor_digits-eq-zero (suc n) zero b h e = sym e
xor_digits-eq-zero (suc n) (suc a) b h e =
    let halves = xor_digits-eq-zero n (suc a / 2) (b / 2) (omega arith) (omega arith) in
    omega (arith, halves, differ-eq-zero (suc a % 2) (b % 2) (omega arith))

xor_digits_self : (n a : ℕ) → a ≤ n → digits (λ b. b) differ n a a ≡ 0
xor_digits_self zero zero h = refl
xor_digits_self zero (suc a) h = absurd (omega arith)
xor_digits_self (suc n) zero h = refl
xor_digits_self (suc n) (suc a) h =
    omega (arith, xor_digits_self n (suc a / 2) (omega arith), differ_self (suc a % 2))

bit_xor-eq-zero : (a b : ℕ) → bit_xor a b ≡ 0 → a ≡ b
bit_xor-eq-zero a b e = xor_digits-eq-zero a a b (omega arith) (sym (bit_xor-bitwise a b) ∙ e)

bit_xor_self : (a : ℕ) → bit_xor a a ≡ 0
bit_xor_self a = bit_xor-bitwise a a ∙ xor_digits_self a a (omega arith)

-- The loop's result is 0 only if it started at 0 and the buffers agree.
diff-eq-zero :
    (acc : ℕ) (xs ys : List ℕ) → length xs ≡ length ys → diff acc xs ys ≡ 0 → (acc ≡ 0) × (xs ≡ ys)
unfolding diff
diff-eq-zero acc [] [] h e = (e, refl)
diff-eq-zero acc [] (y ∷ ys) h e = absurd (omega arith)
diff-eq-zero acc (x ∷ xs) [] h e = absurd (omega arith)
diff-eq-zero acc (x ∷ xs) (y ∷ ys) h e =
    let (joined, rest) = diff-eq-zero (bit_or acc (bit_xor x y)) xs ys (omega arith) e in
    let (start, byte) = bit_or-eq-zero acc (bit_xor x y) joined in
    (start, rw (rest, bit_xor-eq-zero x y byte) refl)

diff_self : (xs : List ℕ) → diff 0 xs xs ≡ 0
unfolding diff
diff_self [] = refl
diff_self (x ∷ xs) = rw (bit_xor_self x) (diff_self xs)

-- The comparison of two buffers, which never stops early, answers yes exactly when they are equal.
pub same_bytes_iff : (xs ys : List ℕ) → (same_bytes xs ys ≡ true) ↔ (xs ≡ ys)
unfolding same_bytes
same_bytes_iff xs ys = (
  λ h. (diff-eq-zero 0 xs ys (ground arith) (ground arith)).1,
  λ e. rw e (ground (arith, diff_self ys)),
)

solves_iff :
    (crypto : Crypto) (expected : Option Text) (solution : Text)
    → (solves crypto expected solution ≡ true)
      ↔ ((e : Text) × (e ≢ []) × (expected ≡ some e) × (crypto.from_hex solution ≡ crypto.digest e))
unfolding solves
solves_iff crypto none solution = (λ h. cc, λ (e, _, h, _). cc)
solves_iff crypto (some []) solution = (λ h. cc, λ (e, k, h, _). absurd (k (cc)))
solves_iff crypto (some (x ∷ e)) solution =
    let same = same_bytes_iff (crypto.digest (x ∷ e)) (crypto.from_hex solution) in
    (
      λ h. (x ∷ e, λ k. cc, refl, sym (same.0 h)),
      λ (e', _, h, k). same.1 (ap crypto.digest (cc) ∙ sym k),
    )

abbrev expected_of : Option Session → Option Text
expected_of none = none
expected_of (some s) = s.expected

accepts_iff :
    (crypto : Crypto) (solution : Text) (o : Option Session)
    → (elim o as (λ _. Bool) [ none ↦ false | some s ↦ solves crypto s.expected solution ] ≡ true)
      ↔ ((s : Session) × (e : Text) × (o ≡ some s)
          × (e ≢ [])
          × (s.expected ≡ some e)
          × (crypto.from_hex solution ≡ crypto.digest e))
accepts_iff crypto solution none = (λ h. cc, λ (s, e, k, _, _, _). cc)
accepts_iff crypto solution (some s) =
    let (only, enough) = solves_iff crypto s.expected solution in
    (
      λ h. let (e, full, known, same) = only h in (s, e, refl, full, known, same),
      λ (t, e, k, full, known, same). enough (e, full, ap expected_of k ∙ known, same),
    )

-- A solution is accepted exactly when it is not empty, the table holds a session with a challenge for the
-- address, and its bytes are those of the digest of that challenge.
pub verify_solution_iff :
    (crypto : Crypto) (sessions : JsMap Session) (ip solution : Text)
    → (verify_solution crypto sessions ip solution ≡ true) ↔ (
        (solution ≢ [])
        × ((s : Session) × (e : Text) × (get ip sessions ≡ some s)
            × (e ≢ [])
            × (s.expected ≡ some e)
            × (crypto.from_hex solution ≡ crypto.digest e)))
unfolding verify_solution
verify_solution_iff crypto sessions ip [] = (λ h. cc, λ h. absurd (h.0 refl))
verify_solution_iff crypto sessions ip (c ∷ cs) =
    let (only, enough) = accepts_iff crypto (c ∷ cs) (get ip sessions) in
    (λ h. (λ k. cc, only h), λ h. enough h.1)
