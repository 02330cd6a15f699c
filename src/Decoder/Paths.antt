-- ===== src/Decoder/Paths.antt =====
-- src/core/decoder.js, `normalizePath`: no part of a normalised path leads up, and none stands still.
use shield_wall.Prelude.{
  ℕ, zero, suc, ◌≡◌, refl, subst, ◌≢◌, inl, inr, Bool, true, false, ◌&&◌, ◌||◌, not, List, [], ◌∷◌,
  ◌++◌, map, reverse, arith, drop, All, All-append, Text, codes, text_eq, ne_of_text_eq, split_onto,
  split, ◌==◌, if◌then◌else◌, Bool-cases, both_branches,
}
use mathlib.Core.List.{reverse_aux, reverse-cons, reverse-reverse, append-nil, append_assoc}
use shield_wall.Decoder.{
  normalize_path, collapse_slashes, slash, resolve_parts, join, ends_with_slash,
}

abbrev Slashless : Text → Type 0
Slashless p = All (λ c. c ≢ b'/') p

-- A part that leads on.
pub record IsPart (p : Text) : Type 0 where
  pub slashless : All (λ c. c ≢ b'/') p
  pub not_up : p ≢ codes ".."
  pub not_here : p ≢ codes "."

abbrev pub IsResolved : Text → Type 0
IsResolved s = All IsPart (split b'/' s)

All-reverse {ℓ κ} : {A : Type ℓ} (P : A → Type κ) (xs : List A) → All P xs → All P (reverse xs)
All-reverse P [] h = tt
All-reverse P (x ∷ xs) h =
    rw (reverse-cons x xs) (All-append P (reverse xs) (x ∷ []) (All-reverse P xs h.1) (h.0, tt))

All-drop {ℓ κ} : {A : Type ℓ} (P : A → Type κ) (n : ℕ) (xs : List A) → All P xs → All P (drop n xs)
All-drop P zero xs h = h
All-drop P (suc n) [] h = tt
All-drop P (suc n) (x ∷ xs) h = All-drop P n xs h.1

split_onto-Slashless : (cur s : Text) → Slashless cur → All Slashless (split_onto b'/' cur s)
unfolding split_onto
split_onto-Slashless cur [] h = (All-reverse (λ c. c ≢ b'/') cur h, tt)
split_onto-Slashless cur (c ∷ s) h = elim (Bool-cases (c == b'/')) [
  | inl e ↦ rw e (All-reverse (λ c. c ≢ b'/') cur h, split_onto-Slashless [] s tt)
  | inr e ↦ rw e (split_onto-Slashless (c ∷ cur) s (λ same. ground (arith, e), h))
]

text_eq_empty_up : text_eq [] (codes "..") ≡ false
unfolding text_eq
text_eq_empty_up = refl

text_eq_empty_here : text_eq [] (codes ".") ≡ false
unfolding text_eq
text_eq_empty_here = refl

empty-IsPart : IsPart []
empty-IsPart = record {
  slashless = tt;
  not_up = ne_of_text_eq [] (codes "..") text_eq_empty_up;
  not_here = ne_of_text_eq [] (codes ".") text_eq_empty_here;
}

kept-IsPart :
    (p : Text)
    → Slashless p
    → text_eq p (codes "..") ≡ false
    → text_eq p (codes ".") ≡ false
    → IsPart p
kept-IsPart p h up here = record {
  slashless = h;
  not_up = ne_of_text_eq p (codes "..") up;
  not_here = ne_of_text_eq p (codes ".") here;
}

next_stack :
    (stack : List Text) (p : Text)
    → All IsPart stack
    → Slashless p
    → All IsPart (
        if text_eq p (codes "..")
        then drop 1 stack
        else if text_eq p (codes ".") || text_eq p []
        then stack
        else p ∷ stack)
next_stack stack p h k = elim (Bool-cases (text_eq p (codes ".."))) [
  | inl e ↦ rw e (All-drop IsPart 1 stack h)
  | inr e ↦ elim (Bool-cases (text_eq p (codes "."))) [
    | inl f ↦ rw (e, f) h
    | inr f ↦ rw (e, f) (both_branches (All IsPart) (text_eq p []) h (kept-IsPart p k e f, h))
  ]
]

other_letter : (c : ℕ) → c ≢ b'/' → (c == b'/') ≡ false
other_letter c h = ground (arith, h)

split-Slashless : (s : Text) → All Slashless (split b'/' s)
unfolding split
split-Slashless s = split_onto-Slashless [] s tt

-- What is on the stack leads on.
resolve_parts-IsPart :
    (stack parts : List Text)
    → All IsPart stack
    → All Slashless parts
    → All IsPart (resolve_parts stack parts)
unfolding resolve_parts
resolve_parts-IsPart stack [] h k = h
resolve_parts-IsPart stack (p ∷ ps) h k =
    resolve_parts-IsPart
      (if text_eq p (codes "..")
        then drop 1 stack
        else if text_eq p (codes ".") || text_eq p []
        then stack
        else p ∷ stack)
      ps (next_stack stack p h k.0) k.1

-- A part is read back whole.
split_onto-append :
    (p cur rest : Text)
    → Slashless p
    → split_onto b'/' cur (p ++ rest) ≡ split_onto b'/' (reverse_aux p cur) rest
unfolding split_onto
split_onto-append [] cur rest h = refl
split_onto-append (c ∷ p) cur rest h =
    rw (other_letter c h.0) (split_onto-append p (c ∷ cur) rest h.1)

abbrev tail_of : Bool → Text
tail_of true = b'/' ∷ []
tail_of false = []

split_onto-join :
    (ps : List Text) (slashed : Bool)
    → All IsPart ps
    → All IsPart (split_onto b'/' [] (join b'/' ps ++ tail_of slashed))
unfolding split_onto join
split_onto-join [] true h = (empty-IsPart, (empty-IsPart, tt))
split_onto-join [] false h = (empty-IsPart, tt)
split_onto-join (p ∷ []) true h =
    rw (split_onto-append p [] (b'/' ∷ []) h.0.slashless, reverse-reverse p)
      (h.0, (empty-IsPart, tt))
split_onto-join (p ∷ []) false h =
    rw (split_onto-append p [] [] h.0.slashless, reverse-reverse p) (h.0, tt)
split_onto-join (p ∷ q ∷ ps) slashed h =
    rw
      (
        append_assoc p (b'/' ∷ join b'/' (q ∷ ps)) (tail_of slashed),
        split_onto-append p [] (b'/' ∷ (join b'/' (q ∷ ps) ++ tail_of slashed)) h.0.slashless,
        reverse-reverse p,
      )
      (h.0, split_onto-join (q ∷ ps) slashed h.1)

rooted-IsResolved :
    (ps : List Text) (slashed : Bool)
    → All IsPart ps
    → IsResolved (b'/' ∷ (join b'/' ps ++ tail_of slashed))
unfolding split split_onto
rooted-IsResolved ps slashed h = (empty-IsPart, split_onto-join ps slashed h)

pub nil-IsResolved : IsResolved []
unfolding split split_onto
nil-IsResolved = (empty-IsPart, tt)

-- Of every text: none of the parts of the normalised path, which are what stands between its slashes,
-- is `..` or `.`.
pub normalize_path-IsResolved : (s : Text) → IsResolved (normalize_path s)
unfolding normalize_path
normalize_path-IsResolved s =
    let path = collapse_slashes false (map slash s) in
    let ps = reverse (resolve_parts [] (split b'/' path)) in
    let parts =
      All-reverse IsPart (resolve_parts [] (split b'/' path))
        (resolve_parts-IsPart [] (split b'/' path) tt (split-Slashless path)) in
    let bare : IsResolved (b'/' ∷ join b'/' ps) =
      subst (λ t. IsResolved (b'/' ∷ t)) (append-nil (join b'/' ps))
        (rooted-IsResolved ps false parts) in
    both_branches IsResolved (ends_with_slash path && not (ends_with_slash (b'/' ∷ join b'/' ps)))
      (rooted-IsResolved ps true parts) bare
