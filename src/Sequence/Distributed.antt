-- ===== src/Sequence/Distributed.antt =====
-- src/modules/sequence-anomaly.js: what `_detectGlobalFanout` counts in one window.
use shield_wall.Prelude.{
  any-append, ℕ, suc, ◌≤◌, ◌≡◌, refl, Bool, true, false, ◌||◌, List, [], ◌∷◌, arith, length, any,
  All, JsMap, get, put, Text, text_eq, text_eq_iff, if◌then◌else◌,
}
use shield_wall.Sequence.Fanout.{Resource, add_ip, touch, total_hits, add_ips, distinct_ips}

abbrev pub contains : Text → List Text → Bool
contains ip ips = any (text_eq ip) ips

-- As many different texts as a list contains, it is long.
remove : Text → List Text → List Text
remove t [] = []
remove t (x ∷ xs) = if text_eq t x then remove t xs else x ∷ remove t xs

length-remove-le : (t : Text) (xs : List Text) → length (remove t xs) ≤ length xs
unfolding remove
length-remove-le t [] = omega arith
length-remove-le t (x ∷ xs) = ground (arith, length-remove-le t xs)

length-remove :
    (t : Text) (xs : List Text) → contains t xs ≡ true → suc (length (remove t xs)) ≤ length xs
unfolding remove
length-remove t [] h = ground arith
length-remove t (x ∷ xs) h = ground (arith, length-remove t xs, length-remove-le t xs)

contains-remove :
    (t u : Text) (xs : List Text)
    → text_eq u t ≡ false
    → contains u xs ≡ true
    → contains u (remove t xs) ≡ true
unfolding remove
contains-remove t u [] h k = k
contains-remove t u (x ∷ xs) h k =
    ground (arith, text_eq_iff t x, text_eq_iff u t, text_eq_iff u x, contains-remove t u xs h)

abbrev pub IsDistinct : List Text → Type 0
IsDistinct [] = Unit
IsDistinct (t ∷ ts) = All (λ u. text_eq u t ≡ false) ts × IsDistinct ts

contained_left :
    (t : Text) (ts xs : List Text)
    → All (λ u. text_eq u t ≡ false) ts
    → All (λ u. contains u xs ≡ true) ts
    → All (λ u. contains u (remove t xs) ≡ true) ts
contained_left t [] xs h k = tt
contained_left t (u ∷ ts) xs h k = (contains-remove t u xs h.0 k.0, contained_left t ts xs h.1 k.1)

pub length-IsDistinct-le :
    (ts xs : List Text) → IsDistinct ts → All (λ u. contains u xs ≡ true) ts → length ts ≤ length xs
length-IsDistinct-le [] xs h k = omega arith
length-IsDistinct-le (t ∷ ts) xs h k = omega (
  arith,
  length-IsDistinct-le ts (remove t xs) h.1 (contained_left t ts xs h.0 k.1),
  length-remove t xs k.0,
)

contains-add_ip :
    (ip j : Text) (ips : List Text) → contains j (add_ip ip ips) ≡ (text_eq j ip || contains j ips)
unfolding add_ip
contains-add_ip ip j ips = ground (arith, any-append (text_eq j) ips (ip ∷ []), text_eq_iff j ip)

contains-add_ips :
    (ips seen : List Text) (j : Text)
    → contains j (add_ips ips seen) ≡ (contains j ips || contains j seen)
unfolding add_ips
contains-add_ips [] seen j = refl
contains-add_ips (ip ∷ ips) seen j =
    ground (arith, contains-add_ips ips (add_ip ip seen) j, contains-add_ip ip j seen)

-- Whether one of the resources was asked for by the address.
abbrev pub has_ip : Text → JsMap Resource → Bool
has_ip j m = any (λ e. contains j e.1.ips) m

pub contains-distinct_ips :
    (seen : List Text) (m : JsMap Resource) (j : Text)
    → contains j (distinct_ips seen m) ≡ (contains j seen || has_ip j m)
unfolding distinct_ips
contains-distinct_ips seen [] j = ground arith
contains-distinct_ips seen (e ∷ m) j =
    ground
      (arith, contains-distinct_ips (add_ips e.1.ips seen) m j, contains-add_ips e.1.ips seen j)

pub has_ip-put :
    (v ip j : Text) (now : ℕ) (m : JsMap Resource)
    → has_ip j (put v (touch ip now (get v m)) m) ≡ (text_eq j ip || has_ip j m)
unfolding put get touch
has_ip-put v ip j now [] = ground arith
has_ip-put v ip j now ((k, r) ∷ m) =
    ground (arith, contains-add_ip ip j r.ips, has_ip-put v ip j now m)

pub total_hits-put :
    (v ip : Text) (now : ℕ) (m : JsMap Resource)
    → total_hits (put v (touch ip now (get v m)) m) ≡ suc (total_hits m)
unfolding put get touch total_hits
total_hits-put v ip now [] = omega arith
total_hits-put v ip now ((k, r) ∷ m) = ground (arith, total_hits-put v ip now m)
