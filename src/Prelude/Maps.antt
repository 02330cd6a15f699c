-- ===== src/Prelude/Maps.antt =====
-- A JavaScript `Map` with string keys: its entries in the order of insertion. `set` on a key that is
-- there keeps the key's place.
use Prim.Native.Nat.{suc, ◌≤◌, ◌<◌}
use mathlib.Core.Path.{◌≡◌, refl}
use mathlib.Core.Logic.{◌≢◌}
use mathlib.Core.List.{List, [], ◌∷◌}
use mathlib.Core.Option.{Option, none, some}
use native.Mathlib.Omega.{arith}
use shield_wall.Prelude.Tests.{if◌then◌else◌}
use shield_wall.Prelude.Lists.{length}
use shield_wall.Prelude.Strings.{Text, text_eq, text_eq_iff, text_eq_refl, text_eq_ne}

abbrev pub JsMap {ℓ} : Type ℓ → Type ℓ
JsMap V = List (Text × V)

module _ {ℓ} {V : Type ℓ} where
  unfoldable pub get : Text → JsMap V → Option V
  get k [] = none
  get k ((j, v) ∷ m) = if text_eq j k then some v else get k m

  unfoldable pub put : Text → V → JsMap V → JsMap V
  put k v [] = (k, v) ∷ []
  put k v ((j, w) ∷ m) = if text_eq j k then (j, v) ∷ m else (j, w) ∷ put k v m

  unfoldable pub delete : Text → JsMap V → JsMap V
  delete k [] = []
  delete k ((j, w) ∷ m) = if text_eq j k then delete k m else (j, w) ∷ delete k m

  -- `m.delete(m.keys().next().value)`: on an empty map the key is `undefined`, and nothing goes.
  unfoldable pub evict_oldest : JsMap V → JsMap V
  evict_oldest [] = []
  evict_oldest ((k, v) ∷ m) = delete k ((k, v) ∷ m)

  -- A loop over the entries that stores `some v` in place and deletes on `none`.
  unfoldable pub sweep : (V → Option V) → JsMap V → JsMap V
  sweep f [] = []
  sweep f ((k, v) ∷ m) = elim (f v) [ none ↦ sweep f m | some w ↦ (k, w) ∷ sweep f m ]

  pub get-put :
      (k j : Text) (v : V) (m : JsMap V)
      → get j (put k v m) ≡ (if text_eq k j then some v else get j m)
  unfolding get put
  get-put k j v [] = refl
  get-put k j v ((i, w) ∷ m) =
      ground (arith, text_eq_iff k j, text_eq_iff i k, text_eq_iff i j, get-put k j v m)

  pub get-delete :
      (k j : Text) (m : JsMap V) → get j (delete k m) ≡ (if text_eq k j then none else get j m)
  unfolding get delete
  get-delete k j [] = ground arith
  get-delete k j ((i, w) ∷ m) =
      ground (arith, text_eq_iff k j, text_eq_iff i k, text_eq_iff i j, get-delete k j m)

  pub get-put_ne : (k j : Text) (v : V) (m : JsMap V) → k ≢ j → get j (put k v m) ≡ get j m
  get-put_ne k j v m h = rw (get-put k j v m, text_eq_ne k j h) refl

  pub get-put_self : (k : Text) (v : V) (m : JsMap V) → get k (put k v m) ≡ some v
  get-put_self k v m = rw (get-put k k v m, text_eq_refl k) refl

  pub get-delete_ne : (k j : Text) (m : JsMap V) → k ≢ j → get j (delete k m) ≡ get j m
  get-delete_ne k j m h = rw (get-delete k j m, text_eq_ne k j h) refl

  pub get-delete_self : (k : Text) (m : JsMap V) → get k (delete k m) ≡ none
  get-delete_self k m = rw (get-delete k k m, text_eq_refl k) refl

  -- The key that was inserted first is gone.
  pub get-evict_oldest_self :
      (k : Text) (v : V) (m : JsMap V) → get k (evict_oldest ((k, v) ∷ m)) ≡ none
  unfolding evict_oldest
  get-evict_oldest_self k v m = rw (get-delete k k ((k, v) ∷ m), text_eq_refl k) refl

  pub length-delete-le : (k : Text) (m : JsMap V) → length (delete k m) ≤ length m
  unfolding delete
  length-delete-le k [] = omega arith
  length-delete-le k ((i, w) ∷ m) = ground (arith, length-delete-le k m)

  pub length-evict_oldest-le : (m : JsMap V) → length (evict_oldest m) ≤ length m
  unfolding evict_oldest
  length-evict_oldest-le [] = omega arith
  length-evict_oldest-le ((k, v) ∷ m) = length-delete-le k _

  -- Evicting from a map that is not empty makes room.
  pub length-evict_oldest : (m : JsMap V) → 0 < length m → length (evict_oldest m) < length m
  unfolding evict_oldest delete
  length-evict_oldest [] h = h
  length-evict_oldest ((k, v) ∷ m) h = ground (arith, text_eq_refl k, length-delete-le k m)

  pub length-put-le : (k : Text) (v : V) (m : JsMap V) → length (put k v m) ≤ suc (length m)
  unfolding put
  length-put-le k v [] = omega arith
  length-put-le k v ((i, w) ∷ m) = ground (arith, length-put-le k v m)

  pub length-put_present :
      (k : Text) (v w : V) (m : JsMap V) → get k m ≡ some w → length (put k v m) ≡ length m
  unfolding put get
  length-put_present k v w [] h = ground arith
  length-put_present k v w ((i, u) ∷ m) h = ground (arith, length-put_present k v w m)

  pub length-put_absent :
      (k : Text) (v : V) (m : JsMap V) → get k m ≡ none → length (put k v m) ≡ suc (length m)
  unfolding put get
  length-put_absent k v [] h = refl
  length-put_absent k v ((i, u) ∷ m) h = ground (arith, length-put_absent k v m)

  pub length-sweep-le : (f : V → Option V) (m : JsMap V) → length (sweep f m) ≤ length m
  unfolding sweep
  length-sweep-le f [] = omega arith
  length-sweep-le f ((i, w) ∷ m) = ground (arith, length-sweep-le f m)

  -- The keys of a `Map` are distinct.
  abbrev pub IsMap : JsMap V → Type ℓ
  IsMap [] = Unit
  IsMap ((k, v) ∷ m) = (get k m ≡ none) × IsMap m

  pub put-IsMap : (k : Text) (v : V) (m : JsMap V) → IsMap m → IsMap (put k v m)
  unfolding put get
  put-IsMap k v [] h = (refl, tt)
  put-IsMap k v ((i, w) ∷ m) h =
      ground (arith, text_eq_iff i k, text_eq_iff k i, get-put k i v m, put-IsMap k v m h.1)

  pub delete-IsMap : (k : Text) (m : JsMap V) → IsMap m → IsMap (delete k m)
  unfolding delete get
  delete-IsMap k [] h = tt
  delete-IsMap k ((i, w) ∷ m) h =
      ground (arith, text_eq_iff k i, text_eq_iff i k, get-delete k i m, delete-IsMap k m h.1)

  pub evict_oldest-IsMap : (m : JsMap V) → IsMap m → IsMap (evict_oldest m)
  unfolding evict_oldest
  evict_oldest-IsMap [] h = h
  evict_oldest-IsMap ((k, v) ∷ m) h = delete-IsMap k ((k, v) ∷ m) h

  get-sweep_absent :
      (f : V → Option V) (j : Text) (m : JsMap V) → get j m ≡ none → get j (sweep f m) ≡ none
  unfolding sweep get
  get-sweep_absent f j [] h = refl
  get-sweep_absent f j ((i, w) ∷ m) h = ground (arith, get-sweep_absent f j m)

  -- After a sweep a key holds what the loop's body made of its value.
  pub get-sweep :
      (f : V → Option V) (j : Text) (m : JsMap V)
      → IsMap m
      → get j (sweep f m) ≡ elim (get j m) [ none ↦ none | some v ↦ f v ]
  unfolding sweep get
  get-sweep f j [] h = refl
  get-sweep f j ((i, w) ∷ m) h =
      ground (arith, text_eq_iff i j, get-sweep f j m h.1, get-sweep_absent f j m)

  pub sweep-IsMap : (f : V → Option V) (m : JsMap V) → IsMap m → IsMap (sweep f m)
  unfolding sweep
  sweep-IsMap f [] h = h
  sweep-IsMap f ((i, w) ∷ m) h = ground (arith, get-sweep_absent f i m, sweep-IsMap f m h.1)
