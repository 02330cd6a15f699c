-- ===== src/Prelude/Values.antt =====
-- Values that may be missing, and what holds of every value of a map.
use mathlib.Core.Path.{◌≡◌}
use mathlib.Core.List.{[], ◌∷◌}
use mathlib.Core.Option.{Option, none, some}
use mathlib.Core.Logic.{inl, inr}
use shield_wall.Prelude.Tests.{Option-cases}
use native.Mathlib.Omega.{arith}
use shield_wall.Prelude.Lists.{All}
use shield_wall.Prelude.Strings.{Text}
use shield_wall.Prelude.Maps.{JsMap, get, put, delete, evict_oldest, sweep}

-- A chain of steps that may throw.
infixl 5 ◌>>=◌
abbrev pub ◌>>=◌ {ℓ κ} : {A : Type ℓ} {B : Type κ} → Option A → (A → Option B) → Option B
none >>= f = none
some a >>= f = f a

abbrev pub AllValues {ℓ κ} : {V : Type ℓ} → (V → Type κ) → JsMap V → Type κ
AllValues P m = All (λ e. P e.1) m

module _ {ℓ κ} {V : Type ℓ} (P : V → Type κ) where
  pub AllValues-get : (k : Text) (v : V) (m : JsMap V) → AllValues P m → get k m ≡ some v → P v
  unfolding get
  AllValues-get k v [] h e = ground arith
  AllValues-get k v ((j, w) ∷ m) h e = ground (arith, AllValues-get k v m h.1)

  pub AllValues-put :
      (k : Text) (v : V) (m : JsMap V) → P v → AllValues P m → AllValues P (put k v m)
  unfolding put
  AllValues-put k v [] p h = (p, tt)
  AllValues-put k v ((j, w) ∷ m) p h = ground (arith, AllValues-put k v m p h.1)

  pub AllValues-delete : (k : Text) (m : JsMap V) → AllValues P m → AllValues P (delete k m)
  unfolding delete
  AllValues-delete k [] h = tt
  AllValues-delete k ((j, w) ∷ m) h = ground (arith, AllValues-delete k m h.1)

  pub AllValues-evict_oldest : (m : JsMap V) → AllValues P m → AllValues P (evict_oldest m)
  unfolding evict_oldest
  AllValues-evict_oldest [] h = tt
  AllValues-evict_oldest ((j, w) ∷ m) h = AllValues-delete j ((j, w) ∷ m) h

  -- What the body of a loop keeps of every value holds after the loop.
  pub AllValues-sweep :
      (f : V → Option V)
      → ((v w : V) → P v → f v ≡ some w → P w)
      → (m : JsMap V) → AllValues P m
      → AllValues P (sweep f m)
  unfolding sweep
  AllValues-sweep f keeps [] h = tt
  AllValues-sweep f keeps ((j, v) ∷ m) h = elim (Option-cases (f v)) [
    | inl e ↦ rw (e, sweep) (AllValues-sweep f keeps m h.1)
    | inr (w, e) ↦ rw (e, sweep) (keeps v w h.0 e, AllValues-sweep f keeps m h.1)
  ]
