-- ===== src/Decoder/Passes.antt =====
-- src/core/decoder.js, `fullDecode` of a path: however often it was escaped, it ends up normalised.
use shield_wall.Prelude.{
  ℕ, zero, suc, ◌≡◌, refl, subst, inl, inr, none, some, [], ◌∷◌, arith, Text, text_eq, Bool-cases,
  Option-cases,
}
use mathlib.Core.Option.{some-injective}
use shield_wall.Decoder.{
  Library, Context, normalize_path, decode_layers, base64_layer, finish_path, decode_passes,
  full_decode,
}
use shield_wall.Decoder.Paths.{IsResolved, normalize_path-IsResolved, nil-IsResolved}

module _ (lib : Library) where
  base64_layer-path : (t : Text) → base64_layer lib Context.path t ≡ none
  unfolding base64_layer
  base64_layer-path t = refl

  -- Each pass ends by normalising, so that only an input that no pass has seen could be left as it is.
  decode_passes-IsResolved :
      (n : ℕ) (s p : Text)
      → (n ≡ 0 → IsResolved s)
      → decode_passes lib n Context.path s ≡ some p
      → IsResolved p
  unfolding decode_passes finish_path
  decode_passes-IsResolved zero s p h e = subst IsResolved (some-injective s p e) (h refl)
  decode_passes-IsResolved (suc n) [] p h e =
      subst IsResolved (some-injective [] p e) nil-IsResolved
  decode_passes-IsResolved (suc n) (c ∷ cs) p h e =
      elim (Option-cases (decode_layers lib Context.path (c ∷ cs))) [
        | inl failed ↦ ground (arith, failed)
        | inr (t, layers) ↦ elim (Bool-cases (text_eq (normalize_path t) (c ∷ cs))) [
          | inl stable ↦
              subst IsResolved
                (some-injective (normalize_path t) p
                  (ground (arith, e, layers, stable, base64_layer-path t)))
                (normalize_path-IsResolved t)
          | inr changed ↦
              decode_passes-IsResolved n (normalize_path t) p (λ z. normalize_path-IsResolved t)
                (ground (arith, e, layers, changed, base64_layer-path t))
        ]
      ]

  pub full_decode-IsResolved : (s p : Text) → full_decode lib Context.path s ≡ some p → IsResolved p
  unfolding full_decode
  full_decode-IsResolved s p e = decode_passes-IsResolved 5 s p (λ z. absurd (omega arith)) e
