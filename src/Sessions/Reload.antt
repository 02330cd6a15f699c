-- ===== src/Sessions/Reload.antt =====
-- src/modules/session-anomaly.js: the cache of the sensitive paths over reloads of the settings.
use shield_wall.Prelude.{◌≡◌, refl, ap, true, none, some, List, [], ◌∷◌, arith, Text, text_eq_refl}
use shield_wall.Sessions.Patterns.{Cache, has_signature, texts_eq, get_regexps, invalidate}

-- What happens to the cache while the list of paths stays as it is: a request, or a reload.
pub data Event : Type 0 where
  asks : Event
  reloads : Event

pub happen : List Text → Cache → List Event → Cache
happen paths c [] = c
happen paths c (asks ∷ es) = happen paths (get_regexps paths c).0 es
happen paths c (reloads ∷ es) = happen paths (invalidate c) es

abbrev pub fresh : Cache
fresh = record { regexps = none; signature = none }

pub texts_eq_refl : (ps : List Text) → texts_eq ps ps ≡ true
unfolding texts_eq
texts_eq_refl [] = refl
texts_eq_refl (p ∷ ps) = ground (arith, text_eq_refl p, texts_eq_refl ps)

abbrev stale : List Text → Cache
stale paths = record { regexps = none; signature = some paths }

get_regexps-stale : (paths : List Text) → get_regexps paths (stale paths) ≡ (stale paths, [])
unfolding get_regexps has_signature
get_regexps-stale paths = rw (texts_eq_refl paths) refl

happen-stale : (paths : List Text) (es : List Event) → happen paths (stale paths) es ≡ stale paths
unfolding happen invalidate
happen-stale paths [] = refl
happen-stale paths (asks ∷ es) = rw (get_regexps-stale paths) (happen-stale paths es)
happen-stale paths (reloads ∷ es) = happen-stale paths es

-- After one use and one reload that leaves the list of sensitive paths as it is: whatever requests and
-- such reloads follow, there is no sensitive path any more. The list is not built again.
pub get_regexps-happen :
    (paths : List Text) (es : List Event)
    → (get_regexps paths (happen paths fresh (asks ∷ reloads ∷ es))).1 ≡ []
unfolding happen get_regexps invalidate has_signature
get_regexps-happen paths es = rw (happen-stale paths es) (ap (λ x. x.1) (get_regexps-stale paths))
