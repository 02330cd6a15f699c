-- ===== src/Sequence/Reload.antt =====
-- src/modules/sequence-anomaly.js: the table of classes over reloads of the settings.
use shield_wall.Prelude.{◌≡◌, refl, ap, true, none, some, List, [], ◌∷◌, arith, Text, text_eq_refl}
use shield_wall.Sessions.Reload.{texts_eq_refl}
use shield_wall.Sequence.Params.{
  Classes, ClassCache, classes_eq, has_signature, get_class_matchers, invalidate, classify_param,
}

-- What happens to the table while the classes stay as they are: a parameter is looked up, or the settings
-- are set again.
pub data Event : Type 0 where
  classifies : Text → Event
  reloads : Event

unfoldable pub happen : Classes → ClassCache → List Event → ClassCache
happen classes c [] = c
happen classes c (classifies key ∷ es) = happen classes (classify_param classes key c).0 es
happen classes c (reloads ∷ es) = happen classes (invalidate c) es

abbrev pub unused : ClassCache
unused = record { matchers = none; signature = none }

classes_eq_refl : (cs : Classes) → classes_eq cs cs ≡ true
unfolding classes_eq
classes_eq_refl [] = refl
classes_eq_refl ((k, ns) ∷ cs) =
    ground (arith, text_eq_refl k, texts_eq_refl ns, classes_eq_refl cs)

abbrev pub stale : Classes → ClassCache
stale classes = record { matchers = none; signature = some classes }

get_class_matchers-stale :
    (classes : Classes) → get_class_matchers classes (stale classes) ≡ (stale classes, none)
unfolding get_class_matchers has_signature
get_class_matchers-stale classes = rw (classes_eq_refl classes) refl

pub classify_param-stale :
    (classes : Classes) (key : Text)
    → classify_param classes key (stale classes) ≡ (stale classes, none)
unfolding classify_param
classify_param-stale classes key = rw (get_class_matchers-stale classes) refl

pub happen-stale :
    (classes : Classes) (es : List Event) → happen classes (stale classes) es ≡ stale classes
unfolding happen invalidate
happen-stale classes [] = refl
happen-stale classes (classifies key ∷ es) =
    rw (classify_param-stale classes key) (happen-stale classes es)
happen-stale classes (reloads ∷ es) = happen-stale classes es

-- After one lookup, and settings that are set again with the same classes: whatever lookups and such
-- settings follow, the lookup of any parameter throws.
pub classify_param-happen :
    (classes : Classes) (first key : Text) (es : List Event)
    → (classify_param classes key (happen classes unused (classifies first ∷ reloads ∷ es))).1
      ≡ none
unfolding happen classify_param get_class_matchers invalidate has_signature
classify_param-happen classes first key es =
    rw (happen-stale classes es) (ap (λ x. x.1) (classify_param-stale classes key))
