-- ===== src/Sequence/Params.antt =====
-- src/modules/sequence-anomaly.js: the classes of parameters, whose table is built once for a configuration,
-- and the parameters of a request.
use shield_wall.Prelude.{
  Bool, true, false, ◌&&◌, ◌||◌, not, Option, none, some, List, [], ◌∷◌, ◌++◌, map, reverse, take,
  drop, any, JsMap, get, Text, codes, text_eq, starts_with, to_lower, if◌then◌else◌,
}
use shield_wall.Sessions.Patterns.{texts_eq, is_numeric_id, is_uuid}

pub data ParamClass : Type 0 where
  identifier : ParamClass
  page : ParamClass
  batch : ParamClass

-- `config.paramClasses`, as the names of each class.
abbrev pub Classes : Type 0
Classes = JsMap (List Text)

-- `key.toLowerCase().replace(/\[\]$/, '')`
pub normalized : Text → Text
unfolding to_lower text_eq
normalized key =
    let back = reverse (to_lower key) in
    if text_eq (take 2 back) (codes "][") then reverse (drop 2 back) else to_lower key

unfoldable pub build : Classes → Classes
unfolding normalized
build classes = map (λ e. (e.0, map normalized e.1)) classes

unfoldable pub classes_eq : Classes → Classes → Bool
unfolding text_eq texts_eq
classes_eq [] [] = true
classes_eq [] (y ∷ ys) = false
classes_eq (x ∷ xs) [] = false
classes_eq (x ∷ xs) (y ∷ ys) = text_eq x.0 y.0 && texts_eq x.1 y.1 && classes_eq xs ys

-- `_classMatchers` and `_classMatchersSig`, whose JSON stands for the classes themselves.
pub record ClassCache : Type 0 where
  pub matchers : Option Classes
  pub signature : Option Classes

unfoldable pub has_signature : Classes → ClassCache → Bool
unfolding classes_eq
has_signature classes c = elim c.signature [ none ↦ false | some s ↦ classes_eq classes s ]

-- `_getClassMatchers`, which returns `null` as `none`, and `_invalidateClassMatchers`
unfoldable pub get_class_matchers : Classes → ClassCache → ClassCache × Option Classes
unfolding has_signature build
get_class_matchers classes c = elim c.matchers [
  | some m ↦ (c, some m)
  | none ↦ if has_signature classes c then (c, none) else (
    record { matchers = some (build classes); signature = some classes },
    some (build classes),
  )
]

unfoldable pub invalidate : ClassCache → ClassCache
invalidate c = record c { matchers = none }

is_in : Text → Text → Classes → Bool
unfolding get text_eq
is_in key name m = elim (get name m) [ none ↦ false | some names ↦ any (text_eq key) names ]

ends_with_id : Text → Bool
unfolding starts_with
ends_with_id s = starts_with (reverse s) (codes "di") && not (starts_with s (codes "ids"))

class_of : Text → Classes → Option ParamClass
unfolding is_in ends_with_id
class_of key m =
    if is_in key (codes "id") m
    then some identifier
    else if is_in key (codes "page") m
    then some page
    else if is_in key (codes "batch") m
    then some batch
    else if ends_with_id key
    then some identifier
    else none

-- `classifyParam`: `none` is the `TypeError` of a table that is `null`.
unfoldable pub classify_param :
    Classes → Text → ClassCache → ClassCache × Option (Option ParamClass)
unfolding class_of normalized
classify_param classes key c =
    let (d, found) = get_class_matchers classes c in
    (d, elim found [ none ↦ none | some m ↦ some (class_of (normalized key) m) ])

-- `isResourceId`
unfoldable pub is_resource_id : Text → Bool
unfolding is_numeric_id is_uuid
is_resource_id s = is_numeric_id s || is_uuid s

-- The value of a parameter: a list, an object with what stands under `value`, or anything else, as text.
pub data Value : Type 0 where
  many : List Text → Value
  boxed : Option Text → Value
  single : Text → Value

values_of : Text → Value → List (Text × Text)
values_of key (many vs) = map (λ v. (key, v)) vs
values_of key (boxed none) = []
values_of key (boxed (some v)) = (key, v) ∷ []
values_of key (single v) = (key, v) ∷ []

-- `iterParams`, over the query and the body as they are merged.
unfoldable pub iter_params : List (Text × Value) → List (Text × Text)
unfolding text_eq values_of
iter_params [] = []
iter_params ((key, val) ∷ ps) =
    let rest = iter_params ps in
    if text_eq key (codes "__proto__")
      || text_eq key (codes "constructor")
      || text_eq key (codes "prototype")
    then rest
    else values_of key val ++ rest
