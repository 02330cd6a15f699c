-- ===== src/Baselines.antt =====
-- src/modules/adaptive-baselines.js: what each path learns of its requests. The running averages are
-- floating-point numbers: they are a type of the library's with the operations that the code has.
pub mod Novelty
pub mod Bounds
mod Tests
use shield_wall.Prelude.{
  ℕ, suc, ◌+◌, Bool, true, false, ◌&&◌, ◌||◌, not, Option, none, some, List, [], ◌∷◌, ◌++◌, length,
  any, all, keep, JsMap, get, put, delete, evict_oldest, sweep, Text, codes, text_eq, starts_with,
  split, ltb, leb, ◌==◌, if◌then◌else◌,
}

-- `mix` with whether the baseline still learns (the weight 0.1 or 0.01), `is_many` and `is_long` for the
-- tests on the number of parameters and on the length of a value.
pub record Averages (A : Type 0) : Type 0 where
  pub zero_average : A
  pub exactly : ℕ → A
  pub mix : Bool → A → ℕ → A
  pub is_zero : A → Bool
  pub is_many : ℕ → A → Bool
  pub is_long : ℕ → A → Bool

pub data ParamType : Type 0 where
  int : ParamType
  float : ParamType
  jwt : ParamType
  hash : ParamType
  string : ParamType

pub record Profile (A : Type 0) : Type 0 where
  pub types : List ParamType
  pub avg_len : A

pub record Baseline (A : Type 0) : Type 0 where
  pub count : ℕ
  pub avg_params : A
  pub known_params : JsMap (Profile A)
  pub methods : List Text
  pub last_seen : ℕ

pub data Signal : Type 0 where
  param_type_anomaly : Text → List ParamType → Signal
  param_length_anomaly : Text → ℕ → Signal
  param_count_anomaly : ℕ → Signal
  unknown_params_anomaly : ℕ → Signal
  unusual_method_anomaly : Text → Signal

unfoldable pub max_baselines : ℕ
max_baselines = 2_000

unfoldable pub max_known_params : ℕ
max_known_params = 500

unfoldable pub learning_threshold : ℕ
learning_threshold = 50

is_digit : ℕ → Bool
is_digit c = leb b'0' c && leb c b'9'

is_hash_digit : ℕ → Bool
unfolding is_digit
is_hash_digit c = is_digit c || (leb b'a' c && leb c b'f') || (leb b'A' c && leb c b'F')

are_digits : Text → Bool
unfolding is_digit
are_digits s = ltb 0 (length s) && all is_digit s

without_sign : Text → Text
without_sign [] = []
without_sign (c ∷ s) = if c == b'-' then s else c ∷ s

is_pair : List Text → Bool
unfolding are_digits
is_pair (a ∷ b ∷ []) = are_digits a && are_digits b
is_pair _ = false

-- `getType`
unfoldable pub get_type : Text → ParamType
unfolding are_digits without_sign is_pair is_hash_digit split starts_with
get_type s =
    if are_digits (without_sign s)
    then int
    else if is_pair (split b'.' (without_sign s))
    then float
    else if starts_with s (codes "eyJ")
    then jwt
    else if leb 32 (length s) && all is_hash_digit s
    then hash
    else string

unfoldable pub type_eq : ParamType → ParamType → Bool
type_eq int int = true
type_eq float float = true
type_eq jwt jwt = true
type_eq hash hash = true
type_eq string string = true
type_eq _ _ = false

add_type : ParamType → List ParamType → List ParamType
unfolding type_eq
add_type t ts = if any (type_eq t) ts then ts else ts ++ t ∷ []

unfoldable pub add_method : Text → List Text → List Text
add_method m ms = if any (text_eq m) ms then ms else ms ++ m ∷ []

unfoldable pub is_string : ParamType → Bool
is_string string = true
is_string _ = false

pub record Request : Type 0 where
  -- The path is `/` where there is none.
  pub path : Text
  pub method : Text
  -- The query and the body, merged; what is falsy is the empty text.
  pub params : JsMap Text

module _ {A : Type 0} (lib : Averages A) where
  abbrev pub Baselines : Type 0
  Baselines = JsMap (Baseline A)

  unfoldable pub new_baseline : ℕ → Baseline A
  new_baseline now = record {
    count = 0;
    avg_params = lib.zero_average;
    known_params = [];
    methods = [];
    last_seen = now;
  }

  -- A baseline that is there goes to the end; for a new one there is room.
  unfoldable pub place : Text → ℕ → Baselines → Option (Baseline A) → Baselines × Baseline A
  place path now m none =
      let n = if leb max_baselines (length m) then evict_oldest m else m in
      (put path (new_baseline now) n, new_baseline now)
  place path now m (some b) =
      let seen = record b { last_seen = now } in (put path seen (delete path m), seen)

  -- `getBaseline`
  unfoldable pub get_baseline : Text → ℕ → Baselines → Baselines × Baseline A
  get_baseline path now m = place path now m (get path m)

  average_of : Bool → A → ℕ → A
  average_of learns avg n = if lib.is_zero avg then lib.exactly n else lib.mix learns avg n

  -- What a value shows, from the threshold on.
  unfoldable pub shown_by_value : ℕ → Text → Text → Profile A → List Signal
  shown_by_value count p v profile =
      let type_of = get_type v in
      if ltb count learning_threshold
      then []
      else (if ltb 0 (length profile.types)
            && not (any (type_eq type_of) profile.types)
            && is_string type_of
          then param_type_anomaly p profile.types ∷ []
          else [])
        ++ (if lib.is_long (length v) profile.avg_len
            then param_length_anomaly p (length v) ∷ []
            else [])

  unfoldable pub learnt : ℕ → Text → Profile A → Profile A
  unfolding average_of add_type get_type
  learnt count v profile = record {
    types = add_type (get_type v) profile.types;
    avg_len = average_of (leb count learning_threshold) profile.avg_len (length v);
  }

  unfoldable pub admit : Text → JsMap (Profile A) → Option (Profile A) → JsMap (Profile A)
  admit p known (some profile) = known
  admit p known none =
      if ltb (length known) max_known_params
      then put p (record { types = []; avg_len = lib.zero_average }) known
      else known

  unfoldable pub enter_value :
      ℕ → Text → Text → JsMap (Profile A) → Option (Profile A) → JsMap (Profile A) × List Signal
  enter_value count p v known none = (known, [])
  enter_value count p v known (some profile) =
      (put p (learnt count v profile) known, shown_by_value count p v profile)

  -- One parameter of a request.
  unfoldable pub enter_param : ℕ → Text → Text → JsMap (Profile A) → JsMap (Profile A) × List Signal
  enter_param count p v known =
      let admitted = admit p known (get p known) in enter_value count p v admitted (get p admitted)

  unfoldable pub enter_params : ℕ → JsMap Text → JsMap (Profile A) → JsMap (Profile A) × List Signal
  enter_params count [] known = (known, [])
  enter_params count ((p, v) ∷ ps) known =
      let (next, shown) = enter_param count p v known in
      let (final, rest) = enter_params count ps next in (final, shown ++ rest)

  unfoldable pub is_unknown : JsMap (Profile A) → Text × Text → Bool
  unfolding get
  is_unknown known e = elim (get e.0 known) [ none ↦ true | some profile ↦ false ]

  unfoldable pub unknown_in : JsMap (Profile A) → JsMap Text → JsMap Text
  unknown_in known = keep (is_unknown known)

  -- The baseline after a request, with its signals from the threshold on.
  unfoldable pub judge : Request → Baseline A → Baseline A × List Signal
  judge r b =
      let count = suc b.count in
      let n = length r.params in
      let avg =
        if count == 1
        then lib.exactly n
        else lib.mix (leb count learning_threshold) b.avg_params n in
      let (known, shown) = enter_params count r.params b.known_params in
      let methods = add_method r.method b.methods in
      let unknown = length (unknown_in known r.params) in
      (
        record b { count = count; avg_params = avg; known_params = known; methods = methods },
        if ltb count learning_threshold
            then []
            else shown
              ++ (if lib.is_many n avg then param_count_anomaly n ∷ [] else [])
              ++ (if ltb 3 unknown then unknown_params_anomaly unknown ∷ [] else [])
              ++ (if any (text_eq r.method) methods
                  then []
                  else unusual_method_anomaly r.method ∷ []),
      )

  -- `check`; its match is of a high severity with more than one signal.
  unfoldable pub check : Request → ℕ → Baselines → Baselines × List Signal
  check r now m =
      let (n, b) = get_baseline r.path now m in
      let (c, shown) = judge r b in (put r.path c n, shown)

  -- The timer: thirty minutes without a request.
  unfoldable pub unless_idle : ℕ → Baseline A → Option (Baseline A)
  unless_idle now b = if ltb (b.last_seen + 1_800_000) now then none else some b

  unfoldable pub clean : ℕ → Baselines → Baselines
  clean now m = sweep (unless_idle now) m
