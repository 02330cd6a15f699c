-- ===== src/Baselines/Bounds.antt =====
-- src/modules/adaptive-baselines.js: the bounds of the table.
use shield_wall.Prelude.{
  ℕ, suc, ◌≤◌, ◌<◌, ◌≡◌, refl, sym, subst, Option, none, some, List, [], ◌∷◌, arith, length, JsMap,
  get, delete, evict_oldest, get-put_self, length-delete-le, length-evict_oldest, length-put-le,
  length-put_present, length-sweep-le, Text, leb, if◌then◌else◌, AllValues, AllValues-get,
  AllValues-put, AllValues-delete, AllValues-evict_oldest, AllValues-sweep,
}
use shield_wall.Baselines.{
  Averages, Profile, Baseline, Request, max_baselines, max_known_params, Baselines, new_baseline,
  place, get_baseline, admit, enter_value, enter_param, enter_params, judge, check, unless_idle,
  clean, learnt,
}

pub data Event : Type 0 where
  checks : Request → ℕ → Event
  ticks : ℕ → Event

module _ {A : Type 0} (lib : Averages A) where
  unfoldable pub step : Baselines lib → Event → Baselines lib
  step m (checks r now) = (check lib r now m).0
  step m (ticks now) = clean lib now m

  abbrev pub run : Baselines lib → List Event → Baselines lib
  run m [] = m
  run m (e ∷ es) = run (step m e) es

  abbrev IsSmall : Baseline A → Type 0
  IsSmall b = length b.known_params ≤ max_known_params

  pub record IsBounded (m : Baselines lib) : Type 0 where
    pub baselines : length m ≤ max_baselines
    pub params : AllValues IsSmall m

  admit-le :
      (p : Text) (known : JsMap (Profile A)) (o : Option (Profile A))
      → length known ≤ max_known_params
      → length (admit lib p known o) ≤ max_known_params
  unfolding admit
  admit-le p known none h =
      ground (arith, h, length-put-le p (record { types = []; avg_len = lib.zero_average }) known)
  admit-le p known (some f) h = h

  enter_value-le :
      (count : ℕ) (p v : Text) (known : JsMap (Profile A)) (o : Option (Profile A))
      → get p known ≡ o
      → length (enter_value lib count p v known o).0 ≤ length known
  unfolding enter_value
  enter_value-le count p v known none e = omega arith
  enter_value-le count p v known (some f) e =
      omega (arith, length-put_present p (learnt lib count v f) f known e)

  enter_params-le :
      (count : ℕ) (ps : JsMap Text) (known : JsMap (Profile A))
      → length known ≤ max_known_params
      → length (enter_params lib count ps known).0 ≤ max_known_params
  unfolding enter_params enter_param
  enter_params-le count [] known h = h
  enter_params-le count ((p, v) ∷ ps) known h =
      let admitted = admit lib p known (get p known) in
      enter_params-le count ps (enter_value lib count p v admitted (get p admitted)).0 (
        omega (
          arith,
          admit-le p known (get p known) h,
          enter_value-le count p v admitted (get p admitted) refl,
        ))

  judge-IsSmall : (r : Request) (b : Baseline A) → IsSmall b → IsSmall (judge lib r b).0
  unfolding judge
  judge-IsSmall r b h = enter_params-le (suc b.count) r.params b.known_params h

  delete_first :
      (path : Text) (b : Baseline A) (m : Baselines lib)
      → get path m ≡ some b
      → suc (length (delete path m)) ≤ length m
  unfolding get delete
  delete_first path b [] e = ground arith
  delete_first path b ((k, c) ∷ m) e =
      ground (arith, delete_first path b m, length-delete-le path m)

  make_room : Baselines lib → Baselines lib
  make_room m = if leb max_baselines (length m) then evict_oldest m else m

  make_room-le : (m : Baselines lib) → IsBounded m → length (make_room m) < max_baselines
  unfolding make_room max_baselines
  make_room-le m h = ground (arith, length-evict_oldest m, h.baselines)

  make_room-params : (m : Baselines lib) → IsBounded m → AllValues IsSmall (make_room m)
  unfolding make_room
  make_room-params m h = ground (arith, AllValues-evict_oldest IsSmall m h.params, h.params)

  -- The table with the baseline of a path, and that baseline.
  IsPlaced : Text → Baselines lib × Baseline A → Type 0
  IsPlaced path (m, b) = IsBounded m × IsSmall b × (get path m ≡ some b)

  place-IsPlaced :
      (path : Text) (now : ℕ) (m : Baselines lib) (o : Option (Baseline A))
      → get path m ≡ o
      → IsBounded m
      → IsPlaced path (place lib path now m o)
  unfolding place IsPlaced make_room new_baseline max_known_params
  place-IsPlaced path now m none e h =
      let n = make_room m in
      (
        record {
          baselines = omega (arith, length-put-le path (new_baseline lib now) n, make_room-le m h);
          params =
              AllValues-put IsSmall path (new_baseline lib now) n (omega arith)
                (make_room-params m h);
        },
        omega arith,
        get-put_self path (new_baseline lib now) n,
      )
  place-IsPlaced path now m (some b) e h =
      let seen = record b { last_seen = now } in
      let small = AllValues-get IsSmall path b m h.params e in
      (
        record {
          baselines = omega (
            arith,
            length-put-le path seen (delete path m),
            delete_first path b m e,
            h.baselines,
          );
          params =
              AllValues-put IsSmall path seen (delete path m) small
                (AllValues-delete IsSmall path m h.params);
        },
        small,
        get-put_self path seen (delete path m),
      )

  check-IsBounded :
      (r : Request) (now : ℕ) (m : Baselines lib) → IsBounded m → IsBounded (check lib r now m).0
  unfolding check get_baseline IsPlaced
  check-IsBounded r now m h =
      let (bounded, small, found) = place-IsPlaced r.path now m (get r.path m) refl h in
      let (n, b) = place lib r.path now m (get r.path m) in
      record {
        baselines =
            subst (λ k. k ≤ max_baselines)
              (sym (length-put_present r.path (judge lib r b).0 b n found)) bounded.baselines;
        params =
            AllValues-put IsSmall r.path (judge lib r b).0 n (judge-IsSmall r b small)
              bounded.params;
      }

  idle_kept : (now : ℕ) (b c : Baseline A) → IsSmall b → unless_idle lib now b ≡ some c → IsSmall c
  unfolding unless_idle
  idle_kept now b c h e = ground arith

  step-IsBounded : (m : Baselines lib) (e : Event) → IsBounded m → IsBounded (step m e)
  unfolding step clean
  step-IsBounded m (checks r now) h = check-IsBounded r now m h
  step-IsBounded m (ticks now) h = record {
    baselines = omega (arith, length-sweep-le (unless_idle lib now) m, h.baselines);
    params = AllValues-sweep IsSmall (unless_idle lib now) (idle_kept now) m h.params;
  }

  -- From a table within the bounds, whatever is checked and cleaned: there are at most 2000 baselines,
  -- each with at most 500 known parameters.
  pub run-IsBounded_baselines :
      (m : Baselines lib) (es : List Event) → IsBounded m → IsBounded (run m es)
  run-IsBounded_baselines m [] h = h
  run-IsBounded_baselines m (e ∷ es) h =
      run-IsBounded_baselines (step m e) es (step-IsBounded m e h)
