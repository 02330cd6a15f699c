-- ===== src/Sequence/Crowds.antt =====
-- src/modules/sequence-anomaly.js: a crowd of addresses that asks for the identifiers of one parameter.
use shield_wall.Prelude.{
  ℕ, ◌+◌, ◌≤◌, ◌≡◌, refl, ap, ◌∙◌, true, ◌&&◌, ◌||◌, Option, none, some, List, [], ◌∷◌, ◌++◌, arith,
  length, take, any, All, JsMap, get, put, sweep, get-put_self, Text, text_eq, le→leb, AllValues,
  AllValues-put,
}
use shield_wall.Sequence.Params.{identifier}
use shield_wall.Sequence.Detectors.{Config, distributed_scraping}
use shield_wall.Sequence.Fanout.{
  Resource, Resources, touch, unless_stale, total_hits, distinct_ips, access, shown_by, map_or_new,
  resource_key, detect_global_fanout,
}
use shield_wall.Sequence.Distributed.{
  contains, IsDistinct, has_ip, contains-distinct_ips, has_ip-put, total_hits-put,
  length-IsDistinct-le,
}

pub record Hit : Type 0 where
  pub val : Text
  pub ip : Text
  pub time : ℕ

abbrev pub after_hits : Config → Text → List Hit → JsMap Resource → JsMap Resource
after_hits c key [] m = m
after_hits c key (h ∷ hs) m = after_hits c key hs (access c key h.val h.ip h.time m)

-- All times lie in one window.
abbrev pub IsWithin : ℕ → ℕ → List Hit → Type 0
IsWithin start window = All (λ h. (start ≤ h.time) × (h.time ≤ start + window))

sweep-all :
    (age now start : ℕ) (m : JsMap Resource)
    → AllValues (λ r. start ≤ r.last_activity) m
    → now ≤ start + age
    → sweep (unless_stale age now) m ≡ m
unfolding sweep unless_stale
sweep-all age now start [] h k = refl
sweep-all age now start (e ∷ m) h k = ground (arith, sweep-all age now start m h.1 k)

touch_later :
    (ip : Text) (now start : ℕ) (o : Option Resource)
    → start ≤ now
    → start ≤ (touch ip now o).last_activity
unfolding touch
touch_later ip now start none h = h
touch_later ip now start (some r) h = h

module _ (c : Config) (key : Text) (start : ℕ) where
  abbrev IsFresh : JsMap Resource → Type 0
  IsFresh m = AllValues (λ r. start ≤ r.last_activity) m

  put-IsFresh :
      (h : Hit) (m : JsMap Resource)
      → start ≤ h.time
      → IsFresh m
      → IsFresh (put h.val (touch h.ip h.time (get h.val m)) m)
  put-IsFresh h m l f =
      AllValues-put (λ r. start ≤ r.last_activity) h.val (touch h.ip h.time (get h.val m)) m
        (touch_later h.ip h.time start (get h.val m) l) f

  access_lem :
      (h : Hit) (m : JsMap Resource)
      → (start ≤ h.time) × (h.time ≤ start + c.time_window_ms)
      → IsFresh m
      → access c key h.val h.ip h.time m ≡ put h.val (touch h.ip h.time (get h.val m)) m
  unfolding access
  access_lem h m w f =
      sweep-all c.time_window_ms h.time start (put h.val (touch h.ip h.time (get h.val m)) m)
        (put-IsFresh h m w.0 f) w.1

  total_hits-after_hits :
      (hs : List Hit) (m : JsMap Resource)
      → IsWithin start c.time_window_ms hs
      → IsFresh m
      → total_hits (after_hits c key hs m) ≡ length hs + total_hits m
  total_hits-after_hits [] m w f = omega arith
  total_hits-after_hits (h ∷ hs) m w f =
      let n = put h.val (touch h.ip h.time (get h.val m)) m in
      omega (
        arith,
        ap (λ x. total_hits (after_hits c key hs x)) (access_lem h m w.0 f),
        total_hits-after_hits hs n w.1 (put-IsFresh h m w.0.0 f),
        total_hits-put h.val h.ip h.time m,
      )

  has_ip-after_hits :
      (j : Text) (hs : List Hit) (m : JsMap Resource)
      → IsWithin start c.time_window_ms hs
      → IsFresh m
      → has_ip j (after_hits c key hs m) ≡ (any (λ h. text_eq j h.ip) hs || has_ip j m)
  has_ip-after_hits j [] m w f = refl
  has_ip-after_hits j (h ∷ hs) m w f =
      let n = put h.val (touch h.ip h.time (get h.val m)) m in
      ground (
        arith,
        ap (λ x. has_ip j (after_hits c key hs x)) (access_lem h m w.0 f),
        has_ip-after_hits j hs n w.1 (put-IsFresh h m w.0.0 f),
        has_ip-put h.val h.ip j h.time m,
      )

  crowd_contained :
      (who : List Text) (hs : List Hit)
      → IsWithin start c.time_window_ms hs
      → All (λ j. any (λ h. text_eq j h.ip) hs ≡ true) who
      → All (λ j. contains j (distinct_ips [] (after_hits c key hs [])) ≡ true) who
  crowd_contained [] hs w a = tt
  crowd_contained (j ∷ who) hs w a = (
    rw (contains-distinct_ips [] (after_hits c key hs []) j, has_ip-after_hits j hs [] w tt, a.0)
        refl,
    crowd_contained who hs w a.1,
  )

nothing_hit : total_hits [] ≡ 0
unfolding total_hits
nothing_hit = refl

shown_by-crowd :
    (c : Config) (key : Text) (start : ℕ) (hs : List Hit) (who : List Text)
    → IsWithin start c.time_window_ms hs
    → c.min_hits_for_fanout ≤ length hs
    → IsDistinct who
    → All (λ j. any (λ h. text_eq j h.ip) hs ≡ true) who
    → c.min_distinct_ips ≤ length who
    → shown_by c key (after_hits c key hs [])
      ≡ distributed_scraping key
          (length (distinct_ips [] (after_hits c key hs [])))
          (length hs)
          (take 5 (distinct_ips [] (after_hits c key hs [])))
        ∷ []
unfolding shown_by
shown_by-crowd c key start hs who w l d a n =
    let m = after_hits c key hs [] in
    let total : total_hits m ≡ length hs =
      omega (arith, total_hits-after_hits c key start hs [] w tt, nothing_hit) in
    rw
      (
        total,
        le→leb c.min_hits_for_fanout (length hs) l,
        le→leb c.min_distinct_ips (length (distinct_ips [] m)) (
            omega (
              arith,
              length-IsDistinct-le who (distinct_ips [] m) d
                  (crowd_contained c key start who hs w a),
            )),
      )
      refl

-- The requests as `_detectGlobalFanout` meets them, with the identifiers of one parameter.
abbrev pub enter_hits : Config → Text → List Hit → Resources → Resources
enter_hits c key [] g = g
enter_hits c key (h ∷ hs) g =
    enter_hits c key hs (detect_global_fanout c key identifier h.val h.ip h.time g).0

map_at : Text → Resources → JsMap Resource
map_at key g = map_or_new (get (resource_key key) g)

module _ (c : Config) (on : c.global_fanout_on && c.tracking_enabled ≡ true) (key : Text) where
  map_at-detect :
      (h : Hit) (g : Resources)
      → map_at key (detect_global_fanout c key identifier h.val h.ip h.time g).0
        ≡ access c key h.val h.ip h.time (map_at key g)
  unfolding detect_global_fanout map_at map_or_new
  map_at-detect h g =
      let m = access c key h.val h.ip h.time (map_at key g) in
      ground (arith, on, get-put_self (resource_key key) m g)

  map_at-enter_hits :
      (hs : List Hit) (g : Resources)
      → map_at key (enter_hits c key hs g) ≡ after_hits c key hs (map_at key g)
  map_at-enter_hits [] g = refl
  map_at-enter_hits (h ∷ hs) g =
      map_at-enter_hits hs (detect_global_fanout c key identifier h.val h.ip h.time g).0
      ∙ ap (after_hits c key hs) (map_at-detect h g)

  shown_by-detect :
      (h : Hit) (g : Resources)
      → (detect_global_fanout c key identifier h.val h.ip h.time g).1
        ≡ shown_by c key (access c key h.val h.ip h.time (map_at key g))
  unfolding detect_global_fanout map_at
  shown_by-detect h g = rw on refl

  after_hits-append :
      (hs : List Hit) (h : Hit) (m : JsMap Resource)
      → access c key h.val h.ip h.time (after_hits c key hs m) ≡ after_hits c key (hs ++ h ∷ []) m
  after_hits-append [] h m = refl
  after_hits-append (x ∷ hs) h m = after_hits-append hs h (access c key x.val x.ip x.time m)

  no_map : map_at key [] ≡ []
  unfolding map_at map_or_new get
  no_map = refl

  -- A crowd of different addresses, of at least the number that the settings give, whose requests for
  -- the identifiers of one parameter all lie in one window and are together at least as many as the
  -- settings ask for, is reported with the last of them, whatever the identifiers are and however
  -- the requests are shared among the addresses, where the detection is on and nothing was asked for
  -- before. The number of hits in the report is that of the requests.
  pub detect_global_fanout-crowd :
      (start : ℕ) (hs : List Hit) (h : Hit) (who : List Text)
      → IsWithin start c.time_window_ms (hs ++ h ∷ [])
      → c.min_hits_for_fanout ≤ length (hs ++ h ∷ [])
      → IsDistinct who
      → All (λ j. any (λ x. text_eq j x.ip) (hs ++ h ∷ []) ≡ true) who
      → c.min_distinct_ips ≤ length who
      → (detect_global_fanout c key identifier h.val h.ip h.time (enter_hits c key hs [])).1
        ≡ distributed_scraping key
            (length (distinct_ips [] (after_hits c key (hs ++ h ∷ []) [])))
            (length (hs ++ h ∷ []))
            (take 5 (distinct_ips [] (after_hits c key (hs ++ h ∷ []) [])))
          ∷ []
  detect_global_fanout-crowd start hs h who w l d a n =
      shown_by-detect h (enter_hits c key hs [])
      ∙ (ap (λ m. shown_by c key (access c key h.val h.ip h.time m))
            (map_at-enter_hits hs [] ∙ ap (after_hits c key hs) no_map)
          ∙ (ap (shown_by c key) (after_hits-append hs h [])
              ∙ shown_by-crowd c key start (hs ++ h ∷ []) who w l d a n))
