-- ===== src/Baselines/Tests.antt =====
-- src/modules/adaptive-baselines.js: a path that has learnt.
use shield_wall.Prelude.{
  ℕ, ◌+◌, ◌*◌, ◌≤◌, max, ◌≡◌, refl, false, [], ◌∷◌, map, arith, any, codes, ltb, ◌==◌,
}
use shield_wall.Baselines.{
  Averages, int, float, hash, string, get_type, Baseline, Request, max_known_params, judge,
}
use shield_wall.Baselines.Novelty.{is_novelty, judge-is_novelty}

-- An average that is the last number.
abbrev lib : Averages ℕ
lib = record {
  zero_average = 0;
  exactly = λ n. n;
  mix = λ learns avg n. n;
  is_zero = λ avg. avg == 0;
  is_many = λ n avg. ltb (max (avg * 3) 5) n;
  is_long = λ n avg. ltb (avg * 5 + 20) n;
}

abbrev learnt_path : Baseline ℕ
learnt_path = record {
  count = 60;
  avg_params = 1;
  known_params = (codes "id", record { types = int ∷ []; avg_len = 2 }) ∷ [];
  methods = codes "GET" ∷ [];
  last_seen = 0;
}

abbrev request : Request
request = record {
  path = codes "/a";
  method = codes "TRACE";
  params =
      (codes "is_admin", codes "1")
      ∷ (codes "role", codes "root")
      ∷ (codes "debug", codes "1")
      ∷ (codes "x", codes "1")
      ∷ [];
}

few_params : 1 + 4 ≤ max_known_params
unfolding max_known_params
few_params = omega arith

judge-is_novelty_example : any is_novelty (judge lib request learnt_path).1 ≡ false
judge-is_novelty_example = judge-is_novelty lib request learnt_path few_params

types :
    map get_type
      (codes "-12" ∷ codes "1.5" ∷ codes "0123456789abcdef0123456789ABCDEF" ∷ codes "a b" ∷ [])
    ≡ int ∷ float ∷ hash ∷ string ∷ []
unfolding get_type
types = refl
