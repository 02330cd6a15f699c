-- ===== src/Sequence.antt =====
-- src/modules/sequence-anomaly.js: the ring buffer that holds the last values of a parameter. An index
-- that is out of range would give `undefined` in the source; here it gives nothing (it does not happen).
mod Rounds
pub mod Contents
pub mod History
pub mod Params
pub mod Detectors
pub mod Fanout
pub mod Check
pub mod Scans
pub mod Histories
pub mod Scraping
pub mod Distributed
pub mod Crowds
pub mod Cleanup
pub mod Throws
pub mod Reload
mod Tests
use shield_wall.Prelude.{
  ℕ, zero, suc, ◌+◌, ◌-◌, ◌*◌, ◌/◌, ◌%◌, ◌^◌, ◌≤◌, ◌<◌, min, max, ◌≡◌, refl, sym, ap, subst, ◌∙◌,
  ◌≢◌, ◌↔◌, ◌⊎◌, inl, inr, ite, if_pos, if_neg, Bool, true, false, ◌&&◌, ◌||◌, not, Option, none,
  some, List, [], ◌∷◌, ◌++◌, map, filter, reverse, arith, dec_lt, dec_le, ℕ_discrete, length,
  get_elem?, set_at, take, drop, any, all, length-append, length-filter-le, length-take,
  length-drop, All, All-mono, All-append, All-append_left, All-append_right, keep, keep-append,
  keep-eq-nil, keep_comm, JsMap, get, put, delete, evict_oldest, sweep, get-put, get-delete,
  get-put_ne, get-put_self, get-delete_ne, get-delete_self, get-evict_oldest_self, length-delete-le,
  length-evict_oldest-le, length-evict_oldest, length-put-le, length-put_present, length-put_absent,
  length-sweep-le, IsMap, put-IsMap, delete-IsMap, evict_oldest-IsMap, get-sweep, sweep-IsMap, Text,
  codes, text_eq, text_eq_refl, text_eq_iff, text_eq_ne, ne_of_text_eq, starts_with, includes,
  to_lower, split_onto, split, is_space, trim_start, trim, ltb, leb, ◌==◌, if◌then◌else◌, ltb→lt,
  lt→ltb, leb→le, le→leb, ==_iff, Bool-cases, Option-cases, both_branches, AllValues, AllValues-get,
  AllValues-put, AllValues-delete, AllValues-evict_oldest, recent, length-recent-le, recent-recent,
  recent-append, recent-All, All-recent,
}

pub record Ring {ℓ} (A : Type ℓ) : Type ℓ where
  pub buf : List A
  pub head : ℕ
  pub count : ℕ

module _ {ℓ} {A : Type ℓ} where
  abbrev pub empty_ring : Ring A
  empty_ring = record { buf = []; head = 0; count = 0 }

  -- `_ringPush`
  unfoldable pub ring_push : ℕ → A → Ring A → Ring A
  ring_push max_len entry r =
      if ltb (length r.buf) max_len
      then record { buf = r.buf ++ entry ∷ []; head = r.head; count = length (r.buf ++ entry ∷ []) }
      else record {
        buf = set_at r.buf r.head entry;
        head = (r.head + 1) % max_len;
        count = max_len;
      }

  push_found : Option A → List A → List A
  push_found none out = out
  push_found (some x) out = x ∷ out

  -- `k` rounds of the second loop, from `i` on.
  pub wrap_loop : List A → ℕ → ℕ → ℕ → List A
  unfolding push_found
  wrap_loop buf head i zero = []
  wrap_loop buf head i (suc k) =
      push_found (get_elem? buf ((head + i) % length buf)) (wrap_loop buf head (i + 1) k)

  -- `_ringIterate`
  unfoldable pub ring_iterate : Ring A → List A
  unfolding wrap_loop
  ring_iterate r =
      if ltb r.count (length r.buf)
      then take r.count r.buf
      else wrap_loop r.buf r.head 0 (length r.buf)
