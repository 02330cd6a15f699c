-- ===== src/Headers/Guarantees.antt =====
-- src/modules/header-security.js: the scripts that a page may run, and the headers that go.
use shield_wall.Prelude.{
  ◌≡◌, refl, sym, ap, ◌≢◌, false, not, none, some, List, [], ◌∷◌, ◌++◌, arith, All, All-append,
  keep, get, put, delete, get-delete, get-put_ne, get-put_self, get-delete_self, Text, text_eq,
  to_lower,
}
use shield_wall.Headers.{many, Directives}
use shield_wall.Headers.Policies.{
  unsafe_inline, script_src, nonce_source, with_nonce, response_directives, Headers, remove_header,
  remove_all,
}

abbrev pub IsOther : Text → Type 0
IsOther v = text_eq v unsafe_inline ≡ false

kept : (ts : List Text) → All IsOther (keep (λ v. not (text_eq v unsafe_inline)) ts)
kept [] = tt
kept (t ∷ ts) = ground (arith, kept ts)

nonce-IsOther : (nonce : Text) → text_eq (nonce_source nonce) unsafe_inline ≡ false
unfolding text_eq nonce_source
nonce-IsOther nonce = refl

-- The sources of scripts that a response allows.
abbrev pub Allowed : Text → Directives → Directives → Type 0
Allowed nonce d e =
    (ts : List Text) × (get script_src e ≡ some (many (ts ++ nonce_source nonce ∷ [])))
    × All IsOther (ts ++ nonce_source nonce ∷ [])
    × ((k : Text) → k ≢ script_src → get k e ≡ get k d)

-- With a list of sources for scripts, the directives of a response allow a list that ends with the
-- nonce of the response and has no 'unsafe-inline'; all other directives are those of the settings.
pub response_directives-Allowed :
    (nonce : Text) (d : Directives) (ts : List Text)
    → get script_src d ≡ some (many ts)
    → (e : Directives) × (response_directives nonce d ≡ some e) × Allowed nonce d e
unfolding response_directives with_nonce
response_directives-Allowed nonce d ts h =
    let left = keep (λ v. not (text_eq v unsafe_inline)) ts in
    let v = many (left ++ nonce_source nonce ∷ []) in
    (
      put script_src v d,
      ap (with_nonce nonce d) h,
      (
        left,
        get-put_self script_src v d,
        All-append IsOther left (nonce_source nonce ∷ []) (kept ts) (nonce-IsOther nonce, tt),
        λ k n. get-put_ne script_src k v d (λ e. n (sym e)),
      ),
    )

stays_gone :
    (k : Text) (ns : List Text) (h : Headers) → get k h ≡ none → get k (remove_all ns h) ≡ none
unfolding remove_all remove_header
stays_gone k [] h e = e
stays_gone k (n ∷ ns) h e =
    stays_gone k ns (delete (to_lower n) h) (ground (arith, get-delete (to_lower n) k h))

-- Every header of the list is gone.
pub All-remove_all :
    (ns : List Text) (h : Headers) → All (λ n. get (to_lower n) (remove_all ns h) ≡ none) ns
unfolding remove_all remove_header
All-remove_all [] h = tt
All-remove_all (n ∷ ns) h = (
  stays_gone (to_lower n) ns (delete (to_lower n) h) (get-delete_self (to_lower n) h),
  All-remove_all ns (delete (to_lower n) h),
)
