-- ===== src/AhoCorasick/Soundness.antt =====
-- src/core/aho-corasick.js: what a search reports was added with a keyword that stands in the text.
use shield_wall.Prelude.{
  ℕ, zero, suc, ◌≡◌, refl, sym, ap, subst, ◌∙◌, Bool, true, false, Option, none, some, List, [],
  ◌∷◌, ◌++◌, ◌<◌, arith, length-append, map, length, any, All, All-mono, All-append, get, put, Text,
  text_eq, text_eq_iff, if◌then◌else◌, both_branches,
}
use mathlib.Core.List.{append_assoc, append-nil}
use shield_wall.AhoCorasick.{
  Node, Nodes, Automaton, node_or_new, has_node, node_at, children, follow, child_or_root, add_once,
  add_all, merged, link, link_all, build_loop, link_roots, build,
}

abbrev pub IsSuffix : Text → Text → Type 0
IsSuffix f w = (p : Text) × (w ≡ p ++ f)

abbrev pub Occurs : Text → Text → Type 0
Occurs k text = (p : Text) × (q : Text) × (text ≡ (p ++ k) ++ q)

pub suffix_self : (w : Text) → IsSuffix w w
suffix_self w = ([], refl)

suffix_nil : (w : Text) → IsSuffix [] w
suffix_nil w = (w, sym (append-nil w))

pub suffix_trans : (u v w : Text) → IsSuffix u v → IsSuffix v w → IsSuffix u w
suffix_trans u v w (p, e) (q, k) = (q ++ p, k ∙ (ap (λ x. q ++ x) e ∙ sym (append_assoc q p u)))

pub suffix_snoc : (f w : Text) (c : ℕ) → IsSuffix f w → IsSuffix (f ++ c ∷ []) (w ++ c ∷ [])
suffix_snoc f w c (p, e) = (p, ap (λ x. x ++ c ∷ []) e ∙ append_assoc p f (c ∷ []))

-- A node that is reached, where one is.
abbrev pub SuffixOf : Text → Option Text → Type 0
SuffixOf w none = Unit
SuffixOf w (some f) = IsSuffix f w

-- A failure link, which leads to a shorter node.
abbrev pub StrictOf : Text → Option Text → Type 0
StrictOf w none = Unit
StrictOf w (some f) = IsSuffix f w × (length f < length w)

loosen : (w : Text) (o : Option Text) → StrictOf w o → SuffixOf w o
loosen w none h = tt
loosen w (some f) h = h.0

StrictOf-trans :
    (v w : Text) (o : Option Text)
    → IsSuffix v w
    → length v < length w
    → StrictOf v o
    → StrictOf w o
StrictOf-trans v w none s l h = tt
StrictOf-trans v w (some f) s l h = (suffix_trans f v w h.0 s, omega (arith, h.1, l))

-- What may be reported: the outputs with their keywords.
module _ (P : Text → Text → Type 0) where
  abbrev pub Emits : Text → Text → Type 0
  Emits w o = (k : Text) × P k o × IsSuffix k w

  abbrev pub Good : Text × Node → Type 0
  Good e = StrictOf e.0 e.1.fail × All (Emits e.0) e.1.outputs

  Emits-suffix : (f w o : Text) → IsSuffix f w → Emits f o → Emits w o
  Emits-suffix f w o s (k, p, t) = (k, p, suffix_trans k f w t s)

  abbrev GoodAt : Text → Option Node → Type 0
  GoodAt w none = Unit
  GoodAt w (some n) = Good (w, n)

  pick :
      (w k : Text) (n : Node) (o : Option Node) (b : Bool)
      → text_eq k w ≡ b
      → Good (k, n)
      → GoodAt w o
      → GoodAt w (if b then some n else o)
  pick w k n o true e g h = subst (λ j. Good (j, n)) ((text_eq_iff k w).0 e) g
  pick w k n o false e g h = h

  get-GoodAt : (w : Text) (m : Nodes) → All Good m → GoodAt w (get w m)
  unfolding get
  get-GoodAt w [] h = tt
  get-GoodAt w ((k, n) ∷ m) h = pick w k n (get w m) (text_eq k w) refl h.0 (get-GoodAt w m h.1)

  or_new-Good : (w : Text) (o : Option Node) → GoodAt w o → Good (w, node_or_new o)
  unfolding node_or_new
  or_new-Good w none h = (tt, tt)
  or_new-Good w (some n) h = h

  pub node_at-Good : (w : Text) (m : Nodes) → All Good m → Good (w, node_at m w)
  unfolding node_at
  node_at-Good w m h = or_new-Good w (get w m) (get-GoodAt w m h)

  replaced :
      (w k : Text) (n v : Node) (m l : Nodes) (b : Bool)
      → text_eq k w ≡ b
      → Good (w, n)
      → All Good ((k, v) ∷ m)
      → All Good l
      → All Good (if b then (k, n) ∷ m else (k, v) ∷ l)
  replaced w k n v m l true e g h i =
      (subst (λ j. Good (j, n)) (sym ((text_eq_iff k w).0 e)) g, h.1)
  replaced w k n v m l false e g h i = (h.0, i)

  pub put-Good : (w : Text) (n : Node) (m : Nodes) → Good (w, n) → All Good m → All Good (put w n m)
  unfolding put
  put-Good w n [] g h = (g, tt)
  put-Good w n ((k, v) ∷ m) g h =
      replaced w k n v m (put w n m) (text_eq k w) refl g h (put-Good w n m g h.1)

  widen : (v w : Text) (o : Option Text) → IsSuffix v w → SuffixOf v o → SuffixOf w o
  widen v w none s t = tt
  widen v w (some f) s t = suffix_trans f v w t s

  pub follow-suffix :
      (rounds c : ℕ) (m : Nodes) (w : Text) (o : Option Text)
      → All Good m
      → SuffixOf w o
      → SuffixOf w (follow rounds c m o)
  unfolding follow
  follow-suffix zero c m w o h s = tt
  follow-suffix (suc rounds) c m w none h s = tt
  follow-suffix (suc rounds) c m w (some v) h s =
      both_branches (SuffixOf w) (has_node m (v ++ c ∷ [])) s (
        follow-suffix rounds c m w (node_at m v).fail h
          (widen v w (node_at m v).fail s (loosen v (node_at m v).fail (node_at-Good v m h).0)))

  follow-strict :
      (rounds c : ℕ) (m : Nodes) (w : Text) (o : Option Text)
      → All Good m
      → StrictOf w o
      → StrictOf w (follow rounds c m o)
  unfolding follow
  follow-strict zero c m w o h s = tt
  follow-strict (suc rounds) c m w none h s = tt
  follow-strict (suc rounds) c m w (some v) h s =
      both_branches (StrictOf w) (has_node m (v ++ c ∷ [])) s (
        follow-strict rounds c m w (node_at m v).fail h
          (StrictOf-trans v w (node_at m v).fail s.0 s.1 (node_at-Good v m h).0))

  child-strict :
      (c : ℕ) (w : Text) (o : Option Text)
      → StrictOf w o
      → IsSuffix (child_or_root c o) (w ++ c ∷ [])
        × (length (child_or_root c o) < length (w ++ c ∷ []))
  unfolding child_or_root
  child-strict c w none s = (suffix_nil (w ++ c ∷ []), omega (arith, length-append w (c ∷ [])))
  child-strict c w (some v) s = (
    suffix_snoc v w c s.0,
    omega (arith, length-append v (c ∷ []), length-append w (c ∷ []), s.1),
  )

  pub child-suffix :
      (c : ℕ) (w : Text) (o : Option Text)
      → SuffixOf w o
      → IsSuffix (child_or_root c o) (w ++ c ∷ [])
  unfolding child_or_root
  child-suffix c w none s = suffix_nil (w ++ c ∷ [])
  child-suffix c w (some v) s = suffix_snoc v w c s

  pub add_all-All :
      (Q : Text → Type 0) (os ps : List Text) → All Q os → All Q ps → All Q (add_all os ps)
  unfolding add_all add_once
  add_all-All Q os [] h k = h
  add_all-All Q os (p ∷ ps) h k =
      add_all-All Q (add_once os p) ps
        (both_branches (All Q) (any (text_eq p) os) h (All-append Q os (p ∷ []) h (k.0, tt))) k.1

  merged-All : (Q : Text → Type 0) (os ps : List Text) → All Q os → All Q ps → All Q (merged os ps)
  unfolding merged
  merged-All Q os [] h k = h
  merged-All Q os (p ∷ ps) h k = add_all-All Q [] (os ++ p ∷ ps) tt (All-append Q os (p ∷ ps) h k)

  link-Good : (w : Text) (c : ℕ) (m : Nodes) → All Good m → All Good (link w c m)
  unfolding link
  link-Good w c m h =
      let f = child_or_root c (follow (suc (length w)) c m (node_at m w).fail) in
      let s : StrictOf (w ++ c ∷ []) (some f) =
        child-strict c w (follow (suc (length w)) c m (node_at m w).fail)
          (follow-strict (suc (length w)) c m w (node_at m w).fail h (node_at-Good w m h).0) in
      put-Good (w ++ c ∷ []) _ m
        (
          s,
          merged-All (Emits (w ++ c ∷ [])) (node_at m (w ++ c ∷ [])).outputs (node_at m f).outputs
              (node_at-Good (w ++ c ∷ []) m h).1
              (All-mono (λ o e. Emits-suffix f (w ++ c ∷ []) o s.0 e) (node_at m f).outputs
                (node_at-Good f m h).1),
        )
        h

  link_all-Good : (w : Text) (cs : List ℕ) (m : Nodes) → All Good m → All Good (link_all w cs m)
  unfolding link_all
  link_all-Good w [] m h = h
  link_all-Good w (c ∷ cs) m h = link_all-Good w cs (link w c m) (link-Good w c m h)

  build_loop-Good :
      (rounds : ℕ) (queue : List Text) (m : Nodes)
      → All Good m
      → All Good (build_loop rounds queue m)
  unfolding build_loop
  build_loop-Good zero queue m h = h
  build_loop-Good (suc rounds) [] m h = h
  build_loop-Good (suc rounds) (w ∷ queue) m h =
      build_loop-Good rounds (queue ++ map (λ c. w ++ c ∷ []) (children w m))
        (link_all w (children w m) m) (link_all-Good w (children w m) m h)

  link_roots-Good : (cs : List ℕ) (m : Nodes) → All Good m → All Good (link_roots cs m)
  unfolding link_roots
  link_roots-Good [] m h = h
  link_roots-Good (c ∷ cs) m h =
      link_roots-Good cs (put (c ∷ []) (record (node_at m (c ∷ [])) { fail = some [] }) m) (
        put-Good (c ∷ []) (record (node_at m (c ∷ [])) { fail = some [] }) m
          ((suffix_nil (c ∷ []), omega arith), (node_at-Good (c ∷ []) m h).1) h)

  pub build-Good : (a : Automaton) → All Good a.nodes → All Good (build a).nodes
  unfolding build
  build-Good a h =
      build_loop-Good (length a.nodes) (map (λ c. c ∷ []) (children [] a.nodes))
        (link_roots (children [] a.nodes) a.nodes) (link_roots-Good (children [] a.nodes) a.nodes h)
