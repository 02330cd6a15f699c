-- ===== src/AhoCorasick/Reports.antt =====
-- src/core/aho-corasick.js: what a search reports, over the keywords that were added.
use shield_wall.Prelude.{
  suc, ◌≡◌, refl, sym, ap, ◌∙◌, true, ◌&&◌, Option, none, some, List, [], ◌∷◌, ◌++◌, arith, length,
  any, All, All-mono, All-append, Text, text_eq, text_eq_refl, ◌==◌, both_branches,
}
use mathlib.Core.List.{append_assoc}
use shield_wall.AhoCorasick.{
  Nodes, Automaton, create_node, new_automaton, has_node, node_at, ensure, add_nodes, push_output,
  add, follow, child_or_root, add_all, search_loop, compiled_nodes, search,
}
use shield_wall.AhoCorasick.Soundness.{
  IsSuffix, Occurs, suffix_self, suffix_trans, suffix_snoc, Emits, Good, node_at-Good, put-Good,
  follow-suffix, child-suffix, add_all-All, build-Good,
}

-- The automaton with these keywords and outputs added.
abbrev pub with_keywords : List (Text × Text) → Automaton → Automaton
with_keywords [] a = a
with_keywords (e ∷ es) a = elim (add e.0 e.1 a) [ none ↦ a | some b ↦ with_keywords es b ]

module _ (P : Text → Text → Type 0) where
  abbrev pub Reported : Text → Text → Type 0
  Reported text o = (k : Text) × P k o × Occurs k text

  emitted : (text t s w o : Text) → text ≡ t ++ s → IsSuffix w t → Emits P w o → Reported text o
  emitted text t s w o e i (k, p, j) =
      let (q, r) = suffix_trans k w t j i in (k, p, (q, s, e ∙ ap (λ x. x ++ s) r))

  search_loop-Reported :
      (m : Nodes) (text t w : Text) (results : List Text) (s : Text)
      → All (Good P) m
      → text ≡ t ++ s
      → IsSuffix w t
      → All (Reported text) results
      → All (Reported text) (search_loop m w results s)
  unfolding search_loop
  search_loop-Reported m text t w results [] g e i h = h
  search_loop-Reported m text t w results (c ∷ s) g e i h =
      let reached = follow (suc (length w)) c m (some w) in
      let next = child_or_root c reached in
      let f : text ≡ (t ++ c ∷ []) ++ s = e ∙ sym (append_assoc t (c ∷ []) s) in
      let j : IsSuffix next (t ++ c ∷ []) =
        suffix_trans next (w ++ c ∷ []) (t ++ c ∷ [])
          (child-suffix P c w reached
            (follow-suffix P (suc (length w)) c m w (some w) g (suffix_self w)))
          (suffix_snoc w t c i) in
      search_loop-Reported m text (t ++ c ∷ []) next (add_all results (node_at m next).outputs) s g
        f j
        (add_all-All P (Reported text) results (node_at m next).outputs h (
          All-mono (λ o x. emitted text (t ++ c ∷ []) s next o f j x) (node_at m next).outputs
            (node_at-Good P next m g).1))

  ensure-Good : (w : Text) (m : Nodes) → All (Good P) m → All (Good P) (ensure w m)
  unfolding ensure
  ensure-Good w m g =
      both_branches (All (Good P)) (has_node m w) g (put-Good P w create_node m (tt, tt) g)

  add_nodes-Good : (w s : Text) (m : Nodes) → All (Good P) m → All (Good P) (add_nodes w s m)
  unfolding add_nodes
  add_nodes-Good w [] m g = g
  add_nodes-Good w (c ∷ s) m g =
      add_nodes-Good (w ++ c ∷ []) s (ensure (w ++ c ∷ []) m) (ensure-Good (w ++ c ∷ []) m g)

  push_output-Good :
      (w o : Text) (m : Nodes) → P w o → All (Good P) m → All (Good P) (push_output w o m)
  unfolding push_output
  push_output-Good w o m p g =
      let n = node_at m w in
      let h = node_at-Good P w m g in
      put-Good P w (record n { outputs = n.outputs ++ o ∷ [] }) m
        (h.0, All-append (Emits P w) n.outputs (o ∷ []) h.1 ((w, p, suffix_self w), tt)) g

  GoodOption : Option Automaton → Type 0
  GoodOption none = Unit
  GoodOption (some a) = All (Good P) a.nodes

  add-Good : (k o : Text) (a : Automaton) → P k o → All (Good P) a.nodes → GoodOption (add k o a)
  unfolding add GoodOption
  add-Good k o a p g = both_branches GoodOption a.compiled tt (
      both_branches GoodOption (length k == 0) g
        (push_output-Good k o (add_nodes [] k a.nodes) p (add_nodes-Good [] k a.nodes g)))

  carried :
      (es : List (Text × Text)) (a : Automaton) (o : Option Automaton)
      → All (Good P) a.nodes
      → GoodOption o
      → ((b : Automaton) → All (Good P) b.nodes → All (Good P) (with_keywords es b).nodes)
      → All (Good P) (elim o as (λ _. Automaton) [ none ↦ a | some b ↦ with_keywords es b ]).nodes
  unfolding GoodOption
  carried es a none g h f = g
  carried es a (some b) g h f = f b h

  pub with_keywords-Good :
      (es : List (Text × Text)) (a : Automaton)
      → All (λ e. P e.0 e.1) es
      → All (Good P) a.nodes
      → All (Good P) (with_keywords es a).nodes
  with_keywords-Good [] a h g = g
  with_keywords-Good (e ∷ es) a h g =
      carried es a (add e.0 e.1 a) g (add-Good e.0 e.1 a h.0 g)
        (λ b i. with_keywords-Good es b h.1 i)

  search-Good :
      (text : Text) (a : Automaton) → All (Good P) a.nodes → All (Reported text) (search text a).1
  unfolding search compiled_nodes
  search-Good text a g =
      search_loop-Reported (compiled_nodes a).nodes text [] [] [] text
        (both_branches (λ (b : Automaton). All (Good P) b.nodes) a.compiled g (build-Good P a g))
        refl (suffix_self []) tt

  pub compiled-Good : (a : Automaton) → All (Good P) a.nodes → All (Good P) (compiled_nodes a).nodes
  unfolding compiled_nodes
  compiled-Good a g =
      both_branches (λ (b : Automaton). All (Good P) b.nodes) a.compiled g (build-Good P a g)

-- The keyword was added with the output.
abbrev pub IsAdded : List (Text × Text) → Text → Text → Type 0
IsAdded es k o = any (λ e. text_eq e.0 k && text_eq e.1 o) es ≡ true

IsAdded-tail :
    (e : Text × Text) (es : List (Text × Text)) (k o : Text) → IsAdded es k o → IsAdded (e ∷ es) k o
IsAdded-tail e es k o h = ground (arith, h)

pub each_IsAdded : (es : List (Text × Text)) → All (λ e. IsAdded es e.0 e.1) es
each_IsAdded [] = tt
each_IsAdded (e ∷ es) = (
  ground (arith, text_eq_refl e.0, text_eq_refl e.1),
  All-mono (λ f h. IsAdded-tail e es f.0 f.1 h) es (each_IsAdded es),
)

-- Whatever keywords were added with whatever outputs: each output that a search of any text gives was
-- added with a keyword that stands in the text.
pub search-Reported :
    (es : List (Text × Text)) (text : Text)
    → All (Reported (IsAdded es) text) (search text (with_keywords es new_automaton)).1
search-Reported es text =
    search-Good (IsAdded es) text (with_keywords es new_automaton)
      (with_keywords-Good (IsAdded es) es new_automaton (each_IsAdded es) ((tt, tt), tt))
