-- ===== src/AhoCorasick/Rounds.antt =====
-- src/core/aho-corasick.js: the rounds of the walk along the failure links.
use shield_wall.Prelude.{
  ℕ, zero, suc, ◌≤◌, ◌<◌, ◌≡◌, refl, ap, ◌∙◌, ◌⊎◌, inl, inr, true, sym, Option, none, some, List,
  [], ◌∷◌, ◌++◌, arith, length, All, Text, if◌then◌else◌,
}
use shield_wall.AhoCorasick.{Nodes, new_automaton, has_node, node_at, follow, compiled_nodes}
use shield_wall.AhoCorasick.Soundness.{StrictOf, Good, node_at-Good}
use shield_wall.AhoCorasick.Reports.{
  with_keywords, IsAdded, each_IsAdded, with_keywords-Good, compiled-Good,
}

-- A node with fewer letters than that, where there is one.
abbrev Shorter : ℕ → Option Text → Type 0
Shorter n none = Unit
Shorter n (some f) = length f < n

Shorter-fail : (n : ℕ) (w : Text) (o : Option Text) → length w ≤ n → StrictOf w o → Shorter n o
Shorter-fail n w none l h = tt
Shorter-fail n w (some f) l h = omega (arith, h.1, l)

follow-none : (n c : ℕ) (m : Nodes) → follow n c m none ≡ none
unfolding follow
follow-none zero c m = refl
follow-none (suc n) c m = refl

-- The walk along the failure links ends within so many rounds: at a node that has the child, or past the
-- root.
abbrev pub Ends : ℕ → ℕ → Nodes → Option Text → Type 0
Ends n c m none = Unit
Ends zero c m (some v) = ⊥
Ends (suc n) c m (some v) = (has_node m (v ++ c ∷ []) ≡ true) ⊎ Ends n c m (node_at m v).fail

follow_ended :
    (n rounds c : ℕ) (m : Nodes) (o : Option Text)
    → n ≤ rounds
    → Ends n c m o
    → follow rounds c m o ≡ follow n c m o
unfolding follow
follow_ended n rounds c m none l h = follow-none rounds c m ∙ sym (follow-none n c m)
follow_ended zero rounds c m (some f) l h = absurd h
follow_ended (suc n) zero c m (some v) l h = absurd (omega (arith, l))
follow_ended (suc n) (suc rounds) c m (some v) l (inl e) = rw e refl
follow_ended (suc n) (suc rounds) c m (some v) l (inr h) =
    ap (λ further. if has_node m (v ++ c ∷ []) then some v else further)
      (follow_ended n rounds c m (node_at m v).fail (omega (arith, l)) h)

module _ (P : Text → Text → Type 0) (m : Nodes) (g : All (Good P) m) where
  walk-Ends : (n c : ℕ) (o : Option Text) → Shorter n o → Ends n c m o
  walk-Ends n c none h = tt
  walk-Ends zero c (some f) h = absurd (omega (arith, h))
  walk-Ends (suc n) c (some v) h = inr (
      walk-Ends n c (node_at m v).fail
        (Shorter-fail n v (node_at m v).fail (omega (arith, h)) (node_at-Good P v m g).0))

-- Whatever keywords were added: in the compiled automaton the walk from any node along the failure links
-- ends, at a node that has the child or past the root, within one round more than the node has letters, and
-- with more rounds its outcome is the same.
pub follow-Ends :
    (es : List (Text × Text)) (w : Text) (c rounds : ℕ)
    → suc (length w) ≤ rounds
    → Ends (suc (length w)) c (compiled_nodes (with_keywords es new_automaton)).nodes (some w)
      × (follow rounds c (compiled_nodes (with_keywords es new_automaton)).nodes (some w)
          ≡ follow
              (suc (length w))
              c
              (compiled_nodes (with_keywords es new_automaton)).nodes
              (some w))
follow-Ends es w c rounds l =
    let m = (compiled_nodes (with_keywords es new_automaton)).nodes in
    let ends =
      walk-Ends (IsAdded es) m
        (compiled-Good (IsAdded es) (with_keywords es new_automaton)
          (with_keywords-Good (IsAdded es) es new_automaton (each_IsAdded es) ((tt, tt), tt)))
        (suc (length w)) c (some w) (omega arith) in
    (ends, follow_ended (suc (length w)) rounds c m (some w) l ends)
