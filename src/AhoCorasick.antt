-- ===== src/AhoCorasick.antt =====
-- src/core/aho-corasick.js: the automaton. A node is named by the letters that lead to it from the root; the
-- children of a node are the nodes with one letter more, in the order of their making. Letters are code
-- units: a keyword of other letters, which `add` takes in pairs, is left out.
pub mod Soundness
pub mod Reports
pub mod Rounds
mod Tests
use shield_wall.Prelude.{
  ℕ, zero, suc, Bool, true, false, Option, none, some, List, [], ◌∷◌, ◌++◌, map, length, any, JsMap,
  get, put, Text, text_eq, ◌==◌, if◌then◌else◌,
}

pub record Node : Type 0 where
  pub fail : Option Text
  pub outputs : List Text

abbrev pub Nodes : Type 0
Nodes = JsMap Node

pub record Automaton : Type 0 where
  pub nodes : Nodes
  pub compiled : Bool

abbrev pub create_node : Node
create_node = record { fail = none; outputs = [] }

abbrev pub new_automaton : Automaton
new_automaton = record { nodes = ([], create_node) ∷ []; compiled = false }

unfoldable pub has_node : Nodes → Text → Bool
has_node m w = elim (get w m) [ none ↦ false | some n ↦ true ]

-- A node that is missing counts as a new one.
unfoldable pub node_or_new : Option Node → Node
node_or_new none = create_node
node_or_new (some n) = n

unfoldable pub node_at : Nodes → Text → Node
node_at m w = node_or_new (get w m)

unfoldable pub ensure : Text → Nodes → Nodes
ensure w m = if has_node m w then m else put w create_node m

unfoldable pub add_nodes : Text → Text → Nodes → Nodes
add_nodes w [] m = m
add_nodes w (c ∷ s) m = add_nodes (w ++ c ∷ []) s (ensure (w ++ c ∷ []) m)

unfoldable pub push_output : Text → Text → Nodes → Nodes
push_output w o m = let n = node_at m w in put w (record n { outputs = n.outputs ++ o ∷ [] }) m

-- `add`, which throws (`none`) after the compilation.
unfoldable pub add : Text → Text → Automaton → Option Automaton
add keyword output a =
    if a.compiled
    then none
    else if length keyword == 0
    then some a
    else some (record a { nodes = push_output keyword output (add_nodes [] keyword a.nodes) })

child_of : Text → Text → Option ℕ
child_of [] [] = none
child_of [] (c ∷ []) = some c
child_of [] (c ∷ d ∷ s) = none
child_of (x ∷ w) [] = none
child_of (x ∷ w) (y ∷ s) = if x == y then child_of w s else none

-- The letters of the children of a node.
unfoldable pub children : Text → Nodes → List ℕ
unfolding child_of
children w [] = []
children w ((k, n) ∷ m) =
    let rest = children w m in elim (child_of w k) [ none ↦ rest | some c ↦ c ∷ rest ]

-- From a node along the failure links to one that has a child for the letter, on as many rounds as the
-- node has letters and one more.
unfoldable pub follow : ℕ → ℕ → Nodes → Option Text → Option Text
follow zero c m w = none
follow (suc rounds) c m none = none
follow (suc rounds) c m (some w) =
    let further = follow rounds c m (node_at m w).fail in
    if has_node m (w ++ c ∷ []) then some w else further

unfoldable pub child_or_root : ℕ → Option Text → Text
child_or_root c none = []
child_or_root c (some w) = w ++ c ∷ []

unfoldable pub add_once : List Text → Text → List Text
unfolding text_eq
add_once os o = if any (text_eq o) os then os else os ++ o ∷ []

-- `results.add`, and `[...new Set([...a, ...b])]` where `os` is empty at first.
unfoldable pub add_all : List Text → List Text → List Text
unfolding add_once
add_all os [] = os
add_all os (p ∷ ps) = add_all (add_once os p) ps

unfoldable pub merged : List Text → List Text → List Text
merged own [] = own
merged own (p ∷ ps) = add_all [] (own ++ p ∷ ps)

-- The failure link and the outputs of one child.
unfoldable pub link : Text → ℕ → Nodes → Nodes
link w c m =
    let f = child_or_root c (follow (suc (length w)) c m (node_at m w).fail) in
    let outputs = merged (node_at m (w ++ c ∷ [])).outputs (node_at m f).outputs in
    put (w ++ c ∷ []) (record { fail = some f; outputs = outputs }) m

unfoldable pub link_all : Text → List ℕ → Nodes → Nodes
link_all w [] m = m
link_all w (c ∷ cs) m = link_all w cs (link w c m)

-- The loop over the queue, on as many rounds as there are nodes.
unfoldable pub build_loop : ℕ → List Text → Nodes → Nodes
build_loop zero queue m = m
build_loop (suc rounds) [] m = m
build_loop (suc rounds) (w ∷ queue) m =
    let cs = children w m in
    build_loop rounds (queue ++ map (λ c. w ++ c ∷ []) cs) (link_all w cs m)

-- The nodes of one letter fail to the root.
unfoldable pub link_roots : List ℕ → Nodes → Nodes
link_roots [] m = m
link_roots (c ∷ cs) m =
    link_roots cs (put (c ∷ []) (record (node_at m (c ∷ [])) { fail = some [] }) m)

unfoldable pub build : Automaton → Automaton
build a =
    let cs = children [] a.nodes in
    record {
      nodes = build_loop (length a.nodes) (map (λ c. c ∷ []) cs) (link_roots cs a.nodes);
      compiled = true;
    }

-- The loop over the text: the node, and the results.
unfoldable pub search_loop : Nodes → Text → List Text → Text → List Text
search_loop m w results [] = results
search_loop m w results (c ∷ s) =
    let next = child_or_root c (follow (suc (length w)) c m (some w)) in
    search_loop m next (add_all results (node_at m next).outputs) s

unfoldable pub compiled_nodes : Automaton → Automaton
compiled_nodes a = if a.compiled then a else build a

-- `search`, with the automaton after it.
unfoldable pub search : Text → Automaton → Automaton × List Text
search text a = let b = compiled_nodes a in (b, search_loop b.nodes [] [] text)
