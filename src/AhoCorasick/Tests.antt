-- ===== src/AhoCorasick/Tests.antt =====
-- src/core/aho-corasick.js: a search.
use shield_wall.Prelude.{◌≡◌, refl, some, List, [], ◌∷◌, All, arith, get, put, Text, codes, text_eq}
use shield_wall.AhoCorasick.{
  Nodes, new_automaton, node_or_new, has_node, node_at, ensure, add_nodes, push_output, add,
  children, follow, child_or_root, add_all, merged, link, link_all, build_loop, link_roots, build,
  search_loop, compiled_nodes, search,
}
use shield_wall.AhoCorasick.Rounds.{Ends, follow-Ends}
use shield_wall.AhoCorasick.Reports.{with_keywords, IsAdded, Reported, search-Reported}

abbrev rules : List (Text × Text)
rules =
    (codes "he", codes "rule-1")
    ∷ (codes "she", codes "rule-2")
    ∷ (codes "his", codes "rule-3")
    ∷ (codes "hers", codes "rule-4")
    ∷ []

search-Reported_example :
    All
      (Reported (IsAdded rules) (codes "ushers"))
      (search (codes "ushers") (with_keywords rules new_automaton)).1
search-Reported_example = search-Reported rules (codes "ushers")

abbrev compiled : Nodes
compiled = (compiled_nodes (with_keywords rules new_automaton)).nodes

follow-Ends_example :
    Ends 4 (b's') compiled (some (codes "she"))
    × (follow 9 (b's') compiled (some (codes "she"))
        ≡ follow 4 (b's') compiled (some (codes "she")))
follow-Ends_example = follow-Ends rules (codes "she") (b's') 9 (omega arith)

finds :
    (search (codes "ushers") (with_keywords rules new_automaton)).1
    ≡ codes "rule-2" ∷ codes "rule-1" ∷ codes "rule-4" ∷ []
unfolding search compiled_nodes search_loop build link_roots build_loop link_all link merged add_all
    child_or_root follow children add push_output add_nodes ensure node_at node_or_new has_node get
    put text_eq
finds = refl
