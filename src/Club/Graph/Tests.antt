-- ===== src/Club/Graph/Tests.antt =====
-- The results on include/club/graph.h at a graph of five nodes.
use libclub.Prelude.{ℕ, ◌≡◌, refl, [], ◌∷◌, some, List, arith}
use libclub.Generic.SortedSet.{holds, insert, erase}
use libclub.Generic.SortedMap.{find, put, remove}
use libclub.Club.MessageId.Orders.{uuids}
use libclub.Club.Graph.{
  Graph, add_edge, remove_edge, edge_count, visit_peer, visit_peers, visit, visit_all, rounds,
  remove_unreachable_nodes,
}
use libclub.Club.Graph.Edges.{IsValid, add_edge-IsValid}
use libclub.Club.Graph.Unreachable.{Parted, remove_unreachable_nodes-Parted}

abbrev no_graph : Graph ℕ
no_graph = record { nodes = []; edges = [] }

no_graph-IsValid : IsValid uuids no_graph
unfolding find holds
no_graph-IsValid = record { ends = λ x y e. absurd (ground arith); nonempty = λ x k. cc }

-- 1 → 2 → 3 → 1, and 4 → 2
abbrev some_graph : Graph ℕ
some_graph =
    add_edge uuids 4 2 (add_edge uuids 3 1 (add_edge uuids 2 3 (add_edge uuids 1 2 no_graph)))

some_graph-IsValid : IsValid uuids some_graph
some_graph-IsValid = add_edge-IsValid uuids 4 2 _ (
    add_edge-IsValid uuids 3 1 _
      (add_edge-IsValid uuids 2 3 _ (add_edge-IsValid uuids 1 2 _ no_graph-IsValid)))

remove_unreachable_nodes-Parted_example :
    (unreached : List ℕ) × (g' : Graph ℕ) × (remove_unreachable_nodes uuids 5 1 some_graph
      ≡ some (unreached, g'))
    × Parted uuids some_graph 1 unreached g'
unfolding add_edge insert
remove_unreachable_nodes-Parted_example =
    remove_unreachable_nodes-Parted uuids some_graph 1 some_graph-IsValid 5 (omega arith)

unreachable_runs :
    remove_unreachable_nodes uuids 5 1 some_graph
    ≡ some (4 ∷ [], remove_edge uuids 4 2 (record some_graph { nodes = 1 ∷ 2 ∷ 3 ∷ [] }))
unfolding remove_unreachable_nodes add_edge remove_edge holds insert erase rounds visit_all visit
    visit_peers visit_peer find put remove
unreachable_runs = refl

edge_count_runs : edge_count some_graph.edges ≡ 4
unfolding edge_count add_edge insert put find
edge_count_runs = refl
