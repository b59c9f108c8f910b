-- ===== src/Club/Routing/Tests.antt =====
-- The results on src/club/broadcast_routing_table.h at a small group.
use libclub.Prelude.{ℕ, ◌≡◌, ◌↔◌, refl, [], ◌∷◌, some, arith}
use libclub.Generic.SortedSet.{holds, insert}
use libclub.Generic.SortedMap.{find, put}
use libclub.Club.MessageId.Orders.{uuids}
use libclub.Club.Graph.{Graph, add_edge}
use libclub.Club.Graph.Edges.{IsValid, add_edge-IsValid}
use libclub.Club.Graph.Rounds.{Reach}
use libclub.Club.Routing.{visit, scan, insert_all, unvisited, level, search, targets}
use libclub.Club.Routing.Deliver.{Delivered, Delivered-Reach}

abbrev no_edges : Graph ℕ
no_edges = record { nodes = []; edges = [] }

no_edges-IsValid : IsValid uuids no_edges
unfolding find holds
no_edges-IsValid = record { ends = λ x y e. absurd (ground arith); nonempty = λ x k. cc }

-- 1 → 2, 1 → 3 and 2 → 3
abbrev triangle : Graph ℕ
triangle = add_edge uuids 2 3 (add_edge uuids 1 3 (add_edge uuids 1 2 no_edges))

triangle-IsValid : IsValid uuids triangle
triangle-IsValid =
    add_edge-IsValid uuids 2 3 _
      (add_edge-IsValid uuids 1 3 _ (add_edge-IsValid uuids 1 2 _ no_edges-IsValid))

Delivered-Reach_example : Delivered uuids triangle 4 1 3 ↔ Reach uuids triangle 1 3
unfolding add_edge insert holds
Delivered-Reach_example = Delivered-Reach uuids triangle triangle-IsValid 4 (omega arith) 1 refl 3

-- 3 gets what 1 sends from 1 and from 2.
targets_runs :
    (targets uuids 1 triangle 4 1 ≡ some (2 ∷ 3 ∷ []))
    × (targets uuids 2 triangle 4 1 ≡ some (3 ∷ []))
unfolding targets search level visit scan insert_all unvisited add_edge insert holds find put
targets_runs = (refl, refl)
