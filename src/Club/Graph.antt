-- ===== src/Club/Graph.antt =====
-- include/club/graph.h: a directed graph, and the removal of what a node does not reach.
pub mod Edges
pub mod Visit
pub mod Rounds
pub mod Loop
pub mod Unreachable
mod Tests
use libclub.Prelude.{
  ℕ, zero, suc, ◌+◌, Bool, List, [], ◌∷◌, Option, none, some, if◌then◌else◌, length,
}
use libclub.Generic.SortedSet.{Order, insert, erase, holds}
use libclub.Generic.SortedMap.{find, put, remove}

pub record Graph (NodeId : Type 0) : Type 0 where
  pub nodes : List NodeId
  pub edges : List (NodeId × List NodeId)

-- The variables of `remove_unreachable_nodes`: `edges` and `nodes` are those that the graph gets.
pub record Removal (NodeId : Type 0) : Type 0 where
  pub not_visited : List NodeId
  pub to_visit : List NodeId
  pub nodes : List NodeId
  pub edges : List (NodeId × List NodeId)

pub edge_count : {NodeId : Type 0} → List (NodeId × List NodeId) → ℕ
edge_count [] = 0
edge_count ((from, ids) ∷ edges) = length ids + edge_count edges

module _ {NodeId : Type 0} (o : Order NodeId) where
  -- The set of `edges[id]`, empty where the map has no such key.
  abbrev pub peers : NodeId → List (NodeId × List NodeId) → List NodeId
  peers id edges = elim (find o id edges) [ none ↦ [] | some ids ↦ ids ]

  unfoldable pub add_edge : NodeId → NodeId → Graph NodeId → Graph NodeId
  add_edge from to g = record {
    nodes = insert o to (insert o from g.nodes);
    edges = put o from (insert o to (peers from g.edges)) g.edges;
  }

  pub remove_edge : NodeId → NodeId → Graph NodeId → Graph NodeId
  remove_edge from to g = elim (find o from g.edges) [
    | none ↦ g
    | some ids ↦
        if holds o to ids
        then elim (erase o to ids) [
          | [] ↦ record g { edges = remove o from g.edges }
          | id ∷ rest ↦ record g { edges = put o from (id ∷ rest) g.edges }
        ]
        else g
  ]

  -- The loop over the peers of a node.
  pub visit_peer : NodeId → NodeId → Removal NodeId → Removal NodeId
  visit_peer id peer s = record s {
    to_visit = if holds o peer s.nodes then s.to_visit else insert o peer s.to_visit;
    edges = put o id (insert o peer (peers id s.edges)) s.edges;
  }

  pub visit_peers : NodeId → List NodeId → Removal NodeId → Removal NodeId
  visit_peers id [] s = s
  visit_peers id (peer ∷ rest) s = visit_peers id rest (visit_peer id peer s)

  module _ (edges : List (NodeId × List NodeId)) where
    pub visit : NodeId → Removal NodeId → Removal NodeId
    visit id s =
        visit_peers id (peers id edges)
          (record s { not_visited = erase o id s.not_visited; nodes = insert o id s.nodes })

    -- The loop over `to_visit_`.
    pub visit_all : List NodeId → Removal NodeId → Removal NodeId
    visit_all [] s = s
    visit_all (id ∷ rest) s = visit_all rest (visit id s)

    -- The loop until `to_visit` is empty, `none` where the fuel does not suffice.
    pub rounds : ℕ → Removal NodeId → Option (Removal NodeId)
    rounds zero s = elim s.to_visit [ [] ↦ some s | id ∷ rest ↦ none ]
    rounds (suc fuel) s = elim s.to_visit [
      | [] ↦ some s
      | id ∷ rest ↦ rounds fuel (visit_all (id ∷ rest) (record s { to_visit = [] }))
    ]

  abbrev pub start : NodeId → Graph NodeId → Removal NodeId
  start pivot g = record {
    not_visited = erase o pivot g.nodes;
    to_visit = pivot ∷ [];
    nodes = pivot ∷ [];
    edges = [];
  }

  -- What is returned, and the graph that is left. A container that was moved from is empty.
  abbrev pub answer : Option (Removal NodeId) → Option (List NodeId × Graph NodeId)
  answer none = none
  answer (some s) = some (s.not_visited, record { nodes = s.nodes; edges = s.edges })

  pub remove_unreachable_nodes : ℕ → NodeId → Graph NodeId → Option (List NodeId × Graph NodeId)
  remove_unreachable_nodes fuel pivot g =
      if holds o pivot g.nodes
      then answer (rounds g.edges fuel (start pivot g))
      else some (g.nodes, record { nodes = []; edges = [] })
