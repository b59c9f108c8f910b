-- ===== src/Club/Routing.antt =====
-- src/club/broadcast_routing_table.h: to which of its peers a node forwards what a source sends to
-- all. A flat_map and a flat_set are their items in their order.
pub mod Steps
pub mod Walk
pub mod Resume
pub mod Tables
pub mod Deliver
mod Tests
use libclub.Prelude.{
  ℕ, zero, suc, Bool, true, false, ◌&&◌, List, [], ◌∷◌, Option, none, some, if◌then◌else◌,
}
use libclub.Generic.SortedSet.{Order, insert, holds}
use libclub.Generic.SortedMap.{find, put}
use libclub.Club.Graph.{Graph, peers}

pub record BroadcastRoutingTable (NodeId : Type 0) : Type 0 where
  pub my_id : NodeId
  pub map : List (NodeId × List NodeId)

-- The variables of the search.
pub record Search (NodeId : Type 0) : Type 0 where
  pub visited : List NodeId
  pub new_to_visit : List NodeId

module _ {NodeId : Type 0} (o : Order NodeId) where
  abbrev pub new_table : NodeId → BroadcastRoutingTable NodeId
  new_table my_id = record { my_id = my_id; map = [] }

  pub get_targets : BroadcastRoutingTable NodeId → NodeId → List NodeId
  get_targets t source = elim (find o source t.map) [ none ↦ [] | some ids ↦ ids ]

  -- The loop over the peers of a node.
  pub scan : List NodeId → Search NodeId → Search NodeId
  scan [] s = s
  scan (peer_id ∷ rest) s = scan rest (
      if holds o peer_id s.visited
      then s
      else record s { new_to_visit = insert o peer_id s.new_to_visit })

  -- `visited.insert(new_to_visit.begin(), new_to_visit.end())`
  pub insert_all : List NodeId → List NodeId → List NodeId
  insert_all [] visited = visited
  insert_all (x ∷ rest) visited = insert_all rest (insert o x visited)

  -- The last loop: the peers that were not visited.
  pub unvisited : List NodeId → List NodeId → List NodeId → List NodeId
  unvisited visited [] retval = retval
  unvisited visited (peer ∷ rest) retval =
      unvisited visited rest (if holds o peer visited then retval else insert o peer retval)

  pub visit : Graph NodeId → NodeId → Search NodeId → Search NodeId
  visit g id s = scan (peers o id g.edges) (record s { visited = insert o id s.visited })

  module _ (my_id : NodeId) (g : Graph NodeId) where
    -- The loop over `to_visit`: whether it left for `finish`, and the variables then.
    pub level : List NodeId → Search NodeId → Bool × Search NodeId
    level [] s = (false, s)
    level (id ∷ rest) s =
        let later = level rest (visit g id s) in
        if o.same id my_id
        then (true, record s { visited = insert_all s.new_to_visit (insert o id s.visited) })
        else later

    -- The loop until `to_visit` is empty: what was visited at `finish`, `none` where the fuel does
    -- not suffice.
    pub search : ℕ → List NodeId → List NodeId → Option (List NodeId)
    search zero [] visited = some visited
    search zero (id ∷ rest) visited = none
    search (suc fuel) [] visited = some visited
    search (suc fuel) (id ∷ rest) visited =
        let (finished, s) = level (id ∷ rest) (record { visited = visited; new_to_visit = [] }) in
        let later = search fuel s.new_to_visit s.visited in
        if finished then some s.visited else later

    -- The targets for one source, `none` where the fuel does not suffice.
    pub targets : ℕ → NodeId → Option (List NodeId)
    targets fuel source =
        if holds o source g.nodes && holds o my_id g.nodes
        then elim (search fuel (source ∷ []) []) [
          | none ↦ none
          | some visited ↦ some (unvisited visited (peers o my_id g.edges) [])
        ]
        else some []

    pub fill : ℕ → List NodeId → List (NodeId × List NodeId) → Option (List (NodeId × List NodeId))
    fill fuel [] map = some map
    fill fuel (node ∷ rest) map = elim (targets fuel node) [
      | none ↦ none
      | some ids ↦ fill fuel rest (put o node ids map)
    ]

  pub recalculate :
      ℕ → Graph NodeId → BroadcastRoutingTable NodeId → Option (BroadcastRoutingTable NodeId)
  recalculate fuel g t = elim (fill t.my_id g fuel g.nodes []) [
    | none ↦ none
    | some map ↦ some (record t { map = map })
  ]
