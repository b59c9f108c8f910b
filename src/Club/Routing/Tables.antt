-- ===== src/Club/Routing/Tables.antt =====
-- The table of src/club/broadcast_routing_table.h after `recalculate`.
use libclub.Prelude.{
  ℕ, suc, ◌<◌, ◌≡◌, refl, ap, ◌∙◌, true, List, [], ◌∷◌, some, length, if◌then◌else◌, arith, inr,
}
use libclub.Generic.SortedSet.{Order, holds}
use libclub.Generic.SortedMap.{find, put, find-put}
use libclub.Club.Graph.{Graph, peers}
use libclub.Club.Graph.Edges.{IsValid}
use libclub.Club.Routing.{
  BroadcastRoutingTable, Search, new_table, get_targets, unvisited, search, targets, fill,
  recalculate,
}
use libclub.Club.Routing.Walk.{absent, Walk, Enough}
use libclub.Club.Routing.Resume.{resume-Ends, resume-search}

module _ {NodeId : Type 0} (o : Order NodeId) (g : Graph NodeId) where
  abbrev pub begun : Search NodeId
  begun = record { visited = []; new_to_visit = [] }

  absent_none : (nodes : List NodeId) → absent o [] nodes ≡ length nodes
  unfolding holds
  absent_none [] = refl
  absent_none (x ∷ nodes) = omega (arith, absent_none nodes)

  pub begun-Walk :
      (source : NodeId) → holds o source g.nodes ≡ true → Walk o g source (source ∷ []) begun
  unfolding holds
  begun-Walk source h = record {
    source_known = ground (arith, o.same_refl source);
    inside = λ x k. ground (
      arith,
      λ (e : o.same x source ≡ true). ap (λ z. holds o z g.nodes) (o.same_sound x source e),
    );
    closed = λ x y n e. absurd (ground arith);
  }

  pub begun-Enough :
      (source : NodeId) (fuel : ℕ)
      → length g.nodes < suc fuel
      → Enough o g source fuel (source ∷ []) begun
  unfolding holds
  begun-Enough source fuel h =
      inr (source, ground (arith, o.same_refl source), refl, omega (arith, absent_none g.nodes))

  module _ (v : IsValid o g) (my_id : NodeId) (my : holds o my_id g.nodes ≡ true) (fuel : ℕ)
      (enough : length g.nodes < suc fuel) where
    pub targets_lem :
        (source : NodeId)
        → holds o source g.nodes ≡ true
        → (visited : List NodeId) × (search o my_id g (suc fuel) (source ∷ []) [] ≡ some visited)
          × (targets o my_id g (suc fuel) source
              ≡ some (unvisited o visited (peers o my_id g.edges) []))
    unfolding targets
    targets_lem source h =
        let (visited, e) =
          resume-Ends o g my_id source v fuel (source ∷ []) begun (begun-Walk source h)
            (begun-Enough source fuel enough) in
        let ended = resume-search o g my_id fuel source ∙ e in
        (visited, ended, rw (targets, h, my, ended) refl)

    fill_lem :
        (l : List NodeId) (map : List (NodeId × List NodeId))
        → ((x : NodeId) → holds o x l ≡ true → holds o x g.nodes ≡ true)
        → (map' : List (NodeId × List NodeId)) × (fill o my_id g (suc fuel) l map ≡ some map')
          × ((source : NodeId) (ids : List NodeId)
              → targets o my_id g (suc fuel) source ≡ some ids
              → find o source map' ≡ (if holds o source l then some ids else find o source map))
    unfolding fill holds
    fill_lem [] map h = (map, refl, λ source ids e. refl)
    fill_lem (x ∷ l) map h =
        let (visited, _, t) = targets_lem x (h x (ground (arith, o.same_refl x))) in
        let mine = unvisited o visited (peers o my_id g.edges) [] in
        let (map', e, all) = fill_lem l (put o x mine map) (λ y k. h y (ground arith)) in
        (
          map',
          rw (fill, t) e,
          λ source ids k. ground (
            arith,
            all source ids k,
            find-put o source x mine map,
            k,
            t,
            λ (q : o.same source x ≡ true).
                ap (targets o my_id g (suc fuel)) (o.same_sound source x q),
          ),
        )

    pub get_targets-recalculate :
        (source : NodeId)
        → holds o source g.nodes ≡ true
        → (ids : List NodeId) → targets o my_id g (suc fuel) source ≡ some ids
        → (t : BroadcastRoutingTable NodeId) × (recalculate o (suc fuel) g (new_table o my_id)
            ≡ some t)
          × (get_targets o t source ≡ ids)
    unfolding recalculate get_targets
    get_targets-recalculate source h ids e =
        let (map, filled, all) = fill_lem g.nodes [] (λ x k. k) in
        (
          record { my_id = my_id; map = map },
          rw (recalculate, filled) refl,
          rw (get_targets, all source ids e, h) refl,
        )
