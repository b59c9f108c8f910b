-- ===== src/Club/Routing/Steps.antt =====
-- The steps of the search of src/club/broadcast_routing_table.h.
use libclub.Prelude.{
  ◌≡◌, refl, ap, ◌∙◌, true, ◌&&◌, ◌||◌, not, List, [], ◌∷◌, arith, Bool-cases, inl, inr,
}
use libclub.Generic.SortedSet.{Order, insert, holds, holds-insert}
use libclub.Club.Graph.{Graph, peers}
use libclub.Club.Graph.Edges.{has_edge}
use libclub.Club.Routing.{Search, scan, insert_all, unvisited, visit}

module _ {NodeId : Type 0} (o : Order NodeId) where
  visited-scan : (ids : List NodeId) (s : Search NodeId) → (scan o ids s).visited ≡ s.visited
  unfolding scan
  visited-scan [] s = refl
  visited-scan (p ∷ ids) s = elim (Bool-cases (holds o p s.visited)) [
    | inl y ↦ rw (scan, y) (visited-scan ids s)
    | inr n ↦
        rw (scan, n) (visited-scan ids (record s { new_to_visit = insert o p s.new_to_visit }))
  ]

  new_to_visit-scan :
      (ids : List NodeId) (s : Search NodeId) (x : NodeId)
      → holds o x (scan o ids s).new_to_visit
        ≡ (holds o x s.new_to_visit || (holds o x ids && not (holds o x s.visited)))
  unfolding scan holds
  new_to_visit-scan [] s x = ground arith
  new_to_visit-scan (p ∷ ids) s x = elim (Bool-cases (holds o p s.visited)) [
    | inl y ↦ rw (scan, y) (ground (arith, new_to_visit-scan ids s x, at))
    | inr n ↦
        rw (scan, n)
          (ground (
            arith,
            new_to_visit-scan ids (record s { new_to_visit = insert o p s.new_to_visit }) x,
            holds-insert o x p s.new_to_visit,
            at,
          ))
  ]
    where
      at : o.same x p ≡ true → holds o x s.visited ≡ holds o p s.visited
      at e = ap (λ z. holds o z s.visited) (o.same_sound x p e)

  pub holds-insert_all :
      (l visited : List NodeId) (x : NodeId)
      → holds o x (insert_all o l visited) ≡ (holds o x l || holds o x visited)
  unfolding insert_all holds
  holds-insert_all [] visited x = ground arith
  holds-insert_all (p ∷ l) visited x =
      ground (arith, holds-insert_all l (insert o p visited) x, holds-insert o x p visited)

  pub holds-unvisited :
      (visited l retval : List NodeId) (x : NodeId)
      → holds o x (unvisited o visited l retval)
        ≡ ((holds o x l && not (holds o x visited)) || holds o x retval)
  unfolding unvisited holds
  holds-unvisited visited [] retval x = ground arith
  holds-unvisited visited (p ∷ l) retval x = elim (Bool-cases (holds o p visited)) [
    | inl y ↦ rw y (ground (arith, holds-unvisited visited l retval x, at))
    | inr n ↦ rw n (
        ground
          (arith, holds-unvisited visited l (insert o p retval) x, holds-insert o x p retval, at))
  ]
    where
      at : o.same x p ≡ true → holds o x visited ≡ holds o p visited
      at e = ap (λ z. holds o z visited) (o.same_sound x p e)

  module _ (g : Graph NodeId) (id : NodeId) (s : Search NodeId) (x : NodeId) where
    pub visited-visit : holds o x (visit o g id s).visited ≡ (o.same x id || holds o x s.visited)
    unfolding visit
    visited-visit =
        ap (holds o x) (visited-scan (peers o id g.edges) _) ∙ holds-insert o x id s.visited

    pub new_to_visit-visit : holds o x (visit o g id s).new_to_visit ≡ (
        holds o x s.new_to_visit || (has_edge o id x g && not (o.same x id || holds o x s.visited)))
    unfolding visit
    new_to_visit-visit = ground (
      arith,
      new_to_visit-scan (peers o id g.edges) (record s { visited = insert o id s.visited }) x,
      holds-insert o x id s.visited,
    )
