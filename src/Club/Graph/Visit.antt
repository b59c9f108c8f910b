-- ===== src/Club/Graph/Visit.antt =====
-- One step of the loops of `remove_unreachable_nodes` in include/club/graph.h.
use libclub.Prelude.{◌≡◌, ◌≢◌, some, refl, ap, ◌∙◌, true, ◌&&◌, ◌||◌, not, List, [], ◌∷◌, arith}
use libclub.Generic.SortedSet.{Order, insert, erase, holds, holds-insert, insert_nonempty}
use libclub.Generic.SortedMap.{find, find-put}
use libclub.Club.Graph.{Removal, peers, visit_peer, visit_peers, visit}

module _ {NodeId : Type 0} (o : Order NodeId) where
  nodes-visit_peers :
      (id : NodeId) (ids : List NodeId) (s : Removal NodeId)
      → (visit_peers o id ids s).nodes ≡ s.nodes
  unfolding visit_peers visit_peer
  nodes-visit_peers id [] s = refl
  nodes-visit_peers id (p ∷ ids) s = nodes-visit_peers id ids (visit_peer o id p s)

  not_visited-visit_peers :
      (id : NodeId) (ids : List NodeId) (s : Removal NodeId)
      → (visit_peers o id ids s).not_visited ≡ s.not_visited
  unfolding visit_peers visit_peer
  not_visited-visit_peers id [] s = refl
  not_visited-visit_peers id (p ∷ ids) s = not_visited-visit_peers id ids (visit_peer o id p s)

  to_visit-visit_peer :
      (id p : NodeId) (s : Removal NodeId) (x : NodeId)
      → holds o x (visit_peer o id p s).to_visit
        ≡ (holds o x s.to_visit || (o.same x p && not (holds o x s.nodes)))
  unfolding visit_peer
  to_visit-visit_peer id p s x = ground (
    arith,
    holds-insert o x p s.to_visit,
    λ (e : o.same x p ≡ true). ap (λ z. holds o z s.nodes) (o.same_sound x p e),
  )

  to_visit-visit_peers :
      (id : NodeId) (ids : List NodeId) (s : Removal NodeId) (x : NodeId)
      → holds o x (visit_peers o id ids s).to_visit
        ≡ (holds o x s.to_visit || (holds o x ids && not (holds o x s.nodes)))
  unfolding visit_peers holds
  to_visit-visit_peers id [] s x = ground arith
  to_visit-visit_peers id (p ∷ ids) s x =
      let kept : (visit_peer o id p s).nodes ≡ s.nodes = nodes-visit_peers id (p ∷ []) s in
      ground (
        arith,
        to_visit-visit_peers id ids (visit_peer o id p s) x,
        to_visit-visit_peer id p s x,
        ap (holds o x) kept,
      )

  edges-visit_peer :
      (id p : NodeId) (s : Removal NodeId) (x y : NodeId)
      → holds o y (peers o x (visit_peer o id p s).edges)
        ≡ (holds o y (peers o x s.edges) || (o.same x id && o.same y p))
  unfolding visit_peer holds
  edges-visit_peer id p s x y = ground (
    arith,
    find-put o x id (insert o p (peers o id s.edges)) s.edges,
    holds-insert o y p (peers o id s.edges),
    λ (e : o.same x id ≡ true). ap (λ z. find o z s.edges) (o.same_sound x id e),
  )

  edges-visit_peers :
      (id : NodeId) (ids : List NodeId) (s : Removal NodeId) (x y : NodeId)
      → holds o y (peers o x (visit_peers o id ids s).edges)
        ≡ (holds o y (peers o x s.edges) || (o.same x id && holds o y ids))
  unfolding visit_peers holds
  edges-visit_peers id [] s x y = ground arith
  edges-visit_peers id (p ∷ ids) s x y =
      ground
        (arith, edges-visit_peers id ids (visit_peer o id p s) x y, edges-visit_peer id p s x y)

  nonempty-visit_peers :
      (id : NodeId) (ids : List NodeId) (s : Removal NodeId)
      → ((x : NodeId) → find o x s.edges ≢ some [])
      → (x : NodeId) → find o x (visit_peers o id ids s).edges ≢ some []
  unfolding visit_peers visit_peer
  nonempty-visit_peers id [] s h x = h x
  nonempty-visit_peers id (p ∷ ids) s h x =
      nonempty-visit_peers id ids (visit_peer o id p s)
        (λ z k. ground (
          arith,
          h z,
          find-put o z id (insert o p (peers o id s.edges)) s.edges,
          insert_nonempty o p (peers o id s.edges),
        ))
        x

  module _ (edges : List (NodeId × List NodeId)) (id : NodeId) (s : Removal NodeId) where
    pub not_visited-visit : (visit o edges id s).not_visited ≡ erase o id s.not_visited
    unfolding visit
    not_visited-visit = not_visited-visit_peers id (peers o id edges) _

    pub nodes-visit : (visit o edges id s).nodes ≡ insert o id s.nodes
    unfolding visit
    nodes-visit = nodes-visit_peers id (peers o id edges) _

    pub holds-visit :
        (x : NodeId) → holds o x (visit o edges id s).nodes ≡ (o.same x id || holds o x s.nodes)
    holds-visit x = ap (holds o x) nodes-visit ∙ holds-insert o x id s.nodes

    pub to_visit-visit :
        (x : NodeId)
        → holds o x (visit o edges id s).to_visit ≡ (
            holds o x s.to_visit
            || (holds o x (peers o id edges) && not (o.same x id || holds o x s.nodes)))
    unfolding visit
    to_visit-visit x = ground (
      arith,
      to_visit-visit_peers id (peers o id edges)
          (record s { not_visited = erase o id s.not_visited; nodes = insert o id s.nodes }) x,
      holds-insert o x id s.nodes,
    )

    pub edges-visit :
        (x y : NodeId)
        → holds o y (peers o x (visit o edges id s).edges)
          ≡ (holds o y (peers o x s.edges) || (o.same x id && holds o y (peers o id edges)))
    unfolding visit
    edges-visit x y = edges-visit_peers id (peers o id edges) _ x y

    pub nonempty-visit :
        ((x : NodeId) → find o x s.edges ≢ some [])
        → (x : NodeId) → find o x (visit o edges id s).edges ≢ some []
    unfolding visit
    nonempty-visit h x = nonempty-visit_peers id (peers o id edges) _ h x
