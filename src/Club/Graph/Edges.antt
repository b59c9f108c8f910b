-- ===== src/Club/Graph/Edges.antt =====
-- `add_edge` and `remove_edge` of include/club/graph.h on the edges and the nodes.
use mathlib.Core.Path.{subst}
use libclub.Prelude.{
  ap, ◌≡◌, ◌≢◌, refl, Bool, true, ◌&&◌, ◌||◌, not, List, [], ◌∷◌, some, arith, Bool-cases,
  Option-cases, inl, inr,
}
use libclub.Generic.SortedSet.{
  Order, insert, erase, holds, holds-insert, holds-erase, insert_nonempty,
}
use libclub.Generic.SortedMap.{find, find-put, find-remove}
use libclub.Club.Graph.{Graph, peers, add_edge, remove_edge}

module _ {NodeId : Type 0} (o : Order NodeId) where
  abbrev pub has_edge : NodeId → NodeId → Graph NodeId → Bool
  has_edge x y g = holds o y (peers o x g.edges)

  -- The ends of an edge are nodes, and no set of peers is empty.
  pub record IsValid (g : Graph NodeId) : Type 0 where
    pub ends :
        (x y : NodeId) → has_edge x y g ≡ true → (holds o x g.nodes && holds o y g.nodes) ≡ true
    pub nonempty : (x : NodeId) → find o x g.edges ≢ some []

  pub has_edge-add_edge :
      (from to : NodeId) (g : Graph NodeId) (x y : NodeId)
      → has_edge x y (add_edge o from to g) ≡ ((o.same x from && o.same y to) || has_edge x y g)
  unfolding add_edge
  has_edge-add_edge from to g x y = ground (
    arith,
    find-put o x from (insert o to (peers o from g.edges)) g.edges,
    holds-insert o y to (peers o from g.edges),
    o.same_sound x from,
  )

  pub has_edge-remove_edge :
      (from to : NodeId) (g : Graph NodeId) (x y : NodeId)
      → has_edge x y (remove_edge o from to g)
        ≡ (has_edge x y g && not (o.same x from && o.same y to))
  unfolding remove_edge holds
  has_edge-remove_edge from to g x y = elim (Option-cases (find o from g.edges)) [
    | inl e ↦ rw (remove_edge, e) (ground (arith, same_peers, o.same_sound x from))
    | inr (ids, e) ↦ elim (Bool-cases (holds o to ids)) [
      | inl h ↦ by_rest ids e h (erase o to ids) refl
      | inr n ↦
          rw (remove_edge, e, n)
            (ground (arith, e, same_peers, o.same_sound x from, o.same_sound y to))
    ]
  ]
    where
      same_peers : o.same x from ≡ true → find o x g.edges ≡ find o from g.edges
      same_peers h = ap (λ z. find o z g.edges) (o.same_sound x from h)

      by_rest :
          (ids : List NodeId)
          → find o from g.edges ≡ some ids
          → holds o to ids ≡ true
          → (l : List NodeId) → erase o to ids ≡ l
          → has_edge x y (remove_edge o from to g)
            ≡ (has_edge x y g && not (o.same x from && o.same y to))
      by_rest ids e h [] k =
          let left : holds o y [] ≡ (holds o y ids && not (o.same y to)) =
            subst (λ z. holds o y z ≡ (holds o y ids && not (o.same y to))) k
              (holds-erase o y to ids) in
          rw (remove_edge, e, h, k)
            (ground (arith, e, left, same_peers, find-remove o x from g.edges))
      by_rest ids e h (z ∷ l) k =
          let left : holds o y (z ∷ l) ≡ (holds o y ids && not (o.same y to)) =
            subst (λ z. holds o y z ≡ (holds o y ids && not (o.same y to))) k
              (holds-erase o y to ids) in
          rw (remove_edge, e, h, k)
            (ground (arith, e, left, same_peers, find-put o x from (z ∷ l) g.edges))

  pub add_edge-IsValid :
      (from to : NodeId) (g : Graph NodeId) → IsValid g → IsValid (add_edge o from to g)
  unfolding add_edge
  add_edge-IsValid from to g v = record {
    ends = λ x y h. ground (
      arith,
      v.ends x y,
      has_edge-add_edge from to g x y,
      holds-insert o x to (insert o from g.nodes),
      holds-insert o y to (insert o from g.nodes),
      holds-insert o x from g.nodes,
      holds-insert o y from g.nodes,
    );
    nonempty = λ x k. ground (
      arith,
      v.nonempty x,
      find-put o x from (insert o to (peers o from g.edges)) g.edges,
      insert_nonempty o to (peers o from g.edges),
    );
  }
