-- ===== src/Club/Graph/Loop.antt =====
-- The loop of `remove_unreachable_nodes` in include/club/graph.h ends.
use libclub.Prelude.{
  ℕ, zero, suc, ◌≤◌, ◌<◌, ◌≡◌, refl, ap, true, false, List, [], ◌∷◌, Option, some, length, arith,
  Bool-cases, inl, inr,
}
use libclub.Generic.SortedSet.{
  Order, holds, holds-erase, empty_of_holds, holds_cases, length-erase, length-erase_of_holds,
}
use libclub.Club.Graph.{Graph, Removal, peers, visit, visit_all, rounds}
use libclub.Club.Graph.Edges.{IsValid}
use libclub.Club.Graph.Visit.{not_visited-visit, holds-visit, to_visit-visit}
use libclub.Club.Graph.Rounds.{Reach, here, along, Between, visit_all-Between}

module _ {NodeId : Type 0} (o : Order NodeId) where
  length-visit_all :
      (edges : List (NodeId × List NodeId)) (l : List NodeId) (s : Removal NodeId)
      → length (visit_all o edges l s).not_visited ≤ length s.not_visited
  unfolding visit_all
  length-visit_all edges [] s = omega arith
  length-visit_all edges (id ∷ l) s = ground (
    arith,
    length-visit_all edges l (visit o edges id s),
    ap length (not_visited-visit o edges id s),
    length-erase o id s.not_visited,
  )

  length-visit_all_of_holds :
      (edges : List (NodeId × List NodeId)) (l : List NodeId) (s : Removal NodeId) (x : NodeId)
      → holds o x l ≡ true
      → holds o x s.not_visited ≡ true
      → length (visit_all o edges l s).not_visited < length s.not_visited
  unfolding visit_all holds
  length-visit_all_of_holds edges [] s x a b = absurd (ground arith)
  length-visit_all_of_holds edges (id ∷ l) s x a b = ground (
    arith,
    length-visit_all edges l (visit o edges id s),
    length-visit_all_of_holds edges l (visit o edges id s) x,
    ap length (not_visited-visit o edges id s),
    ap (holds o x) (not_visited-visit o edges id s),
    holds-erase o x id s.not_visited,
    length-erase o id s.not_visited,
    length-erase_of_holds o id s.not_visited,
    λ (e : o.same x id ≡ true). ap (λ z. holds o z s.not_visited) (o.same_sound x id e),
  )

  -- A round that visits nothing new leaves nothing to visit.
  idle :
      (edges : List (NodeId × List NodeId)) (l : List NodeId) (s : Removal NodeId)
      → ((x : NodeId) → holds o x l ≡ true → holds o x s.nodes ≡ true)
      → ((x y : NodeId)
          → holds o x s.nodes ≡ true
          → holds o y (peers o x edges) ≡ true
          → holds o y s.nodes ≡ true)
      → s.to_visit ≡ []
      → (visit_all o edges l s).to_visit ≡ []
  unfolding visit_all holds
  idle edges [] s a c e = e
  idle edges (id ∷ l) s a c e =
      idle edges l (visit o edges id s) (λ x h. ground (arith, a x, holds-visit o edges id s x))
        (λ x y h k. ground (
          arith,
          holds-visit o edges id s x,
          holds-visit o edges id s y,
          c x y,
          c id y,
          a id,
          o.same_refl id,
          λ (e : o.same x id ≡ true). ap (λ z. holds o y (peers o z edges)) (o.same_sound x id e),
        ))
        (empty_of_holds o _ (λ x.
          ground
            (arith, to_visit-visit o edges id s x, ap (holds o x) e, c id x, a id, o.same_refl id)))

  module _ (g : Graph NodeId) (pivot : NodeId) (v : IsValid o g)
      (p : holds o pivot g.nodes ≡ true) where
    reach_nodes : (x : NodeId) → Reach o g pivot x → holds o x g.nodes ≡ true
    reach_nodes x here = p
    reach_nodes _ (along {x} {y} r e) = ground (arith, v.ends x y e)

    -- The loop got to its end, and what holds there.
    abbrev pub Done : Option (Removal NodeId) → Type 0
    Done r = (s : Removal NodeId) × (r ≡ some s) × Between o g pivot [] s × (s.to_visit ≡ [])

    abbrev next : List NodeId → Removal NodeId → Removal NodeId
    next l s = visit_all o g.edges l (record s { to_visit = [] })

    next-Between :
        (l : List NodeId) (s : Removal NodeId)
        → s.to_visit ≡ l
        → Between o g pivot [] s
        → Between o g pivot [] (next l s)
    unfolding holds
    next-Between l s k b =
        visit_all-Between o g pivot l (record s { to_visit = [] })
          (record {
            pivot_known = ground (arith, b.pivot_known, at pivot);
            sound = λ x h. b.sound x (ground (arith, at x));
            closed = λ x y n e. ground (arith, b.closed x y n e, at y);
            split = b.split;
            kept = b.kept;
            nonempty = b.nonempty;
          })
      where
        at : (x : NodeId) → holds o x s.to_visit ≡ holds o x l
        at x = ap (holds o x) k

    -- What is known of a list without unvisited nodes was visited before.
    next_idle :
        (l : List NodeId) (s : Removal NodeId)
        → s.to_visit ≡ l
        → Between o g pivot [] s
        → ((x : NodeId) → holds o x l ≡ true → holds o x s.not_visited ≡ false)
        → (next l s).to_visit ≡ []
    unfolding holds
    next_idle l s k b none_of =
        idle g.edges l (record s { to_visit = [] }) visited
          (λ x y n e. elim (Bool-cases (holds o y l)) [
            | inl h ↦ visited y h
            | inr h ↦ ground (arith, b.closed x y n e, at y)
          ])
          refl
      where
        at : (x : NodeId) → holds o x s.to_visit ≡ holds o x l
        at x = ap (holds o x) k

        visited : (x : NodeId) → holds o x l ≡ true → holds o x s.nodes ≡ true
        visited x h =
            let node : holds o x g.nodes ≡ true =
              reach_nodes x (b.sound x (ground (arith, at x))) in
            ground (arith, b.split x, none_of x h)

    rounds_none :
        (fuel : ℕ) (s : Removal NodeId)
        → Between o g pivot [] s
        → s.to_visit ≡ []
        → Done (rounds o g.edges fuel s)
    unfolding rounds
    rounds_none zero s b k = rw (rounds, k) (s, refl, b, k)
    rounds_none (suc fuel) s b k = rw (rounds, k) (s, refl, b, k)

    -- A round more than there are nodes to visit is enough.
    pub rounds_enough :
        (fuel : ℕ) (s : Removal NodeId)
        → Between o g pivot [] s
        → length s.not_visited < fuel
        → Done (rounds o g.edges fuel s)
    unfolding rounds
    rounds_enough zero s b h = absurd (omega arith)
    rounds_enough (suc fuel) s b h = by_todo (rounds_enough fuel) s.to_visit refl
      where
        by_todo :
            ((s' : Removal NodeId)
              → Between o g pivot [] s'
              → length s'.not_visited < fuel
              → Done (rounds o g.edges fuel s'))
            → (l : List NodeId) → s.to_visit ≡ l
            → Done (rounds o g.edges (suc fuel) s)
        by_todo ih [] k = rw (rounds, k) (s, refl, b, k)
        by_todo ih (id ∷ l) k =
            rw (rounds, k)
              (elim (holds_cases o (id ∷ l) s.not_visited) [
                | inl (x, now, unvisited) ↦ ih (next (id ∷ l) s) (next-Between (id ∷ l) s k b) (
                    ground (
                      arith,
                      length-visit_all_of_holds g.edges (id ∷ l) (record s { to_visit = [] }) x now
                          unvisited,
                    ))
                | inr none_of ↦
                    rounds_none fuel (next (id ∷ l) s) (next-Between (id ∷ l) s k b)
                      (next_idle (id ∷ l) s k b none_of)
              ])
