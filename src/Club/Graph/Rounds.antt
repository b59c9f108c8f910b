-- ===== src/Club/Graph/Rounds.antt =====
-- The loop of `remove_unreachable_nodes` in include/club/graph.h: what holds between its steps.
use libclub.Prelude.{
  ◌≡◌, ◌≢◌, some, ap, Bool, true, ◌&&◌, ◌||◌, not, List, [], ◌∷◌, arith, Bool-cases, inl, inr,
}
use libclub.Generic.SortedSet.{Order, holds, holds-erase}
use libclub.Generic.SortedMap.{find}
use libclub.Club.Graph.{Graph, Removal, peers, visit, visit_all}
use libclub.Club.Graph.Edges.{has_edge}
use libclub.Club.Graph.Visit.{
  not_visited-visit, holds-visit, to_visit-visit, edges-visit, nonempty-visit,
}

module _ {NodeId : Type 0} (o : Order NodeId) (g : Graph NodeId) (pivot : NodeId) where
  -- There is a way along the edges.
  pub data Reach : NodeId → Type 0 where
    here : Reach pivot
    along : {x y : NodeId} → Reach x → has_edge o x y g ≡ true → Reach y

  -- Visited, or still to be visited in this round or in the next one.
  abbrev pub known : List NodeId → Removal NodeId → NodeId → Bool
  known l s x = holds o x s.nodes || (holds o x l || holds o x s.to_visit)

  pub record Between (l : List NodeId) (s : Removal NodeId) : Type 0 where
    pub pivot_known : known l s pivot ≡ true
    pub sound : (x : NodeId) → known l s x ≡ true → Reach x
    pub closed :
        (x y : NodeId) → holds o x s.nodes ≡ true → has_edge o x y g ≡ true → known l s y ≡ true
    pub split :
        (x : NodeId) → holds o x s.not_visited ≡ (holds o x g.nodes && not (holds o x s.nodes))
    pub kept :
        (x y : NodeId) → holds o y (peers o x s.edges) ≡ (holds o x s.nodes && has_edge o x y g)
    pub nonempty : (x : NodeId) → find o x s.edges ≢ some []

  pub visit-Between :
      (id : NodeId) (l : List NodeId) (s : Removal NodeId)
      → Between (id ∷ l) s
      → Between l (visit o g.edges id s)
  unfolding holds
  visit-Between id l s b = record {
    pivot_known = ground (arith, b.pivot_known, step pivot);
    sound = λ x k. by_edge x (ground (arith, k, step x));
    closed =
        λ x y n e. ground (arith, at x y, holds-visit o g.edges id s x, b.closed x y, e, step y, n);
    split = λ x. ground (
      arith,
      ap (holds o x) (not_visited-visit o g.edges id s),
      holds-erase o x id s.not_visited,
      holds-visit o g.edges id s x,
      b.split x,
    );
    kept = λ x y.
        ground
          (arith, edges-visit o g.edges id s x y, holds-visit o g.edges id s x, b.kept x y, at x y);
    nonempty = nonempty-visit o g.edges id s b.nonempty;
  }
    where
      s' : Removal NodeId
      s' = visit o g.edges id s

      at : (x y : NodeId) → o.same x id ≡ true → has_edge o x y g ≡ has_edge o id y g
      at x y h = ap (λ z. has_edge o z y g) (o.same_sound x id h)

      step : (x : NodeId) → known l s' x ≡ (known (id ∷ l) s x || has_edge o id x g)
      step x = ground (arith, holds-visit o g.edges id s x, to_visit-visit o g.edges id s x)

      reached : Reach id
      reached = b.sound id (ground (arith, o.same_refl id))

      by_edge : (x : NodeId) → (known (id ∷ l) s x || has_edge o id x g) ≡ true → Reach x
      by_edge x k = elim (Bool-cases (known (id ∷ l) s x)) [
        | inl y ↦ b.sound x y
        | inr n ↦ along reached (ground (arith, k, n))
      ]

  pub visit_all-Between :
      (l : List NodeId) (s : Removal NodeId) → Between l s → Between [] (visit_all o g.edges l s)
  unfolding visit_all
  visit_all-Between [] s b = b
  visit_all-Between (id ∷ l) s b =
      visit_all-Between l (visit o g.edges id s) (visit-Between id l s b)
