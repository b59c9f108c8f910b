-- ===== src/Club/Graph/Unreachable.antt =====
-- `remove_unreachable_nodes` of include/club/graph.h as a whole.
use mathlib.Core.Path.{subst}
use libclub.Prelude.{
  ℕ, zero, suc, ◌<◌, ◌≡◌, ◌↔◌, refl, sym, ap, ◌∙◌, true, false, ◌&&◌, not, List, [], ◌∷◌, some,
  length, arith, Bool-cases, inl, inr,
}
use libclub.Generic.SortedSet.{Order, insert, holds, erase_idem, insert_self, length-erase_of_holds}
use libclub.Generic.SortedMap.{find}
use libclub.Club.Graph.{
  Graph, Removal, visit, visit_all, rounds, start, answer, remove_unreachable_nodes,
}
use libclub.Club.Graph.Edges.{has_edge, IsValid}
use libclub.Club.Graph.Visit.{not_visited-visit}
use libclub.Club.Graph.Rounds.{Reach, here, along, Between, visit-Between}
use libclub.Club.Graph.Loop.{rounds_enough}

module _ {NodeId : Type 0} (o : Order NodeId) (g : Graph NodeId) (pivot : NodeId) where
  -- `g'` is the part of `g` that `pivot` reaches, if it is a node, and `unreached` the other nodes.
  pub record Parted (unreached : List NodeId) (g' : Graph NodeId) : Type 0 where
    pub nodes :
        (x : NodeId)
        → (holds o x g'.nodes ≡ true) ↔ ((holds o pivot g.nodes ≡ true) × Reach o g pivot x)
    pub edges : (x y : NodeId) → has_edge o x y g' ≡ (holds o x g'.nodes && has_edge o x y g)
    pub removed :
        (x : NodeId) → holds o x unreached ≡ (holds o x g.nodes && not (holds o x g'.nodes))
    pub valid : IsValid o g'

  -- Before the first round
  abbrev blank : Removal NodeId
  blank = record { not_visited = g.nodes; to_visit = []; nodes = []; edges = [] }

  start-visit :
      visit o g.edges pivot (record (start o pivot g) { to_visit = [] })
      ≡ visit o g.edges pivot blank
  unfolding visit insert
  start-visit = rw (insert_self o pivot, erase_idem o pivot g.nodes) refl

  blank-Between : Between o g pivot (pivot ∷ []) blank
  unfolding holds find
  blank-Between = record {
    pivot_known = ground (arith, o.same_refl pivot);
    sound = λ x h. subst (Reach o g pivot) (sym (o.same_sound x pivot (ground arith))) here;
    closed = λ x y n e. absurd (ground arith);
    split = λ x. ground arith;
    kept = λ x y. refl;
    nonempty = λ x k. cc;
  }

  -- Nothing is left to visit.
  nothing_left :
      (s : Removal NodeId)
      → IsValid o g
      → holds o pivot g.nodes ≡ true
      → Between o g pivot [] s
      → s.to_visit ≡ []
      → Parted s.not_visited (record { nodes = s.nodes; edges = s.edges })
  unfolding holds
  nothing_left s v p b k = record {
    nodes = λ x. ((λ h. (p, b.sound x (ground arith))), λ (q, r). reached x r);
    edges = b.kept;
    removed = b.split;
    valid = record {
      ends = λ x y e. ground (arith, b.kept x y, b.closed x y, at y);
      nonempty = b.nonempty;
    };
  }
    where
      at : (x : NodeId) → holds o x s.to_visit ≡ false
      at x = ap (holds o x) k

      reached : (x : NodeId) → Reach o g pivot x → holds o x s.nodes ≡ true
      reached x here = ground (arith, b.pivot_known, at pivot)
      reached _ (along {x} {y} r e) = ground (arith, b.closed x y (reached x r) e, at y)

  no_pivot : holds o pivot g.nodes ≡ false → Parted g.nodes (record { nodes = []; edges = [] })
  unfolding holds find
  no_pivot n = record {
    nodes = λ x. ((λ h. absurd (ground arith)), λ (q, r). absurd (ground arith));
    edges = λ x y. refl;
    removed = λ x. ground arith;
    valid = record { ends = λ x y e. absurd (ground arith); nonempty = λ x k. cc };
  }

  rounds-start :
      (fuel : ℕ)
      → rounds o g.edges (suc fuel) (start o pivot g)
        ≡ rounds o g.edges fuel (visit o g.edges pivot blank)
  unfolding rounds visit_all
  rounds-start fuel = ap (rounds o g.edges fuel) start-visit

  -- In a valid graph, with more fuel than there are nodes, `remove_unreachable_nodes` ends; it
  -- leaves just the nodes that the pivot reaches, none if the pivot is no node, with just their
  -- edges, returns the other nodes, and the graph that is left is valid.
  pub remove_unreachable_nodes-Parted :
      IsValid o g
      → (fuel : ℕ) → length g.nodes < fuel
      → (unreached : List NodeId) × (g' : Graph NodeId) × (remove_unreachable_nodes o fuel pivot g
          ≡ some (unreached, g'))
        × Parted unreached g'
  unfolding remove_unreachable_nodes
  remove_unreachable_nodes-Parted v zero h = absurd (omega arith)
  remove_unreachable_nodes-Parted v (suc fuel) h = elim (Bool-cases (holds o pivot g.nodes)) [
    | inl y ↦
        let (s, e, b, k) =
          rounds_enough o g pivot v y fuel (visit o g.edges pivot blank)
            (visit-Between o g pivot pivot [] blank blank-Between)
            (ground (
              arith,
              ap length (not_visited-visit o g.edges pivot blank),
              length-erase_of_holds o pivot g.nodes y,
            )) in
        rw y (
          s.not_visited,
          record { nodes = s.nodes; edges = s.edges },
          ap (answer o) (rounds-start fuel ∙ e),
          nothing_left s v y b k,
        )
    | inr n ↦ rw n (g.nodes, record { nodes = []; edges = [] }, refl, no_pivot n)
  ]
