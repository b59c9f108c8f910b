-- ===== src/Club/Routing/Deliver.antt =====
-- What the tables of src/club/broadcast_routing_table.h do together: to whom a message gets.
use mathlib.Core.Path.{subst}
use libclub.Prelude.{
  ℕ, zero, suc, ◌<◌, ◌↔◌, ◌≡◌, refl, sym, ap, ◌∙◌, true, false, List, [], ◌∷◌, some, length, arith,
  Bool-cases, inl, inr,
}
use libclub.Generic.SortedSet.{Order, insert, holds, holds-insert}
use libclub.Club.Graph.{Graph, peers}
use libclub.Club.Graph.Edges.{has_edge, IsValid}
use libclub.Club.Graph.Rounds.{Reach, here, along}
use libclub.Club.Routing.{
  BroadcastRoutingTable, Search, new_table, get_targets, visit, unvisited, search, recalculate,
}
use libclub.Club.Routing.Steps.{visited-visit, holds-insert_all, holds-unvisited}
use libclub.Club.Routing.Walk.{known, Walk, known-visit, walk_induction}
use libclub.Club.Routing.Resume.{
  resume, resume-visit, resume_finish, resume_next, resume_empty, resume-search,
}
use libclub.Club.Routing.Tables.{
  begun, begun-Walk, begun-Enough, targets_lem, get_targets-recalculate,
}

module _ {NodeId : Type 0} (o : Order NodeId) (g : Graph NodeId) (fuel : ℕ) (source : NodeId) where
  -- The source has the message, and each that has it forwards it to the targets that its own table
  -- names.
  pub data Delivered : NodeId → Type 0 where
    origin : Delivered source
    forward :
        {m x : NodeId} {t : BroadcastRoutingTable NodeId}
        → Delivered m
        → recalculate o fuel g (new_table o m) ≡ some t
        → holds o x (get_targets o t source) ≡ true
        → Delivered x

module _ {NodeId : Type 0} (o : Order NodeId) (g : Graph NodeId) (v : IsValid o g) (fuel : ℕ)
    (enough : length g.nodes < suc fuel) (source : NodeId)
    (present : holds o source g.nodes ≡ true) where
  -- What a node that has the message forwards to.
  forwarded :
      (m : NodeId)
      → holds o m g.nodes ≡ true
      → Delivered o g (suc fuel) source m
      → (visited : List NodeId) → search o m g (suc fuel) (source ∷ []) [] ≡ some visited
      → (x : NodeId) → has_edge o m x g ≡ true
      → holds o x visited ≡ false
      → Delivered o g (suc fuel) source x
  forwarded m h d visited e x edge n =
      let (visited', e', k) = targets_lem o g v m h fuel enough source present in
      let (t, r, q) =
        get_targets-recalculate o g v m h fuel enough source present
          (unvisited o visited' (peers o m g.edges) []) k in
      forward d r (
        ap (holds o x) q
        ∙ holds-unvisited o visited' (peers o m g.edges) [] x
        ∙ ground (arith, edge, n, e, e'))

  abbrev Whole : ℕ → List NodeId → Search NodeId → Type 0
  Whole fuel' l s =
      ((x : NodeId) → known o g source l s x ≡ true → Delivered o g (suc fuel) source x)
      → ((m : NodeId)
          → holds o m s.visited ≡ false
          → search o m g (suc fuel) (source ∷ []) [] ≡ resume o g m fuel' l s)
      → (x : NodeId) → Reach o g source x
      → Delivered o g (suc fuel) source x

  step :
      (fuel' : ℕ) (id : NodeId) (l : List NodeId) (s : Search NodeId)
      → Walk o g source (id ∷ l) s
      → Whole fuel' l (visit o g id s)
      → Whole fuel' (id ∷ l) s
  unfolding holds
  step fuel' id l s w p all runs = p now later
    where
      its : known o g source (id ∷ l) s id ≡ true
      its = ground (arith, o.same_refl id)

      by_edge :
          (x : NodeId)
          → has_edge o id x g ≡ true
          → known o g source (id ∷ l) s x ≡ false
          → Delivered o g (suc fuel) source x
      by_edge x edge n =
          let fresh : holds o id s.visited ≡ false = ground (arith, w.closed id x, edge, n) in
          forwarded id (w.inside id its) (all id its) _
            (runs id fresh ∙ resume_finish o g id fuel' id l s (o.same_refl id)) x edge
            (ground (
              arith,
              holds-insert_all o s.new_to_visit (insert o id s.visited) x,
              holds-insert o x id s.visited,
            ))

      now :
          (x : NodeId)
          → known o g source l (visit o g id s) x ≡ true
          → Delivered o g (suc fuel) source x
      now x k = elim (Bool-cases (known o g source (id ∷ l) s x)) [
        | inl y ↦ all x y
        | inr n ↦ by_edge x (ground (arith, known-visit o g source id l s x)) n
      ]

      later :
          (m : NodeId)
          → holds o m (visit o g id s).visited ≡ false
          → search o m g (suc fuel) (source ∷ []) [] ≡ resume o g m fuel' l (visit o g id s)
      later m n =
          runs m (ground (arith, visited-visit o g id s m))
          ∙ resume-visit o g m fuel' id l s
              (ground (arith, visited-visit o g id s m, o.same_sound id m, o.same_refl m))

  next :
      (fuel' : ℕ) (s : Search NodeId)
      → Walk o g source [] s
      → Whole fuel' s.new_to_visit (record { visited = s.visited; new_to_visit = [] })
      → Whole (suc fuel') [] s
  unfolding holds
  next fuel' s w p all runs = p (λ x k. all x (ground arith)) (λ m n. runs m n ∙ go_on m)
    where
      go_on :
          (m : NodeId)
          → resume o g m (suc fuel') [] s
            ≡ resume o g m fuel' s.new_to_visit (record { visited = s.visited; new_to_visit = [] })
      go_on m = elim (resume_next o g m fuel' s) [
        | inl k ↦
            let behind : Search NodeId = record { visited = s.visited; new_to_visit = [] } in
            resume_empty o g m (suc fuel') s k
            ∙ sym (ap (λ l. resume o g m fuel' l behind) k ∙ resume_empty o g m fuel' behind refl)
        | inr k ↦ k
      ]

  done :
      (fuel' : ℕ) (s : Search NodeId)
      → Walk o g source [] s
      → ((x : NodeId) → holds o x s.new_to_visit ≡ true → holds o x s.visited ≡ true)
      → Whole (suc fuel') [] s
  unfolding holds
  done fuel' s w all_of all runs x r = all x (ground (arith, reached x r))
    where
      reached : (x : NodeId) → Reach o g source x → holds o x s.visited ≡ true
      reached _ here = ground (arith, w.source_known, all_of source)
      reached _ (along {x} {y} r e) = ground (arith, w.closed x y (reached x r) e, all_of y)

  Reach→Delivered : (x : NodeId) → Reach o g source x → Delivered o g (suc fuel) source x
  unfolding holds
  Reach→Delivered =
      walk_induction o g source v Whole step next done fuel (source ∷ []) (begun o g)
        (begun-Walk o g source present) (begun-Enough o g source fuel enough) start
        (λ m n. resume-search o g m fuel source)
    where
      start :
          (x : NodeId)
          → known o g source (source ∷ []) (begun o g) x ≡ true
          → Delivered o g (suc fuel) source x
      start x k =
          subst (Delivered o g (suc fuel) source) (sym (o.same_sound x source (ground arith)))
            origin

  -- A node that is forwarded to is at the end of an edge.
  forward_edge :
      (m x : NodeId) {t : BroadcastRoutingTable NodeId}
      → holds o m g.nodes ≡ true
      → recalculate o (suc fuel) g (new_table o m) ≡ some t
      → holds o x (get_targets o t source) ≡ true
      → has_edge o m x g ≡ true
  unfolding holds
  forward_edge m x {t} h r k =
      let (visited, e, j) = targets_lem o g v m h fuel enough source present in
      let (t', r', q) =
        get_targets-recalculate o g v m h fuel enough source present
          (unvisited o visited (peers o m g.edges) []) j in
      let same_table : t ≡ t' = ground (arith, r, r') in
      ground (
        arith,
        k,
        ap (λ y. holds o x (get_targets o y source)) same_table,
        ap (holds o x) q,
        holds-unvisited o visited (peers o m g.edges) [] x,
      )

  reach_present : (x : NodeId) → Reach o g source x → holds o x g.nodes ≡ true
  reach_present _ here = present
  reach_present _ (along {x} {y} r e) = ground (arith, v.ends x y e)

  Delivered→Reach : (x : NodeId) → Delivered o g (suc fuel) source x → Reach o g source x
  Delivered→Reach _ origin = here
  Delivered→Reach _ (forward {m} {x} d r k) =
      let way = Delivered→Reach m d in along way (forward_edge m x (reach_present m way) r k)

-- In a valid graph, with more fuel than there are nodes: if the source, a node of it, has a
-- message, and each node that has it forwards it to the targets that its own recalculated table
-- names for the source, then just the nodes that the source reaches along the edges get it.
pub Delivered-Reach :
    {NodeId : Type 0} (o : Order NodeId) (g : Graph NodeId)
    → IsValid o g
    → (fuel : ℕ) → length g.nodes < fuel
    → (source : NodeId) → holds o source g.nodes ≡ true
    → (x : NodeId) → Delivered o g fuel source x ↔ Reach o g source x
Delivered-Reach o g v zero enough source h x = absurd (omega arith)
Delivered-Reach o g v (suc fuel) enough source h x =
    (Delivered→Reach o g v fuel enough source h x, Reach→Delivered o g v fuel enough source h x)
