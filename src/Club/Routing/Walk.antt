-- ===== src/Club/Routing/Walk.antt =====
-- The search of src/club/broadcast_routing_table.h without its early end: what holds between its
-- steps, and an induction along it.
use libclub.Prelude.{
  ℕ, zero, suc, ◌+◌, ◌≤◌, ◌<◌, ◌⊎◌, ◌≡◌, ap, Bool, true, false, ◌||◌, List, [], ◌∷◌, if◌then◌else◌,
  arith, Bool-cases, inl, inr,
}
use libclub.Generic.SortedSet.{Order, holds}
use libclub.Club.Graph.{Graph}
use libclub.Club.Graph.Edges.{has_edge, IsValid}
use libclub.Club.Routing.{Search, visit}
use libclub.Club.Routing.Steps.{visited-visit, new_to_visit-visit}

module _ {NodeId : Type 0} (o : Order NodeId) where
  -- How many of the nodes are not among the visited ones.
  abbrev pub absent : List NodeId → List NodeId → ℕ
  absent visited [] = 0
  absent visited (x ∷ nodes) = (if holds o x visited then 0 else 1) + absent visited nodes

  absent_le :
      (v v' nodes : List NodeId)
      → ((x : NodeId) → holds o x v ≡ true → holds o x v' ≡ true)
      → absent v' nodes ≤ absent v nodes
  absent_le v v' [] h = omega arith
  absent_le v v' (x ∷ nodes) h = ground (arith, h x, absent_le v v' nodes h)

  absent_lt :
      (v v' nodes : List NodeId)
      → ((x : NodeId) → holds o x v ≡ true → holds o x v' ≡ true)
      → (x : NodeId) → holds o x nodes ≡ true
      → holds o x v ≡ false
      → holds o x v' ≡ true
      → absent v' nodes < absent v nodes
  unfolding holds
  absent_lt v v' [] h x a b c = absurd (ground arith)
  absent_lt v v' (y ∷ nodes) h x a b c = elim (Bool-cases (o.same x y)) [
    | inl e ↦ ground (
      arith,
      absent_le v v' nodes h,
      ap (λ z. holds o z v) (o.same_sound x y e),
      ap (λ z. holds o z v') (o.same_sound x y e),
    )
    | inr n ↦ ground (arith, h y, absent_lt v v' nodes h x)
  ]

  -- Some item of the first list is not in the second one, or all are.
  missing_cases :
      (l v : List NodeId)
      → ((x : NodeId) × (holds o x l ≡ true) × (holds o x v ≡ false))
        ⊎ ((x : NodeId) → holds o x l ≡ true → holds o x v ≡ true)
  unfolding holds
  missing_cases [] v = inr (λ x h. absurd (ground arith))
  missing_cases (y ∷ l) v = elim (Bool-cases (holds o y v)) [
    | inr no_y ↦ inl (y, ground (arith, o.same_refl y), no_y)
    | inl is_y ↦ elim (missing_cases l v) [
      | inl (x, a, b) ↦ inl (x, ground arith, b)
      | inr all_of ↦ inr (λ x h.
          ground (
            arith,
            all_of x,
            λ (e : o.same x y ≡ true). ap (λ z. holds o z v) (o.same_sound x y e),
          ))
    ]
  ]

  module _ (g : Graph NodeId) (source : NodeId) where
    -- Visited, or still to be visited on this level or on the next one.
    abbrev pub known : List NodeId → Search NodeId → NodeId → Bool
    known l s x = holds o x s.visited || (holds o x l || holds o x s.new_to_visit)

    pub record Walk (l : List NodeId) (s : Search NodeId) : Type 0 where
      pub source_known : known l s source ≡ true
      pub inside : (x : NodeId) → known l s x ≡ true → holds o x g.nodes ≡ true
      pub closed :
          (x y : NodeId) → holds o x s.visited ≡ true → has_edge o x y g ≡ true → known l s y ≡ true

    pub known-visit :
        (id : NodeId) (l : List NodeId) (s : Search NodeId) (x : NodeId)
        → known l (visit o g id s) x ≡ (known (id ∷ l) s x || has_edge o id x g)
    unfolding holds
    known-visit id l s x = ground (arith, visited-visit o g id s x, new_to_visit-visit o g id s x)

    pub visit-Walk :
        IsValid o g
        → (id : NodeId) (l : List NodeId) (s : Search NodeId) → Walk (id ∷ l) s
        → Walk l (visit o g id s)
    unfolding holds
    visit-Walk v id l s w = record {
      source_known = ground (arith, known-visit id l s source, w.source_known);
      inside = λ x k. ground (arith, known-visit id l s x, w.inside x, v.ends id x);
      closed = λ x y n e. ground (
        arith,
        known-visit id l s y,
        visited-visit o g id s x,
        w.closed x y,
        λ (h : o.same x id ≡ true). ap (λ z. has_edge o z y g) (o.same_sound x id h),
      );
    }

    -- The next level begins.
    pub next-Walk :
        (s : Search NodeId)
        → Walk [] s
        → Walk s.new_to_visit (record { visited = s.visited; new_to_visit = [] })
    unfolding holds
    next-Walk s w = record {
      source_known = ground (arith, w.source_known);
      inside = λ x k. w.inside x (ground arith);
      closed = λ x y n e. ground (arith, w.closed x y);
    }

    -- The fuel suffices.
    abbrev pub Enough : ℕ → List NodeId → Search NodeId → Type 0
    Enough fuel l s =
        (absent s.visited g.nodes < fuel)
        ⊎ ((x : NodeId) × (holds o x l ≡ true)
            × (holds o x s.visited ≡ false)
            × (absent s.visited g.nodes ≤ fuel))

    Enough-visit :
        (fuel : ℕ) (id : NodeId) (l : List NodeId) (s : Search NodeId)
        → Walk (id ∷ l) s
        → Enough fuel (id ∷ l) s
        → Enough fuel l (visit o g id s)
    unfolding holds
    Enough-visit fuel id l s w e = by_reason e
      where
        s' : Search NodeId
        s' = visit o g id s

        keeps : (x : NodeId) → holds o x s.visited ≡ true → holds o x s'.visited ≡ true
        keeps x h = ground (arith, visited-visit o g id s x)

        fewer : absent s'.visited g.nodes ≤ absent s.visited g.nodes
        fewer = absent_le s.visited s'.visited g.nodes keeps

        by_reason : Enough fuel (id ∷ l) s → Enough fuel l s'
        by_reason (inl h) = inl (omega (arith, fewer))
        by_reason (inr (x, a, b, h)) = elim (Bool-cases (o.same x id)) [
          | inl y ↦
              let less =
                absent_lt s.visited s'.visited g.nodes keeps x (w.inside x (ground arith)) b
                  (ground (arith, visited-visit o g id s x)) in
              inl (omega (arith, less))
          | inr n ↦
              inr (x, ground arith, ground (arith, visited-visit o g id s x), omega (arith, fewer))
        ]

    Enough-behind :
        (fuel : ℕ) (s : Search NodeId) → Enough fuel [] s → absent s.visited g.nodes < fuel
    unfolding holds
    Enough-behind fuel s (inl h) = h
    Enough-behind fuel s (inr (x, a, b, h)) = absurd (ground arith)

    -- What holds at the end, and before a step or a new level if behind it, holds all along.
    module _ {κ} (v : IsValid o g) (P : ℕ → List NodeId → Search NodeId → Type κ)
        (step : (fuel : ℕ) (id : NodeId) (l : List NodeId) (s : Search NodeId)
          → Walk (id ∷ l) s
          → P fuel l (visit o g id s)
          → P fuel (id ∷ l) s)
        (next : (fuel : ℕ) (s : Search NodeId)
          → Walk [] s
          → P fuel s.new_to_visit (record { visited = s.visited; new_to_visit = [] })
          → P (suc fuel) [] s)
        (done : (fuel : ℕ) (s : Search NodeId)
          → Walk [] s
          → ((x : NodeId) → holds o x s.new_to_visit ≡ true → holds o x s.visited ≡ true)
          → P (suc fuel) [] s) where
      pub walk_induction :
          (fuel : ℕ) (l : List NodeId) (s : Search NodeId) → Walk l s → Enough fuel l s → P fuel l s
      walk_induction zero [] s w e = absurd (omega (arith, Enough-behind zero s e))
      walk_induction (suc fuel) [] s w e = elim (missing_cases s.new_to_visit s.visited) [
        | inl (x, a, b) ↦ next fuel s w (
            walk_induction fuel s.new_to_visit _ (next-Walk s w)
              (inr (x, a, b, omega (arith, Enough-behind (suc fuel) s e))))
        | inr all_of ↦ done fuel s w all_of
      ]
      walk_induction fuel (id ∷ l) s w e = step fuel id l s w (
          walk_induction fuel l (visit o g id s) (visit-Walk v id l s w)
            (Enough-visit fuel id l s w e))
