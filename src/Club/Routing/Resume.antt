-- ===== src/Club/Routing/Resume.antt =====
-- The search of src/club/broadcast_routing_table.h with its early end, from any of its states on.
use libclub.Prelude.{
  ℕ, zero, suc, ◌⊎◌, ◌≡◌, refl, ap, ◌∙◌, Bool, true, false, List, [], ◌∷◌, Option, some,
  if◌then◌else◌, arith, Bool-cases, inl, inr,
}
use libclub.Generic.SortedSet.{Order, insert, holds, empty_of_holds}
use libclub.Club.Graph.{Graph}
use libclub.Club.Graph.Edges.{has_edge, IsValid}
use libclub.Club.Routing.{Search, visit, insert_all, level, search}
use libclub.Club.Routing.Steps.{visited-visit, new_to_visit-visit}
use libclub.Club.Routing.Walk.{Walk, Enough, walk_induction}

module _ {NodeId : Type 0} (o : Order NodeId) (g : Graph NodeId) (my_id : NodeId) where
  after_level : ℕ → Bool × Search NodeId → Option (List NodeId)
  after_level fuel (finished, s) =
      let later = search o my_id g fuel s.new_to_visit s.visited in
      if finished then some s.visited else later

  -- What the search comes to with the rest of a level before it.
  pub resume : ℕ → List NodeId → Search NodeId → Option (List NodeId)
  unfolding after_level
  resume fuel l s = after_level fuel (level o my_id g l s)

  pub resume-visit :
      (fuel : ℕ) (id : NodeId) (l : List NodeId) (s : Search NodeId)
      → o.same id my_id ≡ false
      → resume fuel (id ∷ l) s ≡ resume fuel l (visit o g id s)
  unfolding resume level after_level
  resume-visit fuel id l s n = rw (level, n) refl

  pub resume_finish :
      (fuel : ℕ) (id : NodeId) (l : List NodeId) (s : Search NodeId)
      → o.same id my_id ≡ true
      → resume fuel (id ∷ l) s ≡ some (insert_all o s.new_to_visit (insert o id s.visited))
  unfolding resume level after_level
  resume_finish fuel id l s y = rw (level, y) refl

  pub resume_next :
      (fuel : ℕ) (s : Search NodeId)
      → (s.new_to_visit ≡ [])
        ⊎ (resume (suc fuel) [] s
            ≡ resume fuel s.new_to_visit (record { visited = s.visited; new_to_visit = [] }))
  unfolding resume level after_level search
  resume_next fuel s = by_new s.new_to_visit refl
    where
      by_new :
          (l : List NodeId)
          → s.new_to_visit ≡ l
          → (l ≡ [])
            ⊎ (resume (suc fuel) [] s
                ≡ resume fuel l (record { visited = s.visited; new_to_visit = [] }))
      by_new [] k = inl refl
      by_new (id ∷ l) k = inr (rw (resume, k) refl)

  pub resume_empty :
      (fuel : ℕ) (s : Search NodeId) → s.new_to_visit ≡ [] → resume fuel [] s ≡ some s.visited
  unfolding resume level after_level search
  resume_empty zero s k = rw (resume, k) refl
  resume_empty (suc fuel) s k = rw (resume, k) refl

  -- A level that visits nothing new ends the search.
  resume_idle :
      (fuel : ℕ) (l : List NodeId) (s : Search NodeId)
      → s.new_to_visit ≡ []
      → ((x : NodeId) → holds o x l ≡ true → holds o x s.visited ≡ true)
      → ((x y : NodeId)
          → holds o x s.visited ≡ true
          → has_edge o x y g ≡ true
          → holds o y s.visited ≡ true)
      → (visited : List NodeId) × (resume fuel l s ≡ some visited)
  unfolding holds
  resume_idle fuel [] s k a c = (s.visited, resume_empty fuel s k)
  resume_idle fuel (id ∷ l) s k a c = elim (Bool-cases (o.same id my_id)) [
    | inl y ↦ (_, resume_finish fuel id l s y)
    | inr n ↦ rw (resume-visit fuel id l s n) (
        resume_idle fuel l (visit o g id s)
          (empty_of_holds o _ (λ x.
            ground (
              arith,
              new_to_visit-visit o g id s x,
              ap (holds o x) k,
              c id x,
              a id,
              o.same_refl id,
            )))
          (λ x h. ground (arith, a x, visited-visit o g id s x))
          (λ x y h e. ground (
            arith,
            visited-visit o g id s x,
            visited-visit o g id s y,
            c x y,
            c id y,
            a id,
            o.same_refl id,
            λ (h : o.same x id ≡ true). ap (λ z. has_edge o z y g) (o.same_sound x id h),
          )))
  ]

  abbrev Ends : ℕ → List NodeId → Search NodeId → Type 0
  Ends fuel l s = (visited : List NodeId) × (resume fuel l s ≡ some visited)

  -- The search ends.
  pub resume-Ends :
      (source : NodeId)
      → IsValid o g
      → (fuel : ℕ) (l : List NodeId) (s : Search NodeId) → Walk o g source l s
      → Enough o g source fuel l s
      → Ends fuel l s
  unfolding holds
  resume-Ends source v =
      walk_induction o g source v Ends
        (λ fuel id l s w (visited, e). elim (Bool-cases (o.same id my_id)) [
          | inl y ↦ (_, resume_finish fuel id l s y)
          | inr n ↦ (visited, resume-visit fuel id l s n ∙ e)
        ])
        (λ fuel s w (visited, e). elim (resume_next fuel s) [
          | inl k ↦ (s.visited, resume_empty (suc fuel) s k)
          | inr k ↦ (visited, k ∙ e)
        ])
        (λ fuel s w all_of. elim (resume_next fuel s) [
          | inl k ↦ (s.visited, resume_empty (suc fuel) s k)
          | inr k ↦ rw k (
              resume_idle fuel s.new_to_visit _ refl all_of
                (λ x y n e. ground (arith, w.closed x y n e, all_of y)))
        ])

  pub resume-search :
      (fuel : ℕ) (source : NodeId)
      → search o my_id g (suc fuel) (source ∷ []) []
        ≡ resume fuel (source ∷ []) (record { visited = []; new_to_visit = [] })
  unfolding resume after_level search
  resume-search fuel source = refl
