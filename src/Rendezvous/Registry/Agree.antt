-- ===== src/Rendezvous/Registry/Agree.antt =====
-- The two maps of src/rendezvous/handler.h agree.
use libclub.Prelude.{
  ℕ, ◌≡◌, ◌≢◌, refl, ap, ◌∙◌, true, List, [], ◌∷◌, none, some, ◌==◌, if◌then◌else◌, arith,
  Bool-cases, Option-cases, inl, inr,
}
use libclub.Generic.SortedSet.{Order, erase, insert_nonempty}
use libclub.Rendezvous.Registry.{Registry, remove_ep_from_service, forget, endpoints_of, join}
use libclub.Rendezvous.Registry.Sets.{
  waits, typed, left, waits-remove_ep_from_service, remove_ep_from_service_lem,
}

module _ {E : Type 0} (o : Order E) where
  -- An endpoint is in the set of a service if and only if its entry names that service, and no set
  -- is empty.
  pub record IsValid (r : Registry E) : Type 0 where
    pub agree : ((x : E) (t : ℕ) → waits o r x t ≡ typed o r x t)
    pub nonempty : ((t : ℕ) → r.service_to_endpoints t ≢ some [])

  pub services-remove_ep_from_service :
      (r : Registry E) (ep : E) (type : ℕ) (x : E)
      → (remove_ep_from_service o ep type r).ep_to_service x ≡ r.ep_to_service x
  unfolding remove_ep_from_service
  services-remove_ep_from_service r ep type x = elim (Option-cases (r.service_to_endpoints type)) [
    | inl e ↦ rw (remove_ep_from_service, e) refl
    | inr (eps, e) ↦ rw (remove_ep_from_service_lem o r ep type e) refl
  ]

  pub nonempty-remove_ep_from_service :
      (r : Registry E) (ep : E) (type : ℕ)
      → ((t : ℕ) → r.service_to_endpoints t ≢ some [])
      → (t : ℕ) → (remove_ep_from_service o ep type r).service_to_endpoints t ≢ some []
  unfolding remove_ep_from_service
  nonempty-remove_ep_from_service r ep type h t =
      elim (Option-cases (r.service_to_endpoints type)) [
        | inl e ↦ rw (remove_ep_from_service, e) (h t)
        | inr (eps, e) ↦
            rw (remove_ep_from_service_lem o r ep type e) (elim (Bool-cases (t == type)) [
              | inl y ↦ rw y (left_nonempty (erase o ep eps))
              | inr n ↦ rw n (h t)
            ])
      ]
    where
      left_nonempty : (l : List E) → left o l ≢ some []
      left_nonempty [] = λ k. cc
      left_nonempty (e ∷ es) = λ k. cc

  pub nonempty-join :
      (r : Registry E) (ep : E) (type : ℕ)
      → ((t : ℕ) → r.service_to_endpoints t ≢ some [])
      → (t : ℕ) → (join o ep type r).service_to_endpoints t ≢ some []
  unfolding join
  nonempty-join r ep type h t = elim (Bool-cases (t == type)) [
    | inl y ↦ rw y (λ k. insert_nonempty o ep (endpoints_of o type r) (ground arith))
    | inr n ↦ rw n (h t)
  ]

  -- After `forget` the endpoint has no entry, the others theirs.
  pub services-forget :
      (r : Registry E) (from x : E)
      → (forget o from r).ep_to_service x ≡ (if o.same x from then none else r.ep_to_service x)
  unfolding forget
  services-forget r from x = elim (Option-cases (r.ep_to_service from)) [
    | inl e ↦
        let unknown =
          λ (h : o.same x from ≡ true). ap r.ep_to_service (o.same_sound x from h) ∙ e in
        rw (forget, e)
          (elim (Bool-cases (o.same x from)) [ inl y ↦ rw y (unknown y) | inr n ↦ rw n refl ])
    | inr (s, e) ↦
        rw (forget, e)
          (elim (Bool-cases (o.same x from)) [
            | inl y ↦ rw y refl
            | inr n ↦ rw n (services-remove_ep_from_service r from s.type x)
          ])
  ]

  pub matches-remove_ep_from_service :
      (r : Registry E) (ep : E) (type : ℕ)
      → (remove_ep_from_service o ep type r).matches ≡ r.matches
  unfolding remove_ep_from_service
  matches-remove_ep_from_service r ep type = elim (Option-cases (r.service_to_endpoints type)) [
    | inl e ↦ rw (remove_ep_from_service, e) refl
    | inr (eps, e) ↦ rw (remove_ep_from_service_lem o r ep type e) refl
  ]

  pub matches-forget : (r : Registry E) (from : E) → (forget o from r).matches ≡ r.matches
  unfolding forget
  matches-forget r from = elim (Option-cases (r.ep_to_service from)) [
    | inl e ↦ rw (forget, e) refl
    | inr (s, e) ↦ rw (forget, e) (matches-remove_ep_from_service r from s.type)
  ]

  pub forget-IsValid : (r : Registry E) (from : E) → IsValid r → IsValid (forget o from r)
  unfolding forget
  forget-IsValid r from v = elim (Option-cases (r.ep_to_service from)) [
    | inl e ↦ rw (forget, e) v
    | inr (s, e) ↦
        rw (forget, e)
          (record {
            agree = λ x t.
                let known =
                  λ (h : o.same x from ≡ true). ap r.ep_to_service (o.same_sound x from h) ∙ e in
                let unmoved = services-remove_ep_from_service r from s.type x in
                elim (Bool-cases (o.same x from)) [
                  | inl y ↦ ground (
                    arith,
                    known y,
                    unmoved,
                    v.agree x t,
                    waits-remove_ep_from_service o r from s.type x t,
                  )
                  | inr n ↦ ground (
                    arith,
                    unmoved,
                    v.agree x t,
                    waits-remove_ep_from_service o r from s.type x t,
                  )
                ];
            nonempty = nonempty-remove_ep_from_service r from s.type v.nonempty;
          })
  ]
