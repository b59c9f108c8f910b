-- ===== src/Rendezvous/Registry/Sets.antt =====
-- The operations of src/rendezvous/handler.h on its maps, as tests: which endpoints wait for which
-- service.
use libclub.Prelude.{
  ℕ, ◌≡◌, refl, ap, ◌∙◌, Bool, false, ◌&&◌, ◌||◌, not, List, [], ◌∷◌, Option, none, some, ◌==◌,
  ==_iff, arith, Bool-cases, Option-cases, inl, inr,
}
use libclub.Generic.SortedSet.{Order, erase, holds, holds-insert, holds-erase}
use libclub.Rendezvous.Registry.{
  Registry, put_endpoints, remove_ep_from_service, endpoints_of, join,
}

module _ {E : Type 0} (o : Order E) where
  -- Whether the endpoint is in the set of the service, and whether its entry names the service.
  abbrev pub waits : Registry E → E → ℕ → Bool
  waits r ep type = elim (r.service_to_endpoints type) [ none ↦ false | some eps ↦ holds o ep eps ]

  abbrev pub typed : Registry E → E → ℕ → Bool
  typed r ep type = elim (r.ep_to_service ep) [ none ↦ false | some s ↦ s.type == type ]

  -- What `remove_ep_from_service` leaves under the service, an empty set not kept.
  abbrev pub left : List E → Option (List E)
  left [] = none
  left (e ∷ es) = some (e ∷ es)

  holds-left :
      (x : E) (l : List E)
      → (elim (left l) [ none ↦ false | some eps ↦ holds o x eps ]) ≡ holds o x l
  unfolding holds
  holds-left x [] = refl
  holds-left x (e ∷ es) = refl

  pub remove_ep_from_service_lem :
      (r : Registry E) (ep : E) (type : ℕ) {eps : List E}
      → r.service_to_endpoints type ≡ some eps
      → remove_ep_from_service o ep type r ≡ put_endpoints o type (left (erase o ep eps)) r
  unfolding remove_ep_from_service
  remove_ep_from_service_lem r ep type {eps} e = by_rest (erase o ep eps) refl
    where
      by_rest :
          (l : List E)
          → erase o ep eps ≡ l
          → remove_ep_from_service o ep type r ≡ put_endpoints o type (left l) r
      by_rest [] k = rw (remove_ep_from_service, e, k) refl
      by_rest (z ∷ zs) k = rw (remove_ep_from_service, e, k) refl

  pub waits-remove_ep_from_service :
      (r : Registry E) (ep : E) (type : ℕ) (x : E) (t : ℕ)
      → waits (remove_ep_from_service o ep type r) x t
        ≡ (waits r x t && not (t == type && o.same x ep))
  unfolding remove_ep_from_service
  waits-remove_ep_from_service r ep type x t = elim (Option-cases (r.service_to_endpoints type)) [
    | inl e ↦
        let at = λ (h : t ≡ type). ap r.service_to_endpoints h ∙ e in
        let unchanged : remove_ep_from_service o ep type r ≡ r =
          rw (remove_ep_from_service, e) refl in
        rw unchanged (elim (Bool-cases (t == type)) [
          | inl y ↦ ground (arith, at ((==_iff t type).0 y))
          | inr n ↦ ground (arith, n)
        ])
    | inr (eps, e) ↦ rw (remove_ep_from_service_lem r ep type e) (elim (Bool-cases (t == type)) [
      | inl y ↦
          let at = ap r.service_to_endpoints ((==_iff t type).0 y) ∙ e in
          ground (arith, at, holds-left x (erase o ep eps), holds-erase o x ep eps)
      | inr n ↦ ground (arith, n)
    ])
  ]

  pub waits-join :
      (r : Registry E) (ep : E) (type : ℕ) (x : E) (t : ℕ)
      → waits (join o ep type r) x t ≡ (waits r x t || (t == type && o.same x ep))
  unfolding join endpoints_of holds
  waits-join r ep type x t = elim (Bool-cases (t == type)) [
    | inl y ↦
        let at = ap r.service_to_endpoints ((==_iff t type).0 y) in
        let empty : holds o x [] ≡ false = refl in
        ground (arith, at, empty, holds-insert o x ep (endpoints_of o type r))
    | inr n ↦ ground (arith, n)
  ]
