-- ===== src/Rendezvous/Registry/Waiting.antt =====
-- Who waits after a message that fetches, in src/rendezvous/handler.h.
use libclub.Prelude.{
  ℕ, ◌≡◌, ap, sym, ◌∙◌, Bool, true, false, ◌&&◌, if◌then◌else◌, arith, Bool-cases, Option-cases,
  inl, inr, All,
}
use libclub.Generic.SortedSet.{Order, holds, holds-All}
use libclub.Rendezvous.Registry.{Registry, forget, endpoints_of, find_or_create_entry}
use libclub.Rendezvous.Registry.Sets.{waits}
use libclub.Rendezvous.Registry.Agree.{IsValid, services-forget, forget-IsValid}
use libclub.Rendezvous.Registry.Entered.{services-find_or_create_entry, waits-find_or_create_entry}
use libclub.Rendezvous.Registry.Pairs.{host, Alone, Refused, holds-endpoints_of}

module _ {E : Type 0} (o : Order E) where
  -- The same but for one endpoint.
  abbrev pub AloneBut : E → Registry E → Type 0
  AloneBut from r =
      (x y : E) (t : ℕ)
      → o.same x from ≡ false
      → o.same y from ≡ false
      → waits o r x t ≡ true
      → waits o r y t ≡ true
      → o.same x y ≡ false
      → (host o r x && host o r y) ≡ true

  waits-forget :
      (r : Registry E) (from x : E) (t : ℕ)
      → IsValid o r
      → waits o (forget o from r) x t ≡ (if o.same x from then false else waits o r x t)
  waits-forget r from x t v =
      let after = forget-IsValid o r from v in
      ground (arith, after.agree x t, v.agree x t, services-forget o r from x)

  pub forget-Alone :
      (r : Registry E) (from : E) → IsValid o r → AloneBut from r → Alone o (forget o from r)
  forget-Alone r from v h x y t wx wy apart =
      let before = h x y t in
      ground (
        arith,
        waits-forget r from x t v,
        waits-forget r from y t v,
        services-forget o r from x,
        services-forget o r from y,
      )

  module _ (from int_ep : E) (reflected_port : ℕ) (is_host : Bool) (service : ℕ) where
    abbrev entered : Registry E → Registry E
    entered = find_or_create_entry o from int_ep reflected_port is_host service

    pub entered-AloneBut : (r : Registry E) → IsValid o r → Alone o r → AloneBut from (entered r)
    entered-AloneBut r v h x y t nx ny wx wy apart =
        let before = h x y t in
        ground (
          arith,
          waits-find_or_create_entry o from int_ep reflected_port is_host service r x t v,
          waits-find_or_create_entry o from int_ep reflected_port is_host service r y t v,
          services-find_or_create_entry o from int_ep reflected_port is_host service r x,
          services-find_or_create_entry o from int_ep reflected_port is_host service r y,
        )

    host-entered : (r : Registry E) (x : E) → o.same x from ≡ true → host o (entered r) x ≡ is_host
    host-entered r x same =
        let now = services-find_or_create_entry o from int_ep reflected_port is_host service r x in
        elim (Option-cases (r.ep_to_service from)) [
          | inl e ↦ ground (arith, now, e)
          | inr (s, e) ↦ ground (arith, now, e)
        ]

    -- The endpoint that asks, and another one that waits for its service, when it found no partner.
    host_beside :
        (r : Registry E) (x y : E) (t : ℕ)
        → IsValid o r
        → All
            (Refused o from int_ep reflected_port is_host service (entered r))
            (endpoints_of o service (entered r))
        → o.same x from ≡ true
        → o.same y from ≡ false
        → waits o (entered r) x t ≡ true
        → waits o (entered r) y t ≡ true
        → (host o (entered r) x && host o (entered r) y) ≡ true
    host_beside r x y t v refused self other wx wy =
        let at = waits-find_or_create_entry o from int_ep reflected_port is_host service r x t v in
        let is : service ≡ t = ground arith in
        let among : holds o y (endpoints_of o service (entered r)) ≡ true =
          holds-endpoints_of o (entered r) service y ∙ ap (waits o (entered r) y) is ∙ wy in
        let alike =
          holds-All o (Refused o from int_ep reflected_port is_host service (entered r))
            (endpoints_of o service (entered r)) y refused among other in
        ground (arith, host-entered r x self)

    pub unmatched-Alone :
        (r : Registry E)
        → IsValid o r
        → Alone o r
        → All
            (Refused o from int_ep reflected_port is_host service (entered r))
            (endpoints_of o service (entered r))
        → Alone o (entered r)
    unmatched-Alone r v h refused x y t wx wy apart = elim (Bool-cases (o.same x from)) [
      | inl ex ↦ elim (Bool-cases (o.same y from)) [
        | inl ey ↦
            let both : x ≡ y = o.same_sound x from ex ∙ sym (o.same_sound y from ey) in
            absurd (ground (arith, ap (o.same x) both, o.same_refl x))
        | inr ny ↦ host_beside r x y t v refused ex ny wx wy
      ]
      | inr nx ↦ elim (Bool-cases (o.same y from)) [
        | inl ey ↦ ground (arith, host_beside r y x t v refused ey nx wy wx)
        | inr ny ↦ entered-AloneBut r v h x y t nx ny wx wy apart
      ]
    ]
