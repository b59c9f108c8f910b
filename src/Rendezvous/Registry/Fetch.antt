-- ===== src/Rendezvous/Registry/Fetch.antt =====
-- A message that fetches, in `handle` of src/rendezvous/handler.h: who is told of whom, and who waits
-- afterwards.
use libclub.Prelude.{
  ℕ, ◌≡◌, refl, ap, sym, ◌∙◌, Bool, true, false, ◌&&◌, [], ◌∷◌, ◌++◌, Option, none, some, arith,
  All,
}
use libclub.Generic.SortedSet.{Order, holds, All-holds, holds-All}
use libclub.Rendezvous.Registry.{
  Service, Registry, forget, endpoints_of, find_or_create_entry, send_match, fetch,
}
use libclub.Rendezvous.Registry.Sets.{waits, typed}
use libclub.Rendezvous.Registry.Agree.{IsValid, services-forget, forget-IsValid, matches-forget}
use libclub.Rendezvous.Registry.Entered.{
  services-find_or_create_entry, waits-find_or_create_entry, find_or_create_entry-IsValid,
  matches-find_or_create_entry,
}
use libclub.Rendezvous.Registry.Pairs.{
  host, Alone, match_of, Refused, Outcome, unmatched, matched, holds-endpoints_of,
  match_first-Outcome,
}
use libclub.Rendezvous.Registry.Waiting.{forget-Alone, entered-AloneBut, unmatched-Alone}

module _ {E : Type 0} (o : Order E) where
  module _ (from int_ep : E) (reflected_port : ℕ) (is_host : Bool) (service : ℕ) where
    abbrev entered : Registry E → Registry E
    entered = find_or_create_entry o from int_ep reflected_port is_host service

    typed_all :
        (r : Registry E)
        → IsValid o r
        → All (λ x. typed o r x service ≡ true) (endpoints_of o service r)
    typed_all r v =
        All-holds o (λ x. typed o r x service ≡ true) (endpoints_of o service r)
          (λ x h. sym (v.agree x service) ∙ sym (holds-endpoints_of o r service x) ∙ h)

    -- What a message that fetches comes to.
    outcome :
        (r : Registry E)
        → IsValid o r
        → Outcome o from int_ep reflected_port is_host service
            (entered r)
            (endpoints_of o service (entered r))
            (fetch o from int_ep reflected_port is_host service r)
    unfolding fetch
    outcome r v =
        match_first-Outcome o from int_ep reflected_port is_host service (entered r)
          (endpoints_of o service (entered r))
          (typed_all (entered r)
            (find_or_create_entry-IsValid o from int_ep reflected_port is_host service r v))

    -- A message that fetches fails no assertion, and keeps the maps in agreement and those who wait
    -- alone.
    pub fetch-Alone :
        (r : Registry E)
        → IsValid o r
        → Alone o r
        → (r' : Registry E) × (fetch o from int_ep reflected_port is_host service r ≡ some r')
          × IsValid o r'
          × Alone o r'
    fetch-Alone r v h = by_outcome (outcome r v)
      where
        e : IsValid o (entered r)
        e = find_or_create_entry-IsValid o from int_ep reflected_port is_host service r v

        by_outcome :
            {result : Option (Registry E)}
            → Outcome o from int_ep reflected_port is_host service
                (entered r)
                (endpoints_of o service (entered r))
                result
            → (r' : Registry E) × (result ≡ some r') × IsValid o r' × Alone o r'
        by_outcome (unmatched refused) = (
          entered r,
          refl,
          e,
          unmatched-Alone o from int_ep reflected_port is_host service r v h refused,
        )
        by_outcome (matched x s among other known fits) =
            let sent = send_match o (match_of o from int_ep reflected_port x s) (entered r) in
            let valid : IsValid o sent = record { agree = e.agree; nonempty = e.nonempty } in
            let one =
              forget-Alone o sent from valid
                (entered-AloneBut o from int_ep reflected_port is_host service r v h) in
            let v1 = forget-IsValid o sent from valid in
            (
              forget o x (forget o from sent),
              refl,
              forget-IsValid o (forget o from sent) x v1,
              forget-Alone o (forget o from sent) x v1 (λ a b t _ _. one a b t),
            )

    -- While the two maps agree and no set of endpoints is empty, if an endpoint other than the one
    -- that asks waits for the service, and not both are hosts, then the one that asks and one that
    -- waits for the service, not both of them hosts, are told of each other, once, and neither has
    -- an entry afterwards.
    pub fetch_matches :
        (r : Registry E)
        → IsValid o r
        → (partner : E) → waits o r partner service ≡ true
        → o.same partner from ≡ false
        → (is_host && host o r partner) ≡ false
        → (r' : Registry E) × (x : E) × (s : Service E) × (fetch o from int_ep reflected_port
              is_host service r
            ≡ some r')
          × (r.ep_to_service x ≡ some s)
          × (s.type ≡ service)
          × ((is_host && s.is_host) ≡ false)
          × (r'.matches ≡ r.matches ++ (match_of o from int_ep reflected_port x s ∷ []))
          × (r'.ep_to_service from ≡ none)
          × (r'.ep_to_service x ≡ none)
    fetch_matches r v partner w apart fits = by_outcome (outcome r v)
      where
        e : IsValid o (entered r)
        e = find_or_create_entry-IsValid o from int_ep reflected_port is_host service r v

        by_outcome :
            {result : Option (Registry E)}
            → Outcome o from int_ep reflected_port is_host service
                (entered r)
                (endpoints_of o service (entered r))
                result
            → (r' : Registry E) × (x : E) × (s : Service E) × (result ≡ some r')
              × (r.ep_to_service x ≡ some s)
              × (s.type ≡ service)
              × ((is_host && s.is_host) ≡ false)
              × (r'.matches ≡ r.matches ++ (match_of o from int_ep reflected_port x s ∷ []))
              × (r'.ep_to_service from ≡ none)
              × (r'.ep_to_service x ≡ none)
        by_outcome (unmatched refused) =
            let at =
              waits-find_or_create_entry o from int_ep reflected_port is_host service r partner
                service v in
            let among : holds o partner (endpoints_of o service (entered r)) ≡ true =
              holds-endpoints_of o (entered r) service partner ∙ ground (arith, at) in
            let alike =
              holds-All o (Refused o from int_ep reflected_port is_host service (entered r))
                (endpoints_of o service (entered r)) partner refused among apart in
            let same =
              services-find_or_create_entry o from int_ep reflected_port is_host service r
                partner in
            absurd (ground (arith, same))
        by_outcome (matched x s among other known hosts) =
            let sent = send_match o (match_of o from int_ep reflected_port x s) (entered r) in
            let same =
              services-find_or_create_entry o from int_ep reflected_port is_host service r x in
            let listed = sym (holds-endpoints_of o (entered r) service x) ∙ among in
            let first = services-forget o sent from in
            (
              forget o x (forget o from sent),
              x,
              s,
              refl,
              ground (arith, same),
              ground (arith, e.agree x service),
              hosts,
              matches-forget o (forget o from sent) x
                  ∙ matches-forget o sent from
                  ∙ ap (λ l. l ++ (match_of o from int_ep reflected_port x s ∷ []))
                      (matches-find_or_create_entry o from int_ep reflected_port is_host service r),
              ground (
                arith,
                services-forget o (forget o from sent) x from,
                first from,
                o.same_refl from,
              ),
              ground (arith, services-forget o (forget o from sent) x x, o.same_refl x),
            )

    -- While the two maps agree and no set of endpoints is empty, if every other endpoint that
    -- waits for the service is a host, and so is the one that asks, then nobody is told of
    -- anybody, and the one that asks is entered.
    pub fetch_without_partner :
        (r : Registry E)
        → IsValid o r
        → ((x : E)
            → waits o r x service ≡ true
            → o.same x from ≡ false
            → (is_host && host o r x) ≡ true)
        → fetch o from int_ep reflected_port is_host service r ≡ some (entered r)
    fetch_without_partner r v no_partner = by_outcome (outcome r v)
      where
        by_outcome :
            {result : Option (Registry E)}
            → Outcome o from int_ep reflected_port is_host service
                (entered r)
                (endpoints_of o service (entered r))
                result
            → result ≡ some (entered r)
        by_outcome (unmatched refused) = refl
        by_outcome (matched x s among other known hosts) =
            let same =
              services-find_or_create_entry o from int_ep reflected_port is_host service r x in
            let at =
              waits-find_or_create_entry o from int_ep reflected_port is_host service r x service
                v in
            let listed = sym (holds-endpoints_of o (entered r) service x) ∙ among in
            let alike = no_partner x (ground (arith, at)) other in absurd (ground (arith, same))
