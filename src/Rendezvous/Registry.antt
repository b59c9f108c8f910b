-- ===== src/Rendezvous/Registry.antt =====
-- src/rendezvous/handler.h, the clients that wait for a service. The endpoints are those of
-- boost::asio, with their order and their equality, parameters with what the maps rely on.
pub mod Sets
pub mod Agree
pub mod Entered
pub mod Pairs
pub mod Waiting
pub mod Fetch
use libclub.Prelude.{
  ℕ, ◌≡◌, Bool, true, false, ◌&&◌, ◌||◌, not, List, [], ◌∷◌, ◌++◌, Option, none, some, ◌==◌,
  if◌then◌else◌,
}
use libclub.Generic.SortedSet.{Order, insert, erase, holds}

-- `Service`; the alarm of the entry calls `forget`.
pub record Service (E : Type 0) : Type 0 where
  pub type : ℕ
  pub internal_ep : E
  pub reflected_port : ℕ
  pub is_host : Bool

-- The two maps, and what `match` was called with so far.
pub record Match (E : Type 0) : Type 0 where
  pub ep1_ext : E
  pub ep1_int : E
  pub reflected_port1 : ℕ
  pub ep2_ext : E
  pub ep2_int : E
  pub reflected_port2 : ℕ

pub record Registry (E : Type 0) : Type 0 where
  pub ep_to_service : (E → Option (Service E))
  pub service_to_endpoints : (ℕ → Option (List E))
  pub matches : List (Match E)

module _ {E : Type 0} (o : Order E) where
  -- An assignment under a key, and `erase`, of the two maps
  abbrev pub put_service : E → Option (Service E) → Registry E → Registry E
  put_service ep value r = record r {
    ep_to_service = λ x. if o.same x ep then value else r.ep_to_service x;
  }

  abbrev pub put_endpoints : ℕ → Option (List E) → Registry E → Registry E
  put_endpoints type value r = record r {
    service_to_endpoints = λ t. if t == type then value else r.service_to_endpoints t;
  }

  pub remove_ep_from_service : E → ℕ → Registry E → Registry E
  remove_ep_from_service ep type r = elim (r.service_to_endpoints type) [
    | none ↦ r
    | some eps ↦ elim (erase o ep eps) [
      | [] ↦ put_endpoints type none r
      | e ∷ es ↦ put_endpoints type (some (e ∷ es)) r
    ]
  ]

  pub forget : E → Registry E → Registry E
  forget from r = elim (r.ep_to_service from) [
    | none ↦ r
    | some s ↦ put_service from none (remove_ep_from_service from s.type r)
  ]

  -- `service_to_endpoints[service_t]`
  pub endpoints_of : ℕ → Registry E → List E
  endpoints_of type r = elim (r.service_to_endpoints type) [ none ↦ [] | some eps ↦ eps ]

  -- `endpoints.insert(ext_ep)`
  pub join : E → ℕ → Registry E → Registry E
  join ep type r = put_endpoints type (some (insert o ep (endpoints_of type r))) r

  -- The second branch leaves the internal endpoint and the reflected port as they are.
  pub find_or_create_entry : E → E → ℕ → Bool → ℕ → Registry E → Registry E
  find_or_create_entry ext_ep int_ep reflected_port is_host service_t r =
      elim (r.ep_to_service ext_ep) [
        | none ↦ join ext_ep service_t (
            put_service ext_ep
              (some (record {
                type = service_t;
                internal_ep = int_ep;
                reflected_port = reflected_port;
                is_host = is_host;
              }))
              r)
        | some s ↦
            let moved = if s.type == service_t then r else remove_ep_from_service ext_ep s.type r in
            join ext_ep service_t
              (put_service ext_ep (some (record s { type = service_t; is_host = is_host })) moved)
      ]

  abbrev pub send_match : Match E → Registry E → Registry E
  send_match m r = record r { matches = r.matches ++ (m ∷ []) }

  -- The loop over the endpoints of the service; `none` where an assertion fails.
  pub match_first : E → E → ℕ → Bool → ℕ → List E → Registry E → Option (Registry E)
  match_first from int_ep reflected_port is_host service [] r = some r
  match_first from int_ep reflected_port is_host service (other_ep ∷ rest) r =
      let later = match_first from int_ep reflected_port is_host service rest r in
      if o.same other_ep from then later else elim (r.ep_to_service other_ep) [
        | none ↦ none
        | some other ↦
            if not (other.type == service)
            then none
            else if not is_host || not other.is_host
            then some (
                forget other_ep (
                  forget from (
                    send_match
                      (record {
                        ep1_ext = other_ep;
                        ep1_int = other.internal_ep;
                        reflected_port1 = other.reflected_port;
                        ep2_ext = from;
                        ep2_int = int_ep;
                        reflected_port2 = reflected_port;
                      })
                      r)))
            else later
      ]

  -- `handle` behind the parsing of a message that fetches.
  pub fetch : E → E → ℕ → Bool → ℕ → Registry E → Option (Registry E)
  fetch from int_ep reflected_port is_host service r =
      let entered = find_or_create_entry from int_ep reflected_port is_host service r in
      match_first from int_ep reflected_port is_host service (endpoints_of service entered) entered
