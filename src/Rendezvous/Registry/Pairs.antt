-- ===== src/Rendezvous/Registry/Pairs.antt =====
-- The search for a partner in `handle` of src/rendezvous/handler.h.
use libclub.Prelude.{
  ℕ, ◌≡◌, Bool, true, false, ◌&&◌, ◌||◌, not, List, [], ◌∷◌, Option, none, some, ◌==◌, arith,
  Bool-cases, Option-cases, inl, inr, All,
}
use libclub.Generic.SortedSet.{Order, holds}
use libclub.Rendezvous.Registry.{
  Service, Registry, Match, forget, endpoints_of, send_match, match_first,
}
use libclub.Rendezvous.Registry.Sets.{waits, typed}

module _ {E : Type 0} (o : Order E) where
  abbrev pub host : Registry E → E → Bool
  host r x = elim (r.ep_to_service x) [ none ↦ false | some s ↦ s.is_host ]

  -- Two endpoints that wait for one service are hosts both.
  abbrev pub Alone : Registry E → Type 0
  Alone r =
      (x y : E) (t : ℕ)
      → waits o r x t ≡ true
      → waits o r y t ≡ true
      → o.same x y ≡ false
      → (host r x && host r y) ≡ true

  pub holds-endpoints_of :
      (r : Registry E) (t : ℕ) (x : E) → holds o x (endpoints_of o t r) ≡ waits o r x t
  unfolding endpoints_of holds
  holds-endpoints_of r t x = ground arith

  -- The match of an endpoint that waits, with its entry, and of the one that asks.
  abbrev pub match_of : E → E → ℕ → E → Service E → Match E
  match_of from int_ep reflected_port x s = record {
    ep1_ext = x;
    ep1_int = s.internal_ep;
    reflected_port1 = s.reflected_port;
    ep2_ext = from;
    ep2_int = int_ep;
    reflected_port2 = reflected_port;
  }

  module _ (from int_ep : E) (reflected_port : ℕ) (is_host : Bool) (service : ℕ) where
    abbrev pub Refused : Registry E → E → Type 0
    Refused r x = o.same x from ≡ false → (is_host && host r x) ≡ true

    -- No endpoint of the list is a partner, or one is, and both are forgotten.
    pub data Outcome (r : Registry E) (l : List E) : Option (Registry E) → Type 0 where
      unmatched : All (Refused r) l → Outcome r l (some r)
      matched :
          (x : E) (s : Service E)
          → holds o x l ≡ true
          → o.same x from ≡ false
          → r.ep_to_service x ≡ some s
          → (is_host && s.is_host) ≡ false
          → Outcome r l (
              some (
                forget o x
                  (forget o from (send_match o (match_of from int_ep reflected_port x s) r))))

    later :
        {r : Registry E} {y : E} {l : List E} {result : Option (Registry E)}
        → Refused r y
        → Outcome r l result
        → Outcome r (y ∷ l) result
    unfolding holds
    later refused (unmatched a) = unmatched (refused, a)
    later refused (matched x s among other known fits) =
        matched x s (ground (arith, among)) other known fits

    pub match_first-Outcome :
        (r : Registry E) (l : List E)
        → All (λ x. typed o r x service ≡ true) l
        → Outcome r l (match_first o from int_ep reflected_port is_host service l r)
    unfolding match_first holds
    match_first-Outcome r [] a = unmatched tt
    match_first-Outcome r (y ∷ l) a = elim (Bool-cases (o.same y from)) [
      | inl self ↦ rw (match_first, self) (later (λ h. cc) (match_first-Outcome r l a.1))
      | inr other ↦ elim (Option-cases (r.ep_to_service y)) [
        | inl e ↦ absurd (ground (arith, a.0, e))
        | inr (s, e) ↦
            let right : not (s.type == service) ≡ false = ground (arith, a.0, e) in
            elim (Bool-cases (not is_host || not s.is_host)) [
              | inl fits ↦
                  rw (match_first, other, e, right, fits)
                    (matched y s (ground (arith, o.same_refl y)) other e (ground (arith, fits)))
              | inr hosts ↦
                  rw (match_first, other, e, right, hosts)
                    (later (λ h. ground (arith, hosts, e)) (match_first-Outcome r l a.1))
            ]
      ]
    ]
