-- ===== src/Rendezvous/Tests.antt =====
-- The results on src/rendezvous at two clients of one service.
use libclub.Prelude.{
  ℕ, ◌≡◌, refl, Bool, true, false, ◌&&◌, ◌||◌, List, [], ◌∷◌, ◌++◌, none, some, ltb, ◌==◌,
  if◌then◌else◌, arith,
}
use libclub.Rendezvous.Wire.{Address, v4, v6, Endpoint, payload, predicted, is_symmetric}
use libclub.Generic.SortedSet.{Order, holds}
use libclub.Rendezvous.Registry.{Service, Registry, fetch}
use libclub.Rendezvous.Registry.Sets.{waits}
use libclub.Rendezvous.Registry.Agree.{IsValid}
use libclub.Rendezvous.Registry.Pairs.{host, match_of}
use libclub.Rendezvous.Registry.Fetch.{fetch_matches}
use libclub.Rendezvous.Client.{on_recv, connected, construct_fetch_message}
use libclub.Rendezvous.Client.Reads.{on_recv-payload}
use libclub.Rendezvous.Server.{Server, fetches, answer, on_receive}
use libclub.Rendezvous.Server.Sound.{IsSound, on_receive-IsSound}
use libclub.Rendezvous.Server.Reads.{on_receive-construct_fetch_message}

-- An order of endpoints: that of lists of numbers.
abbrev less_list : List ℕ → List ℕ → Bool
less_list [] [] = false
less_list [] (y ∷ ys) = true
less_list (x ∷ xs) [] = false
less_list (x ∷ xs) (y ∷ ys) = ltb x y || (x == y && less_list xs ys)

abbrev same_list : List ℕ → List ℕ → Bool
same_list [] [] = true
same_list [] (y ∷ ys) = false
same_list (x ∷ xs) [] = false
same_list (x ∷ xs) (y ∷ ys) = x == y && same_list xs ys

same_list_sound : (xs ys : List ℕ) → same_list xs ys ≡ true → xs ≡ ys
same_list_sound [] [] h = refl
same_list_sound [] (y ∷ ys) h = absurd cc
same_list_sound (x ∷ xs) [] h = absurd cc
same_list_sound (x ∷ xs) (y ∷ ys) h =
    let head : x ≡ y = ground arith in let tail = same_list_sound xs ys (ground arith) in cc

same_list_refl : (xs : List ℕ) → same_list xs xs ≡ true
same_list_refl [] = refl
same_list_refl (x ∷ xs) = ground (arith, same_list_refl xs)

less_list_irreflexive : (xs : List ℕ) → less_list xs xs ≡ false
less_list_irreflexive [] = refl
less_list_irreflexive (x ∷ xs) = ground (arith, less_list_irreflexive xs)

less_list_total : (xs ys : List ℕ) → less_list xs ys ≡ false → less_list ys xs ≡ false → xs ≡ ys
less_list_total [] [] h k = refl
less_list_total [] (y ∷ ys) h k = absurd cc
less_list_total (x ∷ xs) [] h k = absurd cc
less_list_total (x ∷ xs) (y ∷ ys) h k =
    let head : x ≡ y = ground arith in
    let tail = less_list_total xs ys (ground arith) (ground arith) in cc

abbrev key : Endpoint → List ℕ
key ep = elim ep.address [ v4 a ↦ 4 ∷ ep.port ∷ a ∷ [] | v6 bytes ↦ 6 ∷ ep.port ∷ bytes ]

key_injective : (x y : Endpoint) → key x ≡ key y → x ≡ y
key_injective x y e = ground arith

abbrev by_key : Order Endpoint
by_key = record {
  less = λ x y. less_list (key x) (key y);
  same = λ x y. same_list (key x) (key y);
  same_sound = λ x y h. key_injective x y (same_list_sound (key x) (key y) h);
  same_refl = λ x. same_list_refl (key x);
  irreflexive = λ x. less_list_irreflexive (key x);
  total = λ x y h k. key_injective x y (less_list_total (key x) (key y) h k);
}

abbrev first : Endpoint
first = record { address = v4 100; port = 10 }

abbrev second : Endpoint
second = record { address = v4 200; port = 20 }

abbrev internal : Endpoint
internal = record { address = v4 7; port = 30 }

abbrev entry : Service Endpoint
entry = record { type = 5; internal_ep = internal; reflected_port = 0; is_host = true }

-- The first client waits for service 5, as a host.
abbrev one_waits : Registry Endpoint
one_waits = record {
  ep_to_service = λ x. if by_key.same x first then some entry else none;
  service_to_endpoints = λ t. if t == 5 then some (first ∷ []) else none;
  matches = [];
}

one_waits-IsValid : IsValid by_key one_waits
unfolding holds
one_waits-IsValid = record { agree = λ x t. ground arith; nonempty = λ t e. ground arith }

one_waits-IsSound : IsSound by_key one_waits
unfolding holds
one_waits-IsSound = record { valid = one_waits-IsValid; alone = λ x y t wx wy apart. ground arith }

abbrev server : Server
server = record { registry = one_waits; replies = [] }

on_receive-IsSound_example :
    (s' : Server) × (on_receive by_key 4000 server second
        (construct_fetch_message false 5 internal 0)
      ≡ some s')
    × IsSound by_key s'.registry
on_receive-IsSound_example =
    on_receive-IsSound by_key 4000 server second (construct_fetch_message false 5 internal 0)
      one_waits-IsSound

first_is_there : waits by_key one_waits first 5 ≡ true
unfolding holds
first_is_there = refl

fetch_matches_example :
    (r' : Registry Endpoint) × (x : Endpoint) × (s : Service Endpoint) × (fetch by_key second
        internal 0 false 5 one_waits
      ≡ some r')
    × (one_waits.ep_to_service x ≡ some s)
    × (s.type ≡ 5)
    × ((false && s.is_host) ≡ false)
    × (r'.matches ≡ [] ++ (match_of by_key second internal 0 x s ∷ []))
    × (r'.ep_to_service second ≡ none)
    × (r'.ep_to_service x ≡ none)
fetch_matches_example =
    fetch_matches by_key second internal 0 false 5 one_waits one_waits-IsValid first first_is_there
      refl refl

both_hosts :
    (x : Endpoint)
    → waits by_key one_waits x 5 ≡ true
    → by_key.same x second ≡ false
    → (true && host by_key one_waits x) ≡ true
unfolding holds
both_hosts x w apart = ground arith

abbrev same_address : Address → Address → Bool
same_address (v4 a) (v4 b) = a == b
same_address (v4 a) (v6 bytes) = false
same_address (v6 bytes) (v4 b) = false
same_address (v6 bytes) (v6 others) = same_list bytes others

on_recv-payload_example :
    on_recv same_address (payload first second internal 21)
    ≡ connected (record { address = v4 200; port = 22 }) true
unfolding predicted is_symmetric
on_recv-payload_example =
    on_recv-payload same_address first second internal 21
      (record { address = omega arith; port = omega arith })
      (record { address = omega arith; port = omega arith })
      (record { address = omega arith; port = omega arith })

on_receive-construct_fetch_message_example :
    on_receive by_key 4000 server second (construct_fetch_message true 5 internal 0)
    ≡ answer by_key 4000 server second (fetches true 5 0 internal)
on_receive-construct_fetch_message_example =
    on_receive-construct_fetch_message by_key 4000 server second true 5 internal 0 (omega arith)
      (omega arith) (record { address = omega arith; port = omega arith })
