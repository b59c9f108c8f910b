-- ===== src/Rendezvous/Server/Sound.antt =====
-- src/rendezvous/server.h at whatever packet.
use libclub.Prelude.{
  ℕ, ◌≡◌, ◌+◌, ◌^◌, ◌%◌, ◌/◌, ◌||◌, not, ◌==◌, ltb, length, take, refl, List, Option, some, inl,
  inr, Bool-cases,
}
use libclub.Binary.Decoder.{Decoder, decoder, get_u16, get_u32}
use libclub.Rendezvous.Wire.{Endpoint, header_size, cookie}
use libclub.Generic.SortedSet.{Order}
use libclub.Rendezvous.Registry.{Registry, forget}
use libclub.Rendezvous.Registry.Agree.{IsValid, forget-IsValid}
use libclub.Rendezvous.Registry.Pairs.{Alone}
use libclub.Rendezvous.Registry.Fetch.{fetch-Alone}
use libclub.Rendezvous.Registry.Waiting.{forget-Alone}
use libclub.Rendezvous.Server.{
  Request, unreadable, forgets, asks_reflector, fetches, read_request, Server, answer, handle,
  handle_payload, on_receive, with_registry,
}

module _ (o : Order Endpoint) where
  -- The maps agree, and two that wait for one service are hosts both.
  pub record IsSound (r : Registry Endpoint) : Type 0 where
    pub valid : IsValid o r
    pub alone : Alone o r

  forget-IsSound : (r : Registry Endpoint) (from : Endpoint) → IsSound r → IsSound (forget o from r)
  forget-IsSound r from h = record {
    valid = forget-IsValid o r from h.valid;
    alone = forget-Alone o r from h.valid (λ x y t _ _. h.alone x y t);
  }

module _ (o : Order Endpoint) (reflector_port : ℕ) where
  abbrev Next : Option Server → Type 0
  Next result = (s' : Server) × (result ≡ some s') × IsSound o s'.registry

  answer-IsSound :
      (s : Server) (from : Endpoint) (request : Request)
      → IsSound o s.registry
      → Next (answer o reflector_port s from request)
  unfolding answer
  answer-IsSound s from unreadable h = (s, refl, h)
  answer-IsSound s from forgets h = (_, refl, forget-IsSound o s.registry from h)
  answer-IsSound s from asks_reflector h = (_, refl, h)
  answer-IsSound s from (fetches is_host service reflected_port internal_ep) h =
      let (r, e, valid, alone) =
        fetch-Alone o from internal_ep reflected_port is_host service s.registry h.valid h.alone in
      (with_registry s r, simp (answer, e) refl, record { valid = valid; alone = alone })

  handle_payload-IsSound :
      (s : Server) (version : ℕ) (from : Endpoint) (d : Decoder)
      → IsSound o s.registry
      → Next (handle_payload o reflector_port s version from d)
  unfolding handle_payload handle
  handle_payload-IsSound s version from d h = elim (Bool-cases (version == 1)) [
    | inl y ↦ rw (handle_payload, y) (answer-IsSound s from (read_request d) h)
    | inr n ↦ rw (handle_payload, n) (_, refl, h)
  ]

  -- While the two maps agree, no set of endpoints is empty, and of any two endpoints that wait for
  -- one service both are hosts, the server handles every packet from every sender with no
  -- assertion failing, and all this holds afterwards.
  pub on_receive-IsSound :
      (s : Server) (sender : Endpoint) (bytes : List ℕ)
      → IsSound o s.registry
      → (s' : Server) × (on_receive o reflector_port s sender bytes ≡ some s')
        × IsSound o s'.registry
  unfolding on_receive
  on_receive-IsSound s sender bytes h =
      let (plex_and_version, d1) = get_u16 (decoder bytes) in
      let (size, d2) = get_u16 d1 in
      let (his_cookie, d3) = get_u32 d2 in
      elim (Bool-cases d3.was_error) [
        | inl bad ↦ (s, simp (on_receive, bad) refl, h)
        | inr good ↦ elim (Bool-cases (ltb (length bytes) (size + header_size))) [
          | inl short ↦ (s, simp (on_receive, good, short) refl, h)
          | inr long ↦
              elim (Bool-cases
                (not (plex_and_version / 2 ^ 14 % 4 == 2) || not (his_cookie == cookie))) [
                  | inl wrong ↦ (s, simp (on_receive, good, long, wrong) refl, h)
                  | inr right ↦
                      let (s', e, after) =
                        handle_payload-IsSound s (plex_and_version % 2 ^ 14) sender
                          (decoder (take size d3.bytes)) h in
                      (s', simp (on_receive, good, long, right) e, after)
                ]
        ]
      ]
