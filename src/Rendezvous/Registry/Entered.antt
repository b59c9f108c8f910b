-- ===== src/Rendezvous/Registry/Entered.antt =====
-- `find_or_create_entry` of src/rendezvous/handler.h.
use libclub.Prelude.{
  ℕ, ◌≡◌, ◌≢◌, refl, ap, ◌∙◌, Bool, true, [], Option, none, some, ◌==◌, if◌then◌else◌, arith,
  Bool-cases, Option-cases, inl, inr,
}
use libclub.Generic.SortedSet.{Order}
use libclub.Rendezvous.Registry.{
  Service, Registry, put_service, remove_ep_from_service, join, find_or_create_entry,
}
use libclub.Rendezvous.Registry.Sets.{waits, waits-remove_ep_from_service, waits-join}
use libclub.Rendezvous.Registry.Agree.{
  IsValid, services-remove_ep_from_service, nonempty-remove_ep_from_service, nonempty-join,
  matches-remove_ep_from_service,
}

module _ {E : Type 0} (o : Order E) where
  -- The entry that a known endpoint has after it asks again.
  abbrev pub renewed : Option (Service E) → E → ℕ → Bool → ℕ → Service E
  renewed none int_ep reflected_port is_host service_t = record {
    type = service_t;
    internal_ep = int_ep;
    reflected_port = reflected_port;
    is_host = is_host;
  }
  renewed (some s) int_ep reflected_port is_host service_t = record s {
    type = service_t;
    is_host = is_host;
  }

  module _ (ext_ep int_ep : E) (reflected_port : ℕ) (is_host : Bool) (service_t : ℕ) where
    abbrev entered : Registry E → Registry E
    entered = find_or_create_entry o ext_ep int_ep reflected_port is_host service_t

    pub services-find_or_create_entry :
        (r : Registry E) (x : E)
        → (entered r).ep_to_service x ≡ (
            if o.same x ext_ep
            then some (renewed (r.ep_to_service ext_ep) int_ep reflected_port is_host service_t)
            else r.ep_to_service x)
    unfolding find_or_create_entry join
    services-find_or_create_entry r x = elim (Option-cases (r.ep_to_service ext_ep)) [
      | inl e ↦ rw (find_or_create_entry, e) refl
      | inr (s, e) ↦
          let unmoved = services-remove_ep_from_service o r ext_ep s.type x in
          rw (find_or_create_entry, e) (ground (arith, unmoved))
    ]

    pub matches-find_or_create_entry : (r : Registry E) → (entered r).matches ≡ r.matches
    unfolding find_or_create_entry join
    matches-find_or_create_entry r = elim (Option-cases (r.ep_to_service ext_ep)) [
      | inl e ↦ rw (find_or_create_entry, e) refl
      | inr (s, e) ↦
          rw (find_or_create_entry, e)
            (ground (arith, matches-remove_ep_from_service o r ext_ep s.type))
    ]

    pub waits-find_or_create_entry :
        (r : Registry E) (x : E) (t : ℕ)
        → IsValid o r
        → waits o (entered r) x t ≡ (if o.same x ext_ep then service_t == t else waits o r x t)
    unfolding find_or_create_entry
    waits-find_or_create_entry r x t v = elim (Option-cases (r.ep_to_service ext_ep)) [
      | inl e ↦
          let entry = renewed none int_ep reflected_port is_host service_t in
          let joined = waits-join o (put_service o ext_ep (some entry) r) ext_ep service_t x t in
          let unknown =
            λ (h : o.same x ext_ep ≡ true). ap r.ep_to_service (o.same_sound x ext_ep h) ∙ e in
          rw (find_or_create_entry, e)
            (elim (Bool-cases (o.same x ext_ep)) [
              | inl y ↦ ground (arith, joined, unknown y, v.agree x t)
              | inr n ↦ ground (arith, joined)
            ])
      | inr (s, e) ↦
          let entry = renewed (some s) int_ep reflected_port is_host service_t in
          let known =
            λ (h : o.same x ext_ep ≡ true). ap r.ep_to_service (o.same_sound x ext_ep h) ∙ e in
          let moved = if s.type == service_t then r else remove_ep_from_service o ext_ep s.type r in
          let joined =
            waits-join o (put_service o ext_ep (some entry) moved) ext_ep service_t x t in
          let removed = waits-remove_ep_from_service o r ext_ep s.type x t in
          rw (find_or_create_entry, e)
            (elim (Bool-cases (o.same x ext_ep)) [
              | inl y ↦ ground (arith, joined, removed, known y, v.agree x t)
              | inr n ↦ ground (arith, joined, removed)
            ])
    ]

    nonempty-find_or_create_entry :
        (r : Registry E) → IsValid o r → (t : ℕ) → (entered r).service_to_endpoints t ≢ some []
    unfolding find_or_create_entry
    nonempty-find_or_create_entry r v t = elim (Option-cases (r.ep_to_service ext_ep)) [
      | inl e ↦
          rw (find_or_create_entry, e)
            (nonempty-join o (put_service o ext_ep _ r) ext_ep service_t v.nonempty t)
      | inr (s, e) ↦
          rw (find_or_create_entry, e)
            (nonempty-join o
              (put_service o ext_ep _
                (if s.type == service_t then r else remove_ep_from_service o ext_ep s.type r))
              ext_ep service_t (kept s) t)
    ]
      where
        kept :
            (s : Service E) (t : ℕ)
            → (if s.type == service_t
                  then r
                  else remove_ep_from_service o ext_ep s.type r).service_to_endpoints
                t
              ≢ some []
        kept s t = elim (Bool-cases (s.type == service_t)) [
          | inl y ↦ rw y (v.nonempty t)
          | inr n ↦ rw n (nonempty-remove_ep_from_service o r ext_ep s.type v.nonempty t)
        ]

    pub find_or_create_entry-IsValid : (r : Registry E) → IsValid o r → IsValid o (entered r)
    find_or_create_entry-IsValid r v = record {
      agree = λ x t.
          let now = services-find_or_create_entry r x in
          ground (arith, now, waits-find_or_create_entry r x t v, v.agree x t);
      nonempty = nonempty-find_or_create_entry r v;
    }
