-- ===== src/Club/LogEntry/Quorum.antt =====
-- The condition of a commit in src/club/log_entry.h.
use libclub.Prelude.{
  ◌≡◌, ◌↔◌, sym, refl, ap, ◌∙◌, Bool, true, ◌&&◌, List, [], ◌∷◌, arith, Bool-cases, inl, inr, All,
  ltb, ◌==◌,
}
use libclub.Generic.SortedSet.{holds}
use libclub.Generic.SortedSet.Ascending.{Ascending, below_all, holds_below}
use libclub.Club.MessageId.{Uuid}
use libclub.Club.MessageId.Orders.{uuids, uuids_trans}
use libclub.Club.Message.{AckData}
use libclub.Club.LogEntry.{LogEntry, keys, includes, acked_by_quorum, acked_by_alive}

abbrev pub UuidsAscend : List Uuid → Type 0
UuidsAscend = Ascending uuids uuids_trans

-- The items in the first set, none of which passes the head
abbrev all_in : List Uuid → List Uuid → Bool
all_in l [] = true
all_in l (q ∷ qs) = holds uuids q l && all_in l qs

all_in_skip :
    (a : Uuid) (l qs : List Uuid)
    → All (λ q. uuids.less a q ≡ true) qs
    → all_in (a ∷ l) qs ≡ all_in l qs
unfolding holds
all_in_skip a l [] h = refl
all_in_skip a l (q ∷ qs) h = ground (arith, h.0, all_in_skip a l qs h.1)

includes-all_in : (l qs : List Uuid) → UuidsAscend l → UuidsAscend qs → includes l qs ≡ all_in l qs
unfolding includes holds
includes-all_in [] [] s t = refl
includes-all_in (a ∷ l) [] s t = refl
includes-all_in [] (q ∷ qs) s t = refl
includes-all_in (a ∷ l) (q ∷ qs) s t = elim (Bool-cases (ltb q a)) [
  | inl e ↦
      ground (arith, e, holds_below uuids uuids_trans q l (below_all uuids uuids_trans q a l e s.0))
  | inr n ↦ elim (Bool-cases (ltb a q)) [
    | inl e ↦ ground (
      arith,
      n,
      includes-all_in l (q ∷ qs) s.1 t,
      all_in_skip a l (q ∷ qs) (e, below_all uuids uuids_trans a q qs e t.0),
    )
    | inr m ↦
        let same : a ≡ q = ground (arith, n, m) in
        ground (arith, n, m, includes-all_in l qs s.1 t.1, all_in_skip a l qs (rw same t.0))
  ]
]

acked_by_alive-all_in :
    (acks : List (Uuid × AckData)) (alive qs : List Uuid)
    → ((q : Uuid) → holds uuids q qs ≡ true → holds uuids q alive ≡ true)
    → acked_by_alive acks alive qs ≡ all_in (keys acks) qs
unfolding acked_by_alive holds
acked_by_alive-all_in acks alive [] h = refl
acked_by_alive-all_in acks alive (q ∷ qs) h =
    ground (arith, h q, acked_by_alive-all_in acks alive qs (λ p k. h p (ground arith)))

-- x
pub acked_by_alive_lem :
    (acks : List (Uuid × AckData)) (alive quorum : List Uuid)
    → (acked_by_alive acks alive quorum ≡ true) ↔ (
        (q : Uuid)
        → holds uuids q quorum ≡ true
        → holds uuids q alive ≡ true
        → holds uuids q (keys acks) ≡ true)
unfolding acked_by_alive holds
acked_by_alive_lem acks alive quorum = (to quorum, from quorum)
  where
    to :
        (qs : List Uuid)
        → acked_by_alive acks alive qs ≡ true
        → (q : Uuid) → holds uuids q qs ≡ true
        → holds uuids q alive ≡ true
        → holds uuids q (keys acks) ≡ true
    to [] h q k a = absurd (ground arith)
    to (p ∷ qs) h q k a = elim (Bool-cases (q == p)) [
      | inl e ↦ ground (
        arith,
        ap (λ z. holds uuids z alive) (uuids.same_sound q p e),
        ap (λ z. holds uuids z (keys acks)) (uuids.same_sound q p e),
      )
      | inr n ↦ to qs (ground arith) q (ground arith) a
    ]

    from :
        (qs : List Uuid)
        → ((q : Uuid)
            → holds uuids q qs ≡ true
            → holds uuids q alive ≡ true
            → holds uuids q (keys acks) ≡ true)
        → acked_by_alive acks alive qs ≡ true
    from [] h = refl
    from (p ∷ qs) h = ground (arith, h p, from qs (λ q k. h q (ground arith)))

acked_by_quorum-acked_by_alive :
    (e : LogEntry) (alive : List Uuid)
    → UuidsAscend (keys e.acks)
    → UuidsAscend e.quorum
    → ((q : Uuid) → holds uuids q e.quorum ≡ true → holds uuids q alive ≡ true)
    → acked_by_quorum e ≡ acked_by_alive e.acks alive e.quorum
unfolding acked_by_quorum
acked_by_quorum-acked_by_alive e alive s t h =
    includes-all_in (keys e.acks) e.quorum s t ∙ sym (acked_by_alive-all_in e.acks alive e.quorum h)

-- For an entry whose quorum and acknowledging nodes ascend, as they do in a set and a map,
-- `acked_by_quorum` holds if and only if every node of the quorum is among those that
-- acknowledged.
pub acked_by_quorum_lem :
    (e : LogEntry)
    → UuidsAscend (keys e.acks)
    → UuidsAscend e.quorum
    → (acked_by_quorum e ≡ true)
      ↔ ((q : Uuid) → holds uuids q e.quorum ≡ true → holds uuids q (keys e.acks) ≡ true)
acked_by_quorum_lem e s t =
    let same = acked_by_quorum-acked_by_alive e e.quorum s t (λ q h. h) in
    let (to, from) = acked_by_alive_lem e.acks e.quorum e.quorum in
    ((λ h q k. to (sym same ∙ h) q k k), λ h. same ∙ from (λ q k _. h q k))
