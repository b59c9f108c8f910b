-- ===== src/Club/Log/Orderless.antt =====
-- src/club/log.h: whether an acknowledgement comes before or behind its message makes no difference
-- to who acknowledged it and who has to.
use mathlib.Core.Path.{subst}
use libclub.Prelude.{
  ◌≡◌, refl, sym, ap, ◌∙◌, false, ◌||◌, List, [], ◌∷◌, Option, none, some, arith, Bool-cases, inl,
  inr,
}
use libclub.Generic.SortedSet.{insert, holds, holds-insert}
use libclub.Generic.SortedMap.{find, put, find-put}
use libclub.Club.MessageId.{MessageId, Uuid, le}
use libclub.Club.MessageId.Orders.{uuids, message_ids}
use libclub.Club.Message.{AckData, message_id, ack_data}
use libclub.Club.LogEntry.{LogEntry, original_poster}
use libclub.Club.Log.{Log, find_entry, insert_all, absorb, apply_ack, insert_entry, pending}
use libclub.Club.Log.Apply.{
  absorb_all, moved, AllOf, find-put_self, entry_of, insert_entry-absorb_all, apply_ack-absorb,
  apply_ack_absent,
}

-- Two entries with the same acknowledgements, and the same nodes that have to acknowledge.
pub record SameAcks (a b : LogEntry) : Type 0 where
  pub acks : (op : Uuid) → find uuids op a.acks ≡ find uuids op b.acks
  pub quorum : (q : Uuid) → holds uuids q a.quorum ≡ holds uuids q b.quorum

SameAcks-trans : (a b c : LogEntry) → SameAcks a b → SameAcks b c → SameAcks a c
SameAcks-trans a b c s t = record {
  acks = λ op. s.acks op ∙ t.acks op;
  quorum = λ q. s.quorum q ∙ t.quorum q;
}

holds-insert_all :
    (l quorum : List Uuid) (x : Uuid)
    → holds uuids x (insert_all l quorum) ≡ (holds uuids x l || holds uuids x quorum)
unfolding insert_all holds
holds-insert_all [] quorum x = ground arith
holds-insert_all (p ∷ l) quorum x =
    ground (arith, holds-insert_all l (insert uuids p quorum) x, holds-insert uuids x p quorum)

absorb-SameAcks :
    (op : Uuid) (ack : AckData) (a b : LogEntry)
    → SameAcks a b
    → SameAcks (absorb op ack a) (absorb op ack b)
unfolding absorb
absorb-SameAcks op ack a b s = record {
  acks =
      λ x. ground (arith, find-put uuids x op ack a.acks, find-put uuids x op ack b.acks, s.acks x);
  quorum = λ x. ground (
    arith,
    holds-insert_all ack.neighbors a.quorum x,
    holds-insert_all ack.neighbors b.quorum x,
    s.quorum x,
  );
}

-- Acknowledgements of two nodes are taken in in any order.
absorb_swap :
    (op op' : Uuid) (ack ack' : AckData) (e : LogEntry)
    → uuids.same op op' ≡ false
    → SameAcks (absorb op ack (absorb op' ack' e)) (absorb op' ack' (absorb op ack e))
unfolding absorb
absorb_swap op op' ack ack' e n = record {
  acks = λ x. ground (
    arith,
    n,
    find-put uuids x op ack (put uuids op' ack' e.acks),
    find-put uuids x op' ack' e.acks,
    find-put uuids x op' ack' (put uuids op ack e.acks),
    find-put uuids x op ack e.acks,
  );
  quorum = λ x. ground (
    arith,
    holds-insert_all ack.neighbors (insert_all ack'.neighbors e.quorum) x,
    holds-insert_all ack'.neighbors e.quorum x,
    holds-insert_all ack'.neighbors (insert_all ack.neighbors e.quorum) x,
    holds-insert_all ack.neighbors e.quorum x,
  );
}

absorb_all-SameAcks :
    (l : List (Uuid × AckData)) (a b : LogEntry)
    → SameAcks a b
    → SameAcks (absorb_all l a) (absorb_all l b)
absorb_all-SameAcks [] a b s = s
absorb_all-SameAcks ((op, ack) ∷ l) a b s =
    absorb_all-SameAcks l (absorb op ack a) (absorb op ack b) (absorb-SameAcks op ack a b s)

absorb_all_last :
    (op : Uuid) (ack : AckData) (l : List (Uuid × AckData)) (e : LogEntry)
    → find uuids op l ≡ none
    → SameAcks (absorb_all l (absorb op ack e)) (absorb op ack (absorb_all l e))
unfolding find
absorb_all_last op ack [] e n = record { acks = λ x. refl; quorum = λ x. refl }
absorb_all_last op ack ((p, a) ∷ l) e n =
    SameAcks-trans _ _ _
      (absorb_all-SameAcks l (absorb p a (absorb op ack e)) (absorb op ack (absorb p a e))
        (absorb_swap p op a ack e (ground (arith, n))))
      (absorb_all_last op ack l (absorb p a e) (ground (arith, n)))

absorb_all-put :
    (op : Uuid) (ack : AckData) (l : List (Uuid × AckData)) (e : LogEntry)
    → find uuids op l ≡ none
    → SameAcks (absorb_all (put uuids op ack l) e) (absorb op ack (absorb_all l e))
unfolding put find
absorb_all-put op ack [] e n = record { acks = λ x. refl; quorum = λ x. refl }
absorb_all-put op ack ((p, a) ∷ l) e n = elim (Bool-cases (uuids.less p op)) [
  | inl y ↦ rw (put, y) (absorb_all-put op ack l (absorb p a e) (ground (arith, n)))
  | inr m ↦ elim (Bool-cases (uuids.less op p)) [
    | inl y ↦ rw (put, m, y) (absorb_all_last op ack ((p, a) ∷ l) e n)
    | inr k ↦ absurd (ground (arith, n, m, k))
  ]
]

AllOf-put :
    (id : MessageId) (op : Uuid) (ack : AckData) (l : List (Uuid × AckData))
    → ack.acked_message_id ≡ id
    → AllOf id l
    → AllOf id (put uuids op ack l)
unfolding put
AllOf-put id op ack [] h a = (h, tt)
AllOf-put id op ack ((p, b) ∷ l) h a = elim (Bool-cases (uuids.less p op)) [
  | inl y ↦ rw (put, y) (a.0, AllOf-put id op ack l h a.1)
  | inr m ↦ elim (Bool-cases (uuids.less op p)) [
    | inl y ↦ rw (put, m, y) (h, a)
    | inr k ↦ rw (put, m, k) (h, a.1)
  ]
]

-- For a message above the last committed one, that is not in the log and acknowledges itself, and
-- for an acknowledgement of it by another node, the first of that node, while all that is pending
-- for the message is of it: whether the acknowledgement comes before the message or behind it, the
-- message has an entry in the end, with the same acknowledgements of the same nodes and with the
-- same quorum.
pub insert_entry-apply_ack :
    (e : LogEntry) (op : Uuid) (ack : AckData) (log : Log)
    → le (message_id e.message) log.last_committed ≡ false
    → find_entry log (message_id e.message) ≡ none
    → (ack_data e.message).acked_message_id ≡ message_id e.message
    → AllOf (message_id e.message) (pending (message_id e.message) log)
    → ack.acked_message_id ≡ message_id e.message
    → uuids.same op (original_poster e.message) ≡ false
    → find uuids op (pending (message_id e.message) log) ≡ none
    → (a : LogEntry) × (b : LogEntry) × (find_entry
          (insert_entry e (apply_ack op ack log))
          (message_id e.message)
        ≡ some a)
      × (find_entry (apply_ack op ack (insert_entry e log)) (message_id e.message) ≡ some b)
      × SameAcks a b
unfolding find_entry absorb
insert_entry-apply_ack e op ack log later new own all mine other once =
    let id = message_id e.message in
    let waits = pending id log in
    let before : Log = record log {
      pending_acks = put message_ids id (put uuids op ack waits) log.pending_acks;
    } in
    let waiting : pending id before ≡ put uuids op ack waits =
      ap (λ (z : Option (List (Uuid × AckData))). elim z [ none ↦ [] | some l ↦ l ])
        (find-put_self id (put uuids op ack waits) log.pending_acks) in
    let poster = original_poster e.message in
    let its = ack_data e.message in
    (
      absorb poster its (moved (absorb_all (put uuids op ack waits) (entry_of e log))),
      absorb op ack (absorb poster its (moved (absorb_all waits (entry_of e log)))),
      ap (λ z. find_entry (insert_entry e z) id) (apply_ack_absent id op ack log mine new)
          ∙ insert_entry-absorb_all e before later new own
              (subst (AllOf id) (sym waiting) (AllOf-put id op ack waits mine all))
          ∙ ap (λ z. some (absorb poster its (moved (absorb_all z (entry_of e log))))) waiting,
      apply_ack-absorb id op ack (insert_entry e log) _ mine
          (insert_entry-absorb_all e log later new own all),
      in_any_order _ _ (absorb_all-put op ack waits (entry_of e log) once),
    )
  where
    in_any_order :
        (c d : LogEntry)
        → SameAcks c (absorb op ack d)
        → SameAcks
            (absorb (original_poster e.message) (ack_data e.message) (moved c))
            (absorb op ack (absorb (original_poster e.message) (ack_data e.message) (moved d)))
    in_any_order c d s =
        SameAcks-trans _ _ _
          (absorb-SameAcks (original_poster e.message) (ack_data e.message) (moved c)
            (absorb op ack (moved d)) (record { acks = s.acks; quorum = s.quorum }))
          (absorb_swap (original_poster e.message) op (ack_data e.message) ack (moved d)
            (ground (arith, other)))
