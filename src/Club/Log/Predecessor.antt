-- ===== src/Club/Log/Predecessor.antt =====
-- `get_predecessor_time` of src/club/log.h.
use libclub.Prelude.{
  ◌≡◌, sym, ap, ◌∙◌, true, false, List, [], ◌∷◌, Option, none, some, arith, Bool-cases, inl, inr,
  All,
}
use libclub.Club.MessageId.{MessageId, lt, no_message}
use libclub.Club.MessageId.Total.{lt_trans, le_trans, lt_asym, no_message_least}
use libclub.Club.MessageId.Orders.{message_ids}
use libclub.Club.Message.{message_id}
use libclub.Club.LogEntry.{LogEntry, keys}
use libclub.Club.Log.{Log, before, get_predecessor, get_predecessor_time}
use libclub.Club.Log.Valid.{IdsAscend, Proper, IsValid}

abbrev time_of : Option LogEntry → MessageId
time_of none = no_message
time_of (some e) = message_id e.message

-- The result is below the id, not below what it began with, and no key lies between it and the id.
record Nearest (id : MessageId) (r from : MessageId) (ids : List MessageId) : Type 0 where
  pub below : lt r id ≡ true
  pub not_before : lt r from ≡ false
  pub nearest : All (λ k. lt k id ≡ true → lt r k ≡ false) ids

all_above :
    (id k r : MessageId) (ids : List MessageId)
    → lt k id ≡ false
    → All (λ y. lt k y ≡ true) ids
    → All (λ y. lt y id ≡ true → lt r y ≡ false) ids
all_above id k r [] h a = tt
all_above id k r (y ∷ ids) h a =
    ((λ b. absurd (ground (arith, lt_trans k y id a.0 b, h))), all_above id k r ids h a.1)

all_asym :
    (k : MessageId) (ids : List MessageId)
    → All (λ y. lt k y ≡ true) ids
    → All (λ y. lt y k ≡ false) ids
all_asym k [] a = tt
all_asym k (y ∷ ids) a = (lt_asym k y a.0, all_asym k ids a.1)

before-Nearest :
    (id : MessageId) (last : Option LogEntry) (m : List (MessageId × LogEntry))
    → All (λ (p : MessageId × LogEntry). message_id p.1.message ≡ p.0) m
    → IdsAscend (keys m)
    → All (λ y. lt y (time_of last) ≡ false) (keys m)
    → lt (time_of last) id ≡ true
    → Nearest id (time_of (before id last m)) (time_of last) (keys m)
unfolding before
before-Nearest id last [] own a b h = record {
  below = h;
  not_before = message_ids.irreflexive (time_of last);
  nearest = tt;
}
before-Nearest id last ((k, e) ∷ m) own a b h = elim (Bool-cases (lt k id)) [
  | inr n ↦
      rw (before, n)
        (record {
          below = h;
          not_before = message_ids.irreflexive (time_of last);
          nearest =
              ((λ j. absurd (ground (arith, n, j))), all_above id k (time_of last) (keys m) n a.0);
        })
  | inl y ↦
      let rest =
        before-Nearest id (some e) m own.1 a.1 (rw own.0 (all_asym k (keys m) a.0)) (rw own.0 y) in
      let there = time_of (before id (some e) m) in
      let not_k : lt there k ≡ false = ap (lt there) (sym own.0) ∙ rest.not_before in
      rw (before, y)
        (record {
          below = rest.below;
          not_before = le_trans there k (time_of last) not_k b.0;
          nearest = ((λ _. not_k), rest.nearest);
        })
]

all_not_before : (ids : List MessageId) → All (λ y. lt y no_message ≡ false) ids
all_not_before [] = tt
all_not_before (y ∷ ids) = (no_message_least y, all_not_before ids)

own_ids :
    (last : MessageId) (m : List (MessageId × LogEntry))
    → All (Proper last) m
    → All (λ (p : MessageId × LogEntry). message_id p.1.message ≡ p.0) m
own_ids last [] a = tt
own_ids last ((k, e) ∷ m) a = (a.0.0, own_ids last m a.1)

-- In a valid log, the time of the predecessor of an id other than the least one is below that id,
-- and it is not below the id of any entry that is below that id.
pub get_predecessor_time_lem :
    (log : Log) (id : MessageId)
    → IsValid log
    → lt no_message id ≡ true
    → (lt (get_predecessor_time id log.entries) id ≡ true)
      × All
          (λ k. lt k id ≡ true → lt (get_predecessor_time id log.entries) k ≡ false)
          (keys log.entries)
unfolding get_predecessor_time get_predecessor
get_predecessor_time_lem log id v h =
    let found =
      before-Nearest id none log.entries (own_ids log.last_committed log.entries v.proper) v.ascend
        (all_not_before (keys log.entries)) h in
    (found.below, found.nearest)
