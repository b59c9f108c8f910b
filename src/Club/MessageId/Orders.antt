-- ===== src/Club/MessageId/Orders.antt =====
-- The uuids and the message ids of src/club/message_id.h as the keys of maps.
use libclub.Prelude.{◌≡◌, true, false, ltb, ◌==◌, arith}
use libclub.Generic.SortedSet.{Order}
use libclub.Club.MessageId.Total.{lt_trans}
use libclub.Club.MessageId.{Uuid, MessageId, lt, eq}

abbrev pub uuids : Order Uuid
uuids = record {
  less = ltb;
  same = ◌==◌;
  same_sound = λ a b h. ground arith;
  same_refl = λ a. ground arith;
  irreflexive = λ a. ground arith;
  total = λ a b h k. ground arith;
}

pub eq_sound : (a b : MessageId) → eq a b ≡ true → a ≡ b
unfolding eq
eq_sound a b h = ground arith

pub eq_refl : (a : MessageId) → eq a a ≡ true
unfolding eq
eq_refl a = ground arith

pub lt_irreflexive : (a : MessageId) → lt a a ≡ false
unfolding lt
lt_irreflexive a = ground arith

pub lt_total : (a b : MessageId) → lt a b ≡ false → lt b a ≡ false → a ≡ b
unfolding lt
lt_total a b h k = ground arith

abbrev pub message_ids : Order MessageId
message_ids = record {
  less = lt;
  same = eq;
  same_sound = eq_sound;
  same_refl = eq_refl;
  irreflexive = lt_irreflexive;
  total = lt_total;
}

pub uuids_trans :
    (a b c : Uuid) → uuids.less a b ≡ true → uuids.less b c ≡ true → uuids.less a c ≡ true
uuids_trans a b c h k = ground arith

pub message_ids_trans :
    (a b c : MessageId)
    → message_ids.less a b ≡ true
    → message_ids.less b c ≡ true
    → message_ids.less a c ≡ true
message_ids_trans = lt_trans
