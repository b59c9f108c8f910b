-- ===== src/Club/MessageId/Total.antt =====
-- The operators of src/club/message_id.h and the order of ids.
use libclub.Prelude.{◌≡◌, inl, inr, true, false, ◌||◌, not, arith, Bool-cases}
use libclub.Club.MessageId.{MessageId, no_message, lt, eq, le, gt, ge, ne}

-- An id that is lower than a second, which is lower than a third, is lower than the third.
pub lt_trans : (a b c : MessageId) → lt a b ≡ true → lt b c ≡ true → lt a c ≡ true
unfolding lt
lt_trans a b c h k = ground arith

-- Just one of the three holds of two ids: the first is lower, they are equal, or the second is lower.
pub data Trichotomy (a b : MessageId) : Type 0 where
  below : lt a b ≡ true → eq a b ≡ false → lt b a ≡ false → Trichotomy a b
  same : lt a b ≡ false → a ≡ b → eq a b ≡ true → lt b a ≡ false → Trichotomy a b
  above : lt a b ≡ false → eq a b ≡ false → lt b a ≡ true → Trichotomy a b

eq_path :
    (a b : MessageId) → a.timestamp ≡ b.timestamp → a.original_poster ≡ b.original_poster → a ≡ b
eq_path a b h k = cc

-- Just one of the three holds of two ids: the first is lower, they are equal, or the second is
-- lower.
pub lt-Trichotomy : (a b : MessageId) → Trichotomy a b
unfolding lt eq
lt-Trichotomy a b = elim (Bool-cases (lt a b)) [
  | inl y ↦ below y (ground arith) (ground arith)
  | inr n ↦ elim (Bool-cases (eq a b)) [
    | inl y ↦ same n (eq_path a b (ground arith) (ground arith)) y (ground arith)
    | inr n2 ↦ above n n2 (ground arith)
  ]
]

-- Each of the other operators is the one of that order.
pub operators_agree :
    (a b : MessageId)
    → (le a b ≡ (lt a b || eq a b))
      × (ge a b ≡ (lt b a || eq a b))
      × (gt a b ≡ not (le a b))
      × (ne a b ≡ (lt a b || lt b a))
unfolding lt eq le gt ge ne
operators_agree a b = (ground arith, ground arith, ground arith, ground arith)

-- What is not above a first id is below one that is above it.
pub lt_next :
    (a b c : MessageId) → lt a c ≡ false → lt a b ≡ true → (lt c b ≡ true) × (lt b c ≡ false)
unfolding lt
lt_next a b c h k = (ground arith, ground arith)

-- What is not below a second id, which is not below a third, is not below the third.
pub le_trans : (a b c : MessageId) → lt a b ≡ false → lt b c ≡ false → lt a c ≡ false
unfolding lt
le_trans a b c h k = ground arith

pub lt_asym : (a b : MessageId) → lt a b ≡ true → lt b a ≡ false
unfolding lt
lt_asym a b h = ground arith

pub no_message_least : (a : MessageId) → lt a no_message ≡ false
unfolding lt
no_message_least a = ground arith
