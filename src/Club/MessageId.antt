-- ===== src/Club/MessageId.antt =====
-- src/club/message_id.h. A uuid is the number that its bytes make, the first one highest, so that
-- the order of uuids is that of numbers.
pub mod Total
pub mod Orders
mod Tests
use libclub.Prelude.{ℕ, Bool, ◌&&◌, ◌||◌, not, ltb, ◌==◌}

abbrev pub Uuid : Type 0
Uuid = ℕ

abbrev pub TimeStamp : Type 0
TimeStamp = ℕ

pub record MessageId : Type 0 where
  pub timestamp : TimeStamp
  pub original_poster : Uuid

-- The default constructor.
abbrev pub no_message : MessageId
no_message = record { timestamp = 0; original_poster = 0 }

-- `<` on the tuples of the fields
unfoldable pub lt : MessageId → MessageId → Bool
lt a b =
    ltb a.timestamp b.timestamp
    || (not (ltb b.timestamp a.timestamp) && ltb a.original_poster b.original_poster)

unfoldable pub eq : MessageId → MessageId → Bool
eq a b = a.timestamp == b.timestamp && a.original_poster == b.original_poster

-- std::tuple derives the other operators from these two.
unfoldable pub le : MessageId → MessageId → Bool
le a b = not (lt b a)

pub gt : MessageId → MessageId → Bool
gt a b = lt b a

pub ge : MessageId → MessageId → Bool
ge a b = not (lt a b)

unfoldable pub ne : MessageId → MessageId → Bool
ne a b = not (eq a b)
