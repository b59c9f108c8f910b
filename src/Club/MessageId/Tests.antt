-- ===== src/Club/MessageId/Tests.antt =====
-- The results on src/club/message_id.h at concrete ids.
use libclub.Prelude.{◌≡◌, refl, true}
use libclub.Club.MessageId.{MessageId, lt}

abbrev early : MessageId
early = record { timestamp = 4; original_poster = 900 }

abbrev late : MessageId
late = record { timestamp = 5; original_poster = 7 }

abbrev later : MessageId
later = record { timestamp = 5; original_poster = 8 }

early-late : lt early late ≡ true
unfolding lt
early-late = refl

late-later : lt late later ≡ true
unfolding lt
late-later = refl
