-- ===== src/Club/SeenMessages/Tests.antt =====
-- The results on src/club/seen_messages.h at a record of two users.
use libclub.Prelude.{◌≡◌, ◌||◌, ◌&&◌, [], ◌∷◌, none, some, leb}
use libclub.Club.MessageId.{MessageId, eq}
use libclub.Club.SeenMessages.{SeenMessages, insert, is_in, seen_everything_up_to}
use libclub.Club.SeenMessages.Seen.{knows, is_in-insert, is_in-seen_everything_up_to}

abbrev seen : SeenMessages
seen =
    (1, record { stamps = 7 ∷ 9 ∷ []; bottom = some 5 })
    ∷ (2, record { stamps = 3 ∷ []; bottom = none })
    ∷ []

abbrev fresh : MessageId
fresh = record { timestamp = 8; original_poster = 1 }

abbrev old : MessageId
old = record { timestamp = 2; original_poster = 2 }

is_in-insert_example : is_in (insert seen fresh) old ≡ (eq fresh old || is_in seen old)
is_in-insert_example = is_in-insert seen fresh old

is_in-seen_everything_up_to_example :
    is_in (seen_everything_up_to seen fresh) old ≡ ((knows seen 2 && leb 2 8) || is_in seen old)
is_in-seen_everything_up_to_example = is_in-seen_everything_up_to seen fresh old
