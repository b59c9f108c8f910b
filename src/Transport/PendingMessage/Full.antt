-- ===== src/Transport/PendingMessage/Full.antt =====
-- The constructor of include/club/transport/pending_message.h from a whole message.
use libclub.Prelude.{◌<◌, ◌≡◌, refl, true, some, length, arith}
use libclub.Transport.Message.{InMessageFull}
use libclub.Transport.PartInfo.Add.{add_part_first}
use libclub.Transport.PendingMessage.{of_full, is_whole, is_complete, get_complete_message}

of_full-is_complete :
    (m : InMessageFull)
    → m.size ≡ length m.payload
    → 0 < length m.payload
    → is_complete (of_full m) ≡ true
unfolding of_full is_complete is_whole
of_full-is_complete m size nonempty = rw (add_part_first (length m.payload) nonempty) (ground arith)

-- A message that arrives whole, that names its size and is not empty, held as a pending one, is
-- handed on at once and as it came.
pub get_complete_message-of_full :
    (m : InMessageFull)
    → m.size ≡ length m.payload
    → 0 < length m.payload
    → get_complete_message (of_full m) ≡ some m
unfolding of_full get_complete_message
get_complete_message-of_full m size nonempty = rw (of_full-is_complete m size nonempty) refl
