-- ===== src/Transport/PendingMessage/Handed.antt =====
-- What a message of include/club/transport/pending_message.h hands on.
use libclub.Prelude.{ℕ, ◌≡◌, sym, ◌∙◌, true, List, some, arith}
use libclub.Transport.Message.{InMessageFull}
use libclub.Transport.PendingMessage.{PendingMessage, is_complete, get_complete_message}
use libclub.Transport.PendingMessage.Assemble.{Assembles, get_complete_message-Assembles}

pub get_complete_number :
    (pm : PendingMessage) {m : InMessageFull}
    → get_complete_message pm ≡ some m
    → m.sequence_number ≡ pm.sequence_number
unfolding get_complete_message
get_complete_number pm e = ground arith

is_complete_of_some :
    (pm : PendingMessage) {m : InMessageFull}
    → get_complete_message pm ≡ some m
    → is_complete pm ≡ true
unfolding get_complete_message
is_complete_of_some pm e = ground arith

-- What is handed on is the payload, under the number of the pending message.
pub get_complete_message-some :
    {payload : List ℕ} {pm : PendingMessage} {m : InMessageFull}
    → Assembles payload pm
    → get_complete_message pm ≡ some m
    → (m.payload ≡ payload) × (m.sequence_number ≡ pm.sequence_number)
get_complete_message-some {payload} {pm} {m} a e =
    let whole = get_complete_message-Assembles a (is_complete_of_some pm e) in
    let same = sym e ∙ whole in (ground (arith, same), get_complete_number pm e)

pub bytes_of_complete :
    {payload : List ℕ} {pm : PendingMessage}
    → Assembles payload pm
    → is_complete pm ≡ true
    → pm.bytes ≡ payload
unfolding get_complete_message
bytes_of_complete {payload} {pm} a h =
    let whole = get_complete_message-Assembles a h in ground (arith, whole)
