-- ===== src/Transport/Socket/Errors.antt =====
-- include/club/socket.h at what goes wrong: a packet that cannot be read, and a message that arrives
-- again after it was delivered.
use libclub.Prelude.{
  ℕ, zero, suc, ◌≤◌, ◌≡◌, refl, ap, sym, ◌∙◌, true, false, Bool, not, List, [], ◌∷◌, ◌&&◌, none,
  some, inl, inr, arith, Bool-cases, Option-cases,
}
use libclub.Binary.Decoder
use libclub.Binary.Decoder.{Decoder}
use libclub.Transport.Word.{SequenceNumber}
use libclub.Transport.AckSet.{can_add}
use libclub.Transport.AckSet.UpTo.{can_add-IsUpTo}
use libclub.Transport.Message.{InMessagePart, no_part, decode_in_message_part}
use libclub.Transport.PendingMessage.{PendingMessage, of_part}
use libclub.Transport.PendingMessage.Assemble.{of_part-Assembles}
use libclub.Transport.Socket.{
  Socket, User, Error, parse_error, react, handle_error, handle_packet, handle_message,
  handle_reliable_message, store_reliable, is_next, find, emplace,
}
use libclub.Transport.Socket.Honest.{view, IsPart, Holds}

-- Every message that a packet announces can be read.
unfoldable pub reads_all : Decoder → ℕ → Bool
reads_all d zero = true
reads_all d (suc count) =
    let d' = (Decoder.get no_part decode_in_message_part d).1 in
    let rest = reads_all d' count in not d'.was_error && rest

find-emplace :
    (sn : ℕ) (pm : PendingMessage) (l : List (SequenceNumber × PendingMessage))
    → find l sn ≡ none
    → find (emplace sn pm l) sn ≡ some pm
unfolding find emplace
find-emplace sn pm [] h = ground arith
find-emplace sn pm ((key, old) ∷ l) h = ground (arith, find-emplace sn pm l)

module _ {U : Type 0} (program : User U) where
  closed-handle_error : (s : Socket U) (err : Error) → (handle_error program s err).is_open ≡ false
  unfolding handle_error react
  closed-handle_error s err = ground arith

  -- If not all the messages that a packet announces can be read, then the socket is closed once
  -- the packet is handled.
  pub handle_packet_unreadable :
      (s : Socket U) (d : Decoder) (count : ℕ) {s' : Socket U}
      → reads_all d count ≡ false
      → handle_packet program s d count ≡ some s'
      → s'.is_open ≡ false
  unfolding handle_packet reads_all
  handle_packet_unreadable s d zero bad e = ground arith
  handle_packet_unreadable s d (suc count) {s'} bad e =
      let (msg, d') = Decoder.get no_part decode_in_message_part d in
      elim (Bool-cases d'.was_error) [
        | inl unread ↦
            let is : handle_packet program s d (suc count)
                ≡ some (handle_error program s parse_error) =
              simp (handle_packet, unread) refl in
            let same : handle_error program s parse_error ≡ s' = cc in
            ap (λ (t : Socket U). t.is_open) (sym same) ∙ closed-handle_error s parse_error
        | inr read ↦ elim (Option-cases (handle_message program s msg)) [
          | inl fault ↦
              let is : handle_packet program s d (suc count) ≡ none =
                simp (handle_packet, read, fault) refl in
              absurd cc
          | inr (s1, done) ↦ elim (Bool-cases (not s1.is_open)) [
            | inl closed ↦
                let is : handle_packet program s d (suc count) ≡ some s1 =
                  simp (handle_packet, read, done, closed) refl in
                let same : s1 ≡ s' = cc in
                ap (λ (t : Socket U). t.is_open) (sym same) ∙ ground arith
            | inr still ↦
                let is : handle_packet program s d (suc count) ≡ handle_packet program s1 d' count =
                  simp (handle_packet, read, done, still) refl in
                handle_packet_unreadable s1 d' count (ground (arith, read)) (sym is ∙ e)
          ]
        ]
      ]

  -- A part of a reliable message that was delivered before, of which nothing is pending, is not
  -- refused: it is stored among the pending messages again.
  pub handle_reliable_message_late :
      (reliable unreliable : ℕ → List ℕ) (base : ℕ) (s : Socket U) (msg : InMessagePart)
      (h : Holds reliable unreliable base (view s))
      → IsPart reliable msg
      → msg.sequence_number ≤ h.y.last_used_reliable_sn
      → find s.pending_reliable_messages msg.sequence_number ≡ none
      → (pm : PendingMessage) × (of_part msg ≡ some pm)
        × (handle_reliable_message program s msg
            ≡ some (record s {
              pending_reliable_messages =
                  emplace msg.sequence_number pm s.pending_reliable_messages;
            }))
        × (find (emplace msg.sequence_number pm s.pending_reliable_messages) msg.sequence_number
            ≡ some pm)
  unfolding handle_reliable_message store_reliable is_next
  handle_reliable_message_late reliable unreliable base s msg h part late absent =
      let (pm, made, _, _) =
        of_part-Assembles msg msg.chunk_size part.size part.inside part.piece in
      let i = h.in_step in
      let taken : not (can_add s.received_message_ids msg.sequence_number) ≡ false =
        ground (arith, can_add-IsUpTo i.acks (omega (arith, i.below)) msg.sequence_number) in
      let behind : is_next program s msg.sequence_number ≡ false =
        ground (arith, i.synced, i.below) in
      (
        pm,
        made,
        simp (handle_reliable_message, i.synced, taken, behind, store_reliable, absent, made) refl,
        find-emplace msg.sequence_number pm s.pending_reliable_messages absent,
      )
