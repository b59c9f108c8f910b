-- ===== src/Transport/Socket/Reach.antt =====
-- The states that a socket of include/club/socket.h comes to while it receives from its peer.
use mathlib.Core.Path.{subst}
use libclub.Prelude.{
  ◌≤◌, false, ◌++◌, suc, ℕ, ◌+◌, ◌<◌, ◌≡◌, refl, ap, sym, ◌∙◌, List, [], ◌∷◌, some, inl, inr, leb,
  length, drop, length-take, length-drop, All, arith,
}
use libclub.Binary.Decoder.{Decoder, decoder}
use libclub.Binary.Encoder.{Encoder}
use libclub.Transport.Word.{u32_mod}
use libclub.Transport.AckSet.{is_in}
use libclub.Transport.AckSet.UpTo.{is_in-IsUpTo}
use libclub.Transport.Message.{header_size, OutMessage, InMessageFull}
use libclub.Transport.Message.Wire.{chunk_bytes}
use libclub.Transport.Message.Send.{
  decode-chunk_bytes, IsSendable, received_part, next_start, next_size,
}
use libclub.Transport.PendingMessage.Assemble.{slice}
use libclub.Transport.Socket.{
  Socket, Sync, User, on_recv_timeout_alarm, handle_packet, receive_reliable, receive_unreliable,
}
use libclub.Transport.Socket.Honest.{view, IsPart, Run, Rises}
use libclub.Transport.Socket.Receive.{
  IsFrom, Fresh, Carries, Keeps, handle_error-Keeps, handle_packet-Keeps,
}

-- What `encode` sends of a message is a part of it.
pub received_part-IsPart :
    (sent : ℕ → List ℕ) (e : Encoder) {m : OutMessage}
    → IsSendable m
    → sent m.header.sequence_number ≡ m.payload
    → m.header.sequence_number + 33 < u32_mod
    → IsPart sent (received_part e m)
received_part-IsPart sent e {m} s recorded small = record {
  fits = small;
  size = ap length (sym recorded);
  inside = rw recorded (ground (arith, s.sent_part));
  counted = omega (
    arith,
    length-take (next_size e m) (drop (next_start m) m.payload),
    length-drop (next_start m) m.payload,
  );
  piece = ap (λ l. slice l (next_start m) (next_size e m)) (sym recorded);
}

-- A packet of messages as `encode` writes them one after the other.
pub Carries-chunk_bytes :
    (reliable unreliable : ℕ → List ℕ) (base : ℕ) (e : Encoder) {m : OutMessage}
    → IsSendable m
    → e.was_error ≡ false
    → header_size ≤ length e.after
    → IsFrom reliable unreliable base m.header.type (received_part e m)
    → (rest : List ℕ) (count : ℕ) → Carries reliable unreliable base (decoder rest) count
    → Carries reliable unreliable base
        (decoder (chunk_bytes m (next_start m) (next_size e m) ++ rest))
        (suc count)
Carries-chunk_bytes reliable unreliable base e {m} s ok room from rest count carries =
    λ _. rw (decode-chunk_bytes e s ok room rest) (from, carries)

Run-length : (a : ℕ) (ms : List InMessageFull) (b : ℕ) → Run a ms b → b ≡ a + length ms
Run-length a [] b r = omega (arith, r)
Run-length a (m ∷ ms) b r = omega (arith, Run-length (a + 1) ms b r.1)

module _ {U : Type 0} (program : User U) (sent_reliable sent_unreliable : ℕ → List ℕ)
    (base : ℕ) where
  -- A new socket, which receives packets of the peer's messages, in any order, often, or not at all,
  -- and whose user asks for messages at any time.
  pub data Reach : Socket U → Type 0 where
    begin : (s : Socket U) → Fresh (view s) → Reach s
    packet :
        {s s' : Socket U}
        → Reach s
        → (d : Decoder) (count : ℕ) → Carries sent_reliable sent_unreliable base d count
        → handle_packet program s d count ≡ some s'
        → Reach s'
    asks : {s : Socket U} → Reach s → Reach (receive_reliable s)
    asks_unreliable : {s : Socket U} → Reach s → Reach (receive_unreliable s)
    times_out : {s : Socket U} → Reach s → Reach (on_recv_timeout_alarm program s)

  abbrev Kept : Socket U → Type 0
  Kept = Keeps sent_reliable sent_unreliable base program

  Kept-Reach : {s : Socket U} → Reach s → Kept s
  unfolding receive_reliable receive_unreliable on_recv_timeout_alarm
  Kept-Reach (begin s h) = inl h
  Kept-Reach (packet {s} {s'} r d count carries e) =
      let (s2, e2, k) =
        handle_packet-Keeps sent_reliable sent_unreliable base program s d count (Kept-Reach r)
          carries in
      let same : s2 ≡ s' = cc in subst Kept same k
  Kept-Reach (asks r) = Kept-Reach r
  Kept-Reach (asks_unreliable r) = Kept-Reach r
  Kept-Reach (times_out {s} r) =
      handle_error-Keeps sent_reliable sent_unreliable base program s _ (Kept-Reach r)

  -- A new socket receives packets in any order, some often and some not at all, in which every
  -- sync message carries one number and every reliable or unreliable message is a part of the
  -- payload sent under its number, all numbers lying at least 34 below 2 ^ 32, and its user asks
  -- for messages at any time: the numbers of the reliable messages handed to the user are the ones
  -- behind the sync message's, one after the other, each once, and each message has the payload
  -- that was sent under its number.
  pub handed-Reach :
      {s : Socket U}
      → Reach s
      → (last : ℕ) × Run base s.handed last
        × All (λ m. m.payload ≡ sent_reliable m.sequence_number) s.handed
  handed-Reach {s} r = elim (Kept-Reach r) [
    | inl f ↦ (base, rw f.none_handed refl, rw f.none_handed tt)
    | inr h ↦ (h.y.last_used_reliable_sn, h.in_step.order, h.in_step.right)
  ]

  -- In every state that such a socket comes to, the numbers of the unreliable messages handed to
  -- the user rise strictly from above the sync message's, and each message has the payload that
  -- was sent under its number.
  pub handed_unreliable-Reach :
      {s : Socket U}
      → Reach s
      → (last : ℕ) × Rises base s.handed_unreliable last
        × All (λ m. m.1 ≡ sent_unreliable m.0) s.handed_unreliable
  handed_unreliable-Reach {s} r = elim (Kept-Reach r) [
    | inl f ↦ (base, rw f.none_handed_unreliable (omega arith), rw f.none_handed_unreliable tt)
    | inr h ↦ (h.y.last_used_unreliable_sn, h.in_step.rising, h.in_step.right_unreliable)
  ]

  -- In every state that such a socket comes to after the sync message, a number counts as received
  -- if and only if it is at most the number of the sync message plus the count of the reliable
  -- messages handed to the user.
  pub is_in-Reach :
      {s : Socket U} {y : Sync}
      → Reach s
      → s.sync_state ≡ some y
      → (x : ℕ) → is_in s.received_message_ids x ≡ leb x (base + length s.handed)
  is_in-Reach {s} {y} r synced x = elim (Kept-Reach r) [
    | inl f ↦ ground (arith, f.unsynced)
    | inr h ↦
        is_in-IsUpTo h.in_step.acks x ∙ ap (leb x) (Run-length base s.handed _ h.in_step.order)
  ]

  -- In every state that such a socket comes to, whatever packet of the peer's messages it receives
  -- next is handled to its end, without a write outside a buffer, and leads to such a state again.
  pub handle_packet-Reach :
      {s : Socket U}
      → Reach s
      → (d : Decoder) (count : ℕ) → Carries sent_reliable sent_unreliable base d count
      → (s' : Socket U) × (handle_packet program s d count ≡ some s') × Reach s'
  handle_packet-Reach {s} r d count carries =
      let (s', e, k) =
        handle_packet-Keeps sent_reliable sent_unreliable base program s d count (Kept-Reach r)
          carries in
      (s', e, packet r d count carries e)
