-- ===== src/Transport/Socket/Receive.antt =====
-- The handlers of include/club/socket.h before and after the peer's sync message: what holds after
-- any message, and after a packet of messages.
use mathlib.Core.Path.{subst}
use libclub.Prelude.{
  ℕ, zero, suc, ◌+◌, ◌<◌, ◌≡◌, refl, sym, false, not, List, [], Option, none, some, ◌⊎◌, inl, inr,
  arith, Bool-cases,
}
use libclub.Binary.Decoder
use libclub.Binary.Decoder.{Decoder}
use libclub.Transport.Word.{u32_mod}
use libclub.Transport.AckSet.UpTo.{IsUpTo-try_add_first}
use libclub.Transport.Message.{
  MessageType, sync, keep_alive, unreliable, reliable, close, other, InMessagePart, no_part,
  decode_in_message_part,
}
use libclub.Transport.Socket.{
  Socket, User, Error, parse_error, react, handle_error, handle_sync_message, handle_message,
  handle_close_message, handle_reliable_message, handle_unreliable_message, handle_packet,
}
use libclub.Transport.Socket.Honest.{View, view, IsPart, Holds}
use libclub.Transport.Socket.Reliable.{handle_reliable_message-Sound}
use libclub.Transport.Socket.Unreliable.{handle_unreliable_message-Sound}

-- Before the sync message.
pub record Fresh (v : View) : Type 0 where
  pub unsynced : v.sync_state ≡ none
  pub no_pending : v.pending_reliable_messages ≡ []
  pub no_pending_unreliable : v.pending_unreliable_message ≡ none
  pub no_acks : v.received_message_ids.bitmask ≡ 0
  pub none_handed : v.handed ≡ []
  pub none_handed_unreliable : v.handed_unreliable ≡ []

module _ {U : Type 0} (program : User U) where
  handle_error-view : (s : Socket U) (err : Error) → view (handle_error program s err) ≡ view s
  unfolding handle_error react
  handle_error-view s err = ground arith

  handle_close_message-view : (s : Socket U) → view (handle_close_message program s) ≡ view s
  unfolding handle_close_message
  handle_close_message-view s = handle_error-view (record s { is_open = false }) _

module _ (sent_reliable sent_unreliable : ℕ → List ℕ) (base : ℕ) where
  -- What the peer sends.
  abbrev pub IsFrom : MessageType → InMessagePart → Type 0
  IsFrom sync msg = (msg.sequence_number ≡ base) × (base + 32 < u32_mod)
  IsFrom keep_alive msg = Unit
  IsFrom unreliable msg = IsPart sent_unreliable msg
  IsFrom reliable msg = IsPart sent_reliable msg
  IsFrom close msg = Unit
  IsFrom (other n) msg = Unit

  -- The messages that are read from a packet, up to an error, are the peer's.
  abbrev pub Carries : Decoder → ℕ → Type 0
  Carries d zero = Unit
  Carries d (suc count) =
      (Decoder.get no_part decode_in_message_part d).1.was_error ≡ false
      → IsFrom (Decoder.get no_part decode_in_message_part d).0.type
          (Decoder.get no_part decode_in_message_part d).0
        × Carries (Decoder.get no_part decode_in_message_part d).1 count

  module _ {U : Type 0} (program : User U) where
    abbrev pub Keeps : Socket U → Type 0
    Keeps s = Fresh (view s) ⊎ Holds sent_reliable sent_unreliable base (view s)

    abbrev Next : Option (Socket U) → Type 0
    Next o = (s' : Socket U) × (o ≡ some s') × Keeps s'

    pub handle_error-Keeps :
        (s : Socket U) (err : Error) → Keeps s → Keeps (handle_error program s err)
    handle_error-Keeps s err =
        subst (λ v. Fresh v ⊎ Holds sent_reliable sent_unreliable base v)
          (sym (handle_error-view program s err))

    handle_sync_message-Keeps :
        (s : Socket U) (msg : InMessagePart)
        → Keeps s
        → IsFrom sync msg
        → Keeps (handle_sync_message program s msg)
    unfolding handle_sync_message
    handle_sync_message-Keeps s msg (inr h) from =
        let done : handle_sync_message program s msg ≡ s =
          simp (handle_sync_message, h.in_step.synced) refl in
        subst Keeps (sym done) (inr h)
    handle_sync_message-Keeps s msg (inl h) from = rw h.unsynced (
        inr (record {
          y = record {
            last_used_reliable_sn = msg.sequence_number;
            last_used_unreliable_sn = msg.sequence_number;
          };
          in_step = record {
            synced = refl;
            below = omega arith;
            acks =
                IsUpTo-try_add_first s.received_message_ids msg.sequence_number h.no_acks
                  (omega arith);
            order = rw h.none_handed (sym from.0);
            right = rw h.none_handed tt;
            rising = rw h.none_handed_unreliable (omega arith);
            right_unreliable = rw h.none_handed_unreliable tt;
            pending_unreliable = rw h.no_pending_unreliable tt;
          };
          entries = rw h.no_pending tt;
        }))

    handle_reliable_message-Keeps :
        (s : Socket U) (msg : InMessagePart)
        → Keeps s
        → IsPart sent_reliable msg
        → Next (handle_reliable_message program s msg)
    unfolding handle_reliable_message
    handle_reliable_message-Keeps s msg (inl h) part =
        (s, simp (handle_reliable_message, h.unsynced) refl, inl h)
    handle_reliable_message-Keeps s msg (inr h) part =
        let (s', e, after) =
          handle_reliable_message-Sound program sent_reliable sent_unreliable base s msg h part in
        (s', e, inr after)

    handle_unreliable_message-Keeps :
        (s : Socket U) (msg : InMessagePart)
        → Keeps s
        → IsPart sent_unreliable msg
        → Next (handle_unreliable_message program s msg)
    unfolding handle_unreliable_message
    handle_unreliable_message-Keeps s msg (inl h) part =
        (s, simp (handle_unreliable_message, h.unsynced) refl, inl h)
    handle_unreliable_message-Keeps s msg (inr h) part =
        let (s', e, after) =
          handle_unreliable_message-Sound program sent_reliable sent_unreliable base s msg h part in
        (s', e, inr after)

    pub handle_message-Keeps :
        (s : Socket U) (msg : InMessagePart)
        → Keeps s
        → IsFrom msg.type msg
        → Next (handle_message program s msg)
    unfolding handle_message
    handle_message-Keeps s msg h from = by_type msg.type refl from
      where
        by_type :
            (t : MessageType) → msg.type ≡ t → IsFrom t msg → Next (handle_message program s msg)
        by_type sync e from = (
          handle_sync_message program s msg,
          simp (handle_message, e) refl,
          handle_sync_message-Keeps s msg h from,
        )
        by_type keep_alive e from = (s, simp (handle_message, e) refl, h)
        by_type unreliable e from =
            let (s', done, after) = handle_unreliable_message-Keeps s msg h from in
            (s', simp (handle_message, e) done, after)
        by_type reliable e from =
            let (s', done, after) = handle_reliable_message-Keeps s msg h from in
            (s', simp (handle_message, e) done, after)
        by_type close e from = (
          handle_close_message program s,
          simp (handle_message, e) refl,
          subst (λ v. Fresh v ⊎ Holds sent_reliable sent_unreliable base v)
              (sym (handle_close_message-view program s)) h,
        )
        by_type (other n) e from = (
          handle_error program s parse_error,
          simp (handle_message, e) refl,
          handle_error-Keeps s parse_error h,
        )

    -- A packet of the peer's messages, of whatever count and cut off anywhere, is handled.
    pub handle_packet-Keeps :
        (s : Socket U) (d : Decoder) (count : ℕ)
        → Keeps s
        → Carries d count
        → Next (handle_packet program s d count)
    unfolding handle_packet
    handle_packet-Keeps s d zero h carries = (s, refl, h)
    handle_packet-Keeps s d (suc count) h carries =
        let (msg, d') = Decoder.get no_part decode_in_message_part d in
        elim (Bool-cases d'.was_error) [
          | inl bad ↦ (
            handle_error program s parse_error,
            simp (handle_packet, bad) refl,
            handle_error-Keeps s parse_error h,
          )
          | inr good ↦
              let (s', done, after) = handle_message-Keeps s msg h (carries good).0 in
              elim (Bool-cases (not s'.is_open)) [
                | inl closed ↦ (s', simp (handle_packet, good, done, closed) refl, after)
                | inr still ↦
                    let (s2, done2, after2) =
                      handle_packet-Keeps s' d' count after (carries good).1 in
                    (s2, simp (handle_packet, good, done, still) done2, after2)
              ]
        ]
