-- ===== src/Transport/Socket/Reliable.antt =====
-- The reliable messages of include/club/socket.h: what holds after each of its functions.
use libclub.Prelude.{
  ℕ, ◌≡◌, refl, ap, sym, ◌∙◌, not, List, some, All, arith, Bool-cases, Option-cases, inl, inr,
}
use mathlib.Core.Path.{subst}
use libclub.Transport.Word.{SequenceNumber}
use libclub.Transport.AckSet.{can_add}
use libclub.Transport.Message
use libclub.Transport.Message.{InMessagePart, InMessageFull}
use libclub.Transport.Message.Whole as Parts
use libclub.Transport.PendingMessage.{PendingMessage, update_payload}
use libclub.Transport.PendingMessage.Assemble.{update_payload-Assembles, of_part-Assembles}
use libclub.Transport.Socket.{
  Socket, User, find, emplace, replace, user_handle_reliable_msg, is_next, replay_pending_messages,
  store_reliable, handle_reliable_message,
}
use libclub.Transport.Socket.Entries.{All-emplace, All-replace, All-find}
use libclub.Transport.Socket.Replay.{
  next_number, user_handle-view, user_handle-Steps, with_pending, replay_pending_messages-Sound,
}
use libclub.Transport.Socket.Honest.{View, view, IsPart, whole_piece, IsEntry, Holds}

module _ {U : Type 0} (program : User U) (reliable unreliable : ℕ → List ℕ) (base : ℕ) where
  abbrev Sound : Socket U → Type 0
  Sound s = Holds reliable unreliable base (view s)

  abbrev Entries : List (SequenceNumber × PendingMessage) → Type 0
  Entries = All (IsEntry reliable)

  store_reliable-Sound :
      (s : Socket U) (msg : InMessagePart)
      → Sound s
      → IsPart reliable msg
      → (s' : Socket U) × (store_reliable program s msg ≡ some s') × Sound s'
  unfolding store_reliable
  store_reliable-Sound s msg h part =
      elim (Option-cases (find s.pending_reliable_messages msg.sequence_number)) [
        | inl e ↦
            let (pm, made, assembles, number) =
              of_part-Assembles msg msg.chunk_size part.size part.inside part.piece in
            let pms = emplace msg.sequence_number pm s.pending_reliable_messages in
            let entry : IsEntry reliable (msg.sequence_number, pm) = record {
              keyed = number;
              fits = part.fits;
              assembles = assembles;
            } in
            (
              record s { pending_reliable_messages = pms },
              simp (store_reliable, e, made) refl,
              with_pending program reliable unreliable base s pms h.in_step (
                  All-emplace (IsEntry reliable) msg.sequence_number pm s.pending_reliable_messages
                    entry h.entries),
            )
        | inr (pm, e) ↦
            let old =
              All-find (IsEntry reliable) msg.sequence_number s.pending_reliable_messages h.entries
                e in
            let (pm', updated, assembles, _, _, number) =
              update_payload-Assembles msg.chunk_start msg.chunk_size old.assembles part.inside in
            let pms = replace msg.sequence_number pm' s.pending_reliable_messages in
            let entry : IsEntry reliable (msg.sequence_number, pm') = record {
              keyed = number ∙ old.keyed;
              fits = part.fits;
              assembles = assembles;
            } in
            let s1 = record s { pending_reliable_messages = pms } in
            let taken : update_payload pm msg.chunk_start msg.payload ≡ some pm' =
              ap (update_payload pm msg.chunk_start) part.piece ∙ updated in
            (
              replay_pending_messages program s1,
              simp (store_reliable, e, taken) refl,
              replay_pending_messages-Sound program reliable unreliable base s1 (
                  with_pending program reliable unreliable base s pms h.in_step (
                    All-replace (IsEntry reliable) msg.sequence_number pm'
                      s.pending_reliable_messages entry h.entries)),
            )
      ]

  whole_part :
      {msg : InMessagePart} {full : InMessageFull}
      → IsPart reliable msg
      → Message.get_complete_message msg ≡ some full
      → (full.sequence_number ≡ msg.sequence_number) × (full.payload ≡ reliable msg.sequence_number)
  whole_part {msg} {full} part e =
      let (start, size, number, payload) = Parts.get_complete_message-some msg e in
      (number, payload ∙ whole_piece part start size)

  -- A part of a reliable message, whatever part of whatever message, is taken in without a fault.
  pub handle_reliable_message-Sound :
      (s : Socket U) (msg : InMessagePart)
      → Sound s
      → IsPart reliable msg
      → (s' : Socket U) × (handle_reliable_message program s msg ≡ some s') × Sound s'
  unfolding handle_reliable_message
  handle_reliable_message-Sound s msg h part =
      let sn = msg.sequence_number in
      let synced = h.in_step.synced in
      elim (Bool-cases (not (can_add s.received_message_ids sn))) [
        | inl refused ↦ (s, simp (handle_reliable_message, synced, refused) refl, h)
        | inr taken ↦ elim (Bool-cases (is_next program s sn)) [
          | inr n ↦
              let (s', e, after) = store_reliable-Sound s msg h part in
              (s', simp (handle_reliable_message, synced, taken, n) e, after)
          | inl next ↦ elim (Option-cases (Message.get_complete_message msg)) [
            | inl c ↦
                let (s', e, after) = store_reliable-Sound s msg h part in
                (s', simp (handle_reliable_message, synced, taken, next, c) e, after)
            | inr (full, c) ↦ elim (Bool-cases (user_handle_reliable_msg program s full).0) [
              | inr n ↦ (s, simp (handle_reliable_message, synced, taken, next, c, n) refl, h)
              | inl done ↦
                  let (number, payload) = whole_part part c in
                  let s1 = (user_handle_reliable_msg program s full).1 in
                  let after =
                    user_handle-Steps program reliable unreliable base s full h.in_step
                      (number ∙ next_number program reliable unreliable base s sn h.in_step next)
                      (omega (arith, part.fits)) (payload ∙ ap reliable (sym number)) done in
                  (
                    replay_pending_messages program s1,
                    simp (handle_reliable_message, synced, taken, next, c, done) refl,
                    replay_pending_messages-Sound program reliable unreliable base s1 (record {
                      y = record (h.y) { last_used_reliable_sn = full.sequence_number };
                      in_step = after;
                      entries =
                          subst Entries
                            (sym (
                              ap (λ (v : View). v.pending_reliable_messages)
                                (user_handle-view program reliable unreliable base s h.y full synced
                                  done)))
                            h.entries;
                    }),
                  )
            ]
          ]
        ]
      ]
