-- ===== src/Transport/Socket/Replay.antt =====
-- The call of the user for a reliable message, and `replay_pending_messages`, of
-- include/club/socket.h: what holds after them.
use libclub.Prelude.{
  ℕ, ◌+◌, ◌<◌, ◌≡◌, refl, ap, sym, ◌∙◌, true, List, [], ◌∷◌, ◌++◌, some, All, arith, Bool-cases,
  Option-cases, inl, inr,
}
use mathlib.Core.Path.{subst}
use libclub.Transport.Word.{SequenceNumber, u32_mod}
use libclub.Transport.AckSet.{try_add}
use libclub.Transport.AckSet.UpTo.{IsUpTo-try_add}
use libclub.Transport.Message.{InMessageFull}
use libclub.Transport.PendingMessage
use libclub.Transport.PendingMessage.{PendingMessage, update_payload, of_part}
use libclub.Transport.PendingMessage.Handed.{get_complete_message-some}
use libclub.Transport.Socket.{
  Socket, Sync, User, react, user_handle_reliable_msg, is_next, replay, replay_pending_messages,
}
use libclub.Transport.Socket.Honest.{
  View, view, Run, Run-append, All-append, IsEntry, InStep, Holds,
}

module _ {U : Type 0} (program : User U) (reliable unreliable : ℕ → List ℕ) (base : ℕ) where
  abbrev Steps : Socket U → Sync → Type 0
  Steps s y = InStep reliable unreliable base (view s) y

  abbrev Sound : Socket U → Type 0
  Sound s = Holds reliable unreliable base (view s)

  abbrev Entries : List (SequenceNumber × PendingMessage) → Type 0
  Entries = All (IsEntry reliable)

  pub next_number :
      (s : Socket U) {y : Sync} (sn : ℕ)
      → Steps s y
      → is_next program s sn ≡ true
      → sn ≡ y.last_used_reliable_sn + 1
  unfolding is_next
  next_number s {y} sn h e = ground (arith, h.synced, h.below)

  -- What the call of a callback changes, of what the peer decides.
  abbrev called : Socket U → Sync → InMessageFull → View
  called s y msg = record (view s) {
    sync_state = some (record y { last_used_reliable_sn = msg.sequence_number });
    received_message_ids = (try_add s.received_message_ids msg.sequence_number).1;
    handed = s.handed ++ (msg ∷ []);
  }

  pub user_handle-view :
      (s : Socket U) (y : Sync) (msg : InMessageFull)
      → s.sync_state ≡ some y
      → (user_handle_reliable_msg program s msg).0 ≡ true
      → view (user_handle_reliable_msg program s msg).1 ≡ called s y msg
  unfolding user_handle_reliable_msg react
  user_handle-view s y msg synced done = ground (arith, synced)

  called-InStep :
      (s : Socket U) {y : Sync} (msg : InMessageFull)
      → Steps s y
      → msg.sequence_number ≡ y.last_used_reliable_sn + 1
      → msg.sequence_number + 33 < u32_mod
      → msg.payload ≡ reliable msg.sequence_number
      → InStep reliable unreliable base
          (called s y msg)
          (record y { last_used_reliable_sn = msg.sequence_number })
  called-InStep s {y} msg h number fits right =
      let acked = (IsUpTo-try_add h.acks h.below).1 in
      record {
        synced = refl;
        below = omega arith;
        acks = rw number acked;
        order =
            subst (Run base (s.handed ++ (msg ∷ []))) (sym number)
              (Run-append base s.handed y.last_used_reliable_sn msg h.order number);
        right =
            All-append (λ m. m.payload ≡ reliable m.sequence_number) s.handed (msg ∷ []) h.right
              (right, tt);
        rising = h.rising;
        right_unreliable = h.right_unreliable;
        pending_unreliable = h.pending_unreliable;
      }

  pub user_handle-Steps :
      (s : Socket U) {y : Sync} (msg : InMessageFull)
      → Steps s y
      → msg.sequence_number ≡ y.last_used_reliable_sn + 1
      → msg.sequence_number + 33 < u32_mod
      → msg.payload ≡ reliable msg.sequence_number
      → (user_handle_reliable_msg program s msg).0 ≡ true
      → Steps
          (user_handle_reliable_msg program s msg).1
          (record y { last_used_reliable_sn = msg.sequence_number })
  user_handle-Steps s {y} msg h number fits right done =
      subst
        (λ v.
          InStep reliable unreliable base v
            (record y { last_used_reliable_sn = msg.sequence_number }))
        (sym (user_handle-view s y msg h.synced done)) (called-InStep s msg h number fits right)

  pub with_pending :
      (s : Socket U) {y : Sync} (l : List (SequenceNumber × PendingMessage))
      → Steps s y
      → Entries l
      → Sound (record s { pending_reliable_messages = l })
  with_pending s {y} l h entries = record {
    y = y;
    in_step = record {
      synced = h.synced;
      below = h.below;
      acks = h.acks;
      order = h.order;
      right = h.right;
      rising = h.rising;
      right_unreliable = h.right_unreliable;
      pending_unreliable = h.pending_unreliable;
    };
    entries = entries;
  }

  replay-Sound :
      (rest passed : List (SequenceNumber × PendingMessage)) (s : Socket U) (y : Sync)
      → Steps s y
      → Entries passed
      → Entries rest
      → Sound (replay program passed rest s)
  unfolding replay
  replay-Sound [] passed s y h hp hr = with_pending s passed h hp
  replay-Sound ((key, pm) ∷ rest) passed s y h hp hr =
      let entry : SequenceNumber × PendingMessage = (key, pm) in
      let stop : Sound (record s { pending_reliable_messages = passed ++ (entry ∷ rest) }) =
        with_pending s (passed ++ (entry ∷ rest)) h
          (All-append (IsEntry reliable) passed (entry ∷ rest) hp hr) in
      elim (Bool-cases (is_next program s pm.sequence_number)) [
        | inr n ↦
            rw (n, replay)
              (replay-Sound rest (passed ++ (entry ∷ [])) s y h
                (All-append (IsEntry reliable) passed (entry ∷ []) hp (hr.0, tt)) hr.1)
        | inl next ↦ elim (Option-cases (PendingMessage.get_complete_message pm)) [
          | inl e ↦ rw (next, replay, e) stop
          | inr (msg, e) ↦ elim (Bool-cases (user_handle_reliable_msg program s msg).0) [
            | inr n ↦ rw (next, replay, e, n) stop
            | inl done ↦
                let (payload, number) = get_complete_message-some hr.0.assembles e in
                let same : msg.sequence_number ≡ key = number ∙ hr.0.keyed in
                let follows = number ∙ next_number s pm.sequence_number h next in
                rw (next, replay, e, done)
                  (replay-Sound rest passed (user_handle_reliable_msg program s msg).1 _
                    (user_handle-Steps s msg h follows (omega (arith, hr.0.fits))
                      (payload ∙ ap reliable (sym same)) done)
                    hp hr.1)
          ]
        ]
      ]

  pub replay_pending_messages-Sound :
      (s : Socket U) → Sound s → Sound (replay_pending_messages program s)
  unfolding replay_pending_messages
  replay_pending_messages-Sound s h =
      replay-Sound s.pending_reliable_messages [] s h.y h.in_step tt h.entries
