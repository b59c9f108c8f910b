-- ===== src/Transport/Socket/Unreliable.antt =====
-- The unreliable messages of include/club/socket.h: what holds after each of its functions.
use mathlib.Core.Path.{subst}
use libclub.Prelude.{
  ℕ, ◌<◌, ◌≡◌, refl, ap, sym, ◌∙◌, not, List, [], ◌∷◌, ◌++◌, none, some, ltb, leb, arith,
  Bool-cases, Option-cases, inl, inr,
}
use libclub.Transport.Message
use libclub.Transport.Message.{InMessagePart}
use libclub.Transport.Message.Whole as Parts
use libclub.Transport.PendingMessage
use libclub.Transport.PendingMessage.{PendingMessage, update_payload, of_part}
use libclub.Transport.PendingMessage.Assemble.{
  Assembles, update_payload-Assembles, of_part-Assembles,
}
use libclub.Transport.PendingMessage.Handed.{bytes_of_complete}
use libclub.Transport.Socket.{
  Socket, Sync, User, react, hand_unreliable, store_unreliable, handle_unreliable_message,
}
use libclub.Transport.Socket.Honest.{
  view, IsPart, whole_piece, Rises-append, All-append, IsPending, Holds,
}

module _ {U : Type 0} (program : User U) (reliable unreliable : ℕ → List ℕ) (base : ℕ) where
  abbrev Sound : Socket U → Type 0
  Sound s = Holds reliable unreliable base (view s)

  hand_unreliable-view :
      (s : Socket U) (y : Sync) (sn : ℕ) (payload : List ℕ)
      → view (hand_unreliable program s y sn payload) ≡ record (view s) {
        sync_state = some (record y { last_used_unreliable_sn = sn });
        pending_unreliable_message = none;
        handed_unreliable = s.handed_unreliable ++ ((sn, payload) ∷ []);
      }
  unfolding hand_unreliable react
  hand_unreliable-view s y sn payload = refl

  hand_unreliable-Sound :
      (s : Socket U) (sn : ℕ) (payload : List ℕ) (h : Sound s)
      → h.y.last_used_unreliable_sn < sn
      → payload ≡ unreliable sn
      → Sound (hand_unreliable program s h.y sn payload)
  hand_unreliable-Sound s sn payload h above right =
      let i = h.in_step in
      subst (Holds reliable unreliable base) (sym (hand_unreliable-view s h.y sn payload)) (record {
        y = record (h.y) { last_used_unreliable_sn = sn };
        in_step = record {
          synced = refl;
          below = i.below;
          acks = i.acks;
          order = i.order;
          right = i.right;
          rising =
              Rises-append base s.handed_unreliable h.y.last_used_unreliable_sn sn payload i.rising
                above;
          right_unreliable =
              All-append (λ m. m.1 ≡ unreliable m.0) s.handed_unreliable ((sn, payload) ∷ [])
                i.right_unreliable (right, tt);
          pending_unreliable = tt;
        };
        entries = h.entries;
      })

  with_unreliable :
      (s : Socket U) (pm : PendingMessage)
      → Sound s
      → Assembles (unreliable pm.sequence_number) pm
      → Sound (record s { pending_unreliable_message = some pm })
  with_unreliable s pm h assembles =
      let i = h.in_step in
      record {
        y = h.y;
        in_step = record {
          synced = i.synced;
          below = i.below;
          acks = i.acks;
          order = i.order;
          right = i.right;
          rising = i.rising;
          right_unreliable = i.right_unreliable;
          pending_unreliable = assembles;
        };
        entries = h.entries;
      }

  -- The message that a part begins.
  begun :
      (s : Socket U) (msg : InMessagePart)
      → Sound s
      → IsPart unreliable msg
      → (pm : PendingMessage) × (of_part msg ≡ some pm)
        × Sound (record s { pending_unreliable_message = some pm })
  begun s msg h part =
      let (pm, made, assembles, number) =
        of_part-Assembles msg msg.chunk_size part.size part.inside part.piece in
      (
        pm,
        made,
        with_unreliable s pm h (subst (λ n. Assembles (unreliable n) pm) (sym number) assembles),
      )

  store_unreliable-Sound :
      (s : Socket U) (msg : InMessagePart) (pm : PendingMessage) (h : Sound s)
      → IsPart unreliable msg
      → h.y.last_used_unreliable_sn < msg.sequence_number
      → Assembles (unreliable pm.sequence_number) pm
      → (s' : Socket U) × (store_unreliable program s h.y msg pm ≡ some s') × Sound s'
  unfolding store_unreliable
  store_unreliable-Sound s msg pm h part above old =
      let sn = msg.sequence_number in
      elim (Bool-cases (ltb pm.sequence_number sn)) [
        | inl newer ↦
            let (pm', made, after) = begun s msg h part in
            (
              record s { pending_unreliable_message = some pm' },
              simp (store_unreliable, newer, made) refl,
              after,
            )
        | inr n ↦ elim (Bool-cases (ltb sn pm.sequence_number)) [
          | inl older ↦ (s, simp (store_unreliable, n, older) refl, h)
          | inr m ↦
              let same : pm.sequence_number ≡ sn = ground arith in
              let mine : Assembles (unreliable sn) pm =
                subst (λ k. Assembles (unreliable k) pm) same old in
              let (pm', updated, assembles, _, _, number) =
                update_payload-Assembles msg.chunk_start msg.chunk_size mine part.inside in
              let taken : update_payload pm msg.chunk_start msg.payload ≡ some pm' =
                ap (update_payload pm msg.chunk_start) part.piece ∙ updated in
              elim (Bool-cases (PendingMessage.is_complete pm')) [
                | inl whole ↦ (
                  hand_unreliable program s h.y sn pm'.bytes,
                  simp (store_unreliable, n, m, taken, whole) refl,
                  hand_unreliable-Sound s sn pm'.bytes h above (bytes_of_complete assembles whole),
                )
                | inr more ↦ (
                  record s { pending_unreliable_message = some pm' },
                  simp (store_unreliable, n, m, taken, more) refl,
                  with_unreliable s pm' h
                      (subst (λ k. Assembles (unreliable k) pm') (sym (number ∙ same)) assembles),
                )
              ]
        ]
      ]

  pub handle_unreliable_message-Sound :
      (s : Socket U) (msg : InMessagePart)
      → Sound s
      → IsPart unreliable msg
      → (s' : Socket U) × (handle_unreliable_message program s msg ≡ some s') × Sound s'
  unfolding handle_unreliable_message
  handle_unreliable_message-Sound s msg h part =
      let synced = h.in_step.synced in
      elim (Bool-cases (not s.on_receive_unreliable)) [
        | inl off ↦ (s, simp (handle_unreliable_message, synced, off) refl, h)
        | inr on ↦ elim (Bool-cases (leb msg.sequence_number h.y.last_used_unreliable_sn)) [
          | inl old ↦ (s, simp (handle_unreliable_message, synced, on, old) refl, h)
          | inr new ↦
              let above : h.y.last_used_unreliable_sn < msg.sequence_number = ground arith in
              elim (Bool-cases (Message.is_complete msg)) [
                | inl whole ↦
                    let (start, size) = Parts.is_complete-true msg whole in
                    (
                      hand_unreliable program s h.y msg.sequence_number msg.payload,
                      simp (handle_unreliable_message, synced, on, new, whole) refl,
                      hand_unreliable-Sound s msg.sequence_number msg.payload h above
                          (whole_piece part start size),
                    )
                | inr partial ↦ elim (Option-cases s.pending_unreliable_message) [
                  | inl e ↦
                      let (pm, made, after) = begun s msg h part in
                      (
                        record s { pending_unreliable_message = some pm },
                        simp (handle_unreliable_message, synced, on, new, partial, e, made) refl,
                        after,
                      )
                  | inr (pm, e) ↦
                      let old = subst (IsPending unreliable) e h.in_step.pending_unreliable in
                      let (s', stored, after) = store_unreliable-Sound s msg pm h part above old in
                      (
                        s',
                        simp (handle_unreliable_message, synced, on, new, partial, e) stored,
                        after,
                      )
                ]
              ]
        ]
      ]
