-- ===== src/Transport/Socket/Live.antt =====
-- What the socket of include/club/socket.h leaves in its map of pending messages.
use libclub.Prelude.{
  ℕ, ◌+◌, ◌≤◌, ◌<◌, ◌≡◌, refl, ◌∙◌, true, List, [], ◌∷◌, ◌++◌, none, some, inl, inr, ◌⊎◌, ◌==◌, All,
  arith, Bool-cases, Option-cases,
}
use libclub.Transport.Word.{SequenceNumber, u32_mod}
use libclub.Transport.Message.{InMessageFull}
use libclub.Transport.PendingMessage.{PendingMessage, get_complete_message}
use libclub.Transport.PendingMessage.Handed.{get_complete_number}
use libclub.Transport.Socket.{
  Socket, Sync, User, react, user_handle_reliable_msg, is_next, replay, replay_pending_messages,
}
use libclub.Transport.Socket.Honest.{All-append}

abbrev Entry : Type 0
Entry = SequenceNumber × PendingMessage

-- Each message is under its own number, and the numbers rise from `a` on.
abbrev pub Ascends : ℕ → List Entry → Type 0
Ascends a [] = Unit
Ascends a ((key, pm) ∷ rest) =
    (a ≤ key) × (pm.sequence_number ≡ key) × (key + 1 < u32_mod) × Ascends (key + 1) rest

-- An entry that does not wait for its turn, or is not whole.
abbrev pub Settled : ℕ → Entry → Type 0
Settled last (key, pm) = key ≡ last + 1 → get_complete_message pm ≡ none

-- An entry that was passed before the key `a`.
abbrev Passed : ℕ → ℕ → Entry → Type 0
Passed last a (key, pm) = (key ≤ last) ⊎ ((last + 1 < key) × (key < a))

Settled-Ascends : (last a : ℕ) (l : List Entry) → last + 1 < a → Ascends a l → All (Settled last) l
Settled-Ascends last a [] above h = tt
Settled-Ascends last a ((key, pm) ∷ l) above h =
    (λ e. absurd (omega (arith, h.0)), Settled-Ascends last (key + 1) l (omega (arith, h.0)) h.3)

All-map {ℓ κ μ} :
    {A : Type ℓ} (P : A → Type κ) (Q : A → Type μ) (f : (x : A) → P x → Q x) (l : List A)
    → All P l
    → All Q l
All-map P Q f [] h = tt
All-map P Q f (x ∷ l) h = (f x h.0, All-map P Q f l h.1)

Passed-Settled : (last a : ℕ) (e : Entry) → Passed last a e → Settled last e
Passed-Settled last a e p same = absurd (ground arith)

Passed-next :
    (last a key : ℕ) (e : Entry)
    → a ≤ key
    → key ≡ last + 1
    → Passed last a e
    → Passed key (key + 1) e
Passed-next last a key e le same p = ground arith

Passed-skip : (last a key : ℕ) (e : Entry) → a ≤ key → Passed last a e → Passed last (key + 1) e
Passed-skip last a key e le p = ground arith

module _ {U : Type 0} (program : User U)
    (rearms : (u : U) (l : List ℕ) → (program.on_message u l).receive_reliable ≡ true) where
  -- The number up to which the socket has delivered.
  abbrev Reached : Socket U → ℕ → Type 0
  Reached s last = (y : Sync) × (s.sync_state ≡ some y) × (y.last_used_reliable_sn ≡ last)

  next_is :
      (s : Socket U) (last sn : ℕ)
      → Reached s last
      → sn + 1 < u32_mod
      → last + 1 < u32_mod
      → is_next program s sn ≡ (sn == last + 1)
  unfolding is_next
  next_is s last sn (y, synced, e) small small2 = ground (arith, synced)

  handled :
      (s : Socket U) (last : ℕ) (msg : InMessageFull)
      → s.on_receive_reliable ≡ true
      → Reached s last
      → let r = user_handle_reliable_msg program s msg in
        (r.0 ≡ true) × (r.1.on_receive_reliable ≡ true) × Reached r.1 msg.sequence_number
  unfolding user_handle_reliable_msg react
  handled s last msg armed (y, synced, e) = (
    ground arith,
    ground (arith, rearms s.user msg.payload),
    (record y { last_used_reliable_sn = msg.sequence_number }, ground (arith, synced), refl),
  )

  -- The loop leaves no whole message whose turn it is.
  replay_lem :
      (rest passed : List Entry) (s : Socket U) (last a : ℕ)
      → s.on_receive_reliable ≡ true
      → Reached s last
      → last + 1 < u32_mod
      → Ascends a rest
      → All (Passed last a) passed
      → (last' : ℕ) × Reached (replay program passed rest s) last'
        × All (Settled last') (replay program passed rest s).pending_reliable_messages
  unfolding replay
  replay_lem [] passed s last a armed at small asc before =
      (last, at, All-map (Passed last a) (Settled last) (Passed-Settled last a) passed before)
  replay_lem ((key, pm) ∷ rest) passed s last a armed at small (le, keyed, fits, asc) before =
      let sn = pm.sequence_number in
      let e : Entry = (key, pm) in
      let turn = next_is s last sn at (omega (arith, keyed)) small in
      elim (Bool-cases (sn == last + 1)) [
        | inr n ↦
            let behind = turn ∙ n in
            rw (behind, replay)
              (replay_lem rest (passed ++ (e ∷ [])) s last (key + 1) armed at small asc (
                All-append (Passed last (key + 1)) passed (e ∷ [])
                  (All-map (Passed last a) (Passed last (key + 1))
                    (λ x. Passed-skip last a key x le) passed before)
                  (ground (arith, keyed, n), tt)))
        | inl y ↦
            let next = turn ∙ y in
            let mine : key ≡ last + 1 = ground arith in
            elim (Option-cases (get_complete_message pm)) [
              | inl partial ↦
                  rw (next, replay, partial)
                    (
                      last,
                      at,
                      All-append (Settled last) passed (e ∷ rest)
                          (All-map (Passed last a) (Settled last) (Passed-Settled last a) passed
                            before)
                          (λ _. partial, Settled-Ascends last (key + 1) rest (omega arith) asc),
                    )
              | inr (msg, whole) ↦
                  let (done, still, now) = handled s last msg armed at in
                  let number : msg.sequence_number ≡ key = get_complete_number pm whole ∙ keyed in
                  rw (next, replay, whole, done)
                    (replay_lem rest passed (user_handle_reliable_msg program s msg).1 key (key + 1)
                      still (rw⁻¹ number now) fits asc
                      (All-map (Passed last a) (Passed key (key + 1))
                        (λ x. Passed-next last a key x le mine) passed before))
            ]
      ]

  -- If the user asks for the next message in every callback and has asked for one, and the pending
  -- messages lie under their own numbers in rising order, below 2 ^ 32 - 1, then
  -- `replay_pending_messages` leaves no whole message whose turn it is.
  pub replay_pending_messages_lem :
      (s : Socket U) (y : Sync)
      → s.on_receive_reliable ≡ true
      → s.sync_state ≡ some y
      → y.last_used_reliable_sn + 1 < u32_mod
      → Ascends 0 s.pending_reliable_messages
      → let s' = replay_pending_messages program s in
        (y' : Sync) × (s'.sync_state ≡ some y')
        × All (Settled y'.last_used_reliable_sn) s'.pending_reliable_messages
  unfolding replay_pending_messages
  replay_pending_messages_lem s y armed synced small asc =
      let (last, (y', now, e), settled) =
        replay_lem s.pending_reliable_messages [] s y.last_used_reliable_sn 0 armed
          (y, synced, refl) small asc tt in
      (y', now, rw e settled)
