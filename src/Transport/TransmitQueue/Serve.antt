-- ===== src/Transport/TransmitQueue/Serve.antt =====
-- `encode_payload` of include/club/transport/transmit_queue.h as one walk over the entries.
use libclub.Prelude.{
  ℕ, zero, suc, ◌+◌, ◌<◌, ◌≡◌, refl, List, [], ◌∷◌, ◌++◌, Option, none, some, if◌then◌else◌, length,
  arith,
}
use libclub.Binary.Encoder.{Encoder}
use libclub.Generic.CyclicQueue.Cycle.{
  At, begin-At, at_end_under_way, at_end_finished, messages_of_At, advance-At, erase-At, assign-At,
}
use libclub.Transport.Message.{payload_size}
use libclub.Transport.TransmitQueue.{
  Entry, TransmitQueue, Call, Verdict, drop_acked, skip_recent, no_room, partly_sent, sent_once,
  sent_kept, examine, Loop, round, loop, encode_payload, sub64,
}

-- The entries not reached, those kept, and the loop's other variables.
pub record Served : Type 0 where
  pub todo : List Entry
  pub done : List Entry
  pub bytes_in : ℕ
  pub encoder : Encoder
  pub count : ℕ

-- The walk, entry by entry.
unfoldable pub serve : Call → List Entry → List Entry → ℕ → Encoder → ℕ → Served
serve call [] done bytes_in encoder count = record {
  todo = [];
  done = done;
  bytes_in = bytes_in;
  encoder = encoder;
  count = count;
}
serve call (entry ∷ todo) done bytes_in encoder count = elim (examine call encoder entry) [
  | drop_acked ↦ serve call todo done (sub64 bytes_in (payload_size entry.message)) encoder count
  | skip_recent ↦ serve call todo (done ++ (entry ∷ [])) bytes_in encoder count
  | no_room ↦ record {
    todo = entry ∷ todo;
    done = done;
    bytes_in = bytes_in;
    encoder = encoder;
    count = count;
  }
  | partly_sent encoder' entry' ↦ record {
    todo = entry' ∷ todo;
    done = done;
    bytes_in = bytes_in;
    encoder = encoder';
    count = count + 1;
  }
  | sent_once encoder' entry' ↦
      serve call todo done (sub64 bytes_in (payload_size entry'.message)) encoder' (count + 1)
  | sent_kept encoder' entry' ↦
      serve call todo (done ++ (entry' ∷ [])) bytes_in encoder' (count + 1)
]

-- The loop ends, and as the walk does.
data Ends : Option Loop → Served → Type 0 where
  ends :
      (s : Loop) {r : Option Loop} {v : Served}
      → r ≡ some s
      → s.cursor.messages ≡ v.todo ++ v.done
      → s.bytes_in ≡ v.bytes_in
      → s.encoder ≡ v.encoder
      → s.count ≡ v.count
      → Ends r v

module _ (call : Call) (fuel : ℕ) (entry : Entry) (todo done : List Entry) (s : Loop)
    (a : At s.cursor (entry ∷ todo) done)
    (ih : (done' : List Entry) (s' : Loop)
      → At s'.cursor todo done'
      → Ends (loop call fuel s') (serve call todo done' s'.bytes_in s'.encoder s'.count)) where
  loop-round :
      (v : Verdict)
      → examine call s.encoder entry ≡ v
      → loop call (suc fuel) s ≡ (
          if (round s entry v).1
          then loop call fuel (round s entry v).0
          else some (round s entry v).0)
  unfolding loop
  loop-round v e = rw ((at_end_under_way a).0, (at_end_under_way a).1, e, loop)

  after_round :
      (v : Verdict)
      → examine call s.encoder entry ≡ v
      → Ends (loop call (suc fuel) s) (serve call (entry ∷ todo) done s.bytes_in s.encoder s.count)
  unfolding serve round
  after_round drop_acked e = rw (loop-round drop_acked e, e, serve) (ih done _ (erase-At a))
  after_round skip_recent e =
      rw (loop-round skip_recent e, e, serve) (ih (done ++ (entry ∷ [])) _ (advance-At a))
  after_round no_room e =
      rw (loop-round no_room e, e, serve) (ends s refl (messages_of_At a) refl refl refl)
  after_round (partly_sent encoder entry') e =
      rw (loop-round (partly_sent encoder entry') e, e, serve)
        (ends _ refl (messages_of_At (assign-At entry' a)) refl refl refl)
  after_round (sent_once encoder entry') e =
      rw (loop-round (sent_once encoder entry') e, e, serve)
        (ih done _ (erase-At (assign-At entry' a)))
  after_round (sent_kept encoder entry') e =
      rw (loop-round (sent_kept encoder entry') e, e, serve)
        (ih (done ++ (entry' ∷ [])) _ (advance-At (assign-At entry' a)))

loop-serve :
    (call : Call) (fuel : ℕ) (todo done : List Entry) (s : Loop)
    → length todo < fuel
    → At s.cursor todo done
    → Ends (loop call fuel s) (serve call todo done s.bytes_in s.encoder s.count)
unfolding loop serve
loop-serve call zero todo done s h a = absurd (omega arith)
loop-serve call (suc fuel) [] done s h a =
    rw (at_end_finished a, loop) (ends s refl (messages_of_At a) refl refl refl)
loop-serve call (suc fuel) (entry ∷ todo) done s h a =
    after_round call fuel entry todo done s a
      (λ done' s' a'. loop-serve call fuel todo done' s' (omega arith) a')
      (examine call s.encoder entry) refl

-- `encode_payload` always returns, and its result is that of the walk over the entries, in which
-- each is examined once: the queue holds the entries that were not reached, and then those that
-- were kept, each in their order.
pub encode_payload-serve :
    (call : Call) (encoder : Encoder) (q : TransmitQueue)
    → let v = serve call q.queue [] q.bytes_in encoder 0 in
      encode_payload call encoder q
      ≡ some (v.encoder, record { bytes_in = v.bytes_in; queue = v.todo ++ v.done }, v.count)
unfolding encode_payload
encode_payload-serve call encoder q =
    result (loop-serve call (suc (length q.queue)) q.queue [] _ (omega arith) (begin-At q.queue))
  where
    result :
        {r : Option Loop} {v : Served}
        → Ends r v
        → elim r as (λ _. Option (Encoder × TransmitQueue × ℕ)) [
          | none ↦ none
          | some s ↦
              some (s.encoder, record { bytes_in = s.bytes_in; queue = s.cursor.messages }, s.count)
        ]
          ≡ some (v.encoder, record { bytes_in = v.bytes_in; queue = v.todo ++ v.done }, v.count)
    result (ends s eq queue bytes encoder count) = rw (eq, queue, bytes, encoder, count)
