-- ===== src/Transport/Transfer/Whole.antt =====
-- Transfer over several packets: what both ends hold after each of them, and at the end.
use libclub.Prelude.{
  ℕ, ◌+◌, ◌^◌, ◌≤◌, ◌<◌, ◌≡◌, refl, ap, sym, ◌∙◌, ◌⊎◌, inl, inr, Bool, true, List, [], ◌∷◌,
  append-nil, some, length, drop, All, ◌==◌, arith, Bool-cases, length-replicate,
}
use libclub.Binary.Encoder.{Encoder, encoder}
use libclub.Binary.Encoder.Write.{write_room}
use libclub.Binary.Decoder.{Decoder, decoder}
use libclub.Transport.Message.{
  MessageType, code, of_code, OutMessage, out_message, encode_out_message, decode_in_message_part,
  header_size, InMessagePart,
}
use libclub.Transport.Message.Wire.{chunk_bytes, length-chunk_bytes}
use libclub.Transport.Message.Send.{
  IsSendable, next_start, next_size, after_chunk, received_part, encode_out_message_lem,
  decode-chunk_bytes, after_chunk-IsSendable, out_message-IsSendable,
}
use libclub.Transport.PartInfo.Cover.{covers}
use libclub.Transport.PendingMessage.{PendingMessage, update_payload, get_complete_message}
use libclub.Transport.PendingMessage.Assemble.{
  Assembles, update_payload-Assembles, is_complete-covers, get_complete_message-Assembles,
}
use libclub.Transport.Transfer.{transfer, transfer_all, capacity, blank}

-- The bytes that the sender counts as sent have arrived.
pub record Matches (m : OutMessage) (pm : PendingMessage) : Type 0 where
  pub sendable : IsSendable m
  pub assembles : Assembles m.payload pm
  pub arrived : ((x : ℕ) → x < m.bytes_already_sent → covers pm.part_info x ≡ true)
  pub type_right : pm.type ≡ m.header.type
  pub number_right : pm.sequence_number ≡ m.header.sequence_number

-- Every byte has arrived.
abbrev pub AllArrived : OutMessage → PendingMessage → Type 0
AllArrived m pm = (x : ℕ) → x < length m.payload → covers pm.part_info x ≡ true

-- One packet with room for a header: both ends go on, and the sender counts what fitted.
record Passed (m : OutMessage) (pm : PendingMessage) (buffer : List ℕ) : Type 0 where
  sender : OutMessage
  receiver : PendingMessage
  eq : transfer m pm buffer ≡ some (sender, receiver)
  matches : Matches sender receiver
  payload_kept : sender.payload ≡ m.payload
  header_kept : sender.header ≡ m.header
  kept : ((x : ℕ) → covers pm.part_info x ≡ true → covers receiver.part_info x ≡ true)
  sent : sender.bytes_already_sent ≡ next_start m + next_size (encoder buffer) m

transfer_lem :
    (m : OutMessage) (pm : PendingMessage) (buffer : List ℕ) {e' : Encoder} {m' : OutMessage}
    {part : InMessagePart} {d : Decoder} {pm' : PendingMessage}
    → encode_out_message (encoder buffer) m ≡ (e', m')
    → decode_in_message_part (decoder e'.before) ≡ (part, d)
    → update_payload pm part.chunk_start part.payload ≡ some pm'
    → transfer m pm buffer ≡ some (m', pm')
unfolding transfer
transfer_lem m pm buffer wrote read eq = simp (transfer, wrote, read, eq) refl

transfer-Passed :
    {m : OutMessage} {pm : PendingMessage} (buffer : List ℕ)
    → Matches m pm
    → header_size ≤ length buffer
    → Passed m pm buffer
transfer-Passed {m} {pm} buffer ok room =
    let e = encoder buffer in
    let bs = chunk_bytes m (next_start m) (next_size e m) in
    let fits = length-chunk_bytes e m (next_start m) refl room in
    let wrote : encode_out_message e m
        ≡ (record e { before = bs; after = drop (length bs) buffer }, after_chunk e m) =
      encode_out_message_lem e ok.sendable refl room
      ∙ ap (λ k. (k, after_chunk e m)) (write_room e bs refl fits.0) in
    let read : decode_in_message_part (decoder bs) ≡ (received_part e m, decoder []) =
      ap (λ l. decode_in_message_part (decoder l)) (sym (append-nil bs))
      ∙ decode-chunk_bytes e ok.sendable refl room [] in
    let start : next_start m ≤ length m.payload = ground (arith, ok.sendable.sent_part) in
    let (pm', eq, a, cov, type, number) =
      update_payload-Assembles (next_start m) (next_size e m) ok.assembles start in
    record {
      sender = after_chunk e m;
      receiver = pm';
      eq = transfer_lem m pm buffer wrote read eq;
      matches = record {
        sendable = after_chunk-IsSendable e ok.sendable;
        assembles = a;
        arrived = λ x h. ground (arith, cov x, ok.arrived x, fits.1);
        type_right = type ∙ ok.type_right;
        number_right = number ∙ ok.number_right;
      };
      payload_kept = refl;
      header_kept = refl;
      kept = λ x c. ground (arith, cov x);
      sent = refl;
    }

-- Where all has arrived, or the packets that are left have room for what was not sent, all arrives.
abbrev Arrives : OutMessage → PendingMessage → List (List ℕ) → Type 0
Arrives m pm buffers =
    AllArrived m pm ⊎ (length m.payload ≤ m.bytes_already_sent + capacity buffers)

record Through (m : OutMessage) (pm : PendingMessage) (buffers : List (List ℕ)) : Type 0 where
  sender : OutMessage
  receiver : PendingMessage
  eq : transfer_all m pm buffers ≡ some (sender, receiver)
  matches : Matches sender receiver
  payload_kept : sender.payload ≡ m.payload
  header_kept : sender.header ≡ m.header
  all : AllArrived m receiver

transfer_all-Through :
    (buffers : List (List ℕ)) {m : OutMessage} {pm : PendingMessage}
    → Matches m pm
    → All (λ b. header_size ≤ length b) buffers
    → Arrives m pm buffers
    → Through m pm buffers
unfolding transfer_all
transfer_all-Through [] {m} {pm} ok room arrives = record {
  sender = m;
  receiver = pm;
  eq = refl;
  matches = ok;
  payload_kept = refl;
  header_kept = refl;
  all = all_of arrives;
}
  where
    all_of : Arrives m pm [] → AllArrived m pm
    all_of (inl all) = all
    all_of (inr h) = λ x k. ok.arrived x (omega arith)
transfer_all-Through (buffer ∷ buffers) {m} {pm} ok room arrives =
    let p : Passed m pm buffer = transfer-Passed buffer ok room.0 in
    let t : Through p.sender p.receiver buffers =
      transfer_all-Through buffers p.matches room.1 (still p arrives) in
    record {
      sender = t.sender;
      receiver = t.receiver;
      eq = rw (p.eq, transfer_all) t.eq;
      matches = t.matches;
      payload_kept = t.payload_kept ∙ p.payload_kept;
      header_kept = t.header_kept ∙ p.header_kept;
      all = λ x h. t.all x (omega (arith, ap length p.payload_kept));
    }
  where
    still :
        (p : Passed m pm buffer)
        → Arrives m pm (buffer ∷ buffers)
        → Arrives p.sender p.receiver buffers
    still p (inl all) = inl (λ x h. p.kept x (all x (omega (arith, ap length p.payload_kept))))
    still p (inr h) = elim (Bool-cases (m.bytes_already_sent == length m.payload)) [
      | inl y ↦ inl (λ x h. p.kept x (ok.arrived x (ground (arith, ap length p.payload_kept))))
      | inr n ↦ inr (ground (arith, p.sent, ap length p.payload_kept))
    ]

handed_on :
    {m : OutMessage} {pm : PendingMessage} {buffers : List (List ℕ)} (t : Through m pm buffers)
    → 0 < length m.payload
    → get_complete_message t.receiver
      ≡ some (record {
        type = m.header.type;
        sequence_number = m.header.sequence_number;
        size = length m.payload;
        payload = m.payload;
      })
handed_on {m} t nonempty =
    let a : Assembles m.payload t.receiver = rw (← t.payload_kept) t.matches.assembles in
    let whole = (is_complete-covers a nonempty).1 t.all in
    let type = t.matches.type_right ∙ ap (λ h. h.type) t.header_kept in
    let number = t.matches.number_right ∙ ap (λ h. h.sequence_number) t.header_kept in
    get_complete_message-Assembles a whole ∙ rw (type, number) refl

-- A message as the constructor makes it, not empty, and sent in packets that each have room for a
-- header and that together have room for the payload, arrives: every packet is read and taken in,
-- and the receiver then hands on the message with its type, its number and its whole payload.
pub transfer_all-whole :
    (resend : Bool) (type : MessageType) (sn : ℕ) (payload : List ℕ) (buffers : List (List ℕ))
    → of_code (code type) ≡ type
    → code type ≤ 4
    → sn < 2 ^ 32
    → 0 < length payload
    → length payload < 2 ^ 16
    → All (λ b. header_size ≤ length b) buffers
    → length payload ≤ capacity buffers
    → (m : OutMessage) × (pm : PendingMessage) × (transfer_all
          (out_message resend type sn payload)
          (blank type sn (length payload))
          buffers
        ≡ some (m, pm))
      × (get_complete_message pm
          ≡ some (record {
            type = type;
            sequence_number = sn;
            size = length payload;
            payload = payload;
          }))
unfolding out_message
transfer_all-whole resend type sn payload buffers known small number nonempty short room enough =
    let m = out_message resend type sn payload in
    let pm = blank type sn (length payload) in
    let first : Matches m pm = record {
      sendable = out_message-IsSendable resend type sn payload known small number short;
      assembles = record {
        size_right = refl;
        bytes_right = length-replicate (length payload) 0;
        separated = tt;
        inside = λ x c. cc;
        agree = λ x c. cc;
      };
      arrived = λ x h. absurd (omega arith);
      type_right = refl;
      number_right = refl;
    } in
    let t = transfer_all-Through buffers first room (inr (omega arith)) in
    (t.sender, t.receiver, t.eq, handed_on t nonempty)
