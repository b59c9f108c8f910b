-- ===== src/Transport/PendingMessage/Assemble.antt =====
-- Parts of one payload, in any order and overlapping as they may, put together by pending_message.h.
use libclub.Prelude.{
  ℕ, ◌+◌, ◌-◌, ◌≤◌, ◌<◌, ◌≡◌, sym, ap, refl, ◌∙◌, ◌↔◌, true, false, ◌&&◌, ◌||◌, List, [], ◌++◌,
  some, ltb, leb, if◌then◌else◌, min, length, take, drop, get_or, arith, get_or-append, get_or-take,
  get_or-drop, get_or-injective, take_all, length-take, length-drop, length-append, replicate,
  length-replicate,
}
use libclub.Transport.PartInfo.{add_part}
use libclub.Transport.PartInfo.Cover.{covers, Separated}
use libclub.Transport.PartInfo.Add.{add_part-Separated, covers-add_part}
use libclub.Transport.Message.{InMessagePart}
use libclub.Transport.PendingMessage.Whole.{covers_of_whole, whole_of_covers, not_whole_of_empty}
use libclub.Transport.PendingMessage.{
  PendingMessage, overwrite, update_payload, of_part, is_whole, is_complete, get_complete_message,
}

-- The bytes that are covered are those of the payload.
pub record Assembles (payload : List ℕ) (pm : PendingMessage) : Type 0 where
  pub size_right : pm.size ≡ length payload
  pub bytes_right : length pm.bytes ≡ length payload
  pub separated : Separated 0 pm.part_info
  pub inside : ((x : ℕ) → covers pm.part_info x ≡ true → x < length payload)
  pub agree : ((x : ℕ) → covers pm.part_info x ≡ true → get_or pm.bytes x 0 ≡ get_or payload x 0)

-- The bytes of `payload` from `start` on, at most n of them.
abbrev pub slice : List ℕ → ℕ → ℕ → List ℕ
slice payload start n = take n (drop start payload)

length-overwrite :
    (l : List ℕ) (start : ℕ) (chunk : List ℕ)
    → start + length chunk ≤ length l
    → length (overwrite l start chunk) ≡ length l
length-overwrite l start chunk h = omega (
  arith,
  length-append (take start l) (chunk ++ drop (start + length chunk) l),
  length-append chunk (drop (start + length chunk) l),
  length-take start l,
  length-drop (start + length chunk) l,
)

get_or-overwrite :
    (l : List ℕ) (start : ℕ) (chunk : List ℕ) (x : ℕ)
    → start + length chunk ≤ length l
    → get_or (overwrite l start chunk) x 0 ≡ (
        if leb start x && ltb x (start + length chunk)
        then get_or chunk (x - start) 0
        else get_or l x 0)
get_or-overwrite l start chunk x h =
    let behind = start + length chunk in
    let rest = drop behind l in
    ground (
      arith,
      get_or-append (take start l) (chunk ++ rest) x 0,
      length-take start l,
      get_or-take start l x 0,
      get_or-append chunk rest (x - start) 0,
      get_or-drop behind l (x - start - length chunk) 0,
    )

get_or-slice :
    (payload : List ℕ) (start n x : ℕ)
    → x < n
    → get_or (slice payload start n) x 0 ≡ get_or payload (start + x) 0
get_or-slice payload start n x h =
    ground (arith, get_or-take n (drop start payload) x 0, get_or-drop start payload x 0)

overwrite-Assembles :
    {payload : List ℕ} {pm : PendingMessage} (start n : ℕ)
    → Assembles payload pm
    → start ≤ length payload
    → let chunk = slice payload start n in
      Assembles payload (record pm {
        bytes = overwrite pm.bytes start chunk;
        part_info = add_part start (start + length chunk) pm.part_info;
      })
overwrite-Assembles {payload} {pm} start n a h =
    let chunk = slice payload start n in
    let end = start + length chunk in
    let fits : end ≤ length payload =
      omega (arith, length-take n (drop start payload), length-drop start payload) in
    let within : length chunk ≤ n = omega (arith, length-take n (drop start payload)) in
    record {
      size_right = a.size_right;
      bytes_right =
          length-overwrite pm.bytes start chunk (omega (arith, a.bytes_right)) ∙ a.bytes_right;
      separated = add_part-Separated start end pm.part_info a.separated;
      inside =
          λ x c. ground (arith, covers-add_part start end pm.part_info x a.separated, a.inside x);
      agree = λ x c. ground (
        arith,
        covers-add_part start end pm.part_info x a.separated,
        get_or-overwrite pm.bytes start chunk x (omega (arith, a.bytes_right)),
        get_or-slice payload start n (x - start),
        a.agree x,
      );
    }

-- A part of the payload that begins inside it is taken in, the covered bytes stay those of the
-- payload, and the positions of the part, and no others, are covered in addition.
pub update_payload-Assembles :
    {payload : List ℕ} {pm : PendingMessage} (start n : ℕ)
    → Assembles payload pm
    → start ≤ length payload
    → (pm' : PendingMessage) × (update_payload pm start (slice payload start n) ≡ some pm')
      × Assembles payload pm'
      × ((x : ℕ)
          → covers pm'.part_info x ≡ (
              (leb start x && ltb x (start + length (slice payload start n)))
              || covers pm.part_info x))
      × (pm'.type ≡ pm.type)
      × (pm'.sequence_number ≡ pm.sequence_number)
unfolding update_payload
update_payload-Assembles {payload} {pm} start n a h =
    let chunk = slice payload start n in
    let total = length pm.bytes in
    let whole : take (min (total - start) (length chunk)) chunk ≡ chunk = take_all _ chunk (
      omega
        (arith, length-take n (drop start payload), length-drop start payload, a.bytes_right)) in
    let count : min (total - start) (length chunk) ≡ length chunk =
      omega (arith, length-take n (drop start payload), length-drop start payload, a.bytes_right) in
    (
      record pm {
        bytes = overwrite pm.bytes start chunk;
        part_info = add_part start (start + length chunk) pm.part_info;
      },
      ground (arith, whole, count, a.bytes_right),
      overwrite-Assembles start n a h,
      λ x. covers-add_part start (start + length chunk) pm.part_info x a.separated,
      refl,
      refl,
    )

-- Of a payload that is not empty, a message is complete if and only if every position is covered.
pub is_complete-covers :
    {payload : List ℕ} {pm : PendingMessage}
    → Assembles payload pm
    → 0 < length payload
    → (is_complete pm ≡ true) ↔ ((x : ℕ) → x < length payload → covers pm.part_info x ≡ true)
unfolding is_complete
is_complete-covers {payload} {pm} a h = rw a.size_right (
  λ whole x k. covers_of_whole pm.part_info (length payload) x whole k,
  whole_of_covers pm.part_info (length payload) a.separated h a.inside,
)

-- A complete message, of whose payload the covered bytes are right, is handed on with the bytes of
-- the payload, all of them in their order.
pub get_complete_message-Assembles :
    {payload : List ℕ} {pm : PendingMessage}
    → Assembles payload pm
    → is_complete pm ≡ true
    → get_complete_message pm
      ≡ some (record {
        type = pm.type;
        sequence_number = pm.sequence_number;
        size = length payload;
        payload = payload;
      })
unfolding get_complete_message is_complete
get_complete_message-Assembles {payload} {pm} a h =
    let all : (x : ℕ) → x < length payload → get_or pm.bytes x 0 ≡ get_or payload x 0 = λ x k.
      a.agree x (
        covers_of_whole pm.part_info (length payload) x
          (ap (is_whole pm.part_info) (sym a.size_right) ∙ h) k) in
    rw (h, a.size_right, get_or-injective pm.bytes payload 0 a.bytes_right all)

-- The message made from a part that names the size of a payload, begins inside it and holds its
-- bytes from there on has just bytes of the payload where it is covered.
pub of_part-Assembles :
    {payload : List ℕ} (m : InMessagePart) (n : ℕ)
    → m.original_size ≡ length payload
    → m.chunk_start ≤ length payload
    → m.payload ≡ slice payload m.chunk_start n
    → (pm : PendingMessage) × (of_part m ≡ some pm)
      × Assembles payload pm
      × (pm.sequence_number ≡ m.sequence_number)
unfolding of_part
of_part-Assembles {payload} m n size start chunk =
    let blank : Assembles payload (record {
      type = m.type;
      sequence_number = m.sequence_number;
      size = m.original_size;
      bytes = replicate m.original_size 0;
      part_info = [];
    }) =
      record {
        size_right = size;
        bytes_right = length-replicate m.original_size 0 ∙ size;
        separated = tt;
        inside = λ x c. cc;
        agree = λ x c. cc;
      } in
    let (pm, eq, a, _, _, number) = update_payload-Assembles m.chunk_start n blank start in
    (pm, rw chunk eq, a, number)

-- A message of size 0 that is held in parts is never complete, whatever parts were taken in.
pub is_complete_of_empty : {pm : PendingMessage} → Assembles [] pm → is_complete pm ≡ false
unfolding is_complete
is_complete_of_empty {pm} a = not_whole_of_empty pm.part_info pm.size a.separated a.inside
