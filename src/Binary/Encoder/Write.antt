-- ===== src/Binary/Encoder/Write.antt =====
-- The bytes that each `encode` of a word in include/binary/encoder.h writes.
use libclub.Prelude.{
  ℕ, zero, suc, ◌+◌, ◌%◌, ◌≤◌, ◌<◌, ◌≡◌, refl, ap, ◌∙◌, sym, true, false, List, [], ◌∷◌, ◌++◌,
  append_assoc, append-nil, arith, Bool-cases, inl, inr, ltb, if◌then◌else◌, length, drop,
  length-append, length-drop,
}
use native.Mathlib.Decide.{dec_lt}
use libclub.Binary.Encoder.{
  Encoder, set_error, store, encode_u8, encode_u16, encode_u32, encode_u64, byte_of, store_all,
  put_raw,
}

pub write : Encoder → List ℕ → Encoder
write e bs =
    if e.was_error
    then e
    else if ltb (length e.after) (length bs)
    then set_error e
    else record e { before = e.before ++ bs; after = drop (length bs) e.after }

-- Big-endian bytes.
abbrev pub be16 : ℕ → List ℕ
be16 v = byte_of v 8 ∷ v % 256 ∷ []

abbrev pub be32 : ℕ → List ℕ
be32 v = byte_of v 24 ∷ byte_of v 16 ∷ byte_of v 8 ∷ v % 256 ∷ []

abbrev pub be64 : ℕ → List ℕ
be64 v = byte_of v 56 ∷ byte_of v 48 ∷ byte_of v 40 ∷ byte_of v 32 ∷ be32 v

drop-drop_one : (n : ℕ) (xs : List ℕ) → drop n (drop 1 xs) ≡ drop (suc n) xs
drop-drop_one zero [] = refl
drop-drop_one (suc n) [] = refl
drop-drop_one n (x ∷ xs) = refl

store_all_lem :
    (e : Encoder) (bs : List ℕ)
    → store_all e bs ≡ record e { before = e.before ++ bs; after = drop (length bs) e.after }
unfolding store_all
store_all_lem e [] = rw append-nil
store_all_lem e (b ∷ bs) =
    store_all_lem (store e b) bs ∙ rw (append_assoc, drop-drop_one (length bs) e.after)

-- `put_raw` writes all the bytes that it is given, or sets the error and writes none.
pub put_raw_lem : (e : Encoder) (bs : List ℕ) → put_raw e bs ≡ write e bs
unfolding put_raw write
put_raw_lem e bs = ground (arith, store_all_lem e bs)

pub encode_u8_lem : (e : Encoder) (v : ℕ) → encode_u8 e v ≡ write e (v ∷ [])
unfolding encode_u8 write
encode_u8_lem e v = ground arith

pub encode_u16_lem : (e : Encoder) (v : ℕ) → encode_u16 e v ≡ write e (be16 v)
unfolding encode_u16 write store_all
encode_u16_lem e v = ground (arith, store_all_lem e (be16 v))

pub encode_u32_lem : (e : Encoder) (v : ℕ) → encode_u32 e v ≡ write e (be32 v)
unfolding encode_u32 write store_all
encode_u32_lem e v = ground (arith, store_all_lem e (be32 v))

pub encode_u64_lem : (e : Encoder) (v : ℕ) → encode_u64 e v ≡ write e (be64 v)
unfolding encode_u64 write store_all
encode_u64_lem e v = ground (arith, store_all_lem e (be64 v))

-- What is known of `write`, with its clauses shut.
pub write_room :
    (e : Encoder) (bs : List ℕ)
    → e.was_error ≡ false
    → length bs ≤ length e.after
    → write e bs ≡ record e { before = e.before ++ bs; after = drop (length bs) e.after }
unfolding write
write_room e bs ok room = ground arith

pub write_short :
    (e : Encoder) (bs : List ℕ) → length e.after < length bs → (write e bs).was_error ≡ true
unfolding write
write_short e bs short = ground arith

pub write_error : (e : Encoder) (bs : List ℕ) → e.was_error ≡ true → write e bs ≡ e
unfolding write
write_error e bs bad = ground arith

pub length-after-write :
    (e : Encoder) (bs : List ℕ)
    → e.was_error ≡ false
    → length bs ≤ length e.after
    → ((write e bs).was_error ≡ false) × (length (write e bs).after + length bs ≡ length e.after)
unfolding write
length-after-write e bs ok room = ground (arith, length-drop (length bs) e.after)

drop-nil : (n : ℕ) → drop {A = ℕ} n [] ≡ []
drop-nil zero = refl
drop-nil (suc n) = refl

pub drop-add : (m n : ℕ) (xs : List ℕ) → drop n (drop m xs) ≡ drop (m + n) xs
drop-add zero n xs = ap (λ k. drop k xs) (omega arith)
drop-add (suc m) n [] = drop-nil n ∙ sym (drop-nil (suc m + n))
drop-add (suc m) n (x ∷ xs) =
    let count : suc (m + n) ≡ suc m + n = omega arith in
    drop-add m n xs ∙ ap (λ k. drop k (x ∷ xs)) count

-- Two runs that both have room are one run.
pub write-write :
    (e : Encoder) (xs ys : List ℕ)
    → e.was_error ≡ false
    → length xs + length ys ≤ length e.after
    → write (write e xs) ys ≡ write e (xs ++ ys)
unfolding write
write-write e xs ys ok room = ground (
  arith,
  length-drop (length xs) e.after,
  length-append xs ys,
  append_assoc e.before xs ys,
  drop-add (length xs) (length ys) e.after,
)

-- An operation that writes the bytes `bs` if there is room for them, and otherwise sets the error;
-- after an error it does nothing.
pub record Puts (f : Encoder → Encoder) (bs : List ℕ) : Type 0 where
  pub room : ((e : Encoder) → e.was_error ≡ false → length bs ≤ length e.after → f e ≡ write e bs)
  pub short : ((e : Encoder) → length e.after < length bs → (f e).was_error ≡ true)
  pub error : ((e : Encoder) → e.was_error ≡ true → f e ≡ e)

pub Puts-nothing : Puts (λ e. e) []
unfolding write
Puts-nothing = record {
  room = λ e ok room. ground (arith, append-nil e.before);
  short = λ e h. absurd (omega arith);
  error = λ e h. refl;
}

module _ {f g : Encoder → Encoder} (xs ys : List ℕ) (pf : Puts f xs) (pg : Puts g ys) where
  seq_room :
      (e : Encoder)
      → e.was_error ≡ false
      → length (xs ++ ys) ≤ length e.after
      → g (f e) ≡ write e (xs ++ ys)
  seq_room e ok room =
      let total = length-append xs ys in
      let first = length-after-write e xs ok (omega arith) in
      ap g (pf.room e ok (omega arith))
      ∙ pg.room (write e xs) (first.0) (omega arith)
      ∙ write-write e xs ys ok (omega arith)

  seq_short : (e : Encoder) → length e.after < length (xs ++ ys) → (g (f e)).was_error ≡ true
  seq_short e short = elim (Bool-cases e.was_error) [
    | inl bad ↦ rw (pf.error e bad, pg.error e bad) bad
    | inr ok ↦ elim (dec_lt (length e.after) (length xs)) [
      | yes lack ↦ rw (pg.error (f e) (pf.short e lack)) (pf.short e lack)
      | no room ↦
          let left = length-after-write e xs ok (omega arith) in
          rw (pf.room e ok (omega arith))
            (pg.short (write e xs) (omega (arith, length-append xs ys)))
    ]
  ]

  -- One such operation after another.
  pub Puts-seq : Puts (λ e. g (f e)) (xs ++ ys)
  Puts-seq = record {
    room = seq_room;
    short = seq_short;
    error = λ e bad. ap g (pf.error e bad) ∙ pg.error e bad;
  }
