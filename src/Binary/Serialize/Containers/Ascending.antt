-- ===== src/Binary/Serialize/Containers/Ascending.antt =====
-- What the `decode` of a container of include/binary/serialize reads where it was encoded.
use libclub.Prelude.{
  ℕ, ◌<◌, ◌≤◌, ◌≡◌, refl, ap, ◌∙◌, Bool, true, List, [], ◌∷◌, ◌++◌, append_assoc, append-nil, arith,
  length, All, le→ltb,
}
use libclub.Binary.Encoder.Write.{Puts, Puts-seq}
use libclub.Binary.Decoder.{Decoder, decoder}
use libclub.Binary.Decoder.Read.{get_u8-append}
use libclub.Binary.Codec.{Codec}
use libclub.Binary.Codec.Words.{u32_codec}
use libclub.Binary.Serialize.{max_size, get_items}
use libclub.Binary.Serialize.Sequence.{
  items_bytes, vector_bytes, VectorFits, Puts-put_items, get_items-append,
}
use libclub.Binary.Serialize.Laws.{pair_codec}
use libclub.Binary.Serialize.Containers.{
  counted, decode_list, insert, encode_set, get_set_items, decode_set, get_flat_items,
  decode_flat_set, decode_map, decode_flat_map, by_key, decode_uuid,
}

-- A count below the bound, followed by items, is read as the items are.
counted-append :
    {A : Type 0} (default : A) (items : Decoder → ℕ → A × Decoder) (n : ℕ) (bytes : List ℕ)
    → n < max_size
    → counted default items (decoder (u32_codec.bytes n ++ bytes)) max_size
      ≡ items (decoder bytes) n
counted-append default items n bytes h =
    rw (u32_codec.get_bytes n bytes (omega (arith, h)), le→ltb max_size n (omega (arith, h))) refl

counted-append_within :
    {A : Type 0} (default : A) (items : Decoder → ℕ → A × Decoder) (n bound : ℕ) (bytes : List ℕ)
    → n < max_size
    → n ≤ bound
    → counted default items (decoder (u32_codec.bytes n ++ bytes)) bound ≡ items (decoder bytes) n
counted-append_within default items n bound bytes h within =
    rw (u32_codec.get_bytes n bytes (omega (arith, h)), le→ltb bound n within) refl

module _ {A : Type 0} (codec : Codec A) where
  pub decode_list-append :
      (l : List A) (rest : List ℕ)
      → VectorFits codec l
      → decode_list codec (decoder (vector_bytes codec l ++ rest)) max_size ≡ (l, decoder rest)
  unfolding decode_list
  decode_list-append l rest fits = rw append_assoc (
      counted-append [] (get_items codec) (length l) (items_bytes codec l ++ rest) fits.0
      ∙ get_items-append codec l rest fits.1)

  pub Puts-encode_set : (l : List A) → Puts (λ e. encode_set codec e l) (vector_bytes codec l)
  unfolding encode_set
  Puts-encode_set l =
      Puts-seq (u32_codec.bytes (length l)) (items_bytes codec l) (u32_codec.puts (length l))
        (Puts-put_items codec l)

  module _ (lt : A → A → Bool) where
    -- Each item of the second list is above all items before it, those of the first list included.
    abbrev pub Ascends : List A → List A → Type 0
    Ascends before [] = Unit
    Ascends before (a ∷ l) = All (λ b. lt b a ≡ true) before × Ascends (before ++ (a ∷ [])) l

    abbrev pub SetFits : List A → Type 0
    SetFits l = VectorFits codec l × Ascends [] l

    insert-append :
        (a : A) (l : List A) → All (λ b. lt b a ≡ true) l → insert codec lt a l ≡ l ++ (a ∷ [])
    unfolding insert
    insert-append a [] h = refl
    insert-append a (b ∷ l) h = rw (h.0, insert-append a l h.1) refl

    get_set_items-append :
        (before l : List A) (rest : List ℕ)
        → Ascends before l
        → All codec.Fits l
        → get_set_items codec lt before (decoder (items_bytes codec l ++ rest)) (length l)
          ≡ (before ++ l, decoder rest)
    unfolding get_set_items
    get_set_items-append before [] rest up fits = rw append-nil refl
    get_set_items-append before (a ∷ l) rest up fits =
        rw
          (
            append_assoc,
            codec.get_bytes a (items_bytes codec l ++ rest) fits.0,
            insert-append a before up.0,
            get_set_items-append (before ++ (a ∷ [])) l rest up.1 fits.1,
          )
          (ap (λ k. (k, decoder rest)) (append_assoc before (a ∷ []) l))

    get_flat_items-append :
        (before l : List A) (rest : List ℕ)
        → Ascends before l
        → All codec.Fits l
        → get_flat_items codec lt before (decoder (items_bytes codec l ++ rest)) (length l)
          ≡ (before ++ l, decoder rest)
    unfolding get_flat_items
    get_flat_items-append before [] rest up fits = rw append-nil refl
    get_flat_items-append before (a ∷ l) rest up fits =
        rw
          (
            append_assoc,
            codec.get_bytes a (items_bytes codec l ++ rest) fits.0,
            insert-append a before up.0,
            get_flat_items-append (before ++ (a ∷ [])) l rest up.1 fits.1,
          )
          (ap (λ k. (k, decoder rest)) (append_assoc before (a ∷ []) l))

    -- Decoding the bytes of a sequence below the largest size, whose items can be read back and
    -- each lie above all before them in the given order, as a set or as a flat set, gives the
    -- items in their order, and leaves the decoder behind them.
    pub decode_set-append :
        (l : List A) (rest : List ℕ)
        → SetFits l
        → (decode_set codec lt (decoder (vector_bytes codec l ++ rest)) max_size
            ≡ (l, decoder rest))
          × (decode_flat_set codec lt (decoder (vector_bytes codec l ++ rest)) max_size
              ≡ (l, decoder rest))
    unfolding decode_set decode_flat_set
    decode_set-append l rest fits =
        let bytes = items_bytes codec l ++ rest in
        rw append_assoc (
          counted-append [] (get_set_items codec lt []) (length l) bytes fits.0.0
              ∙ get_set_items-append [] l rest fits.1 fits.0.1,
          counted-append [] (get_flat_items codec lt []) (length l) bytes fits.0.0
              ∙ get_flat_items-append [] l rest fits.1 fits.0.1,
        )

    pub decode_flat_set-append_within :
        (l : List A) (bound : ℕ) (rest : List ℕ)
        → SetFits l
        → length l ≤ bound
        → decode_flat_set codec lt (decoder (vector_bytes codec l ++ rest)) bound
          ≡ (l, decoder rest)
    unfolding decode_flat_set
    decode_flat_set-append_within l bound rest fits within = rw append_assoc (
        counted-append_within [] (get_flat_items codec lt []) (length l) bound
          (items_bytes codec l ++ rest) fits.0.0 within
        ∙ get_flat_items-append [] l rest fits.1 fits.0.1)

    pub decode_set_error :
        (d : Decoder) → d.was_error ≡ true → (decode_set codec lt d max_size).1.was_error ≡ true
    unfolding decode_set
    decode_set_error d bad = rw bad

    abbrev pub set_codec : Codec (List A)
    set_codec = record {
      default = [];
      put = encode_set codec;
      get = λ d. decode_set codec lt d max_size;
      bytes = vector_bytes codec;
      Fits = SetFits;
      puts = Puts-encode_set;
      get_bytes = λ l rest fits. (decode_set-append l rest fits).0;
      get_error = decode_set_error;
    }

pub decode_uuid-append :
    (uuid rest : List ℕ) → decode_uuid (decoder (uuid ++ rest)) (length uuid) ≡ (uuid, decoder rest)
unfolding decode_uuid
decode_uuid-append [] rest = refl
decode_uuid-append (i ∷ uuid) rest =
    rw (get_u8-append i (uuid ++ rest), decode_uuid-append uuid rest) refl

module _ {K V : Type 0} (key : Codec K) (value : Codec V) (lt : K → K → Bool) where
  -- Decoding the bytes of a sequence of pairs below the largest size, which can be read back and
  -- whose keys each lie above all before them in the given order, as a map or as a flat map, gives
  -- the pairs in their order, and leaves the decoder behind them.
  pub decode_map-append :
      (l : List (K × V)) (rest : List ℕ)
      → SetFits (pair_codec key value) (by_key key value lt) l
      → let bytes = vector_bytes (pair_codec key value) l ++ rest in
        (decode_map key value lt (decoder bytes) max_size ≡ (l, decoder rest))
        × (decode_flat_map key value lt (decoder bytes) max_size ≡ (l, decoder rest))
  decode_map-append l rest fits =
      decode_set-append (pair_codec key value) (by_key key value lt) l rest fits
