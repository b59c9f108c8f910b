-- ===== src/Binary/Serialize/Roundtrip.antt =====
-- include/binary: a vector of pairs that is put into an encoder and got from a decoder.
use libclub.Prelude.{ℕ, ◌<◌, ◌+◌, ◌^◌, List, [], ◌∷◌, Option, none, some}
use libclub.Binary.Codec.{Codec}
use libclub.Binary.Codec.Words.{u16_codec, u32_codec, u64_codec}
use libclub.Binary.Serialize.Laws.{pair_codec, optional_codec}

-- `pair<uint16_t, pair<uint32_t, optional<uint64_t>>>`
abbrev pub Item : Type 0
Item = ℕ × (ℕ × Option ℕ)

abbrev pub item_codec : Codec Item
item_codec = pair_codec u16_codec (pair_codec u32_codec (optional_codec u64_codec))

-- Its numbers fit into their types.
abbrev pub ItemFits : Item → Type 0
ItemFits (a, (b, none)) = (a < 2 ^ 16) × (b < 2 ^ 32)
ItemFits (a, (b, some c)) = (a < 2 ^ 16) × (b < 2 ^ 32) × (c < 2 ^ 64)

-- The bytes that it takes.
abbrev pub item_size : Item → ℕ
item_size (a, (b, none)) = 7
item_size (a, (b, some c)) = 15

abbrev pub items_size : List Item → ℕ
items_size [] = 0
items_size (item ∷ items) = item_size item + items_size items
