-- ===== src/Binary/Serialize/Tests.antt =====
-- The results on include/binary at concrete values.
use libclub.Prelude.{List, [], ◌∷◌, none, some}
use libclub.Binary.Serialize.Roundtrip.{Item}

abbrev two_items : List Item
two_items = (7, (70000, none)) ∷ (8, (3, some 5)) ∷ []
