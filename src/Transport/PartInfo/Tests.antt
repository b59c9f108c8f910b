-- ===== src/Transport/PartInfo/Tests.antt =====
-- The results on include/club/transport/part_info.h at concrete parts.
use libclub.Prelude.{◌≡◌, refl, ◌&&◌, ◌||◌, [], ◌∷◌, leb, ltb, arith}
use libclub.Transport.PartInfo.{Info, sanitize, merge_from, merge, emplace, add_part}
use libclub.Transport.PartInfo.Cover.{covers, Separated}
use libclub.Transport.PartInfo.Add.{add_part-Separated, covers-add_part}

abbrev parts : Info
parts = (0, 4) ∷ (10, 12) ∷ (20, 30) ∷ []

parts-Separated : Separated 0 parts
parts-Separated =
    (omega arith, omega arith, (omega arith, omega arith, (omega arith, omega arith, tt)))

-- The part closes one gap and reaches into the next part.
joined : add_part 4 21 parts ≡ (0, 30) ∷ []
unfolding add_part merge merge_from sanitize
joined = refl

apart : add_part 14 16 parts ≡ (0, 4) ∷ (10, 12) ∷ (14, 16) ∷ (20, 30) ∷ []
unfolding add_part merge merge_from emplace
apart = refl

add_part-Separated_example : Separated 0 (add_part 4 21 parts)
add_part-Separated_example = add_part-Separated 4 21 parts parts-Separated

covers-add_part_example :
    covers (add_part 4 21 parts) 15 ≡ ((leb 4 15 && ltb 15 21) || covers parts 15)
covers-add_part_example = covers-add_part 4 21 parts 15 parts-Separated
