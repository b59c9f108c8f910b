-- ===== src/Transport/PartInfo.antt =====
-- include/club/transport/part_info.h: which parts of a message have arrived. `_info` is an ordered
-- map from the start of a part to its end, held as a list in the order of its keys.
pub mod Cover
pub mod Add
mod Tests
use libclub.Prelude.{
  ℕ, ◌+◌, Bool, true, false, ◌&&◌, ◌||◌, List, [], ◌∷◌, Option, none, some, ltb, leb, if◌then◌else◌,
  max, ◌==◌,
}
use mathlib.Core.Option

abbrev pub Info : Type 0
Info = List (ℕ × ℕ)

-- `sanitize`: the part (b, e) takes in the parts behind it that it reaches.
pub sanitize : ℕ → ℕ → Info → Info
sanitize b e [] = (b, e) ∷ []
sanitize b e ((jb, je) ∷ js) =
    let merged = sanitize b (max e je) js in if ltb e jb then (b, e) ∷ (jb, je) ∷ js else merged

module _ (start end : ℕ) where
  -- The loop of `add_part` from one of the parts on; `none` if it changes no part. The new part
  -- (start, …) stands where the erased one stood: the keys before it are smaller.
  pub merge_from : Info → Option Info
  merge_from [] = none
  merge_from ((b, e) ∷ rest) =
      let later = merge_from rest in
      if leb b start && leb start e
      then some (sanitize b (max end e) rest)
      else if leb start b && leb b end
      then some (sanitize start (max end e) rest)
      else Option.map (λ parts. (b, e) ∷ parts) later

  -- The loop from the part before `lower_bound(start)` on, or from the first one.
  pub merge : Info → Option Info
  merge [] = none
  merge (p ∷ []) = merge_from (p ∷ [])
  merge (p ∷ (b, e) ∷ rest) =
      let later = merge ((b, e) ∷ rest) in
      if ltb b start then Option.map (λ parts. p ∷ parts) later else merge_from (p ∷ (b, e) ∷ rest)

  -- `_info.emplace(start, end)`
  pub emplace : Info → Info
  emplace [] = (start, end) ∷ []
  emplace ((b, e) ∷ rest) =
      let later = emplace rest in
      if ltb b start
      then (b, e) ∷ later
      else if b == start
      then (b, e) ∷ rest
      else (start, end) ∷ (b, e) ∷ rest

  pub add_part : Info → Info
  add_part info =
      if leb end start then info else elim (merge info) [ none ↦ emplace info | some info' ↦ info' ]
