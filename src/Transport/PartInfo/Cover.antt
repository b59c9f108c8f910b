-- ===== src/Transport/PartInfo/Cover.antt =====
-- `add_part` of include/club/transport/part_info.h against the set of positions that are covered.
use libclub.Prelude.{
  ℕ, suc, ◌≤◌, ◌<◌, ◌≡◌, refl, Bool, false, ◌&&◌, ◌||◌, [], ◌∷◌, ltb, leb, max, arith,
}
use libclub.Transport.PartInfo.{Info, sanitize}

-- Position x lies in one of the parts.
abbrev pub covers : Info → ℕ → Bool
covers [] x = false
covers ((b, e) ∷ rest) x = (leb b x && ltb x e) || covers rest x

-- Each part is nonempty, and begins at `low` or later, or past a gap behind the part before it.
abbrev pub Separated : ℕ → Info → Type 0
Separated low [] = Unit
Separated low ((b, e) ∷ rest) = (low ≤ b) × (b < e) × Separated (suc e) rest

pub sanitize-Separated :
    (low b e m : ℕ) (rest : Info)
    → low ≤ b
    → b < e
    → b < m
    → Separated m rest
    → Separated low (sanitize b e rest)
unfolding sanitize
sanitize-Separated low b e m [] h k n s = omega arith
sanitize-Separated low b e m ((jb, je) ∷ js) h k n s =
    ground (arith, sanitize-Separated low b (max e je) (suc je) js h)

pub covers-sanitize :
    (b e m : ℕ) (rest : Info) (x : ℕ)
    → b < m
    → Separated m rest
    → covers (sanitize b e rest) x ≡ ((leb b x && ltb x e) || covers rest x)
unfolding sanitize
covers-sanitize b e m [] x n s = refl
covers-sanitize b e m ((jb, je) ∷ js) x n s =
    ground (arith, covers-sanitize b (max e je) (suc je) js x)
