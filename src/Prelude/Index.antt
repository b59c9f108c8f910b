-- ===== src/Prelude/Index.antt =====
-- Reading a list at an index: through appends, and through the parts that `take` and `drop` give.
use Prim.Native.Nat.{ℕ, zero, suc, ◌+◌, ◌-◌, ◌<◌}
use mathlib.Core.Path.{◌≡◌, refl, ap, ap₂, ◌∙◌}
use mathlib.Core.List.{List, [], ◌∷◌, ◌++◌}
use native.Mathlib.Omega.{arith}
use libclub.Prelude.Tests.{ltb, if◌then◌else◌}
use libclub.Prelude.Lists.{length, get_or, take, drop}

module _ {ℓ} {A : Type ℓ} where
  pub get_or-append :
      (xs ys : List A) (x : ℕ) (d : A)
      → get_or (xs ++ ys) x d
        ≡ (if ltb x (length xs) then get_or xs x d else get_or ys (x - length xs) d)
  get_or-append [] ys x d =
      let start : x - 0 ≡ x = omega arith in
      let same : get_or ys (x - 0) d ≡ get_or ys x d = ap (λ k. get_or ys k d) start in ground arith
  get_or-append (a ∷ xs) ys zero d = ground arith
  get_or-append (a ∷ xs) ys (suc x) d =
      let index : suc x - suc (length xs) ≡ x - length xs = omega arith in
      ground (arith, get_or-append xs ys x d, ap (λ k. get_or ys k d) index)

  pub get_or-take :
      (n : ℕ) (l : List A) (x : ℕ) (d : A)
      → get_or (take n l) x d ≡ (if ltb x n then get_or l x d else d)
  get_or-take zero l x d = ground arith
  get_or-take (suc n) [] x d = ground arith
  get_or-take (suc n) (a ∷ l) zero d = ground arith
  get_or-take (suc n) (a ∷ l) (suc x) d = ground (arith, get_or-take n l x d)

  pub get_or-drop :
      (n : ℕ) (l : List A) (x : ℕ) (d : A) → get_or (drop n l) x d ≡ get_or l (n + x) d
  get_or-drop zero l x d = ap (λ k. get_or l k d) (omega arith)
  get_or-drop (suc n) [] x d = refl
  get_or-drop (suc n) (a ∷ l) x d =
      let index : suc (n + x) ≡ suc n + x = omega arith in
      get_or-drop n l x d ∙ ap (λ k. get_or (a ∷ l) k d) index

  -- Lists of one length with the same elements are equal.
  pub get_or-injective :
      (xs ys : List A) (d : A)
      → length xs ≡ length ys
      → ((x : ℕ) → x < length ys → get_or xs x d ≡ get_or ys x d)
      → xs ≡ ys
  get_or-injective [] [] d e h = refl
  get_or-injective [] (y ∷ ys) d e h = absurd (omega arith)
  get_or-injective (x ∷ xs) [] d e h = absurd (omega arith)
  get_or-injective (x ∷ xs) (y ∷ ys) d e h =
      ap₂ ◌∷◌ (h 0 (omega arith))
        (get_or-injective xs ys d (omega arith) (λ i k. h (suc i) (omega arith)))
