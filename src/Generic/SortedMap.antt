-- ===== src/Generic/SortedMap.antt =====
-- std::map, as the list of its items in the order of their keys.
use libclub.Prelude.{
  ◌≡◌, refl, List, [], ◌∷◌, Option, none, some, if◌then◌else◌, arith, Bool-cases, inl, inr,
}
use libclub.Generic.SortedSet.{Order}

module _ {ℓ} {K : Type 0} {V : Type ℓ} (o : Order K) where
  unfoldable pub find : K → List (K × V) → Option V
  find x [] = none
  find x ((k, v) ∷ m) = let later = find x m in if o.same x k then some v else later

  -- `operator[]` with an assignment
  unfoldable pub put : K → V → List (K × V) → List (K × V)
  put x v [] = (x, v) ∷ []
  put x v ((k, w) ∷ m) =
      let later = put x v m in
      if o.less k x then (k, w) ∷ later else if o.less x k then (x, v) ∷ (k, w) ∷ m else (x, v) ∷ m

  unfoldable pub remove : K → List (K × V) → List (K × V)
  remove x [] = []
  remove x ((k, v) ∷ m) = let later = remove x m in if o.same x k then later else (k, v) ∷ later

  pub find-put :
      (y x : K) (v : V) (m : List (K × V))
      → find y (put x v m) ≡ (if o.same y x then some v else find y m)
  unfolding find put
  find-put y x v [] = refl
  find-put y x v ((k, w) ∷ m) = elim (Bool-cases (o.less k x)) [
    | inl below ↦
        ground (arith, below, find-put y x v m, o.irreflexive x, o.same_sound y x, o.same_sound y k)
    | inr n ↦ elim (Bool-cases (o.less x k)) [
      | inl above ↦ ground (arith, n, above)
      | inr m ↦ ground (arith, n, m, o.total x k m n)
    ]
  ]

  pub find-remove :
      (y x : K) (m : List (K × V)) → find y (remove x m) ≡ (if o.same y x then none else find y m)
  unfolding find remove
  find-remove y x [] = ground arith
  find-remove y x ((k, v) ∷ m) = ground (
    arith,
    find-remove y x m,
    o.same_sound x k,
    o.same_sound y k,
    o.same_sound y x,
    o.same_refl x,
    o.same_refl y,
  )
