-- ===== src/Generic/SortedSet/Ascending.antt =====
-- The items of a std::set and the keys of a std::map ascend.
use libclub.Prelude.{◌≡◌, refl, ap, true, false, List, [], ◌∷◌, arith, Bool-cases, inl, inr, All}
use libclub.Generic.SortedSet.{Order, insert, holds}

module _ {E : Type 0} (o : Order E)
    (less_trans : (a b c : E) → o.less a b ≡ true → o.less b c ≡ true → o.less a c ≡ true) where
  abbrev pub Ascending : List E → Type 0
  Ascending [] = Unit
  Ascending (x ∷ l) = All (λ y. o.less x y ≡ true) l × Ascending l

  -- Below the head, below the rest.
  pub below_all :
      (x y : E) (l : List E)
      → o.less x y ≡ true
      → All (λ z. o.less y z ≡ true) l
      → All (λ z. o.less x z ≡ true) l
  below_all x y [] h a = tt
  below_all x y (z ∷ l) h a = (less_trans x y z h a.0, below_all x y l h a.1)

  All-insert :
      (x y : E) (l : List E)
      → o.less x y ≡ true
      → All (λ z. o.less x z ≡ true) l
      → All (λ z. o.less x z ≡ true) (insert o y l)
  unfolding insert
  All-insert x y [] h a = (h, tt)
  All-insert x y (z ∷ l) h a = elim (Bool-cases (o.less z y)) [
    | inl e ↦ rw (insert, e) (a.0, All-insert x y l h a.1)
    | inr n ↦ elim (Bool-cases (o.less y z)) [
      | inl e ↦ rw (insert, n, e) (h, (a.0, a.1))
      | inr m ↦ rw (insert, n, m) (a.0, a.1)
    ]
  ]

  pub insert-Ascending : (x : E) (l : List E) → Ascending l → Ascending (insert o x l)
  unfolding insert
  insert-Ascending x [] a = (tt, tt)
  insert-Ascending x (y ∷ l) a = elim (Bool-cases (o.less y x)) [
    | inl e ↦ rw (insert, e) (All-insert y x l e a.0, insert-Ascending x l a.1)
    | inr n ↦ elim (Bool-cases (o.less x y)) [
      | inl e ↦ rw (insert, n, e) ((e, below_all x y l e a.0), (a.0, a.1))
      | inr m ↦ rw (insert, n, m) (a.0, a.1)
    ]
  ]

  -- What is below all items is none of them.
  pub holds_below : (x : E) (l : List E) → All (λ y. o.less x y ≡ true) l → holds o x l ≡ false
  unfolding holds
  holds_below x [] a = refl
  holds_below x (y ∷ l) a = ground (
    arith,
    a.0,
    holds_below x l a.1,
    o.irreflexive x,
    λ (h : o.same x y ≡ true). ap (o.less x) (o.same_sound x y h),
  )
