-- ===== src/Generic/SortedSet.antt =====
-- std::set, as the list of its items in their order. The order and the equality of the items are
-- parameters, with what the set relies on.
pub mod Ascending
use libclub.Prelude.{
  ◌≡◌, ◌≢◌, refl, sym, Bool, true, false, ◌&&◌, ◌||◌, not, List, [], ◌∷◌, if◌then◌else◌, arith,
  Bool-cases, inl, inr, All, length, ◌≤◌, ◌<◌, ◌⊎◌,
}
use mathlib.Core.Path.{subst}

-- `operator <` and `operator ==` of the items.
pub record Order (E : Type 0) : Type 0 where
  pub less : E → E → Bool
  pub same : E → E → Bool
  pub same_sound : ((a b : E) → same a b ≡ true → a ≡ b)
  pub same_refl : ((a : E) → same a a ≡ true)
  pub irreflexive : ((a : E) → less a a ≡ false)
  pub total : ((a b : E) → less a b ≡ false → less b a ≡ false → a ≡ b)

module _ {E : Type 0} (o : Order E) where
  unfoldable pub insert : E → List E → List E
  insert x [] = x ∷ []
  insert x (y ∷ ys) =
      let later = insert x ys in
      if o.less y x then y ∷ later else if o.less x y then x ∷ y ∷ ys else y ∷ ys

  unfoldable pub erase : E → List E → List E
  erase x [] = []
  erase x (y ∷ ys) = let later = erase x ys in if o.same x y then later else y ∷ later

  -- `count`
  unfoldable pub holds : E → List E → Bool
  holds x [] = false
  holds x (y ∷ ys) = let later = holds x ys in o.same x y || later

  pub holds-insert : (x y : E) (l : List E) → holds x (insert y l) ≡ (o.same x y || holds x l)
  unfolding holds insert
  holds-insert x y [] = refl
  holds-insert x y (z ∷ l) = elim (Bool-cases (o.less z y)) [
    | inl below ↦ ground (arith, below, holds-insert x y l)
    | inr n ↦ elim (Bool-cases (o.less y z)) [
      | inl above ↦ ground (arith, n, above)
      | inr m ↦ ground (arith, n, m, o.total z y n m)
    ]
  ]

  pub holds-erase : (x y : E) (l : List E) → holds x (erase y l) ≡ (holds x l && not (o.same x y))
  unfolding holds erase
  holds-erase x y [] = refl
  holds-erase x y (z ∷ l) = ground (
    arith,
    holds-erase x y l,
    o.same_sound y z,
    o.same_sound x z,
    o.same_sound x y,
    o.same_refl y,
    o.same_refl x,
  )

  pub insert_nonempty : (x : E) (l : List E) → insert x l ≢ []
  unfolding insert
  insert_nonempty x [] = λ k. cc
  insert_nonempty x (y ∷ l) = λ k. ground arith

  pub All-holds : (P : E → Type 0) (l : List E) → ((x : E) → holds x l ≡ true → P x) → All P l
  unfolding holds
  All-holds P [] f = tt
  All-holds P (y ∷ l) f =
      (f y (ground (arith, o.same_refl y)), All-holds P l (λ x h. f x (ground (arith, h))))

  pub holds-All : (P : E → Type 0) (l : List E) (x : E) → All P l → holds x l ≡ true → P x
  unfolding holds
  holds-All P [] x a h = absurd (ground arith)
  holds-All P (y ∷ l) x a h = elim (Bool-cases (o.same x y)) [
    | inl e ↦ subst P (sym (o.same_sound x y e)) a.0
    | inr n ↦ holds-All P l x a.1 (ground arith)
  ]

  pub erase_idem : (x : E) (l : List E) → erase x (erase x l) ≡ erase x l
  unfolding erase
  erase_idem x [] = refl
  erase_idem x (y ∷ l) = ground (arith, erase_idem x l)

  pub erase_absent : (x : E) (l : List E) → holds x l ≡ false → erase x l ≡ l
  unfolding erase holds
  erase_absent x [] h = refl
  erase_absent x (y ∷ l) h = ground (arith, erase_absent x l)

  pub length-erase : (x : E) (l : List E) → length (erase x l) ≤ length l
  unfolding erase
  length-erase x [] = omega arith
  length-erase x (y ∷ l) = ground (arith, length-erase x l)

  pub length-erase_of_holds :
      (x : E) (l : List E) → holds x l ≡ true → length (erase x l) < length l
  unfolding erase holds
  length-erase_of_holds x [] h = absurd (ground arith)
  length-erase_of_holds x (y ∷ l) h = ground (arith, length-erase x l, length-erase_of_holds x l)

  pub insert_self : (x : E) → insert x (x ∷ []) ≡ x ∷ []
  unfolding insert
  insert_self x = rw (o.irreflexive x) refl

  pub empty_of_holds : (l : List E) → ((x : E) → holds x l ≡ false) → l ≡ []
  unfolding holds
  empty_of_holds [] h = refl
  empty_of_holds (y ∷ l) h = absurd (ground (arith, h y, o.same_refl y))

  -- Some item of the first set is in the second one, or none is.
  pub holds_cases :
      (l s : List E)
      → ((x : E) × (holds x l ≡ true) × (holds x s ≡ true))
        ⊎ ((x : E) → holds x l ≡ true → holds x s ≡ false)
  unfolding holds
  holds_cases [] s = inr (λ x h. absurd (ground arith))
  holds_cases (y ∷ l) s = elim (Bool-cases (holds y s)) [
    | inl found ↦ inl (y, ground (arith, o.same_refl y), found)
    | inr absent ↦ elim (holds_cases l s) [
      | inl (x, a, b) ↦ inl (x, ground arith, b)
      | inr none_of ↦ inr (λ x h. elim (Bool-cases (o.same x y)) [
        | inl e ↦ subst (λ z. holds z s ≡ false) (sym (o.same_sound x y e)) absent
        | inr n ↦ none_of x (ground arith)
      ])
    ]
  ]
