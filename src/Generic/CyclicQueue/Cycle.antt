-- ===== src/Generic/CyclicQueue/Cycle.antt =====
-- The iterator of include/club/generic/cyclic_queue.h on its way through the queue.
use libclub.Prelude.{
  suc, ◌≡◌, refl, true, false, List, [], ◌∷◌, ◌++◌, append_assoc, append-nil, some, length,
  length-append, arith,
}
use libclub.Generic.CyclicQueue.{
  Cursor, begin, at_end, current, move_to_back, advance, erase, assign,
}

-- A cursor has `todo` before it and has left `done` behind.
pub data At {ℓ} {A : Type ℓ} (c : Cursor A) : List A → List A → Type ℓ where
  under_way :
      (x : A) (todo done : List A)
      → c.messages ≡ x ∷ (todo ++ done)
      → c.position ≡ 0
      → c.end ≡ suc (length todo)
      → At c (x ∷ todo) done
  finished : (done : List A) → c.messages ≡ done → c.position ≡ c.end → At c [] done

module _ {ℓ} {A : Type ℓ} where
  pub begin-At : (queue : List A) → At (begin queue) queue []
  unfolding begin
  begin-At [] = finished [] refl refl
  begin-At (x ∷ queue) = under_way x queue [] (rw append-nil) refl refl

  -- Under way the iterator stands at the first element that is left.
  pub at_end_under_way :
      {c : Cursor A} {x : A} {todo done : List A}
      → At c (x ∷ todo) done
      → (at_end c ≡ false) × (current c ≡ some x)
  unfolding at_end current
  at_end_under_way (under_way x todo done m p e) = (ground arith, rw (m, p))

  pub at_end_finished : {c : Cursor A} {done : List A} → At c [] done → at_end c ≡ true
  unfolding at_end
  at_end_finished (finished done m e) = ground arith

  -- Wherever the iteration stops, the queue holds what is left, and then what it has passed.
  pub messages_of_At :
      {c : Cursor A} {todo done : List A} → At c todo done → c.messages ≡ todo ++ done
  messages_of_At (under_way x todo done m p e) = m
  messages_of_At (finished done m e) = m

  pub advance-At :
      {c : Cursor A} {x : A} {todo done : List A}
      → At c (x ∷ todo) done
      → At (advance c) todo (done ++ (x ∷ []))
  unfolding advance move_to_back
  advance-At (under_way x [] [] m p e) = finished (x ∷ []) (ground arith) (ground arith)
  advance-At (under_way x [] (y ∷ done) m p e) =
      finished (y ∷ (done ++ (x ∷ []))) (ground arith) (ground arith)
  advance-At (under_way x (y ∷ todo) done m p e) =
      under_way y todo (done ++ (x ∷ [])) (ground (arith, append_assoc todo done (x ∷ [])))
        (ground arith) (ground (arith, length-append todo done))

  pub erase-At :
      {c : Cursor A} {x : A} {todo done : List A} → At c (x ∷ todo) done → At (erase c) todo done
  unfolding erase
  erase-At (under_way x [] done m p e) = finished done (ground arith) (ground arith)
  erase-At (under_way x (y ∷ todo) done m p e) =
      under_way y todo done (ground arith) (ground arith) (ground arith)

  pub assign-At :
      {c : Cursor A} {x : A} {todo done : List A} (a : A)
      → At c (x ∷ todo) done
      → At (assign c a) (a ∷ todo) done
  unfolding assign
  assign-At a (under_way x todo done m p e) = under_way a todo done (ground arith) p e
