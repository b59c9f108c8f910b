-- ===== src/Generic/CyclicQueue.antt =====
-- include/club/generic/cyclic_queue.h: a queue with an iterator that moves each element it leaves to
-- the back, so that a traversal that breaks off goes on where it stopped. An iterator into the list
-- is the index of its element, and `list.end()` the length of the list.
pub mod Cycle
use libclub.Prelude.{
  ℕ, suc, ◌+◌, ◌-◌, Bool, List, [], ◌∷◌, ◌++◌, Option, ◌==◌, if◌then◌else◌, length, take, drop,
  get_elem?,
}

-- A `Cycle` over the queue's list, with its `_end`, and an iterator of it at `position`.
pub record Cursor {ℓ} (A : Type ℓ) : Type ℓ where
  pub messages : List A
  pub end : ℕ
  pub position : ℕ

module _ {ℓ} {A : Type ℓ} where
  -- `cycle()` and `begin()`
  pub begin : List A → Cursor A
  begin queue = record { messages = queue; end = length queue; position = 0 }

  -- `== cycle.end()`
  pub at_end : Cursor A → Bool
  at_end c = c.position == c.end

  -- `operator*`
  pub current : Cursor A → Option A
  current c = get_elem? c.messages c.position

  -- `list.splice(list.end(), list, old)`
  pub move_to_back : List A → ℕ → List A
  move_to_back l old = take old l ++ (drop (suc old) l ++ take 1 (drop old l))

  -- `operator++`. The element that leaves its place stood before `_end`, which moves down by one.
  pub advance : Cursor A → Cursor A
  advance c =
      let size = length c.messages in
      if c.position + 1 == size then record c { position = c.position + 1 } else record c {
        messages = move_to_back c.messages c.position;
        end = if c.end == size then size - 1 else c.end - 1;
      }

  -- `erase`
  pub erase : Cursor A → Cursor A
  erase c = record c {
    messages = take c.position c.messages ++ drop (suc c.position) c.messages;
    end = c.end - 1;
  }

  -- A write through `operator*`.
  pub assign : Cursor A → A → Cursor A
  assign c a = record c {
    messages = take c.position c.messages ++ (a ∷ drop (suc c.position) c.messages);
  }

  -- `insert`, `empty`
  abbrev pub insert : List A → A → List A
  insert queue m = queue ++ (m ∷ [])

  abbrev pub empty : List A → Bool
  empty queue = length queue == 0
