-- ===== src/Queue.antt =====
-- src/base/lock_free_queue.h: a linked list that one producer and one consumer share.
-- A pointer is a number; `new` gives the next one. A step is one statement of Produce or Consume that
-- reads or writes what the two share, and the steps of both interleave in any order: each pointer is
-- read and written whole, as the comment of the source supposes. Following a null pointer or one to a
-- deleted node is a fault, and gives no state. A round of the loop that deletes nodes, from its test to
-- the delete, is one step: of what it tests only the divider is the other thread's, and that only moves
-- away from the first node.
pub mod Fifo
pub mod Cells
pub mod Invariant
pub mod Producing
pub mod Consuming
pub mod Refinement
mod Examples
use xrtc_server.Base.{
  ℕ, suc, ◌+◌, Bool, true, false, List, [], ◌∷◌, ◌++◌, Option, none, some, ◌==◌, length, get_elem?,
  set, ltb, if◌then◌else◌, ◌%◌, ◌-◌,
}
use xrtc_server.Base.Int.{ℤ, pos, negsuc}

module _ {ℓ} (A : Type ℓ) where
  pub data Cell : Type ℓ where
    node : (value : A) (next : Option ℕ) → Cell
    deleted : Cell

  -- Where the producer stands: outside, before `last = last->next`, before `++size_`, before a test
  -- of the loop.
  pub data Producer : Type ℓ where
    idle linked moved cleaning : Producer

  -- Where the consumer stands: outside, before the read of the value, before `divider = divider->next`
  -- and before `--size_`.
  pub data Consumer : Type ℓ where
    waiting found : Consumer
    holding counting : (value : A) → Consumer

  -- `size_word` holds the 32 bits of the std::atomic<int> `size_`, whose ++ and -- wrap around.
  pub record LockFreeQueue : Type ℓ where
    pub heap : List Cell
    pub first : ℕ
    pub divider : ℕ
    pub last : ℕ
    pub size_word : ℕ
    pub producer : Producer
    pub consumer : Consumer

  -- What a step does to the queue, as its users see it.
  pub data Event : Type ℓ where
    produced consumed : (value : A) → Event
    found_empty : Event

  -- A call, or the next step of the call that a thread is in.
  pub data Action : Type ℓ where
    call_produce : (value : A) → Action
    run_producer call_consume run_consumer : Action

  -- The queue after a step and what the step does, or nothing after a fault.
  abbrev pub Outcome : Type ℓ
  Outcome = Option (LockFreeQueue × List Event)

module _ {ℓ} {A : Type ℓ} where
  -- The queue with one node, of the value that A() gives.
  unfoldable pub create : A → LockFreeQueue A
  create default = record {
    heap = node default none ∷ [];
    first = 0;
    divider = 0;
    last = 0;
    size_word = 0;
    producer = idle;
    consumer = waiting;
  }

  -- `p->next = q`, on the cell that p points to.
  abbrev pub link : ℕ → Option (Cell A) → Option (Cell A)
  link q none = none
  link q (some deleted) = none
  link q (some (node value next)) = some (node value (some q))

  abbrev pub next_of : Option (Cell A) → Option ℕ
  next_of none = none
  next_of (some deleted) = none
  next_of (some (node value next)) = next

  abbrev pub value_of : Option (Cell A) → Option A
  value_of none = none
  value_of (some deleted) = none
  value_of (some (node value next)) = some value

  -- `last->next = new Node(t)`.
  unfoldable pub link_new : LockFreeQueue A → A → Outcome A
  link_new s t = elim (link (length s.heap) (get_elem? s.heap s.last)) [
    | none ↦ none
    | some cell ↦
        some
          (record s { heap = set s.heap s.last cell ++ (node t none ∷ []); producer = linked }, [])
  ]

  -- `last = last->next`: the value of the new last node is in the queue.
  unfoldable pub move_last : LockFreeQueue A → Outcome A
  move_last s = elim (next_of (get_elem? s.heap s.last)) [
    | none ↦ none
    | some p ↦ elim (value_of (get_elem? s.heap p)) [
      | none ↦ none
      | some t ↦ some (record s { last = p; producer = moved }, produced t ∷ [])
    ]
  ]

  unfoldable pub count_up : LockFreeQueue A → LockFreeQueue A
  count_up s = record s { size_word = (s.size_word + 1) % 4294967296; producer = cleaning }

  -- A round of the loop that deletes the nodes before the divider.
  unfoldable pub delete_first : LockFreeQueue A → Outcome A
  delete_first s = elim (next_of (get_elem? s.heap s.first)) [
    | none ↦ none
    | some p ↦ some (record s { first = p; heap = set s.heap s.first deleted }, [])
  ]

  unfoldable pub clean : LockFreeQueue A → Outcome A
  clean s = if s.divider == s.first then some (record s { producer = idle }, []) else delete_first s

  unfoldable pub produce_step : LockFreeQueue A → Producer A → Outcome A
  produce_step s idle = some (s, [])
  produce_step s linked = move_last s
  produce_step s moved = some (count_up s, [])
  produce_step s cleaning = clean s

  -- `if (divider != last)`.
  unfoldable pub test_empty : LockFreeQueue A → Outcome A
  test_empty s =
      if s.divider == s.last
      then some (s, found_empty ∷ [])
      else some (record s { consumer = found }, [])

  -- `*result = divider->next->value`.
  unfoldable pub read_value : LockFreeQueue A → Outcome A
  read_value s = elim (next_of (get_elem? s.heap s.divider)) [
    | none ↦ none
    | some p ↦ elim (value_of (get_elem? s.heap p)) [
      | none ↦ none
      | some v ↦ some (record s { consumer = holding v }, [])
    ]
  ]

  -- `divider = divider->next`: the value that Consume returns has left the queue.
  unfoldable pub move_divider : LockFreeQueue A → A → Outcome A
  move_divider s v = elim (next_of (get_elem? s.heap s.divider)) [
    | none ↦ none
    | some p ↦ some (record s { divider = p; consumer = counting v }, consumed v ∷ [])
  ]

  unfoldable pub count_down : LockFreeQueue A → LockFreeQueue A
  count_down s = record s {
    size_word = (s.size_word + 4294967295) % 4294967296;
    consumer = waiting;
  }

  unfoldable pub consume_step : LockFreeQueue A → Consumer A → Outcome A
  consume_step s waiting = some (s, [])
  consume_step s found = read_value s
  consume_step s (holding v) = move_divider s v
  consume_step s (counting v) = some (count_down s, [])

  -- The `int` of the 32 bits.
  unfoldable pub size : LockFreeQueue A → ℤ
  size s = if ltb s.size_word 2147483648 then pos s.size_word else negsuc (4294967295 - s.size_word)

  unfoldable pub empty : LockFreeQueue A → Bool
  empty s = s.size_word == 0

  -- A thread that is in a call does not begin another.
  unfoldable pub begin_produce : LockFreeQueue A → Producer A → A → Outcome A
  begin_produce s idle t = link_new s t
  begin_produce s linked t = some (s, [])
  begin_produce s moved t = some (s, [])
  begin_produce s cleaning t = some (s, [])

  unfoldable pub begin_consume : LockFreeQueue A → Consumer A → Outcome A
  begin_consume s waiting = test_empty s
  begin_consume s found = some (s, [])
  begin_consume s (holding v) = some (s, [])
  begin_consume s (counting v) = some (s, [])

  unfoldable pub step : LockFreeQueue A → Action A → Outcome A
  step s (call_produce t) = begin_produce s s.producer t
  step s run_producer = produce_step s s.producer
  step s call_consume = begin_consume s s.consumer
  step s run_consumer = consume_step s s.consumer

  unfoldable pub run : LockFreeQueue A → List (Action A) → Outcome A
  run s [] = some (s, [])
  run s (a ∷ others) = elim (step s a) [
    | none ↦ none
    | some (t, events) ↦ elim (run t others) [
      | none ↦ none
      | some (u, more) ↦ some (u, events ++ more)
    ]
  ]
