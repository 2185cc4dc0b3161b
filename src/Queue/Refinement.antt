-- ===== src/Queue/Refinement.antt =====
-- The steps of src/base/lock_free_queue.h, in any interleaving, are those of a first-in-first-out queue.
use xrtc_server.Base.{
  arith, true, ◌↔◌, ◌≤◌, ◌<◌, ◌+◌, ◌≡◌, refl, List, [], ◌∷◌, ◌++◌, some, length, subst,
}
use xrtc_server.Base.Int.{pos, ◌+ℤ◌}
use xrtc_server.Queue.{
  LockFreeQueue, Event, Action, call_produce, run_producer, call_consume, run_consumer, create,
  step, run, size, empty, Producer, idle, linked, moved, cleaning, Consumer, waiting, found,
  holding, counting,
}
use xrtc_server.Queue.Fifo.{Fifo, Fifo-append, Fifo-unique}
use xrtc_server.Queue.Producing.{Simulates, produce_step-Simulates, begin_produce-Simulates}
use xrtc_server.Queue.Consuming.{consume_step-Simulates, begin_consume-Simulates}
use xrtc_server.Queue.Invariant.{one_if_counting, one_if_moved, IsValid, create-IsValid}

module _ {ℓ} {A : Type ℓ} where
  step-Simulates :
      (s : LockFreeQueue A) (q : List A) (a : Action A) → IsValid s q → Simulates q (step s a)
  unfolding step
  step-Simulates s q (call_produce t) h = begin_produce-Simulates s q s.producer t refl h
  step-Simulates s q run_producer h = produce_step-Simulates s q s.producer refl h
  step-Simulates s q call_consume h = begin_consume-Simulates s q s.consumer refl h
  step-Simulates s q run_consumer h = consume_step-Simulates s q s.consumer refl h

  run-Simulates :
      (s : LockFreeQueue A) (q : List A) (actions : List (Action A))
      → IsValid s q
      → Simulates q (run s actions)
  unfolding run Fifo
  run-Simulates s q [] h = (s, [], q, refl, h, refl)
  run-Simulates s q (a ∷ others) h =
      let (t, es, r, e, valid, fifo) = step-Simulates s q a h in
      let (u, more, final, f, valid_after, fifo_after) = run-Simulates t r others valid in
      (
        u,
        es ++ more,
        final,
        rw (e, run) (rw (f, run) refl),
        valid_after,
        Fifo-append q r final es more fifo fifo_after,
      )

  -- In every interleaving of the calls and steps of one producer and one consumer no pointer to a
  -- deleted node or null is followed, and what the calls do is what a first-in-first-out queue does
  -- from empty: values are consumed in the order in which they were produced, none is lost or doubled,
  -- and a call finds the queue empty only when it is. The nodes after the divider hold the values left.
  pub run-Fifo :
      (default : A) (actions : List (Action A))
      → (s : LockFreeQueue A) × (events : List (Event A)) × (held : List A) × (run
            (create default)
            actions
          ≡ some (s, events))
        × IsValid s held
        × Fifo [] events held
  run-Fifo default actions = run-Simulates (create default) [] actions (create-IsValid default)

  moved-le : (p : Producer A) → one_if_moved p ≤ 1
  moved-le idle = omega arith
  moved-le linked = omega arith
  moved-le moved = omega arith
  moved-le cleaning = omega arith

  counting-le : (c : Consumer A) → one_if_counting c ≤ 1
  counting-le waiting = omega arith
  counting-le found = omega arith
  counting-le (holding v) = omega arith
  counting-le (counting v) = omega arith

  -- The bits of the counter as an int, for a number of values that an int holds.
  signed_size :
      (s : LockFreeQueue A) (q : List A)
      → length q < 2147483647
      → IsValid s q
      → (size s +ℤ pos (one_if_moved s.producer) ≡ pos (length q + one_if_counting s.consumer))
        × ((empty s ≡ true) ↔ (length q + one_if_counting s.consumer ≡ one_if_moved s.producer))
  unfolding size empty ◌+ℤ◌
  signed_size s q short h =
      let counted = h.counted in
      let word = h.word in
      let one = moved-le s.producer in let other = counting-le s.consumer in ground arith

  -- In every interleaving, while fewer than 2147483647 values are in the queue: the int that size() reads
  -- plus one, if the producer has put a value in and not yet counted it, is the number of the values plus
  -- one, if the consumer has taken one out and not yet counted that. empty() says yes exactly when the
  -- values in the queue and the one taken out uncounted are as many as those put in uncounted.
  pub size_lem :
      (default : A) (actions : List (Action A)) (s : LockFreeQueue A) (events : List (Event A))
      (held : List A)
      → run (create default) actions ≡ some (s, events)
      → Fifo [] events held
      → length held < 2147483647
      → (size s +ℤ pos (one_if_moved s.producer) ≡ pos (length held + one_if_counting s.consumer))
        × ((empty s ≡ true) ↔ (length held + one_if_counting s.consumer ≡ one_if_moved s.producer))
  size_lem default actions s events held e fifo short =
      let (t, es, left, f, valid, fifo_left) = run-Fifo default actions in
      let same_events : es ≡ events = cc in
      let same_queue : t ≡ s = cc in
      let same_held =
        Fifo-unique [] left held events
          (subst (λ (l : List (Event A)). Fifo [] l left) same_events fifo_left) fifo in
      signed_size s held short
        (subst (IsValid s) same_held (subst (λ u. IsValid u left) same_queue valid))
