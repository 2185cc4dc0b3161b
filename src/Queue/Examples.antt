-- ===== src/Queue/Examples.antt =====
-- The queue of src/base/lock_free_queue.h at work.
use xrtc_server.Base.{true, ◌↔◌, arith, ℕ, ◌+◌, ◌≡◌, refl, List, [], ◌∷◌, some, none}
use xrtc_server.Base.Int.{pos, negsuc, ◌+ℤ◌}
use xrtc_server.Queue.{
  LockFreeQueue, Event, produced, consumed, found_empty, Action, call_produce, run_producer,
  call_consume, run_consumer, create, run, step, begin_produce, begin_consume, produce_step,
  consume_step, link_new, move_last, test_empty, read_value, move_divider, count_down, node, moved,
  waiting, size, empty,
}
use xrtc_server.Queue.Fifo.{Fifo}
use xrtc_server.Queue.Invariant.{IsValid, one_if_moved, one_if_counting}
use xrtc_server.Queue.Refinement.{run-Fifo, size_lem}

-- The consumer takes the value before the producer has counted it.
abbrev overtaking : List (Action ℕ)
overtaking =
    call_produce 5
    ∷ call_consume
    ∷ run_producer
    ∷ call_consume
    ∷ run_consumer
    ∷ run_consumer
    ∷ run_consumer
    ∷ []

run-Fifo_example :
    (s : LockFreeQueue ℕ) × (events : List (Event ℕ)) × (held : List ℕ) × (run (create 0) overtaking
      ≡ some (s, events))
    × IsValid s held
    × Fifo [] events held
run-Fifo_example = run-Fifo 0 overtaking

-- The counter is then -1, whose 32 bits are all ones.
abbrev overtaken : LockFreeQueue ℕ
overtaken = record {
  heap = node 0 (some 1) ∷ node 5 none ∷ [];
  first = 0;
  divider = 1;
  last = 1;
  size_word = 4294967295;
  producer = moved;
  consumer = waiting;
}

abbrev overtaking_events : List (Event ℕ)
overtaking_events = found_empty ∷ produced 5 ∷ consumed 5 ∷ []

overtaking-run : run (create 0) overtaking ≡ some (overtaken, overtaking_events)
unfolding run step create begin_produce begin_consume produce_step consume_step link_new move_last
    test_empty read_value move_divider count_down
overtaking-run = refl

overtaking-Fifo : Fifo [] overtaking_events []
unfolding Fifo
overtaking-Fifo = (refl, ([], refl, refl))

size_lem_example :
    (size overtaken +ℤ pos (one_if_moved overtaken.producer)
      ≡ pos (0 + one_if_counting overtaken.consumer))
    × ((empty overtaken ≡ true)
        ↔ (0 + one_if_counting overtaken.consumer ≡ one_if_moved overtaken.producer))
size_lem_example =
    size_lem 0 overtaking overtaken overtaking_events [] overtaking-run overtaking-Fifo
      (omega arith)

size-overtaken : size overtaken ≡ negsuc 0
unfolding size
size-overtaken = refl
