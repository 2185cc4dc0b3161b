-- ===== src/Queue/Consuming.antt =====
-- The steps of the consumer of src/base/lock_free_queue.h.
use xrtc_server.Base.{
  ℕ, suc, ◌≤◌, ◌≡◌, refl, inl, inr, List, [], ◌∷◌, some, length, get_elem?, ap, arith, ◌∙◌, subst,
  ◌==◌, Bool-cases,
}
use xrtc_server.Queue.{
  Consumer, waiting, found, holding, counting, LockFreeQueue, consumed, found_empty, value_of,
  next_of, test_empty, read_value, move_divider, count_down, consume_step, begin_consume,
}
use xrtc_server.Queue.Fifo.{Fifo}
use xrtc_server.Queue.Producing.{Simulates}
use xrtc_server.Queue.Invariant.{one_if_counting, IsValid, Knows}

module _ {ℓ} {A : Type ℓ} where
  -- Nothing but the consumer's own place changes.
  stands :
      (s : LockFreeQueue A) (q : List A) (c : Consumer A)
      → IsValid s q
      → one_if_counting s.consumer ≡ one_if_counting c
      → Knows c q
      → IsValid (record s { consumer = c }) q
  stands s q c h same k = record {
    low = h.low;
    span = h.span;
    all_cells = h.all_cells;
    linked_cells = h.linked_cells;
    last_cell = h.last_cell;
    new_cell = h.new_cell;
    values = h.values;
    knows = k;
    counted = let counted = h.counted in omega arith;
    word = h.word;
  }

  not_empty : (q : List A) → 1 ≤ length q → Knows found q
  not_empty [] h = absurd (omega arith)
  not_empty (x ∷ xs) h = (x, xs, refl)

  empty_of_length : (q : List A) → length q ≡ 0 → q ≡ []
  empty_of_length [] h = refl
  empty_of_length (x ∷ xs) h = absurd (omega arith)

  test_empty-Simulates :
      (s : LockFreeQueue A) (q : List A)
      → s.consumer ≡ waiting
      → IsValid s q
      → Simulates q (test_empty s)
  unfolding test_empty Fifo
  test_empty-Simulates s q e h =
      let span = h.span in
      elim (Bool-cases (s.divider == s.last)) [
        | inl same ↦
            (s, found_empty ∷ [], q, rw same refl, h, (empty_of_length q (ground arith), refl))
        | inr other ↦ (
          record s { consumer = found },
          [],
          q,
          rw other refl,
          stands s q found h (ap one_if_counting e) (not_empty q (ground arith)),
          refl,
        )
      ]

  -- The node behind the divider, when the queue holds a value.
  next_node :
      (s : LockFreeQueue A) (q : List A) (v : A) (rest : List A)
      → IsValid s q
      → q ≡ v ∷ rest
      → (next_of (get_elem? s.heap s.divider) ≡ some (suc s.divider))
        × (value_of (get_elem? s.heap (suc s.divider)) ≡ some v)
  next_node s q v rest h e =
      let span = h.span in
      let longer = ap length e in
      let (w, at_divider) = h.linked_cells s.divider h.low (omega arith) in
      (
        ap next_of at_divider,
        ap value_of (ap (get_elem? s.heap) (omega arith))
            ∙ h.values 0 v (ap (λ (l : List A). get_elem? l 0) e),
      )

  read_value-Simulates :
      (s : LockFreeQueue A) (q : List A)
      → s.consumer ≡ found
      → IsValid s q
      → Simulates q (read_value s)
  unfolding read_value Fifo
  read_value-Simulates s q e h =
      let (v, rest, shape) = subst (λ (c : Consumer A). Knows c q) e h.knows in
      let (next, value) = next_node s q v rest h shape in
      (
        record s { consumer = holding v },
        [],
        q,
        rw (next, read_value) (rw (value, read_value) refl),
        stands s q (holding v) h (ap one_if_counting e) (rest, shape),
        refl,
      )

  move_divider-Simulates :
      (s : LockFreeQueue A) (q : List A) (v : A)
      → s.consumer ≡ holding v
      → IsValid s q
      → Simulates q (move_divider s v)
  unfolding move_divider Fifo
  move_divider-Simulates s q v e h =
      let (rest, shape) = subst (λ (c : Consumer A). Knows c q) e h.knows in
      let (next, value) = next_node s q v rest h shape in
      let span = h.span in
      let longer = ap length shape in
      let low = h.low in
      let counted = h.counted in
      let counting_none = ap one_if_counting e in
      (
        record s { divider = suc s.divider; consumer = counting v },
        consumed v ∷ [],
        rest,
        rw (next, move_divider) refl,
        record {
          low = omega arith;
          span = omega arith;
          all_cells = h.all_cells;
          linked_cells = h.linked_cells;
          last_cell = h.last_cell;
          new_cell = h.new_cell;
          values = λ (i : ℕ) (w : A) held.
              ap value_of (ap (get_elem? s.heap) (omega arith))
              ∙ h.values (suc i) w (ap (λ (l : List A). get_elem? l (suc i)) shape ∙ held);
          knows = tt;
          counted = omega arith;
          word = h.word;
        },
        (rest, shape, refl),
      )

  count_down-IsValid :
      (s : LockFreeQueue A) (q : List A) (v : A)
      → s.consumer ≡ counting v
      → IsValid s q
      → IsValid (count_down s) q
  unfolding count_down
  count_down-IsValid s q v e h = record {
    low = h.low;
    span = h.span;
    all_cells = h.all_cells;
    linked_cells = h.linked_cells;
    last_cell = h.last_cell;
    new_cell = h.new_cell;
    values = h.values;
    knows = tt;
    counted = let counted = h.counted in let one = ap one_if_counting e in omega arith;
    word = omega arith;
  }

  pub consume_step-Simulates :
      (s : LockFreeQueue A) (q : List A) (c : Consumer A)
      → s.consumer ≡ c
      → IsValid s q
      → Simulates q (consume_step s c)
  unfolding consume_step Fifo
  consume_step-Simulates s q waiting e h = (s, [], q, refl, h, refl)
  consume_step-Simulates s q found e h = read_value-Simulates s q e h
  consume_step-Simulates s q (holding v) e h = move_divider-Simulates s q v e h
  consume_step-Simulates s q (counting v) e h =
      (count_down s, [], q, refl, count_down-IsValid s q v e h, refl)

  pub begin_consume-Simulates :
      (s : LockFreeQueue A) (q : List A) (c : Consumer A)
      → s.consumer ≡ c
      → IsValid s q
      → Simulates q (begin_consume s c)
  unfolding begin_consume Fifo
  begin_consume-Simulates s q waiting e h = test_empty-Simulates s q e h
  begin_consume-Simulates s q found e h = (s, [], q, refl, h, refl)
  begin_consume-Simulates s q (holding v) e h = (s, [], q, refl, h, refl)
  begin_consume-Simulates s q (counting v) e h = (s, [], q, refl, h, refl)
