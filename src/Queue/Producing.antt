-- ===== src/Queue/Producing.antt =====
-- The steps of the producer of src/base/lock_free_queue.h.
use xrtc_server.Base.{
  ℕ, suc, ◌+◌, ◌≤◌, ◌<◌, ◌≡◌, refl, ◌≢◌, inl, inr, List, [], ◌∷◌, ◌++◌, Option, none, some, length,
  get_elem?, set, ap, arith, sym, ◌∙◌, subst, length-append, length-set, ◌==◌, ==_iff, Bool-cases,
}
use xrtc_server.Queue.{
  Cell, node, deleted, Producer, idle, linked, moved, cleaning, Consumer, waiting, found, holding,
  counting, LockFreeQueue, Outcome, Event, produced, value_of, link_new, move_last, count_up,
  delete_first, clean, produce_step, begin_produce,
}
use xrtc_server.Queue.Cells.{get_set-same, get_set-other, get_append-left, get_append-end, get-lt}
use xrtc_server.Queue.Fifo.{Fifo}
use xrtc_server.Queue.Invariant.{IsValidAt, IsValid, NewCell, Knows}

module _ {ℓ} {A : Type ℓ} where
  -- There is no fault, and the events lead from the values q to those that the queue then holds.
  abbrev pub Simulates : List A → Outcome A → Type ℓ
  Simulates q o =
      (t : LockFreeQueue A) × (es : List (Event A)) × (r : List A) × (o ≡ some (t, es))
      × IsValid t r
      × Fifo q es r

  grown : (c : Consumer A) (q : List A) (t : A) → Knows c q → Knows c (q ++ (t ∷ []))
  grown waiting q t k = tt
  grown found q t (v, rest, e) = (v, rest ++ (t ∷ []), ap (λ (l : List A). l ++ (t ∷ [])) e)
  grown (holding v) q t (rest, e) = (rest ++ (t ∷ []), ap (λ (l : List A). l ++ (t ∷ [])) e)
  grown (counting v) q t k = tt

  -- The values behind the divider, when the cell behind them all holds the value that comes in.
  values_grown :
      (heap : List (Cell A)) (q : List A) (t : A) (divider : ℕ)
      → ((i : ℕ) (v : A)
          → get_elem? q i ≡ some v
          → value_of (get_elem? heap (suc divider + i)) ≡ some v)
      → value_of (get_elem? heap (suc divider + length q)) ≡ some t
      → (i : ℕ) (v : A) → get_elem? (q ++ (t ∷ [])) i ≡ some v
      → value_of (get_elem? heap (suc divider + i)) ≡ some v
  values_grown heap q t divider old new i v e =
      let here = get-lt (q ++ (t ∷ [])) i v e in
      let longer = length-append q (t ∷ []) in
      elim (Bool-cases (i == length q)) [
        | inl at_end ↦
            let same = (==_iff i (length q)).0 at_end in
            let value : ◌≡◌ {A = Option A} (some t) (some v) =
              sym (get_append-end q t i same) ∙ e in
            subst (λ (j : ℕ). value_of (get_elem? heap (suc divider + j)) ≡ some v) (sym same)
              (new ∙ value)
        | inr before ↦ old i v (sym (get_append-left q (t ∷ []) i (ground arith)) ∙ e)
      ]

  -- The heap after `last->next = new Node(t)`, where the last node holds v.
  abbrev linked_cell : LockFreeQueue A → A → Cell A
  linked_cell s v = node v (some (length s.heap))

  abbrev linked_heap : LockFreeQueue A → A → A → List (Cell A)
  linked_heap s v t = set s.heap s.last (linked_cell s v) ++ (node t none ∷ [])

  linked-inside :
      (s : LockFreeQueue A) (v t : A) (i : ℕ)
      → i < length s.heap
      → get_elem? (linked_heap s v t) i ≡ get_elem? (set s.heap s.last (linked_cell s v)) i
  linked-inside s v t i inside =
      get_append-left (set s.heap s.last (linked_cell s v)) (node t none ∷ []) i
        (omega (arith, length-set s.heap s.last (linked_cell s v)))

  linked-before :
      (s : LockFreeQueue A) (v t : A) (i : ℕ)
      → i < s.last
      → s.last < length s.heap
      → get_elem? (linked_heap s v t) i ≡ get_elem? s.heap i
  linked-before s v t i before inside =
      linked-inside s v t i (omega arith)
      ∙ get_set-other s.heap s.last i (linked_cell s v) (λ same. omega arith)

  linked-last :
      (s : LockFreeQueue A) (v t : A)
      → s.last < length s.heap
      → get_elem? (linked_heap s v t) s.last ≡ some (linked_cell s v)
  linked-last s v t inside =
      linked-inside s v t s.last inside ∙ get_set-same s.heap s.last (linked_cell s v) inside

  -- No value changes.
  linked-value :
      (s : LockFreeQueue A) (v t : A) (i : ℕ)
      → get_elem? s.heap s.last ≡ some (node v none)
      → i ≤ s.last
      → s.last < length s.heap
      → value_of (get_elem? (linked_heap s v t) i) ≡ value_of (get_elem? s.heap i)
  linked-value s v t i at_last upto inside = elim (Bool-cases (i == s.last)) [
    | inl e ↦
        subst
          (λ (j : ℕ). value_of (get_elem? (linked_heap s v t) j) ≡ value_of (get_elem? s.heap j))
          (sym ((==_iff i s.last).0 e))
          (ap value_of (linked-last s v t inside) ∙ sym (ap value_of at_last))
    | inr e ↦ ap value_of (linked-before s v t i (ground arith) inside)
  ]

  link_new-Simulates :
      (s : LockFreeQueue A) (q : List A) (t : A)
      → IsValidAt s idle s.consumer q
      → Simulates q (link_new s t)
  unfolding link_new Fifo
  link_new-Simulates s q t h =
      let (v, at_last) = h.last_cell in
      let all_cells = h.all_cells in
      let span = h.span in
      let written = length-set s.heap s.last (linked_cell s v) in
      let added = length-append (set s.heap s.last (linked_cell s v)) (node t none ∷ []) in
      let grown_by_one : length s.heap ≡ suc s.last = omega arith in
      let next = ap (λ (n : ℕ). some (node v (some n))) grown_by_one in
      (
        record s { heap = linked_heap s v t; producer = linked },
        [],
        q,
        rw (at_last, link_new) refl,
        record {
          low = h.low;
          span = h.span;
          all_cells = omega arith;
          linked_cells = λ (i : ℕ) from inside.
              let (w, e) = h.linked_cells i from inside in
              (w, linked-before s v t i inside (omega arith) ∙ e);
          last_cell = (v, linked-last s v t (omega arith) ∙ next);
          new_cell = (
            t,
            get_append-end (set s.heap s.last (linked_cell s v)) (node t none) (suc s.last)
                (omega arith),
          );
          values = λ (i : ℕ) (w : A) e.
              let here = get-lt q i w e in
              linked-value s v t (suc s.divider + i) at_last (omega arith) (omega arith)
              ∙ h.values i w e;
          knows = h.knows;
          counted = h.counted;
          word = h.word;
        },
        refl,
      )

  move_last-Simulates :
      (s : LockFreeQueue A) (q : List A)
      → IsValidAt s linked s.consumer q
      → Simulates q (move_last s)
  unfolding move_last Fifo
  move_last-Simulates s q h =
      let (v, at_last) = h.last_cell in
      let (t, at_new) = h.new_cell in
      let span = h.span in
      let low = h.low in
      let longer = length-append q (t ∷ []) in
      (
        record s { last = suc s.last; producer = moved },
        produced t ∷ [],
        q ++ (t ∷ []),
        rw (at_last, move_last) (rw (at_new, move_last) refl),
        record {
          low = h.low;
          span = omega arith;
          all_cells = let all_cells = h.all_cells in omega arith;
          linked_cells = λ (i : ℕ) from inside. elim (Bool-cases (i == s.last)) [
            | inl e ↦
                let same : s.last ≡ i = sym ((==_iff i s.last).0 e) in
                (
                  v,
                  subst (λ (j : ℕ). get_elem? s.heap j ≡ some (node v (some (suc j)))) same at_last,
                )
            | inr e ↦ h.linked_cells i from (ground arith)
          ];
          last_cell = (t, at_new);
          new_cell = tt;
          values = λ (i : ℕ) (w : A) e.
              values_grown s.heap q t s.divider h.values
                (ap value_of (ap (get_elem? s.heap) (omega arith) ∙ at_new)) i w e;
          knows = grown s.consumer q t h.knows;
          counted = let counted = h.counted in omega arith;
          word = h.word;
        },
        refl,
      )

  count_up-IsValid :
      (s : LockFreeQueue A) (q : List A) → IsValidAt s moved s.consumer q → IsValid (count_up s) q
  unfolding count_up
  count_up-IsValid s q h = record {
    low = h.low;
    span = h.span;
    all_cells = h.all_cells;
    linked_cells = h.linked_cells;
    last_cell = h.last_cell;
    new_cell = tt;
    values = h.values;
    knows = h.knows;
    counted = let counted = h.counted in omega arith;
    word = omega arith;
  }

  delete_first-Simulates :
      (s : LockFreeQueue A) (q : List A)
      → s.producer ≡ cleaning
      → IsValid s q
      → s.divider ≢ s.first
      → Simulates q (delete_first s)
  unfolding delete_first Fifo
  delete_first-Simulates s q e h more =
      let low = h.low in
      let span = h.span in
      let (v, at_first) = h.linked_cells s.first (omega arith) (ground arith) in
      let other : (i : ℕ)
          → s.first < i
          → get_elem? (set s.heap s.first deleted) i ≡ get_elem? s.heap i =
        λ (i : ℕ) behind. get_set-other s.heap s.first i deleted (λ same. omega arith) in
      (
        record s { first = suc s.first; heap = set s.heap s.first deleted },
        [],
        q,
        rw (at_first, delete_first) refl,
        record {
          low = ground arith;
          span = h.span;
          all_cells = length-set s.heap s.first deleted ∙ h.all_cells;
          linked_cells = λ (i : ℕ) from inside.
              let (w, e) = h.linked_cells i (omega arith) inside in (w, other i from ∙ e);
          last_cell = let (w, e) = h.last_cell in (w, other s.last (ground arith) ∙ e);
          new_cell =
              subst (NewCell s.producer) (sym (other (suc s.last) (ground arith))) h.new_cell;
          values = λ (i : ℕ) (w : A) e.
              ap value_of (other (suc s.divider + i) (omega arith)) ∙ h.values i w e;
          knows = h.knows;
          counted = h.counted;
          word = h.word;
        },
        refl,
      )

  cleaned :
      (s : LockFreeQueue A) (q : List A)
      → IsValidAt s cleaning s.consumer q
      → IsValid (record s { producer = idle }) q
  cleaned s q h = record {
    low = h.low;
    span = h.span;
    all_cells = h.all_cells;
    linked_cells = h.linked_cells;
    last_cell = h.last_cell;
    new_cell = tt;
    values = h.values;
    knows = h.knows;
    counted = h.counted;
    word = h.word;
  }

  clean-Simulates :
      (s : LockFreeQueue A) (q : List A)
      → s.producer ≡ cleaning
      → IsValid s q
      → Simulates q (clean s)
  unfolding clean Fifo
  clean-Simulates s q e h = elim (Bool-cases (s.divider == s.first)) [
    | inl same ↦
        let at_cleaning = subst (λ (p : Producer A). IsValidAt s p s.consumer q) e h in
        (record s { producer = idle }, [], q, rw same refl, cleaned s q at_cleaning, refl)
    | inr more ↦ rw more (delete_first-Simulates s q e h (λ same. ground arith))
  ]

  pub produce_step-Simulates :
      (s : LockFreeQueue A) (q : List A) (p : Producer A)
      → s.producer ≡ p
      → IsValid s q
      → Simulates q (produce_step s p)
  unfolding produce_step Fifo
  produce_step-Simulates s q idle e h = (s, [], q, refl, h, refl)
  produce_step-Simulates s q linked e h =
      move_last-Simulates s q (subst (λ (p : Producer A). IsValidAt s p s.consumer q) e h)
  produce_step-Simulates s q moved e h = (
    count_up s,
    [],
    q,
    refl,
    count_up-IsValid s q (subst (λ (p : Producer A). IsValidAt s p s.consumer q) e h),
    refl,
  )
  produce_step-Simulates s q cleaning e h = clean-Simulates s q e h

  pub begin_produce-Simulates :
      (s : LockFreeQueue A) (q : List A) (p : Producer A) (t : A)
      → s.producer ≡ p
      → IsValid s q
      → Simulates q (begin_produce s p t)
  unfolding begin_produce Fifo
  begin_produce-Simulates s q idle t e h =
      link_new-Simulates s q t (subst (λ (p : Producer A). IsValidAt s p s.consumer q) e h)
  begin_produce-Simulates s q linked t e h = (s, [], q, refl, h, refl)
  begin_produce-Simulates s q moved t e h = (s, [], q, refl, h, refl)
  begin_produce-Simulates s q cleaning t e h = (s, [], q, refl, h, refl)
