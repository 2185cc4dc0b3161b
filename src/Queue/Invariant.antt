-- ===== src/Queue/Invariant.antt =====
-- What holds of the linked list of src/base/lock_free_queue.h between any two steps.
use xrtc_server.Base.{
  ℕ, suc, ◌+◌, ◌%◌, ◌≤◌, ◌<◌, ◌≡◌, refl, List, [], ◌∷◌, Option, none, some, length, get_elem?,
  arith,
}
use xrtc_server.Queue.{
  Cell, node, Producer, idle, linked, moved, cleaning, Consumer, waiting, found, holding, counting,
  LockFreeQueue, create, value_of,
}

module _ {ℓ} {A : Type ℓ} where
  abbrev pub one_if_linked : Producer A → ℕ
  one_if_linked idle = 0
  one_if_linked linked = 1
  one_if_linked moved = 0
  one_if_linked cleaning = 0

  abbrev pub one_if_moved : Producer A → ℕ
  one_if_moved idle = 0
  one_if_moved linked = 0
  one_if_moved moved = 1
  one_if_moved cleaning = 0

  abbrev pub one_if_counting : Consumer A → ℕ
  one_if_counting waiting = 0
  one_if_counting found = 0
  one_if_counting (holding v) = 0
  one_if_counting (counting v) = 1

  -- The next pointer of the last node: a new node behind it, or null.
  abbrev pub end_of : Producer A → ℕ → Option ℕ
  end_of idle p = none
  end_of linked p = some p
  end_of moved p = none
  end_of cleaning p = none

  -- The cell behind the last node, while a new node is there.
  abbrev pub NewCell : Producer A → Option (Cell A) → Type ℓ
  NewCell idle c = Unit {ℓ}
  NewCell linked c = (t : A) × (c ≡ some (node t none))
  NewCell moved c = Unit {ℓ}
  NewCell cleaning c = Unit {ℓ}

  -- What the consumer knows of the values in the queue.
  abbrev pub Knows : Consumer A → List A → Type ℓ
  Knows waiting q = Unit {ℓ}
  Knows found q = (v : A) × (rest : List A) × (q ≡ v ∷ rest)
  Knows (holding v) q = (rest : List A) × (q ≡ v ∷ rest)
  Knows (counting v) q = Unit {ℓ}

  -- The list holds the values q: the cells from the first to the last node are linked, and those
  -- behind the divider hold q, when the producer stands at p and the consumer at c. The counter differs
  -- from their number by the steps that are under way, modulo the 32 bits that it has.
  pub record IsValidAt (s : LockFreeQueue A) (p : Producer A) (c : Consumer A) (q : List A)
      : Type ℓ where
    pub low : s.first ≤ s.divider
    pub span : s.divider + length q ≡ s.last
    pub all_cells : length s.heap ≡ suc s.last + one_if_linked p
    pub linked_cells :
        (i : ℕ)
        → s.first ≤ i
        → i < s.last
        → (v : A) × (get_elem? s.heap i ≡ some (node v (some (suc i))))
    pub last_cell : (v : A) × (get_elem? s.heap s.last ≡ some (node v (end_of p (suc s.last))))
    pub new_cell : NewCell p (get_elem? s.heap (suc s.last))
    pub values :
        (i : ℕ) (v : A)
        → get_elem? q i ≡ some v
        → value_of (get_elem? s.heap (suc s.divider + i)) ≡ some v
    pub knows : Knows c q
    pub counted :
        (s.size_word + one_if_moved p) % 4294967296 ≡ (length q + one_if_counting c) % 4294967296
    pub word : s.size_word < 4294967296

  abbrev pub IsValid : LockFreeQueue A → List A → Type ℓ
  IsValid s q = IsValidAt s s.producer s.consumer q

  pub create-IsValid : (default : A) → IsValid (create default) []
  unfolding create
  create-IsValid default = record {
    low = omega arith;
    span = omega arith;
    all_cells = omega arith;
    linked_cells = λ (i : ℕ) l h. absurd (omega arith);
    last_cell = (default, refl);
    new_cell = tt;
    values = λ (i : ℕ) (v : A) e. absurd cc;
    knows = tt;
    counted = omega arith;
    word = omega arith;
  }
