-- ===== src/Ice/Controller/Partition.antt =====
-- The two sets of src/ice/ice_controller.cpp divide its connections.
use xrtc_server.Base.{
  ℕ, ◌+◌, ◌≤◌, ◌≡◌, refl, ◌&&◌, List, [], ◌∷◌, ◌==◌, Option, none, some, count, count-append,
  if◌then◌else◌, if_keep, arith, inl, inr, ◌⊎◌, Bool-cases, ==_iff, ap,
}
use xrtc_server.Base.Int.{ℤ, pos, ◌+ℤ◌, leb_ℤ}
use xrtc_server.Ice.Controller.{
  View, IceController, create, contains, any, add_connection, on_connection_destroyed,
  mark_connection_pinged, select_connection_to_ping, find_next_pingable_connection, find_in_turn,
  find_beside, find_oldest, new_turn, selected_is_due, sort_and_switch_connection,
  set_selected_connection, set_insert_all, is_pingable, more_pingable, ping_interval,
}
use xrtc_server.Ice.Controller.Sets.{
  one_if, count-set_insert, count-set_insert_all, count-erase, count-stable_sort, count-contains,
}

-- Each connection is listed once, and is in one of the two sets; the sets have no other members.
pub record IsPartition (s : IceController) : Type 0 where
  pub once : (p : ℕ) → count p s.connections ≤ 1
  pub split :
      (p : ℕ)
      → count p s.unpinged_connections + count p s.pinged_connections ≡ count p s.connections

same_or_other : (p q : ℕ) → (one_if (p == q) ≡ 0) ⊎ ((one_if (p == q) ≡ 1) × (p ≡ q))
same_or_other p q = elim (Bool-cases (p == q)) [
  | inl e ↦ inr (rw e refl, (==_iff p q).0 e)
  | inr e ↦ inl (rw e refl)
]

add-IsPartition :
    (s : IceController) (p : ℕ)
    → count p s.connections ≡ 0
    → IsPartition s
    → IsPartition (add_connection s p)
unfolding add_connection
add-IsPartition s p new h = record {
  once = λ (q : ℕ).
      let added = count-append q s.connections (p ∷ []) in
      let one = h.once q in
      elim (same_or_other p q) [
        | inl other ↦ omega arith
        | inr (same, pq) ↦ let a = ap (λ (t : ℕ). count t s.connections) pq in omega arith
      ];
  split = λ (q : ℕ).
      let added = count-append q s.connections (p ∷ []) in
      let inserted = count-set_insert p q s.unpinged_connections in
      let both = h.split q in
      elim (same_or_other p q) [
        | inl other ↦ omega arith
        | inr (same, pq) ↦ let a = ap (λ (t : ℕ). count t s.connections) pq in omega arith
      ];
}

destroyed-IsPartition :
    (s : IceController) (p : ℕ) → IsPartition s → IsPartition (on_connection_destroyed s p)
unfolding on_connection_destroyed
destroyed-IsPartition s p h = record {
  once = λ (q : ℕ). let one = h.once q in omega (arith, count-erase p q s.connections);
  split = λ (q : ℕ).
      let one = h.once q in
      let both = h.split q in
      omega (
        arith,
        count-erase p q s.connections,
        count-erase p q s.unpinged_connections,
        count-erase p q s.pinged_connections,
      );
}

new_turn-IsPartition :
    (view : View) (s : IceController) (now : ℕ) → IsPartition s → IsPartition (new_turn view s now)
unfolding new_turn
new_turn-IsPartition view s now h =
    if_keep IsPartition (any (λ (p : ℕ). is_pingable view s p now) s.unpinged_connections) s
      (record s {
        unpinged_connections = set_insert_all s.pinged_connections s.unpinged_connections;
        pinged_connections = [];
      })
      h
      record {
        once = h.once;
        split = λ (q : ℕ).
            let one = h.once q in
            let both = h.split q in
            omega (
              arith,
              count-set_insert_all s.pinged_connections q s.unpinged_connections (omega arith),
            );
      }

-- A search finds a pointer of the list, or what had been found.
pub find_oldest-listed :
    (view : View) (s : IceController) (now : ℕ) (ps : List ℕ) (found : Option ℕ) (p : ℕ)
    → find_oldest view s now ps found ≡ some p
    → (found ≡ some p) ⊎ (1 ≤ count p ps)
unfolding find_oldest
find_oldest-listed view s now [] found p e = inl e
find_oldest-listed view s now (x ∷ xs) found p e =
    let test = is_pingable view s x now && more_pingable view x found in
    elim (find_oldest-listed view s now xs (if test then some x else found) p e) [
      | inl f ↦ elim (Bool-cases test) [
        | inl t ↦ let same : x ≡ p = ground arith in inr (ground arith)
        | inr t ↦ inl (ground arith)
      ]
      | inr f ↦ inr (ground arith)
    ]

find_beside-IsPartition :
    (view : View) (s : IceController) (now : ℕ) (selected : Option ℕ)
    → IsPartition s
    → IsPartition (find_beside view s now selected).0
unfolding find_beside
find_beside-IsPartition view s now none h = new_turn-IsPartition view s now h
find_beside-IsPartition view s now (some p) h =
    if_keep (λ (r : IceController × Option ℕ). IsPartition r.0) (selected_is_due view s p now)
      (s, some p) (find_in_turn view s now) h (new_turn-IsPartition view s now h)

select-IsPartition :
    (view : View) (s : IceController) (last : ℤ) (now : ℕ)
    → IsPartition s
    → IsPartition (select_connection_to_ping view s last now).0
unfolding select_connection_to_ping
select-IsPartition view s last now h =
    let found = find_next_pingable_connection view s now in
    if_keep (λ (r : IceController × Option ℕ × ℕ). IsPartition r.0)
      (leb_ℤ (last +ℤ pos (ping_interval view s)) (pos now))
      (found.0, found.1, ping_interval view s) (s, none, ping_interval view s)
      (find_beside-IsPartition view s now s.selected_connection h) h

pub marked-IsPartition :
    (s : IceController) (p : ℕ)
    → 1 ≤ count p s.connections
    → IsPartition s
    → IsPartition (mark_connection_pinged s (some p))
unfolding mark_connection_pinged
marked-IsPartition s p listed h = elim (Bool-cases (contains s.pinged_connections p)) [
  | inl e ↦ rw e h
  | inr e ↦ rw e record {
    once = h.once;
    split = λ (q : ℕ).
        let absent = count-contains s.pinged_connections p e in
        let both = h.split q in
        let one = h.once q in
        let inserted = count-set_insert p q s.pinged_connections in
        let erased = count-erase p q s.unpinged_connections in
        elim (same_or_other p q) [
          | inl other ↦ omega arith
          | inr (same, pq) ↦
              let a = ap (λ (t : ℕ). count t s.connections) pq in
              let b = ap (λ (t : ℕ). count t s.pinged_connections) pq in omega arith
        ];
  }
]

sorted-IsPartition :
    (view : View) (s : IceController)
    → IsPartition s
    → IsPartition (sort_and_switch_connection view s).0
unfolding sort_and_switch_connection
sorted-IsPartition view s h = record {
  once = λ (q : ℕ). let one = h.once q in omega (arith, count-stable_sort view q s.connections);
  split = λ (q : ℕ). let both = h.split q in omega (arith, count-stable_sort view q s.connections);
}

-- What a controller does, with the conditions under which the channel calls it: a connection is added
-- once, and one that is marked is listed.
pub data Step (s : IceController) : IceController → Type 0 where
  adds : (p : ℕ) → count p s.connections ≡ 0 → Step s (add_connection s p)
  destroys : (p : ℕ) → Step s (on_connection_destroyed s p)
  selects : (p : Option ℕ) → Step s (set_selected_connection s p)
  searches :
      (view : View) (last : ℤ) (now : ℕ) → Step s (select_connection_to_ping view s last now).0
  marks : (p : ℕ) → 1 ≤ count p s.connections → Step s (mark_connection_pinged s (some p))
  sorts : (view : View) → Step s (sort_and_switch_connection view s).0

pub data Steps (s : IceController) : IceController → Type 0 where
  done : Steps s s
  then_step : {t u : IceController} → Steps s t → Step t u → Steps s u

Step-IsPartition : {s t : IceController} → Step s t → IsPartition s → IsPartition t
Step-IsPartition {s} (adds p new) h = add-IsPartition s p new h
Step-IsPartition {s} (destroys p) h = destroyed-IsPartition s p h
Step-IsPartition {s} (selects p) h = record { once = h.once; split = h.split }
Step-IsPartition {s} (searches view last now) h = select-IsPartition view s last now h
Step-IsPartition {s} (marks p listed) h = marked-IsPartition s p listed h
Step-IsPartition {s} (sorts view) h = sorted-IsPartition view s h

-- From the new controller, any additions of connections not listed, removals, selections, searches,
-- marks of listed connections and sorts, in any order, with any connections behind the pointers, leave
-- each listed connection listed once and in exactly one of the two sets, and nothing else in them.
pub steps-IsPartition : {s : IceController} → Steps create s → IsPartition s
steps-IsPartition done = record { once = λ (p : ℕ). omega arith; split = λ (p : ℕ). refl }
steps-IsPartition (then_step before step) = Step-IsPartition step (steps-IsPartition before)
