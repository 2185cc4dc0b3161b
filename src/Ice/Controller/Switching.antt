-- ===== src/Ice/Controller/Switching.antt =====
-- SortAndSwitchConnection of src/ice/ice_controller.cpp: when the selected connection is replaced.
use xrtc_server.Base.{
  ℕ, ◌+◌, ◌≤◌, ◌≡◌, refl, ◌↔◌, inl, inr, ◌≢◌, true, List, [], ◌∷◌, Option, none, some, count, arith,
  Bool-cases, subst, ap,
}
use xrtc_server.Ice.Connection.{rank}
use xrtc_server.Ice.Controller.{
  View, IceController, replaces, ready_to_send, switch_to, stable_sort, sort_and_switch_connection,
}
use xrtc_server.Ice.Controller.Sets.{count-stable_sort}
use xrtc_server.Ice.Controller.Comparison.{NoneBetter, BestFirst, stable_sort-BestFirst}

-- Nothing is selected, or another connection whose round trip takes at least ten milliseconds more.
abbrev pub WorthLeaving : View → Option ℕ → ℕ → Type 0
WorthLeaving view none top = Unit {0}
WorthLeaving view (some p) top = (p ≢ top) × ((view top).rtt + 10 ≤ (view p).rtt)

replaces_iff :
    (view : View) (selected : Option ℕ) (top : ℕ)
    → (replaces view selected top ≡ true)
      ↔ ((rank (view top).write_state ≤ 1) × WorthLeaving view selected top)
unfolding replaces ready_to_send
replaces_iff view none top = ground arith
replaces_iff view (some p) top = ground arith

-- A connection stands first, none after it is better, it can be sent to, and it is worth the switch.
abbrev pub Wins : View → Option ℕ → List ℕ → ℕ → Type 0
Wins view selected sorted top =
    (others : List ℕ) × (sorted ≡ top ∷ others)
    × NoneBetter view top others
    × (rank (view top).write_state ≤ 1)
    × WorthLeaving view selected top

switch_to_iff :
    (view : View) (selected : Option ℕ) (sorted : List ℕ) (top : ℕ)
    → BestFirst view sorted
    → (switch_to view selected sorted ≡ some top) ↔ Wins view selected sorted top
switch_to_iff view selected [] top h = (λ e. absurd cc, λ w. let e = w.1 in absurd cc)
switch_to_iff view selected (x ∷ xs) top h =
    let iff = replaces_iff view selected x in
    elim (Bool-cases (replaces view selected x)) [
      | inl e ↦ rw e (
        λ first.
            let same : x ≡ top = cc in
            subst (Wins view selected (x ∷ xs)) same (xs, refl, h.0, (iff.0 e).0, (iff.0 e).1),
        λ w. let same : x ≡ top = let l = w.1 in cc in ap some same,
      )
      | inr e ↦ rw e (
        λ first. absurd cc,
        λ w.
            let l = w.1 in
            let same : top ≡ x = cc in
            let t = iff.1 (
              subst (λ (y : ℕ). (rank (view y).write_state ≤ 1) × WorthLeaving view selected y) same
                (w.3, w.4)) in
            absurd cc,
      )
    ]

-- The controller offers a connection exactly when it comes first after the sort, where none is better,
-- is writable or unreliable, and nothing is selected or the selected connection is another with a
-- round trip time at least ten milliseconds above its own. The sort loses no connection.
pub sort_and_switch_iff :
    (view : View) (s : IceController) (top : ℕ)
    → let sorted = (sort_and_switch_connection view s).0.connections in
      (((sort_and_switch_connection view s).1 ≡ some top)
        ↔ Wins view s.selected_connection sorted top)
      × ((p : ℕ) → count p sorted ≡ count p s.connections)
unfolding sort_and_switch_connection
sort_and_switch_iff view s top = (
  switch_to_iff view s.selected_connection (stable_sort view s.connections) top
      (stable_sort-BestFirst view s.connections),
  λ (p : ℕ). count-stable_sort view p s.connections,
)
