-- ===== src/Ice/Controller/Comparison.antt =====
-- The order that src/ice/ice_controller.cpp sorts its connections by.
use xrtc_server.Base.{
  ℕ, ◌<◌, ◌≡◌, ◌↔◌, ◌⊎◌, inl, inr, Bool, true, false, List, [], ◌∷◌, All, arith, Bool-cases,
  if_keep,
}
use xrtc_server.Ice.Connection.{IceConnection, rank, priority}
use xrtc_server.Ice.Controller.{View, comes_before, compare_connections, sort_insert, stable_sort}

abbrev pub as_number : Bool → ℕ
as_number true = 1
as_number false = 0

-- The better of two connections: the lower write state, then the one that receives, then the higher
-- priority, then the lower round trip time.
abbrev pub Better : IceConnection → IceConnection → Type 0
Better a b =
    (rank a.write_state < rank b.write_state)
    ⊎ ((rank a.write_state ≡ rank b.write_state)
        × ((as_number b.receiving < as_number a.receiving)
            ⊎ ((as_number a.receiving ≡ as_number b.receiving)
                × ((priority b < priority a) ⊎ ((priority a ≡ priority b) × (a.rtt < b.rtt))))))

-- The comparison of the sort is this order.
pub comes_before-Better :
    (view : View) (a b : ℕ) → (comes_before view a b ≡ true) ↔ Better (view a) (view b)
unfolding comes_before compare_connections
comes_before-Better view a b = ground arith

not-Better : (view : View) (a b : ℕ) → comes_before view a b ≡ false → Better (view a) (view b) → ⊥
not-Better view a b e h = let t = (comes_before-Better view a b).1 h in absurd cc

Better-asymmetric : (a b : IceConnection) → Better a b → Better b a → ⊥
Better-asymmetric a b h k = ground arith

Better-negatively_transitive :
    (a b c : IceConnection) → (Better a b → ⊥) → (Better b c → ⊥) → Better a c → ⊥
Better-negatively_transitive a b c h k l = ground arith

-- None of a list is better than a connection.
abbrev pub NoneBetter : View → ℕ → List ℕ → Type 0
NoneBetter view p xs = All (λ (x : ℕ). Better (view x) (view p) → ⊥) xs

abbrev pub BestFirst : View → List ℕ → Type 0
BestFirst view [] = Unit {0}
BestFirst view (x ∷ xs) = NoneBetter view x xs × BestFirst view xs

NoneBetter-than_worse :
    (view : View) (p q : ℕ) (xs : List ℕ)
    → (Better (view q) (view p) → ⊥)
    → NoneBetter view q xs
    → NoneBetter view p xs
NoneBetter-than_worse view p q [] h k = tt
NoneBetter-than_worse view p q (x ∷ xs) h k = (
  Better-negatively_transitive (view x) (view q) (view p) k.0 h,
  NoneBetter-than_worse view p q xs h k.1,
)

NoneBetter-sort_insert :
    (view : View) (p q : ℕ) (xs : List ℕ)
    → (Better (view p) (view q) → ⊥)
    → NoneBetter view q xs
    → NoneBetter view q (sort_insert view p xs)
unfolding sort_insert
NoneBetter-sort_insert view p q [] h k = (h, tt)
NoneBetter-sort_insert view p q (x ∷ xs) h k =
    if_keep (NoneBetter view q) (comes_before view x p) (x ∷ sort_insert view p xs) (p ∷ x ∷ xs)
      (k.0, NoneBetter-sort_insert view p q xs h k.1) (h, k)

sort_insert-BestFirst :
    (view : View) (p : ℕ) (xs : List ℕ) → BestFirst view xs → BestFirst view (sort_insert view p xs)
unfolding sort_insert
sort_insert-BestFirst view p [] h = (tt, tt)
sort_insert-BestFirst view p (x ∷ xs) h = elim (Bool-cases (comes_before view x p)) [
  | inl e ↦ rw e (
    NoneBetter-sort_insert view p x xs
        (Better-asymmetric (view x) (view p) ((comes_before-Better view x p).0 e)) h.0,
    sort_insert-BestFirst view p xs h.1,
  )
  | inr e ↦
      let worse = not-Better view x p e in
      rw e ((worse, NoneBetter-than_worse view p x xs worse h.0), h)
]

-- After the sort no connection is better than one that stands before it.
pub stable_sort-BestFirst : (view : View) (xs : List ℕ) → BestFirst view (stable_sort view xs)
unfolding stable_sort
stable_sort-BestFirst view [] = tt
stable_sort-BestFirst view (x ∷ xs) =
    sort_insert-BestFirst view x (stable_sort view xs) (stable_sort-BestFirst view xs)
