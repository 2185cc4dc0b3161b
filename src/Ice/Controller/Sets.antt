-- ===== src/Ice/Controller/Sets.antt =====
-- How often a pointer stands in the sets and the vector of src/ice/ice_controller.cpp.
use xrtc_server.Base.{
  ℕ, ◌+◌, ◌-◌, ◌≤◌, ◌≡◌, refl, Bool, false, List, [], ◌∷◌, ◌==◌, ltb, count, if◌then◌else◌, max,
  arith, inl, inr, Bool-cases, ap, ==_iff,
}
use xrtc_server.Ice.Controller.{
  View, any, contains, insert_ordered, set_insert, set_insert_all, erase, comes_before, sort_insert,
  stable_sort,
}

abbrev pub one_if : Bool → ℕ
one_if b = if b then 1 else 0

pub contains-count : (xs : List ℕ) (p : ℕ) → one_if (contains xs p) ≤ count p xs
unfolding any
contains-count [] p = omega arith
contains-count (x ∷ xs) p = ground (arith, contains-count xs p)

pub count-contains : (xs : List ℕ) (p : ℕ) → contains xs p ≡ false → count p xs ≡ 0
unfolding any
count-contains [] p h = refl
count-contains (x ∷ xs) p h = ground (arith, count-contains xs p)

count-insert_ordered :
    (p q : ℕ) (xs : List ℕ) → count q (insert_ordered p xs) ≡ one_if (p == q) + count q xs
unfolding insert_ordered
count-insert_ordered p q [] = refl
count-insert_ordered p q (x ∷ xs) =
    let ih = count-insert_ordered p q xs in
    elim (Bool-cases (ltb p x)) [ inl e ↦ rw e refl | inr e ↦ rw e (omega arith) ]

-- A member that was there stays; another comes in once.
pub count-set_insert :
    (p q : ℕ) (xs : List ℕ) → count q (set_insert p xs) ≡ max (one_if (p == q)) (count q xs)
unfolding set_insert
count-set_insert p q xs = elim (Bool-cases (contains xs p)) [
  | inl e ↦
      let known : 1 ≤ count p xs = rw e at (contains-count xs p) in
      rw e (elim (Bool-cases (p == q)) [
        | inl pq ↦ let same = ap (λ (t : ℕ). count t xs) ((==_iff p q).0 pq) in rw pq (omega arith)
        | inr pq ↦ rw pq (omega arith)
      ])
  | inr e ↦
      let new = count-contains xs p e in
      let ins = count-insert_ordered p q xs in
      rw e (elim (Bool-cases (p == q)) [
        | inl pq ↦
            let same = ap (λ (t : ℕ). count t xs) ((==_iff p q).0 pq) in
            let one = rw pq at ins in rw pq (omega arith)
        | inr pq ↦ let none = rw pq at ins in rw pq (omega arith)
      ])
]

pub count-set_insert_all :
    (ps : List ℕ) (q : ℕ) (xs : List ℕ)
    → count q ps + count q xs ≤ 1
    → count q (set_insert_all ps xs) ≡ count q ps + count q xs
unfolding set_insert_all
count-set_insert_all [] q xs h = omega arith
count-set_insert_all (p ∷ ps) q xs h =
    let ins = count-set_insert p q xs in
    let ih = count-set_insert_all ps q (set_insert p xs) in ground arith

pub count-erase : (p q : ℕ) (xs : List ℕ) → count q (erase p xs) ≡ count q xs - one_if (p == q)
unfolding erase
count-erase p q [] = omega arith
count-erase p q (x ∷ xs) =
    let ih = count-erase p q xs in
    elim (Bool-cases (x == p)) [
      | inl e ↦ let same : x ≡ p = (==_iff x p).0 e in rw e (ground arith)
      | inr e ↦ rw e (ground arith)
    ]

count-sort_insert :
    (v : View) (p q : ℕ) (xs : List ℕ) → count q (sort_insert v p xs) ≡ one_if (p == q) + count q xs
unfolding sort_insert
count-sort_insert v p q [] = refl
count-sort_insert v p q (x ∷ xs) =
    let ih = count-sort_insert v p q xs in
    elim (Bool-cases (comes_before v x p)) [ inl e ↦ rw e (omega arith) | inr e ↦ rw e refl ]

pub count-stable_sort : (v : View) (q : ℕ) (xs : List ℕ) → count q (stable_sort v xs) ≡ count q xs
unfolding stable_sort
count-stable_sort v q [] = refl
count-stable_sort v q (x ∷ xs) =
    omega (arith, count-sort_insert v x q (stable_sort v xs), count-stable_sort v q xs)
