-- ===== src/Queue/Cells.antt =====
-- The cells of the heap of src/base/lock_free_queue.h under `new`, writes and `delete`.
use xrtc_server.Base.{
  ℕ, zero, suc, ◌<◌, ◌≡◌, refl, ◌≢◌, List, [], ◌∷◌, ◌++◌, some, length, get_elem?, set, ap, arith,
}

module _ {ℓ} {A : Type ℓ} where
  pub get_set-same :
      (xs : List A) (i : ℕ) (v : A) → i < length xs → get_elem? (set xs i v) i ≡ some v
  get_set-same [] i v h = absurd (omega arith)
  get_set-same (x ∷ xs) zero v h = refl
  get_set-same (x ∷ xs) (suc i) v h = get_set-same xs i v (omega arith)

  pub get_set-other :
      (xs : List A) (i j : ℕ) (v : A) → i ≢ j → get_elem? (set xs i v) j ≡ get_elem? xs j
  get_set-other [] i j v h = refl
  get_set-other (x ∷ xs) zero zero v h = absurd (h refl)
  get_set-other (x ∷ xs) zero (suc j) v h = refl
  get_set-other (x ∷ xs) (suc i) zero v h = refl
  get_set-other (x ∷ xs) (suc i) (suc j) v h = get_set-other xs i j v (λ e. h (ap suc e))

  pub get_append-left :
      (xs ys : List A) (i : ℕ) → i < length xs → get_elem? (xs ++ ys) i ≡ get_elem? xs i
  get_append-left [] ys i h = absurd (omega arith)
  get_append-left (x ∷ xs) ys zero h = refl
  get_append-left (x ∷ xs) ys (suc i) h = get_append-left xs ys i (omega arith)

  pub get_append-end :
      (xs : List A) (y : A) (i : ℕ) → i ≡ length xs → get_elem? (xs ++ (y ∷ [])) i ≡ some y
  get_append-end [] y zero h = refl
  get_append-end [] y (suc i) h = absurd (omega arith)
  get_append-end (x ∷ xs) y zero h = absurd (omega arith)
  get_append-end (x ∷ xs) y (suc i) h = get_append-end xs y i (omega arith)

  pub get-lt : (xs : List A) (i : ℕ) (v : A) → get_elem? xs i ≡ some v → i < length xs
  get-lt [] i v e = absurd cc
  get-lt (x ∷ xs) zero v e = omega arith
  get-lt (x ∷ xs) (suc i) v e = omega (arith, get-lt xs i v e)
