-- ===== src/Rtp/Histogram/Rotation.antt =====
-- Lists read from a place in them on and around, as the window of
-- src/modules/video_coding/histogram.cpp is read from its cursor.
use xrtc_server.Base.{
  count, count-append, ℕ, zero, suc, ◌+◌, ◌-◌, ◌%◌, ◌≤◌, ◌<◌, ◌≡◌, refl, ◌∙◌, sym, ap, List, [],
  ◌∷◌, ◌++◌, ltb, length, length-set, length-append, subst, set, take, drop, ltb→lt, arith, inl,
  inr, Bool-cases,
}
use mathlib.Core.List.{append-nil, append_assoc}
use native.Mathlib.Nat.{mod-eq_of_lt, mod_self}

-- Read from the i-th place on, and then from the front.
abbrev pub rotated : ℕ → List ℕ → List ℕ
rotated i xs = drop i xs ++ take i xs

-- The last n of a list, or all of it when it is shorter.
abbrev pub last_of : ℕ → List ℕ → List ℕ
last_of n xs = drop (length xs - n) xs

drop-length : (xs : List ℕ) → drop (length xs) xs ≡ []
drop-length [] = refl
drop-length (x ∷ xs) = drop-length xs

take-length : (xs : List ℕ) → take (length xs) xs ≡ xs
take-length [] = refl
take-length (x ∷ xs) = ap (λ (l : List ℕ). x ∷ l) (take-length xs)

drop-one_more : (n : ℕ) (xs : List ℕ) → drop (suc n) xs ≡ drop 1 (drop n xs)
drop-one_more zero xs = refl
drop-one_more (suc n) [] = refl
drop-one_more (suc n) (x ∷ xs) = drop-one_more n xs

drop-append : (n : ℕ) (xs ys : List ℕ) → n ≤ length xs → drop n (xs ++ ys) ≡ drop n xs ++ ys
drop-append zero xs ys h = refl
drop-append (suc n) [] ys h = absurd (omega arith)
drop-append (suc n) (x ∷ xs) ys h = drop-append n xs ys (omega arith)

drop-set : (xs : List ℕ) (i v : ℕ) → i < length xs → drop (suc i) (set xs i v) ≡ drop 1 (drop i xs)
drop-set [] i v h = absurd (omega arith)
drop-set (x ∷ xs) zero v h = refl
drop-set (x ∷ xs) (suc i) v h = drop-set xs i v (omega arith)

take-set :
    (xs : List ℕ) (i v : ℕ) → i < length xs → take (suc i) (set xs i v) ≡ take i xs ++ (v ∷ [])
take-set [] i v h = absurd (omega arith)
take-set (x ∷ xs) zero v h = refl
take-set (x ∷ xs) (suc i) v h = ap (λ (l : List ℕ). x ∷ l) (take-set xs i v (omega arith))

-- Taking the first of the samples out can be done before the two parts are put together.
drop-first :
    (xs : List ℕ) (i : ℕ) (ys : List ℕ)
    → i < length xs
    → drop 1 (drop i xs ++ ys) ≡ drop 1 (drop i xs) ++ ys
drop-first [] i ys h = absurd (omega arith)
drop-first (x ∷ xs) zero ys h = refl
drop-first (x ∷ xs) (suc i) ys h = drop-first xs i ys (omega arith)

pub count-rotated : (b i : ℕ) (xs : List ℕ) → count b (rotated i xs) ≡ count b xs
count-rotated b i xs = count-append b (drop i xs) (take i xs) ∙ parts i xs
  where
    parts : (i : ℕ) (xs : List ℕ) → count b (drop i xs) + count b (take i xs) ≡ count b xs
    parts zero xs = omega arith
    parts (suc i) [] = refl
    parts (suc i) (x ∷ xs) = omega (arith, parts i xs)

-- The cursor behind the last place is the cursor at the first.
rotated_round :
    (xs : List ℕ) (i : ℕ) → i < length xs → rotated ((i + 1) % length xs) xs ≡ rotated (suc i) xs
rotated_round xs i h = elim (Bool-cases (ltb (i + 1) (length xs))) [
  | inl t ↦
      let small : i + 1 < length xs = ltb→lt (i + 1) (length xs) t in
      let same : (i + 1) % length xs ≡ suc i = omega (arith, mod-eq_of_lt small) in rw same refl
  | inr f ↦
      let whole : suc i ≡ length xs = ground arith in
      let round : (i + 1) % length xs ≡ 0 =
        subst (λ (n : ℕ). n % length xs ≡ 0) (sym (omega arith)) (mod_self (length xs)) in
      rw (round, whole, drop-length, take-length) (append-nil xs)
]

-- A value in the i-th place, and the reading one place on: the first of the old reading is gone, and the
-- value comes last.
pub rotated-set :
    (xs : List ℕ) (i v : ℕ)
    → i < length xs
    → rotated ((i + 1) % length xs) (set xs i v) ≡ drop 1 (rotated i xs) ++ (v ∷ [])
rotated-set xs i v h =
    let same = length-set xs i v in
    ap (λ (n : ℕ). rotated ((i + 1) % n) (set xs i v)) (sym same)
    ∙ rotated_round (set xs i v) i (omega arith)
    ∙ rw (drop-set xs i v h, take-set xs i v h)
        (sym (append_assoc (drop 1 (drop i xs)) (take i xs) (v ∷ [])))
    ∙ ap (λ (l : List ℕ). l ++ (v ∷ [])) (sym (drop-first xs i (take i xs) h))

pub last_of-short : (n : ℕ) (xs : List ℕ) → length xs ≤ n → last_of n xs ≡ xs
last_of-short n xs h = let none_gone : length xs - n ≡ 0 = omega arith in rw none_gone refl

-- When there are n values or more, the first of the last n goes as another comes.
pub last_of-append :
    (n : ℕ) (xs : List ℕ) (v : ℕ)
    → 0 < n
    → n ≤ length xs
    → last_of n (xs ++ (v ∷ [])) ≡ drop 1 (last_of n xs) ++ (v ∷ [])
last_of-append n xs v some h =
    let longer = length-append xs (v ∷ []) in
    let one_more : length (xs ++ (v ∷ [])) - n ≡ suc (length xs - n) = omega arith in
    rw one_more (drop-append (suc (length xs - n)) xs (v ∷ []) (omega arith))
    ∙ ap (λ (l : List ℕ). l ++ (v ∷ [])) (drop-one_more (length xs - n) xs)
