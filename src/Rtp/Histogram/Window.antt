-- ===== src/Rtp/Histogram/Window.antt =====
-- The buckets of src/modules/video_coding/histogram.cpp count the samples in the window.
use xrtc_server.Base.{
  count, count-append, ℕ, zero, suc, ◌+◌, ◌-◌, ◌%◌, ◌≤◌, ◌<◌, ◌≡◌, refl, ◌∙◌, min, List, [], ◌∷◌,
  ◌++◌, ltb, length, length-append, length-set, length-replicate, set, replicate, All, All-append,
  ◌==◌, ltb→lt, if◌then◌else◌, arith, inl, inr, Bool-cases,
}
use native.Mathlib.Nat.{mod-lt, mod-eq_of_lt}
use xrtc_server.Rtp.Histogram.{
  Histogram, Float, create, add, at, decrease, increase, inverse_cdf, cdf_loop,
}

count-set :
    (v : ℕ) (xs : List ℕ) (i w : ℕ)
    → i < length xs
    → count v (set xs i w) + (if at xs i == v then 1 else 0)
      ≡ count v xs + (if w == v then 1 else 0)
count-set v [] i w h = absurd (omega arith)
count-set v (x ∷ xs) zero w h = omega arith
count-set v (x ∷ xs) (suc i) w h = omega (arith, count-set v xs i w (omega arith))

count-le-length : (v : ℕ) (xs : List ℕ) → count v xs ≤ length xs
count-le-length v [] = omega arith
count-le-length v (x ∷ xs) = ground (arith, count-le-length v xs)

count-at : (xs : List ℕ) (i : ℕ) → i < length xs → 1 ≤ count (at xs i) xs
count-at [] i h = absurd (omega arith)
count-at (x ∷ xs) zero h = ground arith
count-at (x ∷ xs) (suc i) h = omega (arith, count-at xs i (omega arith))

at-set :
    (xs : List ℕ) (i j w : ℕ) → i < length xs → at (set xs i w) j ≡ (if i == j then w else at xs j)
at-set [] i j w h = absurd (omega arith)
at-set (x ∷ xs) zero zero w h = refl
at-set (x ∷ xs) zero (suc j) w h = ground arith
at-set (x ∷ xs) (suc i) zero w h = ground arith
at-set (x ∷ xs) (suc i) (suc j) w h = at-set xs i j w (omega arith) ∙ ground arith

at-replicate : (n j : ℕ) → at (replicate n 0) j ≡ 0
at-replicate zero j = refl
at-replicate (suc n) zero = refl
at-replicate (suc n) (suc j) = at-replicate n j

All-at : (n : ℕ) (xs : List ℕ) (i : ℕ) → All (λ x. x < n) xs → i < length xs → at xs i < n
All-at n [] i all h = absurd (omega arith)
All-at n (x ∷ xs) zero (a, all) h = a
All-at n (x ∷ xs) (suc i) (a, all) h = All-at n xs i all (omega arith)

All-set :
    (n : ℕ) (xs : List ℕ) (i w : ℕ) → All (λ x. x < n) xs → w < n → All (λ x. x < n) (set xs i w)
All-set n [] i w all h = tt
All-set n (x ∷ xs) zero w (a, all) h = (h, all)
All-set n (x ∷ xs) (suc i) w (a, all) h = (a, All-set n xs i w all h)

-- Each bucket counts its number among the samples kept; the cursor is at the end until the window
-- is full.
pub record Inv (h : Histogram) : Type 0 where
  pub some_bucket : 0 < length h.buckets
  pub small : All (λ x. x < length h.buckets) h.values
  pub counts : (b : ℕ) → b < length h.buckets → at h.buckets b ≡ count b h.values
  pub window : length h.values ≤ h.capacity
  pub cursor : h.index < h.capacity
  pub filling : length h.values < h.capacity → h.index ≡ length h.values
  pub word : h.capacity < 18446744073709551615

pub create-Inv :
    (n capacity : ℕ)
    → 0 < n
    → 0 < capacity
    → capacity < 18446744073709551615
    → Inv (create n capacity)
unfolding create
create-Inv n capacity hn hc hw = record {
  some_bucket = rw length-replicate hn;
  small = tt;
  counts = λ b hb. at-replicate n b;
  window = omega arith;
  cursor = hc;
  filling = λ h. refl;
  word = hw;
}

at-decrease :
    (bs : List ℕ) (i j : ℕ)
    → i < length bs
    → 0 < at bs i
    → at bs i < 18446744073709551616
    → at (decrease bs i) j ≡ (if i == j then at bs i - 1 else at bs j)
at-decrease bs i j h lo hi =
    let e : (at bs i + 18446744073709551615) % 18446744073709551616 ≡ at bs i - 1 = omega arith in
    at-set bs i j _ h ∙ rw e

at-increase :
    (bs : List ℕ) (i j : ℕ)
    → i < length bs
    → at bs i < 18446744073709551615
    → at (increase bs i) j ≡ (if i == j then at bs i + 1 else at bs j)
at-increase bs i j h hi =
    let e : (at bs i + 1) % 18446744073709551616 ≡ at bs i + 1 = omega arith in
    at-set bs i j _ h ∙ rw e

module _ (h : Histogram) (v : Inv h) (n : ℕ) (small : n < length h.buckets) where
  counted : (b : ℕ) → b < length h.buckets → at h.buckets b ≤ length h.values
  counted b hb = omega (arith, v.counts b hb, count-le-length b h.values)

  next-lt : (h.index + 1) % h.capacity < h.capacity
  next-lt = let p = v.cursor in mod-lt (h.index + 1) (omega arith)

  -- A new sample while the window is not full.
  append_counts :
      (b : ℕ) → b < length h.buckets → at (increase h.buckets n) b ≡ count b (h.values ++ (n ∷ []))
  append_counts b hb =
      let k = counted n small in
      let w = v.window in
      let x = v.word in
      at-increase h.buckets n b small (omega arith)
      ∙ ground (arith, v.counts b hb, count-append b h.values (n ∷ []))

  -- A new sample takes the oldest one's place.
  replace_counts :
      (b : ℕ)
      → h.index < length h.values
      → b < length h.buckets
      → at (increase (decrease h.buckets (at h.values h.index)) n) b
        ≡ count b (set h.values h.index n)
  replace_counts b hi hb =
      let old : ℕ = at h.values h.index in
      let old-lt : old < length h.buckets = All-at (length h.buckets) h.values h.index v.small hi in
      let some_old : 1 ≤ at h.buckets old =
        omega (arith, v.counts old old-lt, count-at h.values h.index hi) in
      let k = counted old old-lt in
      let kn = counted n small in
      let w = v.window in
      let x = v.word in
      let d = λ (j : ℕ). at-decrease h.buckets old j old-lt (omega arith) (omega arith) in
      let len =
        length-set h.buckets old
          ((at h.buckets old + 18446744073709551615) % 18446744073709551616) in
      at-increase (decrease h.buckets old) n b (omega arith) (ground (arith, d n))
      ∙ ground (arith, d n, d b, v.counts b hb, count-set b h.values h.index n hi)

  added : Histogram
  added =
      if ltb h.index (length h.values)
      then record h {
        buckets = increase (decrease h.buckets (at h.values h.index)) n;
        values = set h.values h.index n;
        index = (h.index + 1) % h.capacity;
      }
      else record h {
        buckets = increase h.buckets n;
        values = h.values ++ (n ∷ []);
        index = (h.index + 1) % h.capacity;
      }

  added-Inv : Inv added
  unfolding added
  added-Inv = elim (Bool-cases (ltb h.index (length h.values))) [
    | inl t ↦
        let hi : h.index < length h.values = ltb→lt h.index (length h.values) t in
        let l1 =
          length-set h.buckets (at h.values h.index)
            ((at h.buckets (at h.values h.index) + 18446744073709551615) % 18446744073709551616) in
        let l2 =
          length-set (decrease h.buckets (at h.values h.index)) n
            ((at (decrease h.buckets (at h.values h.index)) n + 1) % 18446744073709551616) in
        let l3 = length-set h.values h.index n in
        let w = v.window in
        let p = v.some_bucket in
        rw t (record {
          some_bucket = omega arith;
          small = rw (l2, l1) (All-set (length h.buckets) h.values h.index n v.small small);
          counts = λ b hb. replace_counts b hi (omega arith);
          window = omega arith;
          cursor = next-lt;
          filling = λ short. absurd (omega (arith, v.filling (omega arith)));
          word = v.word;
        })
    | inr f ↦
        let below : length h.values ≤ h.index = ground arith in
        let c = v.cursor in
        let at_end : h.index ≡ length h.values = v.filling (omega arith) in
        let l1 = length-set h.buckets n ((at h.buckets n + 1) % 18446744073709551616) in
        let l2 = length-append h.values (n ∷ []) in
        let p = v.some_bucket in
        rw f (record {
          some_bucket = omega arith;
          small =
              rw l1 (All-append (λ x. x < length h.buckets) h.values (n ∷ []) v.small (small, tt));
          counts = λ b hb. append_counts b (omega arith);
          window = omega arith;
          cursor = next-lt;
          filling = λ short.
              let s : h.index + 1 < h.capacity = omega arith in omega (arith, mod-eq_of_lt s);
          word = v.word;
        })
  ]

-- Each sample keeps the buckets equal to the counts of the samples in the window.
pub add-Inv : (h : Histogram) (value : ℕ) → Inv h → Inv (add h value)
unfolding add added
add-Inv h value v =
    let p = v.some_bucket in added-Inv h v (min value (length h.buckets - 1)) (omega arith)

-- The waiting distance never exceeds the number of buckets, whatever the probability.
cdf_loop-le :
    (f : Float) (bs : List ℕ) (total bucket : ℕ) (acc probability : f.Carrier)
    → cdf_loop f bs total bucket acc probability ≤ bucket + length bs
unfolding cdf_loop
cdf_loop-le f [] total bucket acc probability = omega arith
cdf_loop-le f (b ∷ bs) total bucket acc probability = elim (Bool-cases (f.less acc probability)) [
  | inl t ↦ rw (t, cdf_loop) (omega (arith, cdf_loop-le f bs total (bucket + 1) _ probability))
  | inr t ↦ rw (t, cdf_loop) (omega arith)
]

pub inverse_cdf-le :
    (f : Float) (h : Histogram) (probability : f.Carrier)
    → inverse_cdf f h probability ≤ length h.buckets
unfolding inverse_cdf
inverse_cdf-le f h probability =
    omega (arith, cdf_loop-le f h.buckets (length h.values) 0 f.zero_float probability)
