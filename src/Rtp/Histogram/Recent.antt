-- ===== src/Rtp/Histogram/Recent.antt =====
-- The window of src/modules/video_coding/histogram.cpp holds the last samples, oldest first from the
-- cursor on.
use xrtc_server.Base.{
  count, ℕ, ◌+◌, ◌-◌, ◌%◌, ◌≤◌, ◌<◌, ◌≡◌, refl, ◌∙◌, sym, ap, true, false, subst, min, drop, List,
  [], ◌∷◌, ◌++◌, map, ltb, length, length-append, length-set, length-replicate, set, ltb→lt,
  if◌then◌else◌, arith, inl, inr, Bool-cases,
}
use mathlib.Core.Path.{ap₂}
use mathlib.Core.List.{append-nil, append_assoc}
use native.Mathlib.Nat.{mod_self}
use xrtc_server.Rtp.Histogram.{Histogram, create, add, at}
use xrtc_server.Rtp.Histogram.Rotation.{
  rotated, last_of, count-rotated, rotated-set, last_of-short, last_of-append,
}
use xrtc_server.Rtp.Histogram.Window.{Inv, create-Inv, add-Inv}

-- The samples that are kept, oldest first: those that came in, until the window is full, and then those
-- from the cursor on, before those up to it.
abbrev pub samples : Histogram → List ℕ
samples h = if ltb (length h.values) h.capacity then h.values else rotated h.index h.values

abbrev pub adds : Histogram → List ℕ → Histogram
adds h [] = h
adds h (v ∷ vs) = adds (add h v) vs

-- The bucket of a value among n.
abbrev pub bucket_of : ℕ → ℕ → ℕ
bucket_of n value = min value (n - 1)

-- After the values xs, each as the number of its bucket.
record IsWindow (n capacity : ℕ) (xs : List ℕ) (h : Histogram) : Type 0 where
  inv : Inv h
  same_buckets : length h.buckets ≡ n
  same_capacity : h.capacity ≡ capacity
  filled : length h.values ≡ min (length xs) capacity
  kept : samples h ≡ last_of capacity xs

length-buckets : (h : Histogram) (value : ℕ) → length (add h value).buckets ≡ length h.buckets
unfolding add
length-buckets h value = elim (Bool-cases (ltb h.index (length h.values))) [
  | inl t ↦ rw (t, length-set) (length-set h.buckets (at h.values h.index) _)
  | inr f ↦ rw f (length-set h.buckets _ _)
]

same_room : (h : Histogram) (value : ℕ) → (add h value).capacity ≡ h.capacity
unfolding add
same_room h value = ground arith

samples-in_order :
    (h : Histogram)
    → 0 < h.capacity
    → length h.values ≤ h.capacity
    → h.index ≡ length h.values % h.capacity
    → samples h ≡ h.values
samples-in_order h some le e = elim (Bool-cases (ltb (length h.values) h.capacity)) [
  | inl t ↦ rw t refl
  | inr f ↦
      let whole : length h.values ≡ h.capacity = ground arith in
      let front : h.index ≡ 0 = e ∙ ap (λ (n : ℕ). n % h.capacity) whole ∙ mod_self h.capacity in
      rw (f, front) (append-nil h.values)
]

samples-full : (h : Histogram) → length h.values ≡ h.capacity → samples h ≡ rotated h.index h.values
samples-full h e =
    let full : ltb (length h.values) h.capacity ≡ false = ground arith in rw full refl

add-filling :
    (h : Histogram) (value : ℕ)
    → length h.values ≤ h.index
    → ((add h value).values ≡ h.values ++ (bucket_of (length h.buckets) value ∷ []))
      × ((add h value).index ≡ (h.index + 1) % h.capacity)
unfolding add
add-filling h value le =
    let f : ltb h.index (length h.values) ≡ false = ground arith in rw f (refl, refl)

add-full :
    (h : Histogram) (value : ℕ)
    → h.index < length h.values
    → ((add h value).values ≡ set h.values h.index (bucket_of (length h.buckets) value))
      × ((add h value).index ≡ (h.index + 1) % h.capacity)
unfolding add
add-full h value lt =
    let t : ltb h.index (length h.values) ≡ true = ground arith in rw t (refl, refl)

module _ (n capacity : ℕ) (xs : List ℕ) (h : Histogram) (value : ℕ)
    (w : IsWindow n capacity xs h) where
  abbrev clipped : ℕ
  clipped = bucket_of (length h.buckets) value

  -- While the window is not full a sample comes behind the others.
  samples-add-filling :
      length h.values < h.capacity → samples (add h value) ≡ last_of capacity (xs ++ (clipped ∷ []))
  samples-add-filling short =
      let at_end = w.inv.filling short in
      let (vs, i) = add-filling h value (omega arith) in
      let room = w.same_capacity in
      let still_room = same_room h value in
      let longer = length-append h.values (clipped ∷ []) in
      let longer_xs = length-append xs (clipped ∷ []) in
      let grown = ap length vs in
      let filled = w.filled in
      let all_kept : samples h ≡ h.values =
        (let t : ltb (length h.values) h.capacity ≡ true = ground arith in rw t refl) in
      let same : h.values ≡ xs = sym all_kept ∙ w.kept ∙ last_of-short capacity xs (omega arith) in
      samples-in_order (add h value) (omega arith) (omega arith)
        (i ∙ ap₂ (λ (a b : ℕ). a % b) (omega arith) (sym still_room))
      ∙ vs
      ∙ ap (λ (l : List ℕ). l ++ (clipped ∷ [])) same
      ∙ sym (last_of-short capacity (xs ++ (clipped ∷ [])) (omega arith))

  -- A sample takes the place of the oldest when the window is full.
  samples-add-full :
      length h.values ≡ h.capacity → samples (add h value) ≡ last_of capacity (xs ++ (clipped ∷ []))
  samples-add-full full =
      let cursor = w.inv.cursor in
      let inside : h.index < length h.values = omega arith in
      let (vs, i) = add-full h value inside in
      let room = w.same_capacity in
      let still_room = same_room h value in
      let same_length = length-set h.values h.index clipped in
      let set_length = ap length vs in
      let filled = w.filled in
      samples-full (add h value) (omega arith)
      ∙ ap₂ rotated (i ∙ ap (λ (m : ℕ). (h.index + 1) % m) (sym full)) vs
      ∙ rotated-set h.values h.index clipped inside
      ∙ ap (λ (l : List ℕ). drop 1 l ++ (clipped ∷ [])) (sym (samples-full h full) ∙ w.kept)
      ∙ sym (last_of-append capacity xs clipped (omega arith) (omega arith))

  length-add : length (add h value).values ≡ min (length (xs ++ (clipped ∷ []))) capacity
  length-add =
      let room = w.same_capacity in
      let filled = w.filled in
      let le = w.inv.window in
      let longer_xs = length-append xs (clipped ∷ []) in
      elim (Bool-cases (ltb h.index (length h.values))) [
        | inl t ↦
            let lt = ltb→lt h.index (length h.values) t in
            let all_full : ¬ (length h.values < h.capacity) =
              (λ short. let at_end = w.inv.filling short in absurd (omega arith)) in
            let same = ap length ((add-full h value lt).0) in
            let kept = length-set h.values h.index clipped in
            let full : length h.values ≡ h.capacity = ground arith in omega arith
        | inr f ↦
            let behind : length h.values ≤ h.index = ground arith in
            let cursor = w.inv.cursor in
            let grown = ap length ((add-filling h value behind).0) in
            let longer = length-append h.values (clipped ∷ []) in omega arith
      ]

  add-IsWindow : IsWindow n capacity (xs ++ (clipped ∷ [])) (add h value)
  add-IsWindow = record {
    inv = add-Inv h value w.inv;
    same_buckets = length-buckets h value ∙ w.same_buckets;
    same_capacity = same_room h value ∙ w.same_capacity;
    filled = length-add;
    kept = elim (Bool-cases (ltb (length h.values) h.capacity)) [
      | inl t ↦ samples-add-filling (ltb→lt _ _ t)
      | inr f ↦ let le = w.inv.window in samples-add-full (ground arith)
    ];
  }

adds-IsWindow :
    (n capacity : ℕ) (xs vs : List ℕ) (h : Histogram)
    → IsWindow n capacity xs h
    → IsWindow n capacity (xs ++ map (bucket_of n) vs) (adds h vs)
adds-IsWindow n capacity xs [] h w =
    subst (λ (l : List ℕ). IsWindow n capacity l h) (sym (append-nil xs)) w
adds-IsWindow n capacity xs (v ∷ vs) h w =
    let one = add-IsWindow n capacity xs h v w in
    let more = adds-IsWindow n capacity (xs ++ (bucket_of n v ∷ [])) vs (add h v) (
      subst (λ (m : ℕ). IsWindow n capacity (xs ++ (bucket_of m v ∷ [])) (add h v)) w.same_buckets
        one) in
    subst (λ (l : List ℕ). IsWindow n capacity l (adds h (v ∷ vs)))
      (append_assoc xs (bucket_of n v ∷ []) (map (bucket_of n) vs)) more

count-samples : (h : Histogram) (b : ℕ) → count b (samples h) ≡ count b h.values
count-samples h b = elim (Bool-cases (ltb (length h.values) h.capacity)) [
  | inl t ↦ rw t refl
  | inr f ↦ rw f (count-rotated b h.index h.values)
]

create-IsWindow :
    (n capacity : ℕ)
    → 0 < n
    → 0 < capacity
    → capacity < 18446744073709551615
    → IsWindow n capacity [] (create n capacity)
unfolding create
create-IsWindow n capacity hn hc hw = record {
  inv = create-Inv n capacity hn hc hw;
  same_buckets = length-replicate n 0;
  same_capacity = refl;
  filled = omega arith;
  kept =
      let t : ltb 0 capacity ≡ true = ground arith in
      rw t (sym (last_of-short capacity [] (omega arith)));
}

-- For n buckets and a capacity, both above zero and the capacity below 2 ^ 64 - 1: after any values are
-- put into a new histogram, the samples that it holds are the last `capacity` values, or all when they
-- are fewer, in the order in which they came, each as the number of its bucket, which is n - 1 for all
-- values from there on; and each bucket is the number of these samples that are its own.
pub create-adds-samples :
    (n capacity : ℕ) (vs : List ℕ)
    → 0 < n
    → 0 < capacity
    → capacity < 18446744073709551615
    → (samples (adds (create n capacity) vs) ≡ last_of capacity (map (bucket_of n) vs))
      × ((b : ℕ)
          → b < n
          → at (adds (create n capacity) vs).buckets b
            ≡ count b (last_of capacity (map (bucket_of n) vs)))
create-adds-samples n capacity vs hn hc hw =
    let w =
      adds-IsWindow n capacity [] vs (create n capacity) (create-IsWindow n capacity hn hc hw) in
    let same = w.same_buckets in
    (
      w.kept,
      λ (b : ℕ) hb.
          w.inv.counts b (omega arith)
          ∙ sym (count-samples (adds (create n capacity) vs) b)
          ∙ ap (count b) w.kept,
    )
