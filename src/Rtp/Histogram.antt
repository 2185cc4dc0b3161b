-- ===== src/Rtp/Histogram.antt =====
-- src/modules/video_coding/histogram.cpp: how far out of order packets arrive.
pub mod Window
pub mod Rotation
pub mod Recent
mod Examples
use xrtc_server.Base.{
  ℕ, zero, suc, ◌+◌, ◌-◌, ◌%◌, min, Bool, true, false, List, [], ◌∷◌, ◌++◌, Option, none, some, ltb,
  length, get_elem?, set, replicate, if◌then◌else◌,
}

-- `float`, which the language of this library does not have: a parameter. `of_ratio a b` is
-- `(float)a / b`.
pub record Float : Type 1 where
  pub Carrier : Type 0
  pub zero_float : Carrier
  pub add : Carrier → Carrier → Carrier
  pub of_ratio : ℕ → ℕ → Carrier
  pub less : Carrier → Carrier → Bool

-- `capacity` is that of `values_` after `reserve`.
pub record Histogram : Type 0 where
  pub values : List ℕ
  pub buckets : List ℕ
  pub index : ℕ
  pub capacity : ℕ

unfoldable pub create : ℕ → ℕ → Histogram
create num_buckets capacity = record {
  values = [];
  buckets = replicate num_buckets 0;
  index = 0;
  capacity = capacity;
}

-- A read of a vector; out of range the source's behaviour is undefined, and the model's is 0.
abbrev pub at : List ℕ → ℕ → ℕ
at [] i = 0
at (x ∷ xs) zero = x
at (x ∷ xs) (suc i) = at xs i

-- `--buckets_[i]` and `++buckets_[i]` of a size_t; 0 - 1 would wrap.
abbrev pub decrease : List ℕ → ℕ → List ℕ
decrease bs i = set bs i ((at bs i + 18446744073709551615) % 18446744073709551616)

abbrev pub increase : List ℕ → ℕ → List ℕ
increase bs i = set bs i ((at bs i + 1) % 18446744073709551616)

unfoldable pub add : Histogram → ℕ → Histogram
add h value =
    let v = min value (length h.buckets - 1) in
    if ltb h.index (length h.values)
    then record h {
      buckets = increase (decrease h.buckets (at h.values h.index)) v;
      values = set h.values h.index v;
      index = (h.index + 1) % h.capacity;
    }
    else record h {
      buckets = increase h.buckets v;
      values = h.values ++ (v ∷ []);
      index = (h.index + 1) % h.capacity;
    }

unfoldable pub num_values : Histogram → ℕ
num_values h = length h.values

module _ (f : Float) where
  open f use {Carrier, zero_float, of_ratio, less}

  -- The while loop of InverseCdf over the buckets that are left.
  pub cdf_loop : List ℕ → ℕ → ℕ → Carrier → Carrier → ℕ
  cdf_loop [] total bucket acc probability = bucket
  cdf_loop (b ∷ bs) total bucket acc probability = elim (less acc probability) [
    | true ↦ cdf_loop bs total (bucket + 1) (f.add acc (of_ratio b total)) probability
    | false ↦ bucket
  ]

  pub inverse_cdf : Histogram → Carrier → ℕ
  inverse_cdf h probability = cdf_loop h.buckets (length h.values) 0 zero_float probability
