-- ===== src/Rtp/Histogram/Examples.antt =====
-- Runs of the histogram, and the properties at them.
use xrtc_server.Base.{ℕ, ◌<◌, ◌≡◌, refl, arith, List, [], ◌∷◌, count, map}
use xrtc_server.Rtp.Histogram.{create, add, at}
use xrtc_server.Rtp.Histogram.Rotation.{last_of}
use xrtc_server.Rtp.Histogram.Recent.{samples, adds, bucket_of, create-adds-samples}

-- Ten buckets and a window of three samples, which the fourth and the fifth sample go around.
abbrev five_values : List ℕ
five_values = 4 ∷ 5 ∷ 4 ∷ 70 ∷ 2 ∷ []

five_samples : samples (adds (create 10 3) five_values) ≡ (4 ∷ 9 ∷ 2 ∷ [])
unfolding add create
five_samples = refl

five_buckets :
    (adds (create 10 3) five_values).buckets ≡ (0 ∷ 0 ∷ 1 ∷ 0 ∷ 1 ∷ 0 ∷ 0 ∷ 0 ∷ 0 ∷ 1 ∷ [])
unfolding add create
five_buckets = refl

create-adds-samples_example :
    (samples (adds (create 10 3) five_values) ≡ last_of 3 (map (bucket_of 10) five_values))
    × ((b : ℕ)
        → b < 10
        → at (adds (create 10 3) five_values).buckets b
          ≡ count b (last_of 3 (map (bucket_of 10) five_values)))
create-adds-samples_example =
    create-adds-samples 10 3 five_values (omega arith) (omega arith) (omega arith)
