-- ===== src/Rtp/Statistics/Jitter.antt =====
-- The jitter filter of UpdateJitter in receive_stat.cpp.
use xrtc_server.Base.{ℕ, ◌*◌, ◌≤◌, ◌<◌, ◌≡◌, true, arith, inl, inr, min, max, Bool-cases}
use xrtc_server.Base.Int.{ℤ, ◌-ℤ◌}
use xrtc_server.Rtp.Statistics.{
  Unwrapper, Packet, StreamStat, filter_jitter, deviation, is_plausible, update_jitter,
}

-- The filter moves the estimate towards the new deviation and never past it, so no conversion in it
-- wraps: both are in sixteenths of a tick, and the bounds are those of a plausible deviation.
pub filter_jitter-between :
    (jitter d : ℕ)
    → jitter ≤ 7199984
    → d < 450000
    → (min jitter (d * 16) ≤ filter_jitter jitter d)
      × (filter_jitter jitter d ≤ max jitter (d * 16))
unfolding filter_jitter
filter_jitter-between jitter d hj hd = (ground arith, ground arith)

pub filter_jitter-bounded :
    (jitter d : ℕ) → jitter ≤ 7199984 → is_plausible d ≡ true → filter_jitter jitter d ≤ 7199984
unfolding filter_jitter
filter_jitter-bounded jitter d hj hd = ground arith

pub update_jitter-bounded :
    {u : Unwrapper} (s : StreamStat u) (p : Packet) (now : ℤ)
    → s.jitter_q4 ≤ 7199984
    → (update_jitter s p now).jitter_q4 ≤ 7199984
unfolding update_jitter
update_jitter-bounded s p now h =
    let d =
      deviation (now -ℤ s.last_received_time_ms) p.frequency p.timestamp
        s.last_received_timestamp in
    elim (Bool-cases (is_plausible d)) [
      | inl t ↦ rw t (filter_jitter-bounded s.jitter_q4 d h t)
      | inr f ↦ rw f h
    ]
