-- ===== src/Rtp/Nack/Histories.antt =====
-- Everything that can happen to a NACK requester of nack_requester.cpp after it was made.
use xrtc_server.Base.{ℕ, ◌<◌, Bool, List, [], ◌∷◌, All, arith}
use xrtc_server.Base.Int.{ℤ}
use xrtc_server.Base.Seq.{SeqNum, SeqLaws}
use xrtc_server.Rtp.Histogram.{Float}
use xrtc_server.Rtp.Histogram.Window.{create-Inv}
use xrtc_server.Rtp.Nack.{NackRequester, create, update_rtt, process_nacks}
use xrtc_server.Rtp.Nack.Receive.{on_received_packet}
use xrtc_server.Rtp.Nack.Requests.{Inv, process_nacks-Inv, on_received_packet-Inv}

-- A packet with the clock's readings, a tick of the timer, a new round-trip time.
pub data Event : Type 0 where
  packet : (clock : ℕ → ℤ) (now : ℤ) (seq : ℕ) (is_keyframe is_retransmitted : Bool) → Event
  tick : ℤ → Event
  measured : ℤ → Event

-- The numbers of packets are 16-bit values.
abbrev pub Valid : Event → Type 0
Valid (packet clock now seq is_keyframe is_retransmitted) = seq < 65536
Valid (tick now) = Unit {0}
Valid (measured rtt) = Unit {0}

module _ (f : Float) (c : SeqNum) (half : f.Carrier) where
  abbrev pub step : NackRequester → Event → NackRequester
  step r (packet clock now seq is_keyframe is_retransmitted) =
      (on_received_packet f c half r clock now seq is_keyframe is_retransmitted).0
  step r (tick now) = (process_nacks c r now).0
  step r (measured rtt) = update_rtt r rtt

  unfoldable pub run : NackRequester → List Event → NackRequester
  run r [] = r
  run r (e ∷ es) = run (step r e) es

  step-Inv : (r : NackRequester) (e : Event) → SeqLaws c → Valid e → Inv r → Inv (step r e)
  unfolding update_rtt
  step-Inv r (packet clock now seq is_keyframe is_retransmitted) laws h v =
      on_received_packet-Inv f c half laws r clock now seq is_keyframe is_retransmitted h v
  step-Inv r (tick now) laws h v = process_nacks-Inv c r now v
  step-Inv r (measured rtt) laws h v = record {
    sound = v.sound;
    newest = v.newest;
    histogram = v.histogram;
  }

  run-Inv :
      (r : NackRequester) (es : List Event) → SeqLaws c → All Valid es → Inv r → Inv (run r es)
  unfolding run
  run-Inv r [] laws h v = v
  run-Inv r (e ∷ es) laws (h, hs) v = run-Inv (step r e) es laws hs (step-Inv r e laws h v)

  made-Inv : (capacity : ℕ) → 0 < capacity → capacity < 18446744073709551615 → Inv (create capacity)
  unfolding create
  made-Inv capacity h w = record {
    sound = record { unique = tt; retries = tt; bounded = omega arith };
    newest = omega arith;
    histogram = create-Inv 10 capacity (omega arith) h w;
  }

  -- After any history of packets, timer ticks and new round-trip times the requester is sound: one
  -- entry for a missing number, none that has had ten requests, at most 1000 entries, a 16-bit
  -- front, and a histogram whose buckets count its window.
  pub run-create-Inv :
      (capacity : ℕ) (es : List Event)
      → SeqLaws c
      → 0 < capacity
      → capacity < 18446744073709551615
      → All Valid es
      → Inv (run (create capacity) es)
  run-create-Inv capacity es laws h w valid =
      run-Inv (create capacity) es laws valid (made-Inv capacity h w)
