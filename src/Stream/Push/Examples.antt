-- ===== src/Stream/Push/Examples.antt =====
-- The publisher on concrete packets.
use xrtc_server.Base.{
  ℕ, suc, ◌+◌, ◌%◌, ◌<◌, ◌≡◌, refl, true, false, map, List, [], ◌∷◌, none, some, arith, length,
  get_elem?,
}
use xrtc_server.Base.Int.{pos}
use xrtc_server.Base.Seq.{circle, circle-SeqLaws, next16, dist}
use xrtc_server.Stream.Packet.{MediaType, audio, video, RtcPacket, RtpPacketReceived}
use xrtc_server.Stream.Push.{
  PushStream, init, process_video_packet, on_rtp_packet, find_video_packet, cache_video_packet,
  forward_loop, on_frame,
}
use xrtc_server.Stream.Push.Loop.{Consecutive}
use xrtc_server.Stream.Push.Loop.{forward_loop_stops}
use xrtc_server.Stream.Push.Forward.{Inv}
use xrtc_server.Stream.Push.Restart.{on_frame-restarts, on_frame-wipes_cache, key_frame}
use xrtc_server.Stream.Push.Runs.{
  Event, rtp, step, run, videos, arrivals, run-init-Inv, run-in_order,
}

abbrev received : ℕ → RtpPacketReceived
received n = record { sequence_number = n; arrival_ms = pos 7; bytes = n ∷ [] }

-- The packet that starts the stream.
abbrev opening : List Event
opening = rtp video (received 65534) ∷ []

abbrev started : PushStream
started = (run circle init opening).0

started-Inv : Inv started
started-Inv = run-init-Inv circle circle-SeqLaws opening ((omega arith, λ e. cc), tt)

abbrev arrived : ℕ → RtcPacket
arrived n = record {
  seq_num = n;
  media_type = video;
  is_keyframe = false;
  ts = pos 7;
  buf = n ∷ [];
}

-- 0 comes before 65535: it waits in the cache, and both go on in order. 65535 again, and 5, do not.
abbrev shuffled : List (MediaType × RtpPacketReceived)
shuffled =
    (video, received 0)
    ∷ (audio, received 9)
    ∷ (video, received 65535)
    ∷ (video, received 65535)
    ∷ (video, received 5)
    ∷ []

started_seq : started.video_seq ≡ 65534
unfolding run step on_rtp_packet process_video_packet init
started_seq = refl

shuffled_out :
    map (λ p. p.seq_num) (videos (run circle started (arrivals shuffled)).1) ≡ 65535 ∷ 0 ∷ []
unfolding run step on_rtp_packet process_video_packet init forward_loop find_video_packet
    cache_video_packet circle
shuffled_out = refl

run-init-Inv_example : Inv (run circle init opening).0
run-init-Inv_example = run-init-Inv circle circle-SeqLaws opening ((omega arith, λ e. cc), tt)

run-in_order_example :
    Consecutive (next16 started.video_seq) (videos (run circle started (arrivals shuffled)).1)
unfolding run step on_rtp_packet process_video_packet init
run-in_order_example =
    run-in_order circle circle-SeqLaws started shuffled started-Inv (λ e. cc) refl
      (
        (omega arith, λ e. cc),
        (
          (omega arith, λ e. cc),
          ((omega arith, λ e. cc), ((omega arith, λ e. cc), ((omega arith, λ e. cc), tt))),
        ),
      )

forward_loop_stops_example :
    find_video_packet started.video_data_buffer
      (forward_loop 2049 started.video_data_buffer 65534).0
    ≡ none
forward_loop_stops_example = forward_loop_stops started.video_data_buffer 65534 (omega arith)

key_far_ahead : circle.ahead_of 20000 started.video_seq ≡ true
unfolding run step on_rtp_packet process_video_packet init circle
key_far_ahead = refl

-- 0, 1 and 2 are cached behind the gap at 65535, and 0 is the first packet of a key frame.
abbrev gapped : List (MediaType × RtpPacketReceived)
gapped = (video, received 0) ∷ (video, received 1) ∷ (video, received 2) ∷ []

abbrev behind_gap : PushStream
behind_gap = (run circle init (rtp video (received 65534) ∷ arrivals gapped)).0

behind_gap-Inv : Inv behind_gap
behind_gap-Inv = run-init-Inv circle circle-SeqLaws (rtp video (received 65534) ∷ arrivals gapped) (
  (omega arith, λ e. cc),
  ((omega arith, λ e. cc), ((omega arith, λ e. cc), ((omega arith, λ e. cc), tt))),
)

behind_gap_ahead : circle.ahead_of 0 behind_gap.video_seq ≡ true
unfolding run step on_rtp_packet process_video_packet init circle
behind_gap_ahead = refl

behind_gap_listens : behind_gap.has_listener ≡ true
unfolding run step on_rtp_packet process_video_packet init circle
behind_gap_listens = refl

restarted : PushStream × List RtcPacket
restarted = on_frame circle behind_gap (some (key_frame 0 2))

restarted_out : map (λ p. p.seq_num) restarted.1 ≡ 0 ∷ 1 ∷ 2 ∷ []
unfolding restarted on_frame run step on_rtp_packet process_video_packet init forward_loop
    find_video_packet cache_video_packet circle
restarted_out = refl

on_frame-restarts_example :
    Consecutive 0 restarted.1
    × ((k : ℕ)
        → k < length restarted.1
        → find_video_packet behind_gap.video_data_buffer ((0 + k) % 65536)
          ≡ get_elem? restarted.1 k)
    × (find_video_packet behind_gap.video_data_buffer ((0 + length restarted.1) % 65536) ≡ none)
    × (next16 restarted.0.video_seq ≡ (0 + length restarted.1) % 65536)
    × ((k : ℕ)
        → suc k < dist behind_gap.video_seq 0
        → find_video_packet restarted.0.video_data_buffer
            ((next16 behind_gap.video_seq + k) % 65536)
          ≡ none)
unfolding restarted
on_frame-restarts_example =
    on_frame-restarts circle circle-SeqLaws behind_gap 0 behind_gap-Inv (omega arith)
      behind_gap_ahead 2 behind_gap_listens

on_frame-wipes_cache_example :
    find_video_packet
      (on_frame circle started (some (key_frame 20000 20000))).0.video_data_buffer
      20000
    ≡ none
on_frame-wipes_cache_example =
    on_frame-wipes_cache circle circle-SeqLaws started 20000 started-Inv (omega arith) key_far_ahead
      20000 (rw started_seq (omega arith)) 20000
