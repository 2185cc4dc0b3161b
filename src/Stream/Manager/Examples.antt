-- ===== src/Stream/Manager/Examples.antt =====
-- The manager on a concrete history: one publisher, two live players, a transparent player.
use xrtc_server.Base.{
  ℕ, ◌+◌, ◌%◌, ◌≡◌, refl, ◌≢◌, Bool, true, false, List, [], ◌∷◌, map, Option, none, some, is_some,
  length, arith,
}
use xrtc_server.Base.Int.{pos, negsuc}
use xrtc_server.Base.Seq.{circle, circle-SeqLaws, next16}
use Prim.Native.String.{String}
use xrtc_server.Stream.Packet.{MediaType, video, RtcPacket, RtpPacketReceived}
use xrtc_server.Stream.Push
use xrtc_server.Stream.Push.{process_video_packet, to_packet, find_video_packet}
use xrtc_server.Stream.Push.Loop.{Consecutive}
use xrtc_server.Stream.Push.Forward as Forward
use xrtc_server.Stream.Push.Runs.{rtp, step, run, run-init-Inv}
use xrtc_server.Stream.Manager.State.{
  push, pull, RtcStream, Ptr, Manager, StreamParams, find_push_stream, find_pull_stream_m,
  find_user, insert_user, add_pull_stream_m, remove_pull_stream, remove_pull_stream_m,
  find_pull_stream,
}
use xrtc_server.Stream.Manager.Handlers.{
  send_packet, create_push_stream, create_pull_stream, on_rtp_packet, on_nack_received, stop_push,
}
use xrtc_server.Stream.Manager.Invariant.{Inv}
use xrtc_server.Stream.Manager.Calls.{
  Call, creates_push, creates_pull, receives, receive, init, call, calls, calls-init-Inv,
}
use xrtc_server.Stream.Manager.Delivery.{told, on_rtp_packet-fan_out}
use xrtc_server.Stream.Manager.EndToEnd.{sends, keep, receive-in_order, on_nack_received-resends}
use xrtc_server.Stream.Manager.Lookup.{stop_push-by_owner}
use xrtc_server.Stream.Manager.Leak.{create_pull_stream-leaks}

abbrev received : ℕ → RtpPacketReceived
received n = record { sequence_number = n; arrival_ms = pos 7; bytes = n ∷ [] }

-- No description is parsed in this history.
abbrev no_tracks : String → MediaType → Option (List StreamParams)
no_tracks answer k = none

abbrev history : List Call
history =
    creates_push 7 "room" "live"
    ∷ creates_pull 8 "room" "live"
    ∷ creates_pull 9 "room" "live"
    ∷ creates_pull 5 "room" "transparent"
    ∷ receives 0 (rtp video (received 100))
    ∷ []

abbrev demo : Manager
demo = calls circle no_tracks init history

demo-Inv : Inv demo
demo-Inv = calls-init-Inv circle no_tracks history

abbrev publisher : RtcStream
publisher = record {
  stream_type = push;
  uid = 7;
  stream_name = "room";
  transparent = false;
  remote = λ k. none;
  source = λ k. [];
  sender = (step circle Push.init (rtp video (received 100))).0;
}

-- The transparent player and a live player, as the history left them.
abbrev player : ℕ → Bool → RtcStream
player uid mode = record publisher {
  stream_type = pull;
  uid = uid;
  transparent = mode;
  sender = Push.init;
}

demo_facts :
    (demo.heap 0 ≡ some publisher)
    × (find_push_stream demo "room" ≡ some 0)
    × (find_pull_stream_m demo 9 "room" ≡ some 2)
    × (demo.pull_streams "room" ≡ some 3)
    × (demo.heap 2 ≡ some (player 9 false))
    × (demo.heap 3 ≡ some (player 5 true))
unfolding call calls init create_push_stream create_pull_stream receive find_push_stream
    remove_pull_stream_m add_pull_stream_m insert_user find_user remove_pull_stream find_pull_stream
    find_pull_stream_m
demo_facts = (refl, refl, refl, refl, refl, refl)

publisher_started :
    (publisher.sender.first_seq_time ≢ negsuc 0) × (publisher.sender.has_listener ≡ true)
unfolding step Push.on_rtp_packet process_video_packet to_packet Push.init
publisher_started = ((λ e. cc), refl)

publisher-Inv : Forward.Inv publisher.sender
publisher-Inv =
    unfold run in
    run-init-Inv circle circle-SeqLaws (rtp video (received 100) ∷ [])
      (((omega arith), λ e. cc), tt)

calls-init-Inv_example : Inv (calls circle no_tracks init history)
calls-init-Inv_example = calls-init-Inv circle no_tracks history

abbrev packet : RtcPacket
packet = record { seq_num = 101; media_type = video; is_keyframe = false; ts = pos 8; buf = [] }

on_rtp_packet-fan_out_example :
    ((uid : ℕ) (q : Ptr)
      → find_pull_stream_m demo uid "room" ≡ some q
      → told q (on_rtp_packet demo 0 video packet) ≡ send_packet video packet false ∷ [])
    × ((q : Ptr)
        → ((uid : ℕ) → find_pull_stream_m demo uid "room" ≢ some q)
        → told q (on_rtp_packet demo 0 video packet) ≡ [])
on_rtp_packet-fan_out_example =
    on_rtp_packet-fan_out demo demo-Inv 0 publisher demo_facts.0 refl video packet

receive-in_order_example :
    (out : List RtcPacket) × Consecutive (next16 publisher.sender.video_seq) out
    × ((uid : ℕ) (q : Ptr)
        → find_pull_stream_m demo uid "room" ≡ some q
        → told q (receive circle demo 0 (rtp video (received 101))).1 ≡ sends false video out)
    × ((step circle publisher.sender (rtp video (received 101))).0.video_seq
        ≡ (publisher.sender.video_seq + length out) % 65536)
receive-in_order_example =
    receive-in_order circle circle-SeqLaws demo 0 publisher (received 101) demo-Inv demo_facts.0
      refl publisher-Inv publisher_started.0 publisher_started.1 (omega arith) (λ e. cc)

on_nack_received-resends_example :
    (ps : List RtcPacket) × (told 2 (on_nack_received demo 2 video (99 ∷ 100 ∷ []))
      ≡ sends true video ps)
    × (map (λ x. x.seq_num) ps
        ≡ keep
            (λ seq. is_some (find_video_packet publisher.sender.video_data_buffer seq))
            (99 ∷ 100 ∷ []))
    × ((x : Ptr) → 2 ≢ x → told x (on_nack_received demo 2 video (99 ∷ 100 ∷ [])) ≡ [])
on_nack_received-resends_example =
    on_nack_received-resends demo 2 0 (player 9 false) publisher video (99 ∷ 100 ∷ []) demo_facts.4
      refl demo_facts.1 demo_facts.0

stop_push-by_owner_example :
    (7 ≡ publisher.uid
      → (find_push_stream (stop_push demo 7 "room").0 "room" ≡ none)
        × ((stop_push demo 7 "room").0.heap 0 ≡ none))
    × (7 ≢ publisher.uid → (stop_push demo 7 "room").0 ≡ demo)
stop_push-by_owner_example =
    stop_push-by_owner demo demo-Inv 7 "room" 0 publisher demo_facts.1 demo_facts.0

create_pull_stream-leaks_example :
    ((create_pull_stream demo 6 "room" "transparent").0.heap 3 ≡ some (player 5 true))
    × ((j : String) → (create_pull_stream demo 6 "room" "transparent").0.push_streams j ≢ some 3)
    × ((j : String) → (create_pull_stream demo 6 "room" "transparent").0.pull_streams j ≢ some 3)
    × ((u : ℕ) (j : String)
        → find_pull_stream_m (create_pull_stream demo 6 "room" "transparent").0 u j ≢ some 3)
unfolding find_push_stream
create_pull_stream-leaks_example =
    create_pull_stream-leaks demo 6 "room" "transparent" 3 0 (player 5 true) publisher demo-Inv refl
      demo_facts.1 demo_facts.0 demo_facts.3 demo_facts.5 (λ e. omega arith)
