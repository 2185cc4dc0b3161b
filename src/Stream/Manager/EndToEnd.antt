-- ===== src/Stream/Manager/EndToEnd.antt =====
-- From the publisher's packet to the players, and from a player's NACK to the retransmission.
use xrtc_server.Base.{
  ℕ, ◌+◌, ◌%◌, ◌<◌, ◌≡◌, refl, ap, ◌≢◌, Bool, true, false, List, [], ◌∷◌, map, some, inl, inr,
  Option-cases, ◌==◌, ==_refl, if◌then◌else◌, is_some, length, arith,
}
use xrtc_server.Base.Seq.{SeqNum, SeqLaws, next16}
use xrtc_server.Base.Int.{negsuc}
use xrtc_server.Stream.Packet.{MediaType, video, RtcPacket, RtpPacketReceived}
use xrtc_server.Stream.Push
use xrtc_server.Stream.Push.{PushStream, find_video_packet, process_video_packet, to_packet}
use xrtc_server.Stream.Push.Cache.{find_sound}
use xrtc_server.Stream.Push.Loop.{Consecutive}
use xrtc_server.Stream.Push.Forward.{IsArrival, process_video_packet-Continues}
use xrtc_server.Stream.Push.Forward as Forward
use xrtc_server.Stream.Push.Runs.{rtp, step}
use xrtc_server.Stream.Manager.State.{
  push, pull, RtcStream, Ptr, Manager, find_push_stream, find_pull_stream_m,
}
use xrtc_server.Stream.Manager.Handlers.{Act, send_packet, from_stream, on_nack_received, resend}
use xrtc_server.Stream.Manager.Invariant.{Inv}
use xrtc_server.Stream.Manager.Updates.{set_sender, set_sender-Inv}
use xrtc_server.Stream.Manager.Calls.{receive, received, tell_all}
use xrtc_server.Stream.Manager.Delivery.{told, told-append, on_rtp_packet-fan_out}

abbrev pub sends : Bool → MediaType → List RtcPacket → List Act
sends again k [] = []
sends again k (packet ∷ ps) = send_packet k packet again ∷ sends again k ps

told-tell_all :
    (m : Manager) (v : Inv m) (p : Ptr) (s : RtcStream) (uid : ℕ) (q : Ptr) (ps : List RtcPacket)
    → m.heap p ≡ some s
    → s.stream_type ≡ push
    → find_pull_stream_m m uid s.stream_name ≡ some q
    → told q (tell_all m p (map (λ x. (video, x)) ps)) ≡ sends false video ps
unfolding tell_all
told-tell_all m v p s uid q [] here kind e = refl
told-tell_all m v p s uid q (x ∷ ps) here kind e =
    rw (told-append, (on_rtp_packet-fan_out m v p s here kind video x).0 uid q e)
      (ap (◌∷◌ (send_packet video x false)) (told-tell_all m v p s uid q ps here kind e))

-- A video packet that reaches a started publisher: every live player of its stream is sent the
-- same packets, none marked as a retransmission, with numbers that go on without a gap from the
-- publisher's front, and the front moves on by as many.
pub receive-in_order :
    (c : SeqNum) (laws : SeqLaws c) (m : Manager) (p : Ptr) (s : RtcStream) (r : RtpPacketReceived)
    → Inv m
    → m.heap p ≡ some s
    → s.stream_type ≡ push
    → Forward.Inv s.sender
    → s.sender.first_seq_time ≢ negsuc 0
    → s.sender.has_listener ≡ true
    → r.sequence_number < 65536
    → r.arrival_ms ≢ negsuc 0
    → (out : List RtcPacket) × Consecutive (next16 s.sender.video_seq) out
      × ((uid : ℕ) (q : Ptr)
          → find_pull_stream_m m uid s.stream_name ≡ some q
          → told q (receive c m p (rtp video r)).1 ≡ sends false video out)
      × ((step c s.sender (rtp video r)).0.video_seq ≡ (s.sender.video_seq + length out) % 65536)
unfolding receive step Push.on_rtp_packet
receive-in_order c laws m p s r v here kind sv started on wide timed =
    let packet : RtcPacket = to_packet video r in
    let (ordered, last) =
      process_video_packet-Continues c laws s.sender packet sv
        (record { wide = wide; timed = timed }) started on in
    (
      (process_video_packet c s.sender packet).1,
      ordered,
      (λ uid q e. rw whole (players uid q e)),
      last,
    )
  where
    whole : receive c m p (rtp video r) ≡ received c m p (rtp video r) s push
    whole = rw (here, receive) (ap (received c m p (rtp video r) s) kind)

    packet' : RtcPacket
    packet' = to_packet video r

    players :
        (uid : ℕ) (q : Ptr)
        → find_pull_stream_m m uid s.stream_name ≡ some q
        → told q (
            tell_all
              (set_sender m p s (process_video_packet c s.sender packet').0)
              p
              (map (λ x. (video, x)) (process_video_packet c s.sender packet').1))
          ≡ sends false video (process_video_packet c s.sender packet').1
    players uid q e =
        told-tell_all (set_sender m p s (process_video_packet c s.sender packet').0)
          (set_sender-Inv m v p s _ here) p
          (record s { sender = (process_video_packet c s.sender packet').0 }) uid q _
          (rw (==_refl p)) kind (unfold find_pull_stream_m in e)

abbrev pub keep : (ℕ → Bool) → List ℕ → List ℕ
keep f [] = []
keep f (x ∷ xs) = if f x then x ∷ keep f xs else keep f xs

resend-sends :
    (sender : PushStream) (p : Ptr) (k : MediaType) (seqs : List ℕ)
    → (ps : List RtcPacket) × (told p (resend sender p k seqs) ≡ sends true k ps)
      × (map (λ x. x.seq_num) ps
          ≡ keep (λ seq. is_some (find_video_packet sender.video_data_buffer seq)) seqs)
      × ((q : Ptr) → p ≢ q → told q (resend sender p k seqs) ≡ [])
unfolding resend
resend-sends sender p k [] = ([], refl, refl, λ q ne. refl)
resend-sends sender p k (seq ∷ seqs) =
    let (ps, sent, nums, others) = resend-sends sender p k seqs in
    elim (Option-cases (find_video_packet sender.video_data_buffer seq)) [
      | inl e ↦ (ps, rw (e, resend) sent, rw e nums, λ q ne. rw (e, resend) (others q ne))
      | inr (x, e) ↦
          let (same, _) = find_sound sender.video_data_buffer seq x e in
          (
            x ∷ ps,
            rw (e, resend) (rw (==_refl p) (ap (◌∷◌ (send_packet k x true)) sent)),
            rw (e, same) (ap (◌∷◌ seq) nums),
            λ q ne. rw (e, resend) (let f : (p == q) ≡ false = ground arith in rw f (others q ne)),
          )
    ]

-- A player's NACK: it is sent, marked as retransmissions and in the order asked for, a packet with
-- each of the numbers that its publisher has cached, and nobody else is sent anything.
pub on_nack_received-resends :
    (m : Manager) (p q : Ptr) (s publisher : RtcStream) (k : MediaType) (nack_list : List ℕ)
    → m.heap p ≡ some s
    → s.stream_type ≡ pull
    → find_push_stream m s.stream_name ≡ some q
    → m.heap q ≡ some publisher
    → (ps : List RtcPacket) × (told p (on_nack_received m p k nack_list) ≡ sends true k ps)
      × (map (λ x. x.seq_num) ps
          ≡ keep
              (λ seq. is_some (find_video_packet publisher.sender.video_data_buffer seq))
              nack_list)
      × ((x : Ptr) → p ≢ x → told x (on_nack_received m p k nack_list) ≡ [])
unfolding on_nack_received
on_nack_received-resends m p q s publisher k nack_list here kind pubs there =
    rw (here, from_stream)
      (rw kind (rw pubs (rw (there, from_stream) (resend-sends publisher.sender p k nack_list))))
