-- ===== src/Stream/Push/Runs.antt =====
-- Histories of a publisher: any arrivals and key frames, in any order.
use xrtc_server.Base.{
  ℕ, suc, ◌+◌, ◌%◌, ◌<◌, ◌≡◌, refl, ◌∙◌, ap, ◌≢◌, true, List, [], ◌∷◌, ◌++◌, map, Option, none,
  some, length, All, arith,
}
use xrtc_server.Base.Int.{negsuc}
use xrtc_server.Base.Seq.{SeqNum, SeqLaws, next16}
use xrtc_server.Stream.Packet.{
  MediaType, audio, video, RtcPacket, RtpPacketReceived, RtpFrameObject,
}
use xrtc_server.Stream.Push.{
  PushStream, init, on_rtp_packet, on_frame, process_video_packet, to_packet,
}
use xrtc_server.Stream.Push.Cache.{find_none}
use xrtc_server.Stream.Push.Loop.{Consecutive}
use xrtc_server.Stream.Push.Forward.{
  Inv, IsArrival, process_video_packet-Inv, process_video_packet-Continues,
  process_video_packet-started,
}
use xrtc_server.Stream.Push.Restart.{on_frame-Inv}

pub data Event : Type 0 where
  rtp : MediaType → RtpPacketReceived → Event
  frame : Option RtpFrameObject → Event

unfoldable pub step : SeqNum → PushStream → Event → PushStream × List (MediaType × RtcPacket)
step c s (rtp m r) = on_rtp_packet c s m r
step c s (frame fr) = let (s', ps) = on_frame c s fr in (s', map (λ p. (video, p)) ps)

unfoldable pub run : SeqNum → PushStream → List Event → PushStream × List (MediaType × RtcPacket)
run c s [] = (s, [])
run c s (e ∷ es) = let (s', out) = step c s e in let (s'', more) = run c s' es in (s'', out ++ more)

-- Sequence numbers have 16 bits, and no packet arrives at the time -1.
abbrev pub IsEvent : Event → Type 0
IsEvent (rtp m r) = (r.sequence_number < 65536) × (r.arrival_ms ≢ negsuc 0)
IsEvent (frame none) = Unit {0}
IsEvent (frame (some r)) = r.first_seq_num < 65536

abbrev pub videos : List (MediaType × RtcPacket) → List RtcPacket
videos [] = []
videos ((audio, p) ∷ out) = videos out
videos ((video, p) ∷ out) = p ∷ videos out

videos-append : (a b : List (MediaType × RtcPacket)) → videos (a ++ b) ≡ videos a ++ videos b
videos-append [] b = refl
videos-append ((audio, p) ∷ a) b = videos-append a b
videos-append ((video, p) ∷ a) b = ap (◌∷◌ p) (videos-append a b)

videos-map_video : (ps : List RtcPacket) → videos (map (λ p. (video, p)) ps) ≡ ps
videos-map_video [] = refl
videos-map_video (p ∷ ps) = ap (◌∷◌ p) (videos-map_video ps)

videos-map_audio : (ps : List RtcPacket) → videos (map (λ p. (audio, p)) ps) ≡ []
videos-map_audio [] = refl
videos-map_audio (p ∷ ps) = videos-map_audio ps

init-Inv : Inv init
unfolding init
init-Inv = record {
  slots = λ i p e. cc;
  fresh = λ e i. refl;
  gap = find_none _ _ refl;
  range = omega arith;
}

module _ (c : SeqNum) (laws : SeqLaws c) where
  step-Inv : (s : PushStream) (e : Event) → IsEvent e → Inv s → Inv (step c s e).0
  unfolding step on_rtp_packet
  step-Inv s (rtp video r) (wide, timed) v =
      process_video_packet-Inv c laws s (to_packet video r) v
        (record { wide = wide; timed = timed })
  step-Inv s (rtp audio r) h v = v
  step-Inv s (frame none) h v = on_frame-Inv c laws s none v (λ r e. cc)
  step-Inv s (frame (some r)) h v =
      on_frame-Inv c laws s (some r) v (λ q e. let e' : r ≡ q = cc in rw (← e') h)

  run-Inv : (s : PushStream) (es : List Event) → All IsEvent es → Inv s → Inv (run c s es).0
  unfolding run
  run-Inv s [] h v = v
  run-Inv s (e ∷ es) (h, hs) v = run-Inv (step c s e).0 es hs (step-Inv s e h v)

  -- After any history of a publisher every cached packet lies in the slot of its number, and the
  -- number after the last one that was handed on is not cached: nothing that could go on is held.
  pub run-init-Inv : (es : List Event) → All IsEvent es → Inv (run c init es).0
  run-init-Inv es h = run-Inv init es h init-Inv

Consecutive-append :
    (n : ℕ) (xs ys : List RtcPacket)
    → n < 65536
    → Consecutive n xs
    → Consecutive ((n + length xs) % 65536) ys
    → Consecutive n (xs ++ ys)
Consecutive-append n [] ys h a b = let e : (n + 0) % 65536 ≡ n = omega arith in rw e at b
Consecutive-append n (x ∷ xs) ys h (e, a) b =
    let q : (n + suc (length xs)) % 65536 ≡ (next16 n + length xs) % 65536 = omega arith in
    (e, Consecutive-append (next16 n) xs ys (omega arith) a (rw q at b))

abbrev pub arrivals : List (MediaType × RtpPacketReceived) → List Event
arrivals [] = []
arrivals ((m, r) ∷ rs) = rtp m r ∷ arrivals rs

module _ (c : SeqNum) (laws : SeqLaws c) where
  -- Between two key-frame restarts the video packets handed on carry consecutive numbers, from the
  -- one after the front, whatever arrives: losses, repeats, late packets, audio in between.
  pub run-in_order :
      (s : PushStream) (rs : List (MediaType × RtpPacketReceived))
      → Inv s
      → s.first_seq_time ≢ negsuc 0
      → s.has_listener ≡ true
      → All IsEvent (arrivals rs)
      → Consecutive (next16 s.video_seq) (videos (run c s (arrivals rs)).1)
  unfolding run step on_rtp_packet
  run-in_order s [] v st on h = tt
  run-in_order s ((audio, r) ∷ rs) v st on (h, hs) =
      rw (videos-append, videos-map_audio) (run-in_order s rs v st on hs)
  run-in_order s ((video, r) ∷ rs) v st on (h, hs) =
      let p : RtcPacket = to_packet video r in
      let a : IsArrival p = record { wide = h.0; timed = h.1 } in
      let out : List RtcPacket = (process_video_packet c s p).1 in
      let (front, last) = process_video_packet-Continues c laws s p v a st on in
      let (st', same) = process_video_packet-started c laws s p v a in
      let w = v.range in
      let later =
        run-in_order (process_video_packet c s p).0 rs (process_video_packet-Inv c laws s p v a) st'
          (same ∙ on) hs in
      let e : next16 (process_video_packet c s p).0.video_seq
          ≡ (next16 s.video_seq + length out) % 65536 =
        omega (arith, last) in
      rw (videos-append, videos-map_video)
        (Consecutive-append (next16 s.video_seq) out _ (omega arith) front (rw e at later))
