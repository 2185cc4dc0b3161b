-- ===== src/Stream/Push.antt =====
-- src/stream/push_stream.cpp: the cache of a publisher's video packets, and the control that hands
-- them to the players in order. Calls of the listener are returned as a list, oldest first.
-- The vector of 2048 slots is a function of the index, which the code always reduces modulo 2048.
pub mod Cache
pub mod Loop
pub mod Forward
pub mod Restart
pub mod Runs
mod Examples
use xrtc_server.Base.{
  ℕ, zero, suc, ◌+◌, ◌%◌, Bool, true, false, not, ◌&&◌, List, [], ◌∷◌, map, Option, none, some,
  ◌==◌, if◌then◌else◌,
}
use xrtc_server.Base.Int.{ℤ, pos, negsuc}
use xrtc_server.Base.Seq.{SeqNum, next16, prev16}
use xrtc_server.Stream.Packet.{
  MediaType, audio, video, RtcPacket, RtpPacketReceived, RtpFrameObject,
}

abbrev pub cache_size : ℕ
cache_size = 2048

abbrev pub Buffer : Type 0
Buffer = ℕ → Option RtcPacket

pub record PushStream : Type 0 where
  pub video_data_buffer : Buffer
  pub video_seq : ℕ
  pub first_seq_time : ℤ
  pub has_listener : Bool

unfoldable pub init : PushStream
init = record {
  video_data_buffer = λ i. none;
  video_seq = 0;
  first_seq_time = negsuc 0;
  has_listener = true;
}

abbrev pub update : Buffer → ℕ → Option RtcPacket → Buffer
update f i p j = if i == j then p else f j

-- `video_data_buffer_[index] && video_data_buffer_[index]->seq_num == seq_num`
abbrev pub holds : Option RtcPacket → ℕ → Bool
holds none seq = false
holds (some p) seq = p.seq_num == seq

unfoldable pub find_video_packet : Buffer → ℕ → Option RtcPacket
find_video_packet f seq = if holds (f (seq % cache_size)) seq then f (seq % cache_size) else none

unfoldable pub cache_video_packet : Buffer → RtcPacket → Buffer
cache_video_packet f p =
    if holds (f (p.seq_num % cache_size)) p.seq_num
    then f
    else update f (p.seq_num % cache_size) (some p)

-- The do-while loop shared by ProcessVideoPacket and OnFrame, at most `rounds` bodies long; it ends
-- early at a number that is not cached. Returns the number it stopped at and what it handed on.
unfoldable pub forward_loop : ℕ → Buffer → ℕ → ℕ × List RtcPacket
forward_loop zero f seq = (seq, [])
forward_loop (suc rounds) f seq = elim (find_video_packet f seq) [
  | none ↦ (seq, [])
  | some p ↦ let r = forward_loop rounds f (next16 seq) in (r.0, p ∷ r.1)
]

-- `do … while (test_size <= kVideoPacketCacheSize)` with test_size from 0 has one round more.
abbrev pub max_rounds : ℕ
max_rounds = 2049

-- The while loop of ClearVideoPacketCache, with its bound `test_size <= kVideoPacketCacheSize`.
unfoldable pub clear_loop : SeqNum → ℕ → Buffer → ℕ → ℕ → Buffer
clear_loop c zero f start end = f
clear_loop c (suc rounds) f start end = elim (c.ahead_or_at end start) [
  | true ↦ clear_loop c rounds (update f (start % cache_size) none) (next16 start) end
  | false ↦ f
]

unfoldable pub clear_video_packet_cache : SeqNum → Buffer → ℕ → ℕ → Buffer
clear_video_packet_cache c f start end = clear_loop c max_rounds f start end

abbrev is_minus_one : ℤ → Bool
is_minus_one (negsuc zero) = true
is_minus_one (negsuc (suc n)) = false
is_minus_one (pos n) = false

-- `if (listener_) listener_->OnRtpPacket(this, VIDEO, p)` for each packet.
abbrev pub tell : PushStream → List RtcPacket → List RtcPacket
tell s ps = if s.has_listener then ps else []

advance : PushStream → ℕ × List RtcPacket → PushStream × List RtcPacket
advance s (seq, ps) = (record s { video_seq = prev16 seq }, tell s ps)

unfoldable pub process_video_packet : SeqNum → PushStream → RtcPacket → PushStream × List RtcPacket
unfolding advance
process_video_packet c s p =
    if is_minus_one s.first_seq_time
    then (record cached { video_seq = p.seq_num; first_seq_time = p.ts }, tell s (p ∷ []))
    else if c.ahead_or_at s.video_seq p.seq_num
    then (cached, [])
    else if not (p.seq_num == next16 s.video_seq)
    then (cached, [])
    else advance cached (forward_loop max_rounds cached.video_data_buffer p.seq_num)
  where
    cached : PushStream
    cached = record s { video_data_buffer = cache_video_packet s.video_data_buffer p }

restart : SeqNum → PushStream → ℕ → ℕ × List RtcPacket → PushStream × List RtcPacket
restart c s start (seq, ps) = (
  record s {
    video_data_buffer =
        clear_video_packet_cache c s.video_data_buffer (next16 s.video_seq) (prev16 start);
    video_seq = prev16 seq;
  },
  tell s ps,
)

-- `none` is a null frame.
unfoldable pub on_frame : SeqNum → PushStream → Option RtpFrameObject → PushStream × List RtcPacket
unfolding restart
on_frame c s none = (s, [])
on_frame c s (some frame) =
    if frame.is_key && c.ahead_of frame.first_seq_num s.video_seq
    then restart c s frame.first_seq_num
        (forward_loop max_rounds s.video_data_buffer frame.first_seq_num)
    else (s, [])

unfoldable pub to_packet : MediaType → RtpPacketReceived → RtcPacket
to_packet m r = record {
  seq_num = r.sequence_number;
  media_type = m;
  is_keyframe = false;
  ts = r.arrival_ms;
  buf = r.bytes;
}

unfoldable pub on_rtp_packet :
    SeqNum → PushStream → MediaType → RtpPacketReceived → PushStream × List (MediaType × RtcPacket)
unfolding to_packet
on_rtp_packet c s video r =
    let (s', ps) = process_video_packet c s (to_packet video r) in (s', map (λ p. (video, p)) ps)
on_rtp_packet c s audio r = (s, map (λ p. (audio, p)) (tell s (to_packet audio r ∷ [])))
