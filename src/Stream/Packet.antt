-- ===== src/Stream/Packet.antt =====
-- src/stream/rtc_packet.h and the parts of src/stream/rtc_stream.h that identify a stream.
use xrtc_server.Base.{ℕ, Bool, List}
use xrtc_server.Base.Int.{ℤ}

-- The two of webrtc's media types that the server names.
pub data MediaType : Type 0 where
  audio video : MediaType

-- `buf` holds the bytes, so `len` is its length.
pub record RtcPacket : Type 0 where
  pub seq_num : ℕ
  pub media_type : MediaType
  pub is_keyframe : Bool
  pub ts : ℤ
  pub buf : List ℕ

-- What the server reads of a webrtc::RtpPacketReceived: its sequence number, the milliseconds of
-- its arrival time and its bytes.
pub record RtpPacketReceived : Type 0 where
  pub sequence_number : ℕ
  pub arrival_ms : ℤ
  pub bytes : List ℕ

-- What the server reads of an RtpFrameObject.
pub record RtpFrameObject : Type 0 where
  pub is_key : Bool
  pub first_seq_num : ℕ
  pub last_seq_num : ℕ
