-- ===== src/Stream/Manager/Handlers.antt =====
-- The operations and callbacks of RtcStreamManager over its registries. What the callbacks hand to
-- other streams is returned as a list, oldest first; a return code is an integer.
use xrtc_server.Base.{
  ℕ, suc, Bool, true, false, List, [], ◌∷◌, Option, none, some, ◌==◌, if◌then◌else◌,
}
use xrtc_server.Base.Int.{ℤ, pos, negsuc}
use Prim.Native.String.{String}
use text.Mathlib.Text.{◌==◌ as str_eq}
use xrtc_server.Stream.Packet.{MediaType, RtcPacket}
use xrtc_server.Stream.Push.{PushStream, init, find_video_packet}
use xrtc_server.Stream.Manager.State.{
  RtcStreamType, push, pull, StreamParams, RtcStream, Ptr, Manager, UserStreamMap, update, store,
  users, find_push_stream, find_pull_stream, find_pull_stream_m, remove_push_stream,
  remove_pull_stream, remove_pull_stream_m, add_pull_stream_m,
}

-- src/pc/peer_connection_def.h
pub data PeerConnectionState : Type 0 where
  new connecting connected disconnected failed closed : PeerConnectionState

-- PeerConnection::set_mode
abbrev pub is_transparent : String → Bool
is_transparent mode = str_eq "transparent" mode

abbrev pub new_stream :
    RtcStreamType → ℕ → String → Bool → (MediaType → List StreamParams) → RtcStream
new_stream kind uid name transparent source = record {
  stream_type = kind;
  uid = uid;
  stream_name = name;
  transparent = transparent;
  remote = λ m. none;
  source = source;
  sender = init;
}

-- A publisher of the same name is dropped first, whoever it is.
abbrev pub drop_push : Manager → String → Option Ptr → Manager
drop_push m name none = m
drop_push m name (some p) = record m {
  push_streams = update m.push_streams name none;
  heap = store m.heap p none;
}

abbrev pub place_push : Manager → ℕ → String → String → Manager
place_push m uid name mode = record m {
  push_streams = update m.push_streams name (some m.next);
  heap = store m.heap m.next (some (new_stream push uid name (is_transparent mode) (λ k. [])));
  next = suc m.next;
}

unfoldable pub create_push_stream : Manager → ℕ → String → String → Manager × ℤ
unfolding init
create_push_stream m uid name mode =
    (place_push (drop_push m name (find_push_stream m name)) uid name mode, pos 0)

-- PushStream::GetSource: the tracks of the description, none without one.
abbrev pub tracks : RtcStream → MediaType → List StreamParams
tracks s k = elim (s.remote k) [ none ↦ [] | some ts ↦ ts ]

abbrev pub place_pull : Manager → ℕ → String → String → (MediaType → List StreamParams) → Manager
place_pull m uid name mode source =
    let s = new_stream pull uid name (is_transparent mode) source in
    let m' = record m { heap = store m.heap m.next (some s); next = suc m.next } in
    if s.transparent
    then record m' { pull_streams = update m.pull_streams name (some m.next) }
    else add_pull_stream_m m' m.next s

-- The player of this uid that pulls the stream in this mode goes first.
abbrev pub drop_pull : Manager → ℕ → String → String → Manager
drop_pull m uid name mode =
    if is_transparent mode then remove_pull_stream m uid name else remove_pull_stream_m m uid name

unfoldable pub create_pull_stream : Manager → ℕ → String → String → Manager × ℤ
unfolding init
create_pull_stream m uid name mode = elim (find_push_stream m name) [
  | none ↦ (m, negsuc 0)
  | some p ↦ elim (m.heap p) [
    | none ↦ (m, negsuc 0)
    | some publisher ↦
        (place_pull (drop_pull m uid name mode) uid name mode (tracks publisher), pos 0)
  ]
]

-- SetRemoteSdp is PeerConnection's: `parse` gives what the answer says of each medium.
module _ (parse : String → MediaType → Option (List StreamParams)) where
  unfoldable pub set_remote : Manager → Option Ptr → ℕ → String → Manager × ℤ
  set_remote m none uid answer = (m, negsuc 0)
  set_remote m (some p) uid answer = elim (m.heap p) [
    | none ↦ (m, negsuc 0)
    | some s ↦
        if uid == s.uid
        then (record m { heap = store m.heap p (some (record s { remote = parse answer })) }, pos 0)
        else (m, negsuc 0)
  ]

  unfoldable pub set_answer : Manager → ℕ → String → String → String → String → Manager × ℤ
  unfolding set_remote
  set_answer m uid name answer stream_type mode =
      if str_eq "push" stream_type
      then set_remote m (find_push_stream m name) uid answer
      else if str_eq "pull" stream_type
      then set_remote m
          (if is_transparent mode then find_pull_stream m name else find_pull_stream_m m uid name)
          uid answer
      else (m, pos 0)

unfoldable pub stop_push : Manager → ℕ → String → Manager × ℤ
stop_push m uid name = (remove_push_stream m uid name, pos 0)

unfoldable pub stop_pull : Manager → ℕ → String → String → Manager × ℤ
stop_pull m uid name mode = (
  if is_transparent mode then remove_pull_stream m uid name else remove_pull_stream_m m uid name,
  pos 0,
)

-- RemovePushStream(stream), RemovePullStream(stream) or RemovePullStreamM(stream).
unfoldable pub remove_stream : Manager → RtcStream → Manager
remove_stream m s = elim s.stream_type [
  | push ↦ remove_push_stream m s.uid s.stream_name
  | pull ↦
      if s.transparent
      then remove_pull_stream m s.uid s.stream_name
      else remove_pull_stream_m m s.uid s.stream_name
]

-- The callbacks get the address of the stream that calls.
abbrev pub at_stream : Manager → Ptr → (RtcStream → Manager) → Manager
at_stream m p f = elim (m.heap p) [ none ↦ m | some s ↦ f s ]

unfoldable pub on_stream_exception : Manager → Ptr → Manager
on_stream_exception m p = at_stream m p (remove_stream m)

unfoldable pub on_connection_state : Manager → Ptr → PeerConnectionState → Manager
on_connection_state m p failed = at_stream m p (remove_stream m)
on_connection_state m p new = m
on_connection_state m p connecting = m
on_connection_state m p connected = m
on_connection_state m p disconnected = m
on_connection_state m p closed = m

-- What a stream is told to do: PullStream::SendPacket with its flag `is_retransmit`, SendRtp,
-- SendRtcp, and PullStream::SetSrInfo with an RTP time and an NTP time.
pub data Act : Type 0 where
  send_packet : MediaType → RtcPacket → Bool → Act
  send_rtp : List ℕ → Act
  send_rtcp : List ℕ → Act
  set_sr_info : MediaType → ℕ → ℕ → Act

abbrev pub Acts : Type 0
Acts = List (Ptr × Act)

abbrev pub to_all : Act → UserStreamMap → Acts
to_all a [] = []
to_all a ((uid, p) ∷ us) = (p, a) ∷ to_all a us

abbrev pub to_one : Act → Option Ptr → Acts
to_one a none = []
to_one a (some p) = (p, a) ∷ []

abbrev pub from_stream : Manager → Ptr → (RtcStream → Acts) → Acts
from_stream m p f = elim (m.heap p) [ none ↦ [] | some s ↦ f s ]

unfoldable pub on_rtp_packet : Manager → Ptr → MediaType → RtcPacket → Acts
on_rtp_packet m p k packet = from_stream m p λ s. elim s.stream_type [
  | push ↦ to_all (send_packet k packet false) (users (m.multi_pull_streams s.stream_name))
  | pull ↦ []
]

unfoldable pub on_rtp_packet_received : Manager → Ptr → List ℕ → Acts
on_rtp_packet_received m p bytes = from_stream m p λ s. elim s.stream_type [
  | push ↦ if s.transparent then to_one (send_rtp bytes) (find_pull_stream m s.stream_name) else []
  | pull ↦ []
]

unfoldable pub on_rtcp_packet_received : Manager → Ptr → List ℕ → Acts
on_rtcp_packet_received m p bytes = from_stream m p λ s.
    if s.transparent
    then elim s.stream_type [
      | push ↦ to_one (send_rtcp bytes) (find_pull_stream m s.stream_name)
      | pull ↦ to_one (send_rtcp bytes) (find_push_stream m s.stream_name)
    ]
    else []

unfoldable pub on_sr_info : Manager → Ptr → MediaType → ℕ → ℕ → Acts
on_sr_info m p k time ntp = from_stream m p λ s. if s.transparent then [] else elim s.stream_type [
  | push ↦ to_all (set_sr_info k time ntp) (users (m.multi_pull_streams s.stream_name))
  | pull ↦ []
]

-- The loop over the numbers that a player misses.
unfoldable pub resend : PushStream → Ptr → MediaType → List ℕ → Acts
resend sender p k [] = []
resend sender p k (seq ∷ seqs) = elim (find_video_packet sender.video_data_buffer seq) [
  | none ↦ resend sender p k seqs
  | some packet ↦ (p, send_packet k packet true) ∷ resend sender p k seqs
]

unfoldable pub on_nack_received : Manager → Ptr → MediaType → List ℕ → Acts
on_nack_received m p k nack_list = from_stream m p λ s. elim s.stream_type [
  | push ↦ []
  | pull ↦ elim (find_push_stream m s.stream_name) [
    | none ↦ []
    | some q ↦ from_stream m q λ publisher. resend publisher.sender p k nack_list
  ]
]
