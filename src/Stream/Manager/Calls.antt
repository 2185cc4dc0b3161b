-- ===== src/Stream/Manager/Calls.antt =====
-- Histories of RtcStreamManager: every call and callback that changes its state.
use xrtc_server.Base.{ℕ, ◌≡◌, refl, List, [], ◌∷◌, ◌++◌, Option, none, some, inl, inr, Option-cases}
use Prim.Native.String.{String}
use xrtc_server.Base.Seq.{SeqNum}
use xrtc_server.Stream.Packet.{MediaType, RtcPacket}
use xrtc_server.Stream.Push.Runs.{Event, step}
use xrtc_server.Stream.Manager.State.{
  RtcStreamType, push, pull, RtcStream, Ptr, Manager, StreamParams,
}
use xrtc_server.Stream.Manager.Handlers.{
  PeerConnectionState, Acts, create_push_stream, create_pull_stream, set_answer, stop_push,
  stop_pull, on_connection_state, on_stream_exception, on_rtp_packet,
}
use xrtc_server.Stream.Manager.Invariant.{Inv}
use xrtc_server.Stream.Manager.Stops.{
  stop_push-Inv, stop_pull-Inv, on_connection_state-Inv, on_stream_exception-Inv,
}
use xrtc_server.Stream.Manager.Creation.{create_push_stream-Inv, create_pull_stream-Inv}
use xrtc_server.Stream.Manager.Updates.{set_answer-Inv, set_sender, set_sender-Inv}

-- The listener's OnRtpPacket, once for each packet that a publisher hands on.
unfoldable pub tell_all : Manager → Ptr → List (MediaType × RtcPacket) → Acts
tell_all m p [] = []
tell_all m p ((k, packet) ∷ out) = on_rtp_packet m p k packet ++ tell_all m p out

abbrev pub received : SeqNum → Manager → Ptr → Event → RtcStream → RtcStreamType → Manager × Acts
received c m p e s pull = (m, [])
received c m p e s push =
    let m' = set_sender m p s (step c s.sender e).0 in (m', tell_all m' p (step c s.sender e).1)

-- A packet or a frame arrives at the publisher that lives at an address.
unfoldable pub receive : SeqNum → Manager → Ptr → Event → Manager × Acts
receive c m p e = elim (m.heap p) [ none ↦ (m, []) | some s ↦ received c m p e s s.stream_type ]

pub data Call : Type 0 where
  creates_push : ℕ → String → String → Call
  creates_pull : ℕ → String → String → Call
  sets_answer : ℕ → String → String → String → String → Call
  stops_push : ℕ → String → Call
  stops_pull : ℕ → String → String → Call
  changes_state : Ptr → PeerConnectionState → Call
  fails : Ptr → Call
  receives : Ptr → Event → Call

unfoldable pub init : Manager
init = record {
  push_streams = λ name. none;
  pull_streams = λ name. none;
  multi_pull_streams = λ name. none;
  heap = λ p. none;
  next = 0;
}

module _ (c : SeqNum) (parse : String → MediaType → Option (List StreamParams)) where
  unfoldable pub call : Manager → Call → Manager
  call m (creates_push uid name mode) = (create_push_stream m uid name mode).0
  call m (creates_pull uid name mode) = (create_pull_stream m uid name mode).0
  call m (sets_answer uid name answer kind mode) = (set_answer parse m uid name answer kind mode).0
  call m (stops_push uid name) = (stop_push m uid name).0
  call m (stops_pull uid name mode) = (stop_pull m uid name mode).0
  call m (changes_state p st) = on_connection_state m p st
  call m (fails p) = on_stream_exception m p
  call m (receives p e) = (receive c m p e).0

  unfoldable pub calls : Manager → List Call → Manager
  calls m [] = m
  calls m (x ∷ xs) = calls (call m x) xs

  receive-Inv : (m : Manager) (p : Ptr) (e : Event) → Inv m → Inv (receive c m p e).0
  unfolding receive
  receive-Inv m p e v = elim (Option-cases (m.heap p)) [
    | inl d ↦ rw (d, receive) v
    | inr (s, d) ↦ rw (d, receive) (by_type s.stream_type s d)
  ]
    where
      by_type :
          (t : RtcStreamType) (s : RtcStream) → m.heap p ≡ some s → Inv (received c m p e s t).0
      by_type push s d = set_sender-Inv m v p s (step c s.sender e).0 d
      by_type pull s d = v

  call-Inv : (m : Manager) (x : Call) → Inv m → Inv (call m x)
  unfolding call
  call-Inv m (creates_push uid name mode) v = create_push_stream-Inv m v uid name mode
  call-Inv m (creates_pull uid name mode) v = create_pull_stream-Inv m v uid name mode
  call-Inv m (sets_answer uid name answer kind mode) v =
      set_answer-Inv m v parse uid name answer kind mode
  call-Inv m (stops_push uid name) v = stop_push-Inv m v uid name
  call-Inv m (stops_pull uid name mode) v = stop_pull-Inv m v uid name mode
  call-Inv m (changes_state p st) v = on_connection_state-Inv m v p st
  call-Inv m (fails p) v = on_stream_exception-Inv m v p
  call-Inv m (receives p e) v = receive-Inv m p e v

  calls-Inv : (m : Manager) (xs : List Call) → Inv m → Inv (calls m xs)
  unfolding calls
  calls-Inv m [] v = v
  calls-Inv m (x ∷ xs) v = calls-Inv (call m x) xs (call-Inv m x v)

  -- After any history of calls and callbacks every entry of the three registries points to a live
  -- stream of the entry's kind and name, no player is listed twice under one uid, and no empty map
  -- of players is kept.
  pub calls-init-Inv : (xs : List Call) → Inv (calls init xs)
  unfolding init
  calls-init-Inv xs = calls-Inv init xs (record {
    push_ok = λ n p e. cc;
    pull_ok = λ n p e. cc;
    multi_ok = λ n us e. cc;
    fresh = λ p h. refl;
  })
