-- ===== src/Pc/Dtls/Media.antt =====
-- What src/pc/dtls_transport.cpp lets up: media after the handshake, and nothing else.
use xrtc_server.Base.{
  ◌↔◌, ℕ, ◌≤◌, ◌<◌, ◌≡◌, refl, ◌⊎◌, inl, inr, Bool, true, false, ◌&&◌, List, [], ◌∷◌, length, All,
  if◌then◌else◌, if_keep, if_true, if_false, arith, Bool-cases, ap,
}
use xrtc_server.Pc.Dtls.{
  DtlsTransport, DtlsTransportState, new, connecting, connected, closed, failed, state_rank,
  read_packet, Adapter, Done, handle_dtls_packet, nothing, read_started, read_in, on_read_packet,
  is_dtls_packet, is_rtp_packet,
}
use xrtc_server.Pc.Dtls.Emissions.{Quiet, Grounded, HasAdapter, handle-HasAdapter}
use xrtc_server.Pc.Dtls.Handlers.{read_early-Grounded, adapter_of}
use xrtc_server.Rtp.Histogram.{at}

-- RTP or RTCP by its first two bits, and long enough.
abbrev pub IsMedia : List ℕ → Type 0
IsMedia packet = (12 ≤ length packet) × (128 ≤ at packet 0) × (at packet 0 < 192)

is_rtp_packet_lem : (packet : List ℕ) → (is_rtp_packet packet ≡ true) ↔ IsMedia packet
unfolding is_rtp_packet
is_rtp_packet_lem packet = ground arith

media_not_dtls : (packet : List ℕ) → IsMedia packet → is_dtls_packet packet ≡ false
unfolding is_dtls_packet
media_not_dtls packet h = ground arith

-- A packet goes up, and the transport stays; or it is not to, and nothing goes up.
abbrev pub Passes : DtlsTransport → List ℕ → Done → Type 0
Passes t packet d =
    ((state_rank t.dtls_state ≡ 2) × IsMedia packet × (d ≡ (t, read_packet packet ∷ [])))
    ⊎ (((state_rank t.dtls_state ≡ 2) → IsMedia packet → ⊥) × All Quiet d.1)

-- While the handshake is under way.
handshake-Passes :
    (a : Adapter) (packet : List ℕ) (t : DtlsTransport)
    → HasAdapter t
    → All Quiet (read_started a false packet t).1
unfolding read_started
handshake-Passes a packet t h =
    if_keep (λ (d : Done). All Quiet d.1) (is_dtls_packet packet)
      (handle_dtls_packet a packet nothing t) (t, [])
      (handle-HasAdapter a packet nothing t (λ (u : DtlsTransport) k. (k, tt)) h).1 tt

media_Passes :
    (packet : List ℕ) (t : DtlsTransport)
    → state_rank t.dtls_state ≡ 2
    → Passes t packet
        (if true && is_rtp_packet packet then (t, read_packet packet ∷ []) else (t, []))
media_Passes packet t s = elim (Bool-cases (is_rtp_packet packet)) [
  | inl r ↦
      if_true (Passes t packet) (is_rtp_packet packet) (t, read_packet packet ∷ []) (t, []) r
        (inl (s, (is_rtp_packet_lem packet).0 r, refl))
  | inr r ↦
      if_false (Passes t packet) (is_rtp_packet packet) (t, read_packet packet ∷ []) (t, []) r
        (inr (λ c m. let n = (is_rtp_packet_lem packet).1 m in absurd cc, tt))
]

connected-Passes :
    (a : Adapter) (packet : List ℕ) (t : DtlsTransport)
    → state_rank t.dtls_state ≡ 2
    → HasAdapter t
    → Passes t packet (read_started a true packet t)
unfolding read_started
connected-Passes a packet t s h = elim (Bool-cases (is_dtls_packet packet)) [
  | inl e ↦
      let taken = handle-HasAdapter a packet nothing t (λ (u : DtlsTransport) k. (k, tt)) h in
      rw e (inr (λ r m. let n = media_not_dtls packet m in absurd cc, taken.1))
  | inr e ↦ rw e (media_Passes packet t s)
]

read_in-Passes :
    (s : DtlsTransportState) (a : Adapter) (suites w : Bool) (packet : List ℕ) (t : DtlsTransport)
    → t.dtls_state ≡ s
    → Grounded t
    → Passes t packet (read_in s a suites w packet t)
unfolding read_in
read_in-Passes new a suites w packet t e g =
    let r = ap state_rank e in
    inr (λ c m. omega arith, (read_early-Grounded a suites w packet t r).1)
read_in-Passes connecting a suites w packet t e g =
    let r = ap state_rank e in
    inr (λ c m. omega arith, handshake-Passes a packet t (adapter_of t g (inl r)))
read_in-Passes connected a suites w packet t e g =
    let r = ap state_rank e in connected-Passes a packet t r (adapter_of t g (inr r))
read_in-Passes closed a suites w packet t e g =
    let r = ap state_rank e in inr (λ c m. omega arith, tt)
read_in-Passes failed a suites w packet t e g =
    let r = ap state_rank e in inr (λ c m. omega arith, tt)

-- A packet that the ICE channel brings goes up, unchanged and with the transport as it was, when the
-- handshake is complete and the packet is RTP or RTCP of twelve bytes at least; else nothing goes up
-- and no adapter is used that is not there, whatever the adapter does with the packet.
pub on_read_packet-Passes :
    (a : Adapter) (suites w : Bool) (packet : List ℕ) (t : DtlsTransport)
    → Grounded t
    → Passes t packet (on_read_packet a suites w packet t)
on_read_packet-Passes a suites w packet t g = read_in-Passes t.dtls_state a suites w packet t refl g
