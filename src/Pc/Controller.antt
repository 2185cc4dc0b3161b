-- ===== src/Pc/Controller.antt =====
-- src/pc/transport_controller.cpp: the state of the connection from the states of its transports.
pub mod States
mod Examples
use xrtc_server.Base.{
  ℕ, suc, ◌+◌, ◌*◌, Bool, true, false, List, [], ◌∷◌, Option, none, some, ltb, ◌==◌, length,
  if◌then◌else◌,
}
use xrtc_server.Stream.Manager.Handlers.{PeerConnectionState}
use xrtc_server.Ice.Channel.{IceTransportState, rank as ice_rank}
use xrtc_server.Pc.Dtls.{DtlsTransportState, state_rank}

abbrev pub pc_rank : PeerConnectionState → ℕ
pc_rank PeerConnectionState.new = 0
pc_rank PeerConnectionState.connecting = 1
pc_rank PeerConnectionState.connected = 2
pc_rank PeerConnectionState.disconnected = 3
pc_rank PeerConnectionState.failed = 4
pc_rank PeerConnectionState.closed = 5

-- What the controller reads of a DTLS transport and its ICE channel.
pub record Transport : Type 0 where
  pub dtls_state : DtlsTransportState
  pub ice_state : IceTransportState

-- The two maps of counts, by the number of a state.
unfoldable pub dtls_state_counts : ℕ → List Transport → ℕ
dtls_state_counts k [] = 0
dtls_state_counts k (t ∷ ts) =
    (if state_rank t.dtls_state == k then 1 else 0) + dtls_state_counts k ts

unfoldable pub ice_state_counts : ℕ → List Transport → ℕ
ice_state_counts k [] = 0
ice_state_counts k (t ∷ ts) = (if ice_rank t.ice_state == k then 1 else 0) + ice_state_counts k ts

unfoldable pub combined_state : List Transport → PeerConnectionState
combined_state ts =
    let total_connected = ice_state_counts 2 ts + dtls_state_counts 2 ts in
    let total_failed = ice_state_counts 4 ts + dtls_state_counts 4 ts in
    let total_closed = ice_state_counts 6 ts + dtls_state_counts 3 ts in
    let total_new = ice_state_counts 0 ts + dtls_state_counts 0 ts in
    let total_transports = length ts * 2 in
    if ltb 0 total_failed
    then PeerConnectionState.failed
    else if ltb 0 (ice_state_counts 5 ts)
    then PeerConnectionState.disconnected
    else if total_new + total_closed == total_transports
    then PeerConnectionState.new
    else if ltb 0 (ice_state_counts 1 ts + dtls_state_counts 1 ts + total_new)
    then PeerConnectionState.connecting
    else if total_connected + ice_state_counts 3 ts + total_closed == total_transports
    then PeerConnectionState.connected
    else PeerConnectionState.new

-- The new state, and the state that is signalled when it changes.
abbrev pub change_state :
    PeerConnectionState → PeerConnectionState → PeerConnectionState × Option PeerConnectionState
change_state old state = (state, (if pc_rank old == pc_rank state then none else some state))

unfoldable pub update_state :
    PeerConnectionState → List Transport → PeerConnectionState × Option PeerConnectionState
update_state old ts = change_state old (combined_state ts)

-- Without DTLS the state follows that of the ICE agent.
abbrev pub state_of_ice : IceTransportState → PeerConnectionState
state_of_ice IceTransportState.new = PeerConnectionState.new
state_of_ice IceTransportState.checking = PeerConnectionState.connecting
state_of_ice IceTransportState.connected = PeerConnectionState.connected
state_of_ice IceTransportState.completed = PeerConnectionState.connected
state_of_ice IceTransportState.failed = PeerConnectionState.failed
state_of_ice IceTransportState.disconnected = PeerConnectionState.disconnected
state_of_ice IceTransportState.closed = PeerConnectionState.closed

unfoldable pub on_ice_state :
    (is_dtls : Bool)
    → PeerConnectionState
    → List Transport
    → IceTransportState
    → PeerConnectionState × Option PeerConnectionState
on_ice_state true old ts ice = update_state old ts
on_ice_state false old ts ice = change_state old (state_of_ice ice)
