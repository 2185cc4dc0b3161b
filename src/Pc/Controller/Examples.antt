-- ===== src/Pc/Controller/Examples.antt =====
-- Two transports of src/pc/transport_controller.cpp.
use xrtc_server.Base.{◌≡◌, ◌↔◌, List, [], ◌∷◌, All}
use xrtc_server.Ice.Channel.{IceTransportState}
use xrtc_server.Pc.Dtls.{DtlsTransportState}
use xrtc_server.Pc.Controller.{Transport, combined_state, pc_rank}
use xrtc_server.Pc.Controller.States.{
  Some, HasFailed, IsDisconnected, IsReady, IsClosed, combined_state_iff,
}

abbrev both : List Transport
both =
    record { dtls_state = DtlsTransportState.connected; ice_state = IceTransportState.connected }
    ∷ record { dtls_state = DtlsTransportState.connected; ice_state = IceTransportState.completed }
    ∷ []

combined_state_iff_example :
    ((pc_rank (combined_state both) ≡ 4) ↔ Some HasFailed both)
    × ((pc_rank (combined_state both) ≡ 3) ↔ ((Some HasFailed both → ⊥) × Some IsDisconnected both))
    × ((pc_rank (combined_state both) ≡ 2) ↔ (All IsReady both × (All IsClosed both → ⊥)))
combined_state_iff_example = combined_state_iff both
