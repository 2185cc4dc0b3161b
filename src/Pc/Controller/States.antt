-- ===== src/Pc/Controller/States.antt =====
-- The state that src/pc/transport_controller.cpp computes by counting, told by each transport.
use xrtc_server.Base.{ℕ, ◌+◌, ◌*◌, ◌≤◌, ◌<◌, ◌≡◌, ◌↔◌, ◌⊎◌, List, [], ◌∷◌, length, All, arith}
use xrtc_server.Ice.Channel.{rank as ice_rank}
use xrtc_server.Pc.Dtls.{state_rank}
use xrtc_server.Pc.Controller.{
  pc_rank, Transport, dtls_state_counts, ice_state_counts, combined_state,
}

abbrev pub Some : (Transport → Type 0) → List Transport → Type 0
Some P [] = ⊥
Some P (t ∷ ts) = P t ⊎ Some P ts

abbrev pub HasFailed : Transport → Type 0
HasFailed t = (ice_rank t.ice_state ≡ 4) ⊎ (state_rank t.dtls_state ≡ 4)

failed_counts :
    (ts : List Transport) → (0 < ice_state_counts 4 ts + dtls_state_counts 4 ts) ↔ Some HasFailed ts
unfolding ice_state_counts dtls_state_counts
failed_counts [] = (λ h. absurd (omega arith), λ h. absurd h)
failed_counts (t ∷ ts) = let ih = failed_counts ts in ground arith

abbrev pub IsDisconnected : Transport → Type 0
IsDisconnected t = ice_rank t.ice_state ≡ 5

IsDisconnected-counts : (ts : List Transport) → (0 < ice_state_counts 5 ts) ↔ Some IsDisconnected ts
unfolding ice_state_counts
IsDisconnected-counts [] = (λ h. absurd (omega arith), λ h. absurd h)
IsDisconnected-counts (t ∷ ts) = let ih = IsDisconnected-counts ts in ground arith

-- ICE is connected, completed or closed, and DTLS connected or closed.
abbrev pub IsReady : Transport → Type 0
IsReady t =
    ((ice_rank t.ice_state ≡ 2) ⊎ (ice_rank t.ice_state ≡ 3) ⊎ (ice_rank t.ice_state ≡ 6))
    × ((state_rank t.dtls_state ≡ 2) ⊎ (state_rank t.dtls_state ≡ 3))

abbrev pub IsClosed : Transport → Type 0
IsClosed t = (ice_rank t.ice_state ≡ 6) × (state_rank t.dtls_state ≡ 3)

abbrev ready_total : List Transport → ℕ
ready_total ts =
    ice_state_counts 2 ts
    + dtls_state_counts 2 ts
    + ice_state_counts 3 ts
    + ice_state_counts 6 ts
    + dtls_state_counts 3 ts

-- Both counts of a transport fall under the total at most.
ready_total-le : (ts : List Transport) → ready_total ts ≤ length ts * 2
unfolding ice_state_counts dtls_state_counts
ready_total-le [] = omega arith
ready_total-le (t ∷ ts) = let ih = ready_total-le ts in ground arith

IsReady-counts : (ts : List Transport) → (ready_total ts ≡ length ts * 2) ↔ All IsReady ts
unfolding ice_state_counts dtls_state_counts
IsReady-counts [] = (λ h. tt, λ h. omega arith)
IsReady-counts (t ∷ ts) = let ih = IsReady-counts ts in let le = ready_total-le ts in ground arith

closed_total-le :
    (ts : List Transport) → ice_state_counts 6 ts + dtls_state_counts 3 ts ≤ length ts * 2
unfolding ice_state_counts dtls_state_counts
closed_total-le [] = omega arith
closed_total-le (t ∷ ts) = let ih = closed_total-le ts in ground arith

IsClosed-counts :
    (ts : List Transport)
    → (ice_state_counts 6 ts + dtls_state_counts 3 ts ≡ length ts * 2) ↔ All IsClosed ts
unfolding ice_state_counts dtls_state_counts
IsClosed-counts [] = (λ h. tt, λ h. omega arith)
IsClosed-counts (t ∷ ts) =
    let ih = IsClosed-counts ts in let le = closed_total-le ts in ground arith

-- Transports that are ready fall under no other count.
ready_others :
    (ts : List Transport)
    → All IsReady ts
    → (ice_state_counts 0 ts + dtls_state_counts 0 ts ≡ 0)
      × (ice_state_counts 1 ts + dtls_state_counts 1 ts ≡ 0)
      × (ice_state_counts 4 ts + dtls_state_counts 4 ts ≡ 0)
      × (ice_state_counts 5 ts ≡ 0)
unfolding ice_state_counts dtls_state_counts
ready_others [] h = (omega arith, omega arith, omega arith, omega arith)
ready_others (t ∷ ts) h = let ih = ready_others ts h.1 in ground arith

-- The connection has failed exactly when a transport has, with ICE or DTLS; it is disconnected exactly
-- when none has failed and ICE is disconnected for one; and it is connected exactly when every
-- transport is ready and not every one is closed.
pub combined_state_iff :
    (ts : List Transport)
    → ((pc_rank (combined_state ts) ≡ 4) ↔ Some HasFailed ts)
      × ((pc_rank (combined_state ts) ≡ 3) ↔ ((Some HasFailed ts → ⊥) × Some IsDisconnected ts))
      × ((pc_rank (combined_state ts) ≡ 2) ↔ (All IsReady ts × (All IsClosed ts → ⊥)))
unfolding combined_state
combined_state_iff ts =
    let f = failed_counts ts in
    let d = IsDisconnected-counts ts in
    let r = IsReady-counts ts in
    let c = IsClosed-counts ts in let o = ready_others ts in ground arith
