-- ===== src/Pc/Dtls/Handlers.antt =====
-- The handlers of src/pc/dtls_transport.cpp use the adapter only where it is there.
use xrtc_server.Base.{
  ℕ, ◌≡◌, refl, ◌⊎◌, inl, inr, Bool, true, false, not, ◌&&◌, ◌||◌, List, [], ◌∷◌, none, some,
  length, ltb, ◌==◌, All, if◌then◌else◌, if_keep, arith, sym, ap, subst,
}
use xrtc_server.Ice.Stun.Checks.{same_bytes}
use xrtc_server.Pc.Dtls.{
  DtlsTransport, DtlsTransportState, new, connecting, connected, closed, failed, state_rank,
  Emission, dtls_state_signal, writable_signal, receiving_signal, closed_signal, read_packet,
  to_adapter, null_adapter, Adapter, Done, then_do, set_dtls_state, set_writable_state,
  handle_dtls_packet, maybe_start_dtls, digest_accepted, setup_dtls, nothing, read_early,
  read_started, read_in, writable_in, on_writable_state, noted, use_fingerprint,
  set_remote_fingerprint, is_dtls_packet, is_rtp_packet, is_dtls_client_hello_packet,
}
use xrtc_server.Pc.Dtls.Emissions.{
  Quiet, Grounded, HasAdapter, Leaves, Leaves-then_do, Leaves-weaker, set_state-Grounded,
  set_writable-Leaves, handle-HasAdapter, start-Grounded,
}

-- No use of an adapter that is not there.
abbrev pub HasTarget : Emission → Type 0
HasTarget (dtls_state_signal s) = Unit {0}
HasTarget writable_signal = Unit {0}
HasTarget receiving_signal = Unit {0}
HasTarget closed_signal = Unit {0}
HasTarget (read_packet p) = Unit {0}
HasTarget (to_adapter p) = Unit {0}
HasTarget null_adapter = ⊥

abbrev pub IsSafe : Done → Type 0
IsSafe d = Grounded d.0 × All HasTarget d.1

Quiet-HasTarget : (es : List Emission) → All Quiet es → All HasTarget es
Quiet-HasTarget [] h = tt
Quiet-HasTarget (dtls_state_signal s ∷ es) h = (tt, Quiet-HasTarget es h.1)
Quiet-HasTarget (writable_signal ∷ es) h = (tt, Quiet-HasTarget es h.1)
Quiet-HasTarget (receiving_signal ∷ es) h = (tt, Quiet-HasTarget es h.1)
Quiet-HasTarget (closed_signal ∷ es) h = (tt, Quiet-HasTarget es h.1)
Quiet-HasTarget (read_packet p ∷ es) h = absurd h.0
Quiet-HasTarget (to_adapter p ∷ es) h = (tt, Quiet-HasTarget es h.1)
Quiet-HasTarget (null_adapter ∷ es) h = absurd h.0

pub safe : (d : Done) → Leaves Grounded d → IsSafe d
safe d h = (h.0, Quiet-HasTarget d.1 h.1)

-- SetupDtls, when what its caller does on a failure leaves the transport well.
setup-Grounded :
    (a : Adapter) (suites w : Bool) (failing : DtlsTransport → Done) (t : DtlsTransport)
    → ((u : DtlsTransport) → Grounded u → Leaves Grounded (failing u))
    → Grounded (record t { dtls = false }) ⊎ (failing ≡ set_dtls_state failed)
    → Leaves Grounded (setup_dtls a suites w failing t)
unfolding setup_dtls
setup-Grounded a suites w failing t k g =
    let made = record t { dtls = true } in
    let none_made = record t { dtls = false } in
    let unmade : Leaves Grounded (failing none_made) = elim g [
      | inl ground ↦ k none_made ground
      | inr e ↦
          subst (λ (f : DtlsTransport → Done). Leaves Grounded (f none_made)) (sym e)
            (set_state-Grounded failed none_made (inr (omega arith)))
    ] in
    if_keep (Leaves Grounded) (not a.creates) (failing none_made) _ unmade (
      if_keep (Leaves Grounded) (digest_accepted a t && (not suites || a.accepts_suites))
        (maybe_start_dtls a w made) (failing made) (start-Grounded a w made (inl refl))
        (k made (inl refl)))

nothing-Grounded : (t : DtlsTransport) → Grounded t → Leaves Grounded (nothing t)
nothing-Grounded t g = (g, tt)

failed-Grounded : (t : DtlsTransport) → Grounded t → Leaves Grounded (set_dtls_state failed t)
failed-Grounded t g = set_state-Grounded failed t (inr (omega arith))

pub read_early-Grounded :
    (a : Adapter) (suites w : Bool) (packet : List ℕ) (t : DtlsTransport)
    → state_rank t.dtls_state ≡ 0
    → Leaves Grounded (read_early a suites w packet t)
unfolding read_early
read_early-Grounded a suites w packet t fresh =
    let cached = record t { cached_client_hello = packet } in
    if_keep (Leaves Grounded) (not (is_dtls_client_hello_packet packet)) (t, []) _
      (inr (inl fresh), tt)
      (if_keep (Leaves Grounded)
        (not t.dtls && elim t.local_certificate [ none ↦ false | some c ↦ true ])
        (setup_dtls a suites w nothing cached) (cached, [])
        (setup-Grounded a suites w nothing cached nothing-Grounded (inl (inr (inl fresh))))
        (inr (inl fresh), tt))

-- With an adapter a packet is given to it, goes up, or is dropped.
read_started-IsSafe :
    (a : Adapter) (up : Bool) (packet : List ℕ) (t : DtlsTransport)
    → HasAdapter t
    → IsSafe (read_started a up packet t)
unfolding read_started
read_started-IsSafe a up packet t h =
    if_keep IsSafe (is_dtls_packet packet) (handle_dtls_packet a packet nothing t) _
      (safe (handle_dtls_packet a packet nothing t) (
        Leaves-weaker (handle_dtls_packet a packet nothing t)
          (handle-HasAdapter a packet nothing t (λ (u : DtlsTransport) k. (k, tt)) h)))
      (if_keep IsSafe (up && is_rtp_packet packet) (t, read_packet packet ∷ []) (t, [])
        (inl h, (tt, tt)) (inl h, tt))

pub adapter_of :
    (t : DtlsTransport)
    → Grounded t
    → (state_rank t.dtls_state ≡ 1) ⊎ (state_rank t.dtls_state ≡ 2)
    → HasAdapter t
adapter_of t (inl h) s = h
adapter_of t (inr (inl h)) s = absurd (ground arith)
adapter_of t (inr (inr h)) s = absurd (ground arith)

pub read_in-IsSafe :
    (s : DtlsTransportState) (a : Adapter) (suites w : Bool) (packet : List ℕ) (t : DtlsTransport)
    → t.dtls_state ≡ s
    → Grounded t
    → IsSafe (read_in s a suites w packet t)
unfolding read_in
read_in-IsSafe new a suites w packet t e g =
    safe (read_early a suites w packet t)
      (read_early-Grounded a suites w packet t (ap state_rank e))
read_in-IsSafe connecting a suites w packet t e g =
    read_started-IsSafe a false packet t (adapter_of t g (inl (ap state_rank e)))
read_in-IsSafe connected a suites w packet t e g =
    read_started-IsSafe a true packet t (adapter_of t g (inr (ap state_rank e)))
read_in-IsSafe closed a suites w packet t e g = (g, tt)
read_in-IsSafe failed a suites w packet t e g = (g, tt)

writable_in-Grounded :
    (s : DtlsTransportState) (a : Adapter) (w : Bool) (t : DtlsTransport)
    → Grounded t
    → Leaves Grounded (writable_in s a w t)
unfolding writable_in
writable_in-Grounded new a w t g = start-Grounded a w t g
writable_in-Grounded connecting a w t g = (g, tt)
writable_in-Grounded connected a w t g = set_writable-Leaves Grounded w t g g
writable_in-Grounded closed a w t g = (g, tt)
writable_in-Grounded failed a w t g = (g, tt)

pub on_writable-Grounded :
    (a : Adapter) (w : Bool) (t : DtlsTransport)
    → Grounded t
    → Leaves Grounded (on_writable_state a w t)
unfolding on_writable_state
on_writable-Grounded a w t g =
    if_keep (Leaves Grounded) (not t.dtls_active) (set_writable_state w t)
      (writable_in t.dtls_state a w t) (set_writable-Leaves Grounded w t g g)
      (writable_in-Grounded t.dtls_state a w t g)

use_fingerprint-Grounded :
    (a : Adapter) (suites w : Bool) (alg digest : List ℕ) (t : DtlsTransport)
    → Grounded t
    → Leaves Grounded (use_fingerprint a suites w alg digest t)
unfolding use_fingerprint
use_fingerprint-Grounded a suites w alg digest t g =
    let with_it = noted alg digest t in
    let dropped : Done =
      then_do (set_dtls_state new (record with_it { dtls = false })) (set_writable_state false) in
    let first =
      if a.accepts_digest alg digest then (with_it, []) else set_dtls_state failed with_it in
    let setup = setup_dtls a suites w (set_dtls_state failed) in
    if_keep (Leaves Grounded) (t.dtls && not (ltb 0 (length t.remote_fingerprint_value))) first _
      (if_keep (Leaves Grounded) (a.accepts_digest alg digest) (with_it, [])
        (set_dtls_state failed with_it) (g, tt) (failed-Grounded with_it g))
      (Leaves-then_do Grounded Grounded (if t.dtls then dropped else (with_it, [])) setup
        (if_keep (Leaves Grounded) t.dtls dropped (with_it, [])
          (Leaves-then_do Grounded Grounded (set_dtls_state new (record with_it { dtls = false }))
            (set_writable_state false)
            (set_state-Grounded new (record with_it { dtls = false }) (inl refl))
            (λ (u : DtlsTransport) k. set_writable-Leaves Grounded false u k k))
          (g, tt))
        (λ (u : DtlsTransport) k.
          setup-Grounded a suites w (set_dtls_state failed) u failed-Grounded (inr refl)))

pub fingerprint-Grounded :
    (a : Adapter) (suites w : Bool) (alg digest : List ℕ) (t : DtlsTransport)
    → Grounded t
    → Leaves Grounded (set_remote_fingerprint a suites w alg digest t)
unfolding set_remote_fingerprint
fingerprint-Grounded a suites w alg digest t g =
    let no_alg = length alg == 0 in
    if_keep (Leaves Grounded)
      (t.dtls_active && same_bytes t.remote_fingerprint_value digest && not no_alg) (t, []) _
      (g, tt)
      (if_keep (Leaves Grounded) no_alg (record t { dtls_active = false }, []) _ (g, tt)
        (if_keep (Leaves Grounded) (not t.dtls_active) (t, [])
          (use_fingerprint a suites w alg digest t) (g, tt)
          (use_fingerprint-Grounded a suites w alg digest t g)))
