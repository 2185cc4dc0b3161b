-- ===== src/Pc/Dtls/Safety.antt =====
-- The adapter of src/pc/dtls_transport.cpp is there whenever it is used.
use xrtc_server.Base.{
  ℕ, refl, inl, inr, Bool, true, List, [], ◌∷◌, Option, none, some, All-append, if_keep,
}
use xrtc_server.Pc.Dtls.{
  DtlsTransport, create, receiving_signal, Adapter, Done, then_do, same, set_receiving,
  on_read_packet, on_writable_state, set_local_certificate, set_remote_fingerprint,
}
use xrtc_server.Pc.Dtls.Emissions.{Grounded}
use xrtc_server.Pc.Dtls.Handlers.{
  HasTarget, IsSafe, safe, read_in-IsSafe, on_writable-Grounded, fingerprint-Grounded,
}

-- A call of the transport, with the adapter's answers and what the ICE channel says.
pub data Call : Type 0 where
  reads_packet : (a : Adapter) (suites ice_writable : Bool) (packet : List ℕ) → Call
  ice_writable : (a : Adapter) (now : Bool) → Call
  ice_receiving : (now : Bool) → Call
  gets_certificate : (cert : Option ℕ) → Call
  gets_fingerprint : (a : Adapter) (suites ice_writable : Bool) (alg digest : List ℕ) → Call

unfoldable pub call : DtlsTransport → Call → Done
call t (reads_packet a suites w packet) = on_read_packet a suites w packet t
call t (ice_writable a now) = on_writable_state a now t
call t (ice_receiving now) = set_receiving now t
call t (gets_certificate cert) = (set_local_certificate cert t, [])
call t (gets_fingerprint a suites w alg digest) = set_remote_fingerprint a suites w alg digest t

unfoldable pub calls : DtlsTransport → List Call → Done
calls t [] = (t, [])
calls t (c ∷ cs) = then_do (call t c) (λ (u : DtlsTransport). calls u cs)

certificate-Grounded :
    (cert : Option ℕ) (t : DtlsTransport) → Grounded t → Grounded (set_local_certificate cert t)
unfolding set_local_certificate
certificate-Grounded none t g = g
certificate-Grounded (some c) t g =
    if_keep Grounded t.dtls_active t (record t { local_certificate = some c; dtls_active = true }) g
      g

call-IsSafe : (t : DtlsTransport) (c : Call) → Grounded t → IsSafe (call t c)
unfolding call set_receiving
call-IsSafe t (reads_packet a suites w packet) g =
    read_in-IsSafe t.dtls_state a suites w packet t refl g
call-IsSafe t (ice_writable a now) g =
    safe (on_writable_state a now t) (on_writable-Grounded a now t g)
call-IsSafe t (ice_receiving now) g =
    if_keep IsSafe (same t.receiving now) (t, [])
      (record t { receiving = now }, receiving_signal ∷ []) (g, tt) (g, (tt, tt))
call-IsSafe t (gets_certificate cert) g = (certificate-Grounded cert t g, tt)
call-IsSafe t (gets_fingerprint a suites w alg digest) g =
    safe (set_remote_fingerprint a suites w alg digest t)
      (fingerprint-Grounded a suites w alg digest t g)

calls-IsSafe : (t : DtlsTransport) (cs : List Call) → Grounded t → IsSafe (calls t cs)
unfolding calls
calls-IsSafe t [] g = (g, tt)
calls-IsSafe t (c ∷ cs) g =
    let (grounded, targets) = call-IsSafe t c g in
    let (after, more) = calls-IsSafe (call t c).0 cs grounded in
    (after, All-append HasTarget (call t c).1 (calls (call t c).0 cs).1 targets more)

-- From a new transport, whatever calls come in any order, and whatever the adapter answers and does in
-- each: there is an adapter while the state is connecting or connected, and none is ever used that
-- is not there.
pub calls-create-IsSafe : (cs : List Call) → IsSafe (calls create cs)
calls-create-IsSafe cs = calls-IsSafe create cs (inr (inl refl))
