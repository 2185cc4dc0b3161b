-- ===== src/Pc/Dtls/Hello.antt =====
-- The ClientHello that comes before src/pc/dtls_transport.cpp can answer it.
use xrtc_server.Base.{
  ℕ, ◌≡◌, refl, Bool, true, false, not, ◌&&◌, List, [], ◌∷◌, none, some, length, ◌==◌,
  if◌then◌else◌, if_true, if_false, arith, sym, ap, subst,
}
use xrtc_server.Pc.Dtls.{
  DtlsTransport, DtlsTransportState, new, connecting, failed, state_rank, Emission,
  dtls_state_signal, to_adapter, Adapter, Done, then_do, set_dtls_state, set_writable_state,
  on_dtls_events, give, handle_dtls_packet, clear_hello, replay_hello, maybe_start_dtls, setup_dtls,
  nothing, read_early, read_in, on_read_packet, writable_in, on_writable_state, is_dtls_packet,
  is_dtls_client_hello_packet, whole_records,
}

-- The handshake begins, and the first packet that the adapter gets is the ClientHello.
abbrev pub Delivers : List ℕ → Done → Type 0
Delivers hello d =
    ((rest : List Emission) × (d.1 ≡ dtls_state_signal connecting ∷ to_adapter hello ∷ rest))
    × (d.0.cached_client_hello ≡ [])

early_kept :
    (a : Adapter) (suites : Bool) (hello : List ℕ) (t : DtlsTransport)
    → t.dtls_state ≡ new
    → t.dtls ≡ true
    → is_dtls_client_hello_packet hello ≡ true
    → on_read_packet a suites false hello t ≡ (record t { cached_client_hello = hello }, [])
unfolding read_in read_early
early_kept a suites hello t s made is_hello =
    let cached = record t { cached_client_hello = hello } in
    let Kept = λ (d : Done). d ≡ (cached, []) in
    subst (λ (st : DtlsTransportState). Kept (read_in st a suites false hello t)) (sym s)
      (if_false Kept (not (is_dtls_client_hello_packet hello)) (t, []) _ (ground arith)
        (if_false Kept (not t.dtls && elim t.local_certificate [ none ↦ false | some c ↦ true ])
          (setup_dtls a suites false nothing cached) (cached, []) (ground arith) refl))

replay_gives :
    (a : Adapter) (hello : List ℕ) (t : DtlsTransport)
    → t.dtls ≡ true
    → t.cached_client_hello ≡ hello
    → is_dtls_client_hello_packet hello ≡ true
    → whole_records (length hello) hello ≡ true
    → replay_hello a t ≡ clear_hello (give a hello t true)
unfolding replay_hello handle_dtls_packet is_dtls_client_hello_packet is_dtls_packet
replay_gives a hello t made kept is_hello whole =
    let Gives = λ (d : Done). d ≡ clear_hello (give a hello t true) in
    let long : (length hello == 0) ≡ false = ground arith in
    let given : give a hello t t.dtls ≡ give a hello t true = ap (give a hello t) made in
    let handled : (if whole_records (length hello) hello
          then give a hello t t.dtls
          else set_dtls_state failed t)
        ≡ give a hello t true =
      if_true (λ (d : Done). d ≡ give a hello t true) (whole_records (length hello) hello)
        (give a hello t t.dtls) (set_dtls_state failed t) whole given in
    subst
      (λ (h : List ℕ).
        (if length h == 0
          then (t, [])
          else clear_hello (handle_dtls_packet a h (set_dtls_state failed) t))
        ≡ clear_hello (give a hello t true))
      (sym kept)
      (if_false Gives (length hello == 0) (t, [])
        (clear_hello (handle_dtls_packet a hello (set_dtls_state failed) t)) long
        (ap clear_hello handled))

starts-Delivers :
    (a : Adapter) (hello : List ℕ) (t : DtlsTransport)
    → t.dtls_state ≡ new
    → t.dtls ≡ true
    → t.cached_client_hello ≡ hello
    → is_dtls_client_hello_packet hello ≡ true
    → whole_records (length hello) hello ≡ true
    → a.starts ≡ true
    → Delivers hello (maybe_start_dtls a true t)
unfolding maybe_start_dtls set_dtls_state
starts-Delivers a hello t s made kept is_hello whole starts =
    let begun = record t { dtls_state = connecting } in
    let rank = ap state_rank s in
    let begins : set_dtls_state connecting t ≡ (begun, dtls_state_signal connecting ∷ []) =
      if_false (λ (d : Done). d ≡ (begun, dtls_state_signal connecting ∷ []))
        (state_rank t.dtls_state == 1) (t, []) (begun, dtls_state_signal connecting ∷ [])
        (ground arith) refl in
    let gives = replay_gives a hello begun made kept is_hello whole in
    if_true (Delivers hello) (t.dtls && true) _ (t, []) (ground arith)
      (if_true (Delivers hello) a.starts (then_do (set_dtls_state connecting t) (replay_hello a))
        (set_dtls_state failed t) starts
        (subst (λ (d : Done). Delivers hello (then_do d (replay_hello a))) (sym begins)
          (subst (λ (d : Done). Delivers hello (d.0, dtls_state_signal connecting ∷ d.1))
            (sym gives) (((on_dtls_events (a.events hello) begun).1, refl), refl))))

-- The start of the handshake was refused: nothing is given to the adapter, the only thing that is
-- told is that the transport has failed, and the ClientHello is still kept.
abbrev pub Refused : List ℕ → Done → Type 0
Refused hello d =
    (d.1 ≡ dtls_state_signal failed ∷ [])
    × (d.0.dtls_state ≡ failed)
    × (d.0.cached_client_hello ≡ hello)

refuses-Refused :
    (a : Adapter) (hello : List ℕ) (t : DtlsTransport)
    → t.dtls_state ≡ new
    → t.dtls ≡ true
    → t.cached_client_hello ≡ hello
    → a.starts ≡ false
    → Refused hello (maybe_start_dtls a true t)
unfolding maybe_start_dtls set_dtls_state
refuses-Refused a hello t s made kept refuses =
    let rank = ap state_rank s in
    if_true (Refused hello) (t.dtls && true) _ (t, []) (ground arith)
      (if_false (Refused hello) a.starts (then_do (set_dtls_state connecting t) (replay_hello a))
        (set_dtls_state failed t) refuses
        (if_false (Refused hello) (state_rank t.dtls_state == state_rank failed) (t, [])
          (record t { dtls_state = failed }, dtls_state_signal failed ∷ []) (ground arith)
          (refl, refl, kept)))

-- What comes of a kept ClientHello when the adapter can start, and when it cannot.
abbrev pub Answered : (starts : Bool) → List ℕ → Done → Type 0
Answered true hello d = Delivers hello d
Answered false hello d = Refused hello d

started-Answered :
    (a : Adapter) (hello : List ℕ) (t : DtlsTransport) (starts : Bool)
    → t.dtls_state ≡ new
    → t.dtls ≡ true
    → t.cached_client_hello ≡ hello
    → is_dtls_client_hello_packet hello ≡ true
    → whole_records (length hello) hello ≡ true
    → a.starts ≡ starts
    → Answered starts hello (maybe_start_dtls a true t)
started-Answered a hello t true s made kept is_hello whole e =
    starts-Delivers a hello t s made kept is_hello whole e
started-Answered a hello t false s made kept is_hello whole e =
    refuses-Refused a hello t s made kept e

-- What holds of MaybeStartDtls with the ClientHello kept holds when the channel becomes writable.
becomes_writable :
    (P : Done → Type 0) (early late : Adapter) (suites : Bool) (hello : List ℕ) (t : DtlsTransport)
    → t.dtls_state ≡ new
    → t.dtls ≡ true
    → t.dtls_active ≡ true
    → is_dtls_client_hello_packet hello ≡ true
    → P (maybe_start_dtls late true (record t { cached_client_hello = hello }))
    → P (on_writable_state late true (on_read_packet early suites false hello t).0)
unfolding on_writable_state writable_in
becomes_writable P early late suites hello t s made active is_hello begun =
    let cached = record t { cached_client_hello = hello } in
    subst (λ (d : Done). P (on_writable_state late true d.0))
      (sym (early_kept early suites hello t s made is_hello))
      (if_false P (not t.dtls_active) (set_writable_state true cached)
        (writable_in t.dtls_state late true cached) (ground arith)
        (subst (λ (st : DtlsTransportState). P (writable_in st late true cached)) (sym s) begun))

-- A transport on which DTLS is active, whose adapter is there and whose handshake has not begun, gets a ClientHello of whole
-- records while the ICE channel is not writable, and keeps it. When the channel becomes writable and
-- the adapter can start, the handshake begins, the first packet that the adapter gets is that
-- ClientHello, unchanged, and it is not kept any longer. When the adapter cannot start, the
-- transport fails, tells so and nothing else, gives the adapter no packet, and keeps the ClientHello.
pub early_hello-delivered :
    (early late : Adapter) (suites : Bool) (hello : List ℕ) (t : DtlsTransport)
    → t.dtls_state ≡ new
    → t.dtls ≡ true
    → t.dtls_active ≡ true
    → is_dtls_client_hello_packet hello ≡ true
    → whole_records (length hello) hello ≡ true
    → Answered late.starts hello
        (on_writable_state late true (on_read_packet early suites false hello t).0)
early_hello-delivered early late suites hello t s made active is_hello whole =
    becomes_writable (Answered late.starts hello) early late suites hello t s made active is_hello (
      started-Answered late hello (record t { cached_client_hello = hello }) late.starts s made refl
        is_hello whole refl)
