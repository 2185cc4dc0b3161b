-- ===== src/Pc/Dtls/Emissions.antt =====
-- What the operations of src/pc/dtls_transport.cpp emit and leave while the adapter is there.
use xrtc_server.Base.{
  ℕ, ◌≤◌, ◌≡◌, refl, ◌⊎◌, inl, inr, Bool, true, false, ◌&&◌, List, [], ◌∷◌, Option, none, some,
  length, ◌==◌, All, All-append, if◌then◌else◌, if_keep, if_false, arith, Bool-cases, sym, subst,
}
use xrtc_server.Pc.Dtls.{
  DtlsTransport, DtlsTransportState, connecting, connected, closed, failed, state_rank, Emission,
  dtls_state_signal, writable_signal, receiving_signal, closed_signal, read_packet, to_adapter,
  null_adapter, DtlsEvent, ReadEnd, block, eos, error, Adapter, Done, then_do, same, set_dtls_state,
  set_writable_state, go_down, with_closed, on_open, on_read, on_close, on_dtls_event,
  on_dtls_events, give, handle_dtls_packet, clear_hello, replay_hello, maybe_start_dtls,
  whole_records,
}

-- Neither a packet that goes up nor a use of an adapter that is not there.
abbrev pub Quiet : Emission → Type 0
Quiet (dtls_state_signal s) = Unit {0}
Quiet writable_signal = Unit {0}
Quiet receiving_signal = Unit {0}
Quiet closed_signal = Unit {0}
Quiet (read_packet p) = ⊥
Quiet (to_adapter p) = Unit {0}
Quiet null_adapter = ⊥

-- While the handshake is under way or done there is an adapter.
abbrev pub Grounded : DtlsTransport → Type 0
Grounded t = (t.dtls ≡ true) ⊎ (state_rank t.dtls_state ≡ 0) ⊎ (3 ≤ state_rank t.dtls_state)

-- What an operation has to leave: a property of the transport, and quiet emissions.
abbrev pub Leaves : (DtlsTransport → Type 0) → Done → Type 0
Leaves P d = P d.0 × All Quiet d.1

abbrev pub HasAdapter : DtlsTransport → Type 0
HasAdapter t = t.dtls ≡ true

pub Leaves-then_do :
    (P Q : DtlsTransport → Type 0) (d : Done) (f : DtlsTransport → Done)
    → Leaves P d
    → ((t : DtlsTransport) → P t → Leaves Q (f t))
    → Leaves Q (then_do d f)
Leaves-then_do P Q (t, emitted) f h k =
    let (q, quiet) = k t h.0 in (q, All-append Quiet emitted (f t).1 h.1 quiet)

pub Leaves-weaker : (d : Done) → Leaves HasAdapter d → Leaves Grounded d
Leaves-weaker d h = (inl h.0, h.1)

pub set_state-HasAdapter :
    (s : DtlsTransportState) (t : DtlsTransport)
    → HasAdapter t
    → Leaves HasAdapter (set_dtls_state s t)
unfolding set_dtls_state
set_state-HasAdapter s t h =
    if_keep (Leaves HasAdapter) (state_rank t.dtls_state == state_rank s) (t, [])
      (record t { dtls_state = s }, dtls_state_signal s ∷ []) (h, tt) (h, (tt, tt))

-- A setter whose state is 0, 3 or 4 needs no adapter.
pub set_state-Grounded :
    (s : DtlsTransportState) (t : DtlsTransport)
    → (state_rank s ≡ 0) ⊎ (3 ≤ state_rank s)
    → Leaves Grounded (set_dtls_state s t)
unfolding set_dtls_state
set_state-Grounded s t h = elim (Bool-cases (state_rank t.dtls_state == state_rank s)) [
  | inl e ↦ rw e (inr (ground arith), tt)
  | inr e ↦ rw e (inr h, (tt, tt))
]

pub set_writable-Leaves :
    (P : DtlsTransport → Type 0) (w : Bool) (t : DtlsTransport)
    → P t
    → P (record t { writable = w })
    → Leaves P (set_writable_state w t)
unfolding set_writable_state
set_writable-Leaves P w t h k =
    if_keep (Leaves P) (same t.writable w) (t, []) (record t { writable = w }, writable_signal ∷ [])
      (h, tt) (k, (tt, tt))

go_down-HasAdapter :
    (s : DtlsTransportState) (t : DtlsTransport) → HasAdapter t → Leaves HasAdapter (go_down s t)
go_down-HasAdapter s t h =
    Leaves-then_do HasAdapter HasAdapter (set_writable_state false t) (set_dtls_state s)
      (set_writable-Leaves HasAdapter false t h h) (set_state-HasAdapter s)

with_closed-Leaves : (P : DtlsTransport → Type 0) (d : Done) → Leaves P d → Leaves P (with_closed d)
with_closed-Leaves P (t, emitted) h =
    (h.0, All-append Quiet emitted (closed_signal ∷ []) h.1 (tt, tt))

open-HasAdapter : (b : Bool) (t : DtlsTransport) → HasAdapter t → Leaves HasAdapter (on_open b t)
unfolding on_open
open-HasAdapter true t h =
    Leaves-then_do HasAdapter HasAdapter (set_writable_state true t) (set_dtls_state connected)
      (set_writable-Leaves HasAdapter true t h h) (set_state-HasAdapter connected)
open-HasAdapter false t h = (h, tt)

read-HasAdapter :
    (r : Option ReadEnd) (t : DtlsTransport) → HasAdapter t → Leaves HasAdapter (on_read r t)
unfolding on_read
read-HasAdapter none t h = (h, tt)
read-HasAdapter (some block) t h = (h, tt)
read-HasAdapter (some eos) t h =
    with_closed-Leaves HasAdapter (go_down closed t) (go_down-HasAdapter closed t h)
read-HasAdapter (some error) t h =
    with_closed-Leaves HasAdapter (go_down failed t) (go_down-HasAdapter failed t h)

close-HasAdapter :
    (c : Option Bool) (t : DtlsTransport) → HasAdapter t → Leaves HasAdapter (on_close c t)
unfolding on_close
close-HasAdapter none t h = (h, tt)
close-HasAdapter (some false) t h = go_down-HasAdapter closed t h
close-HasAdapter (some true) t h = go_down-HasAdapter failed t h

event-HasAdapter :
    (t : DtlsTransport) (e : DtlsEvent) → HasAdapter t → Leaves HasAdapter (on_dtls_event t e)
unfolding on_dtls_event
event-HasAdapter t e h =
    Leaves-then_do HasAdapter HasAdapter (then_do (on_open e.opens t) (on_read e.reads))
      (on_close e.closes)
      (Leaves-then_do HasAdapter HasAdapter (on_open e.opens t) (on_read e.reads)
        (open-HasAdapter e.opens t h) (read-HasAdapter e.reads))
      (close-HasAdapter e.closes)

events-HasAdapter :
    (es : List DtlsEvent) (t : DtlsTransport)
    → HasAdapter t
    → Leaves HasAdapter (on_dtls_events es t)
unfolding on_dtls_events
events-HasAdapter [] t h = (h, tt)
events-HasAdapter (e ∷ es) t h =
    Leaves-then_do HasAdapter HasAdapter (on_dtls_event t e) (on_dtls_events es)
      (event-HasAdapter t e h) (events-HasAdapter es)

give-HasAdapter :
    (a : Adapter) (packet : List ℕ) (t : DtlsTransport)
    → HasAdapter t
    → Leaves HasAdapter (give a packet t t.dtls)
give-HasAdapter a packet t h =
    let (up, quiet) = events-HasAdapter (a.events packet) t h in
    subst (λ (b : Bool). Leaves HasAdapter (give a packet t b)) (sym h) (up, (tt, quiet))

pub handle-HasAdapter :
    (a : Adapter) (packet : List ℕ) (failing : DtlsTransport → Done) (t : DtlsTransport)
    → ((u : DtlsTransport) → HasAdapter u → Leaves HasAdapter (failing u))
    → HasAdapter t
    → Leaves HasAdapter (handle_dtls_packet a packet failing t)
unfolding handle_dtls_packet
handle-HasAdapter a packet failing t k h =
    if_keep (Leaves HasAdapter) (whole_records (length packet) packet) (give a packet t t.dtls)
      (failing t) (give-HasAdapter a packet t h) (k t h)

replay-HasAdapter :
    (a : Adapter) (t : DtlsTransport) → HasAdapter t → Leaves HasAdapter (replay_hello a t)
unfolding replay_hello
replay-HasAdapter a t h =
    if_keep (Leaves HasAdapter) (length t.cached_client_hello == 0) (t, [])
      (clear_hello (handle_dtls_packet a t.cached_client_hello (set_dtls_state failed) t)) (h, tt)
      (handle-HasAdapter a t.cached_client_hello (set_dtls_state failed) t
        (set_state-HasAdapter failed) h)

start-HasAdapter :
    (a : Adapter) (w : Bool) (t : DtlsTransport)
    → HasAdapter t
    → Leaves HasAdapter (maybe_start_dtls a w t)
unfolding maybe_start_dtls
start-HasAdapter a w t h =
    if_keep (Leaves HasAdapter) (t.dtls && w)
      (if a.starts
        then then_do (set_dtls_state connecting t) (replay_hello a)
        else set_dtls_state failed t)
      (t, [])
      (if_keep (Leaves HasAdapter) a.starts (then_do (set_dtls_state connecting t) (replay_hello a))
        (set_dtls_state failed t)
        (Leaves-then_do HasAdapter HasAdapter (set_dtls_state connecting t) (replay_hello a)
          (set_state-HasAdapter connecting t h) (replay-HasAdapter a))
        (set_state-HasAdapter failed t h))
      (h, tt)

unstarted :
    (a : Adapter) (w : Bool) (t : DtlsTransport) → t.dtls ≡ false → maybe_start_dtls a w t ≡ (t, [])
unfolding maybe_start_dtls
unstarted a w t e =
    if_false (λ (d : Done). d ≡ (t, [])) (t.dtls && w)
      (if a.starts
        then then_do (set_dtls_state connecting t) (replay_hello a)
        else set_dtls_state failed t)
      (t, []) (ground arith) refl

pub start-Grounded :
    (a : Adapter) (w : Bool) (t : DtlsTransport)
    → Grounded t
    → Leaves Grounded (maybe_start_dtls a w t)
start-Grounded a w t g = elim (Bool-cases t.dtls) [
  | inl e ↦ Leaves-weaker (maybe_start_dtls a w t) (start-HasAdapter a w t e)
  | inr e ↦ subst (Leaves Grounded) (sym (unstarted a w t e)) (g, tt)
]
