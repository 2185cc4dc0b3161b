-- ===== src/Pc/Dtls.antt =====
-- src/pc/dtls_transport.h, src/pc/dtls_transport.cpp: the DTLS transport over an ICE channel.
-- A packet is the list of its bytes. webrtc's SSLStreamAdapter is a parameter: what it answers in a
-- call, and the events that it emits for a packet that it is given, which come back before the call
-- ends. An operation gives the transport and what it emits, in order; results that no caller reads
-- are left out.
pub mod Records
pub mod Emissions
pub mod Handlers
pub mod Safety
pub mod Media
pub mod Hello
mod Examples
use xrtc_server.Base.{
  ℕ, zero, suc, ◌+◌, ◌-◌, ◌*◌, ◌/◌, Bool, true, false, not, ◌&&◌, ◌||◌, List, [], ◌∷◌, ◌++◌, Option,
  none, some, ltb, ◌==◌, length, drop, if◌then◌else◌,
}
use xrtc_server.Rtp.Histogram.{at}
use xrtc_server.Ice.Stun.Checks.{same_bytes}

abbrev pub dtls_record_header_len : ℕ
dtls_record_header_len = 13

abbrev pub min_rtp_packet_len : ℕ
min_rtp_packet_len = 12

unfoldable pub is_dtls_packet : List ℕ → Bool
is_dtls_packet buf =
    not (ltb (length buf) dtls_record_header_len) && ltb 19 (at buf 0) && ltb (at buf 0) 64

unfoldable pub is_dtls_client_hello_packet : List ℕ → Bool
is_dtls_client_hello_packet buf =
    is_dtls_packet buf && ltb 17 (length buf) && at buf 0 == 22 && at buf 13 == 1

-- The two highest bits of the first byte are 2.
unfoldable pub is_rtp_packet : List ℕ → Bool
is_rtp_packet buf = not (ltb (length buf) min_rtp_packet_len) && at buf 0 / 64 == 2

pub data DtlsTransportState : Type 0 where
  new connecting connected closed failed : DtlsTransportState

abbrev pub state_rank : DtlsTransportState → ℕ
state_rank new = 0
state_rank connecting = 1
state_rank connected = 2
state_rank closed = 3
state_rank failed = 4

-- `dtls` says whether there is an adapter; a certificate is known by its address.
pub record DtlsTransport : Type 0 where
  pub dtls_state : DtlsTransportState
  pub dtls : Bool
  pub dtls_active : Bool
  pub local_certificate : Option ℕ
  pub remote_fingerprint_alg : List ℕ
  pub remote_fingerprint_value : List ℕ
  pub cached_client_hello : List ℕ
  pub receiving : Bool
  pub writable : Bool

abbrev pub create : DtlsTransport
create = record {
  dtls_state = new;
  dtls = false;
  dtls_active = false;
  local_certificate = none;
  remote_fingerprint_alg = [];
  remote_fingerprint_value = [];
  cached_client_hello = [];
  receiving = false;
  writable = false;
}

-- What the transport emits: its signals, a packet that it gives to the adapter, and a use of the
-- adapter where there is none.
pub data Emission : Type 0 where
  dtls_state_signal : DtlsTransportState → Emission
  writable_signal receiving_signal closed_signal : Emission
  read_packet : List ℕ → Emission
  to_adapter : List ℕ → Emission
  null_adapter : Emission

-- An event of the adapter: whether the handshake is complete, how a loop of reads ends, and whether
-- the stream closes, with an error or without.
pub data ReadEnd : Type 0 where
  block eos error : ReadEnd

pub record DtlsEvent : Type 0 where
  pub opens : Bool
  pub reads : Option ReadEnd
  pub closes : Option Bool

-- The answers of the adapter in one call; `starts` is a StartSSL that returns 0.
pub record Adapter : Type 0 where
  pub creates : Bool
  pub accepts_digest : (alg value : List ℕ) → Bool
  pub accepts_suites : Bool
  pub starts : Bool
  pub events : (packet : List ℕ) → List DtlsEvent

abbrev pub Done : Type 0
Done = DtlsTransport × List Emission

abbrev pub then_do : Done → (DtlsTransport → Done) → Done
then_do (t, emitted) f = ((f t).0, emitted ++ (f t).1)

abbrev pub same : Bool → Bool → Bool
same true b = b
same false b = not b

unfoldable pub set_dtls_state : DtlsTransportState → DtlsTransport → Done
set_dtls_state s t =
    if state_rank t.dtls_state == state_rank s
    then (t, [])
    else (record t { dtls_state = s }, dtls_state_signal s ∷ [])

unfoldable pub set_writable_state : Bool → DtlsTransport → Done
set_writable_state w t =
    if same t.writable w then (t, []) else (record t { writable = w }, writable_signal ∷ [])

unfoldable pub set_receiving : Bool → DtlsTransport → Done
set_receiving r t =
    if same t.receiving r then (t, []) else (record t { receiving = r }, receiving_signal ∷ [])

-- The two setters that stand together, and SignalClosed.
abbrev pub go_down : DtlsTransportState → DtlsTransport → Done
go_down s t = then_do (set_writable_state false t) (set_dtls_state s)

abbrev pub with_closed : Done → Done
with_closed (t, emitted) = (t, emitted ++ (closed_signal ∷ []))

unfoldable pub on_open : Bool → DtlsTransport → Done
on_open true t = then_do (set_writable_state true t) (set_dtls_state connected)
on_open false t = (t, [])

unfoldable pub on_read : Option ReadEnd → DtlsTransport → Done
on_read none t = (t, [])
on_read (some block) t = (t, [])
on_read (some eos) t = with_closed (go_down closed t)
on_read (some error) t = with_closed (go_down failed t)

unfoldable pub on_close : Option Bool → DtlsTransport → Done
on_close none t = (t, [])
on_close (some false) t = go_down closed t
on_close (some true) t = go_down failed t

unfoldable pub on_dtls_event : DtlsTransport → DtlsEvent → Done
on_dtls_event t e = then_do (then_do (on_open e.opens t) (on_read e.reads)) (on_close e.closes)

unfoldable pub on_dtls_events : List DtlsEvent → DtlsTransport → Done
on_dtls_events [] t = (t, [])
on_dtls_events (e ∷ es) t = then_do (on_dtls_event t e) (on_dtls_events es)

-- The loop of HandleDtlsPacket: the bytes are whole records. A round takes thirteen bytes at least.
unfoldable pub whole_records : ℕ → List ℕ → Bool
whole_records zero data_bytes = length data_bytes == 0
whole_records (suc fuel) data_bytes =
    let size = dtls_record_header_len + (at data_bytes 11 * 256 + at data_bytes 12) in
    let rest = whole_records fuel (drop size data_bytes) in
    if length data_bytes == 0
    then true
    else if ltb (length data_bytes) dtls_record_header_len
    then false
    else if ltb (length data_bytes) size
    then false
    else rest

-- The downward stream of an adapter that is there gets the packet, and the adapter its event.
abbrev pub give : Adapter → List ℕ → DtlsTransport → Bool → Done
give a packet t true =
    let after = on_dtls_events (a.events packet) t in (after.0, to_adapter packet ∷ after.1)
give a packet t false = (t, null_adapter ∷ [])

-- HandleDtlsPacket, with `failing` for what its caller does when it returns false.
unfoldable pub handle_dtls_packet : Adapter → List ℕ → (DtlsTransport → Done) → DtlsTransport → Done
handle_dtls_packet a packet failing t =
    if whole_records (length packet) packet then give a packet t t.dtls else failing t

abbrev pub clear_hello : Done → Done
clear_hello (t, emitted) = (record t { cached_client_hello = [] }, emitted)

unfoldable pub replay_hello : Adapter → DtlsTransport → Done
replay_hello a t =
    if length t.cached_client_hello == 0
    then (t, [])
    else clear_hello (handle_dtls_packet a t.cached_client_hello (set_dtls_state failed) t)

unfoldable pub maybe_start_dtls : Adapter → (ice_writable : Bool) → DtlsTransport → Done
maybe_start_dtls a ice_writable t =
    if t.dtls && ice_writable
    then if a.starts
      then then_do (set_dtls_state connecting t) (replay_hello a)
      else set_dtls_state failed t
    else (t, [])

abbrev pub digest_accepted : Adapter → DtlsTransport → Bool
digest_accepted a t =
    length t.remote_fingerprint_value == 0
    || a.accepts_digest t.remote_fingerprint_alg t.remote_fingerprint_value

-- SetupDtls, with `failing` for what its caller does when it returns false. `suites` says whether
-- webrtc offers any SRTP crypto suite.
unfoldable pub setup_dtls :
    Adapter → (suites ice_writable : Bool) → (DtlsTransport → Done) → DtlsTransport → Done
setup_dtls a suites ice_writable failing t =
    let made = record t { dtls = true } in
    if not a.creates
    then failing (record t { dtls = false })
    else if digest_accepted a t && (not suites || a.accepts_suites)
    then maybe_start_dtls a ice_writable made
    else failing made

abbrev pub nothing : DtlsTransport → Done
nothing t = (t, [])

-- A packet before the handshake begins.
unfoldable pub read_early : Adapter → (suites ice_writable : Bool) → List ℕ → DtlsTransport → Done
read_early a suites ice_writable packet t =
    let cached = record t { cached_client_hello = packet } in
    if not (is_dtls_client_hello_packet packet)
    then (t, [])
    else if not t.dtls && elim t.local_certificate [ none ↦ false | some c ↦ true ]
    then setup_dtls a suites ice_writable nothing cached
    else (cached, [])

unfoldable pub read_started : Adapter → Bool → List ℕ → DtlsTransport → Done
read_started a is_connected packet t =
    if is_dtls_packet packet
    then handle_dtls_packet a packet nothing t
    else if is_connected && is_rtp_packet packet
    then (t, read_packet packet ∷ [])
    else (t, [])

unfoldable pub read_in :
    DtlsTransportState → Adapter → (suites ice_writable : Bool) → List ℕ → DtlsTransport → Done
read_in new a suites ice_writable packet t = read_early a suites ice_writable packet t
read_in connecting a suites ice_writable packet t = read_started a false packet t
read_in connected a suites ice_writable packet t = read_started a true packet t
read_in closed a suites ice_writable packet t = (t, [])
read_in failed a suites ice_writable packet t = (t, [])

abbrev pub on_read_packet : Adapter → (suites ice_writable : Bool) → List ℕ → DtlsTransport → Done
on_read_packet a suites ice_writable packet t = read_in t.dtls_state a suites ice_writable packet t

unfoldable pub writable_in : DtlsTransportState → Adapter → Bool → DtlsTransport → Done
writable_in new a ice_writable t = maybe_start_dtls a ice_writable t
writable_in connecting a ice_writable t = (t, [])
writable_in connected a ice_writable t = set_writable_state ice_writable t
writable_in closed a ice_writable t = (t, [])
writable_in failed a ice_writable t = (t, [])

unfoldable pub on_writable_state : Adapter → (ice_writable : Bool) → DtlsTransport → Done
on_writable_state a ice_writable t =
    if not t.dtls_active
    then set_writable_state ice_writable t
    else writable_in t.dtls_state a ice_writable t

-- The certificate that stays or comes in; none is the null pointer.
unfoldable pub set_local_certificate : Option ℕ → DtlsTransport → DtlsTransport
set_local_certificate none t = t
set_local_certificate (some cert) t =
    if t.dtls_active then t else record t { local_certificate = some cert; dtls_active = true }

abbrev pub noted : List ℕ → List ℕ → DtlsTransport → DtlsTransport
noted alg digest t = record t { remote_fingerprint_alg = alg; remote_fingerprint_value = digest }

-- The fingerprint is noted; the adapter is told of a first one, and made anew for another.
unfoldable pub use_fingerprint :
    Adapter → (suites ice_writable : Bool) → (alg digest : List ℕ) → DtlsTransport → Done
use_fingerprint a suites ice_writable alg digest t =
    let change = ltb 0 (length t.remote_fingerprint_value) in
    let with_it = noted alg digest t in
    let dropped =
      then_do (set_dtls_state new (record with_it { dtls = false })) (set_writable_state false) in
    if t.dtls && not change
    then if a.accepts_digest alg digest then (with_it, []) else set_dtls_state failed with_it
    else then_do (if t.dtls then dropped else (with_it, []))
        (setup_dtls a suites ice_writable (set_dtls_state failed))

unfoldable pub set_remote_fingerprint :
    Adapter → (suites ice_writable : Bool) → (alg digest : List ℕ) → DtlsTransport → Done
set_remote_fingerprint a suites ice_writable alg digest t =
    let no_alg = length alg == 0 in
    if t.dtls_active && same_bytes t.remote_fingerprint_value digest && not no_alg
    then (t, [])
    else if no_alg
    then (record t { dtls_active = false }, [])
    else if not t.dtls_active
    then (t, [])
    else use_fingerprint a suites ice_writable alg digest t
