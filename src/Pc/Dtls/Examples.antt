-- ===== src/Pc/Dtls/Examples.antt =====
-- The transport of src/pc/dtls_transport.cpp at work.
use xrtc_server.Base.{ℕ, ◌≡◌, refl, ◌↔◌, inl, true, false, List, [], ◌∷◌, some, replicate, length}
use xrtc_server.Pc.Dtls.{
  DtlsTransport, connected, create, Adapter, on_read_packet, on_writable_state,
  is_dtls_client_hello_packet, is_dtls_packet, whole_records,
}
use xrtc_server.Pc.Dtls.Records.{IsRecords, whole_records_iff}
use xrtc_server.Pc.Dtls.Handlers.{IsSafe}
use xrtc_server.Pc.Dtls.Safety.{
  Call, gets_certificate, ice_writable, reads_packet, calls, calls-create-IsSafe,
}
use xrtc_server.Pc.Dtls.Media.{Passes, on_read_packet-Passes}
use xrtc_server.Pc.Dtls.Hello.{Answered, early_hello-delivered}

-- A record of seven bytes that begins a ClientHello.
abbrev hello : List ℕ
hello = 22 ∷ 254 ∷ 253 ∷ 0 ∷ 0 ∷ 0 ∷ 0 ∷ 0 ∷ 0 ∷ 0 ∷ 0 ∷ 0 ∷ 7 ∷ 1 ∷ 0 ∷ 0 ∷ 0 ∷ 0 ∷ 0 ∷ 0 ∷ []

whole_records_iff_example : (whole_records (length hello) hello ≡ true) ↔ IsRecords hello
whole_records_iff_example = whole_records_iff hello

abbrev willing : Adapter
willing = record {
  creates = true;
  accepts_digest = λ (alg value : List ℕ). true;
  accepts_suites = true;
  starts = true;
  events = λ (packet : List ℕ). [];
}

abbrev opening_calls : List Call
opening_calls =
    gets_certificate (some 7)
    ∷ reads_packet willing true false hello
    ∷ ice_writable willing true
    ∷ []

calls-create-IsSafe_example : IsSafe (calls create opening_calls)
calls-create-IsSafe_example = calls-create-IsSafe opening_calls

abbrev prepared : DtlsTransport
prepared = record create { dtls = true; dtls_active = true; local_certificate = some 7 }

abbrev media : List ℕ
media = 128 ∷ replicate 19 0

on_read_packet-Passes_example :
    Passes
      (record prepared { dtls_state = connected })
      media
      (on_read_packet willing true true media (record prepared { dtls_state = connected }))
on_read_packet-Passes_example =
    on_read_packet-Passes willing true true media (record prepared { dtls_state = connected })
      (inl refl)

hello_is_hello : is_dtls_client_hello_packet hello ≡ true
unfolding is_dtls_client_hello_packet is_dtls_packet
hello_is_hello = refl

hello_whole : whole_records (length hello) hello ≡ true
unfolding whole_records
hello_whole = refl

early_hello-delivered_example :
    Answered true hello
      (on_writable_state willing true (on_read_packet willing true false hello prepared).0)
early_hello-delivered_example =
    early_hello-delivered willing willing true hello prepared refl refl refl hello_is_hello
      hello_whole
