-- ===== src/Lib.antt =====
-- The verification library of the XRTC media server, a selective forwarding unit: publishers push
-- audio and video, players pull it, and the server passes the packets on.
--
-- A packet comes in through ICE, DTLS and SRTP to the publisher's peer connection: the ICE
-- controller chooses among the connections of a channel, the channel tells the DTLS transport
-- whether it is writable, and the transport controller makes one state of them. The receiving
-- side books it for NACK and for receiver reports; the publisher caches it and hands on what is
-- in order; the stream manager sends that to every player of the stream. A player's NACK goes
-- back to the publisher's cache.
--
-- - Base: names that are passed on, tests, lists and signed integers over the native numbers;
--   Base/Seq is the interface of webrtc's 16-bit sequence numbers with the laws that its header
--   documents, and functions at which they hold.
--
-- - Stream/Packet, Stream/Push: PushStream of src/stream/push_stream.cpp. The cache of 2048 slots
--   is a function from the slot; CacheVideoPacket, FindVideoPacket, ProcessVideoPacket, OnFrame,
--   ClearVideoPacketCache and OnRtpPacket are the functions of those names, each with the packets
--   that the listener is told.
--
-- - Stream/Manager: RtcStreamManager of src/stream/rtc_stream_manager.cpp. Streams live on an
--   explicit heap and the registries hold their addresses, so that a dangling entry or a lost
--   object shows. State has the registries and their removal, Handlers the calls and callbacks,
--   Calls their histories, EndToEnd the publisher and the manager together.
--
-- - Rtp/Histogram and Rtp/Nack: Histogram and NackRequester of src/modules/video_coding. Window
--   has the invariant of the histogram, Recent its window as the last samples. The std::map of
--   missing packets is a list without repeated keys. `float` is a parameter.
--
-- - Rtp/Statistics: StreamStat of src/modules/rtp_rtcp/receive_stat.cpp, with the conversions to
--   32 and 8 bits written out; Rtp/Statistics/Streams is its ReceiveStat.
--
-- - Ice/Connection: IceConnection of src/ice/ice_connection.cpp, each operation with the signals
--   that it emits; Histories has any sequence of them, Silence a peer that does not answer. The
--   moving average of webrtc is a parameter.
--
-- - Ice/Controller: IceController of src/ice/ice_controller.cpp. A pointer is a number and a
--   function gives the connection behind it; a std::set is the ordered list of its members.
--
-- - Ice/Channel: IceTransportChannel of src/ice/ice_transport_channel.cpp, with its controller
--   and a store of its connections, whose signals reach it within the call that emits them.
--
-- - Pc/Dtls: DtlsTransport of src/pc/dtls_transport.cpp. The SSL adapter of webrtc is a
--   parameter: its answers in a call and the events that it emits for a packet. Pc/Controller:
--   the state that TransportController of src/pc/transport_controller.cpp makes of its
--   transports.
--
-- - Queue: LockFreeQueue of src/base/lock_free_queue.h, by the steps of its two threads on an
--   explicit heap.
--
-- - Ice/Stun: StunMessage and its attributes of src/ice/stun.cpp. A buffer is the list of its
--   bytes; number encodings, CRC-32 and HMAC are parameters. Reading has Read, Checks has the
--   fingerprint and the message integrity.
--
-- Bounds: the loops over the cache run at most 2049 times, as their own counters have it; the
-- loop that records missing packets gets 65536 rounds, one for each 16-bit number; the loop that
-- makes room gets one round more than there are entries; Read gets a round for each byte of the
-- body, and the search for MESSAGE-INTEGRITY one for each byte of the message, where a round
-- takes four bytes at least. HandleDtlsPacket gets a round for each byte, where a round takes
-- thirteen. Times are integers in milliseconds and do not wrap, but where an ICE connection keeps
-- them in an int. The clock stands still within a call of an ICE channel. The counter of the
-- queue has 32 bits and wraps around; what its int means is stated while fewer than 2147483647
-- values are in the queue. The two threads of the queue read and write each pointer whole, one
-- after the other.
--
-- Not modelled: webrtc, OpenSSL, libsrtp and libev, whose parts are parameters where the models
-- use them; sockets, threads, timers, logging and text of session descriptions; of src/ice the
-- agent, the ports and the requests; most of src/pc; src/server, src/audio and src/video.
pub mod Base
pub mod Ice
pub mod Pc
pub mod Queue
pub mod Rtp
pub mod Stream
