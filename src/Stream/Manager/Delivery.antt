-- ===== src/Stream/Manager/Delivery.antt =====
-- Who gets what: OnRtpPacket, OnNackReceived and the way of a packet through the manager.
use xrtc_server.Base.{
  ℕ, ◌≡◌, refl, sym, ap, ◌∙◌, ◌≢◌, true, false, List, [], ◌∷◌, ◌++◌, none, some, inl, inr,
  Option-cases, Bool-cases, ◌==◌, ==_iff, ==_refl, if◌then◌else◌, arith,
}
use Prim.Native.String.{String}
use xrtc_server.Stream.Packet.{MediaType, RtcPacket}
use xrtc_server.Stream.Manager.State.{
  push, RtcStream, Ptr, Heap, Manager, UserStreamMap, find_user, find_pull_stream_m, users,
}
use xrtc_server.Stream.Manager.Handlers.{Act, Acts, send_packet, on_rtp_packet, to_all, from_stream}
use xrtc_server.Stream.Manager.Invariant.{Inv, AllPlay, PlaysMany-same}
use xrtc_server.Stream.Manager.Removal.{find_user-PlaysMany}

-- What a stream was told, in order.
abbrev pub told : Ptr → Acts → List Act
told q [] = []
told q ((p, a) ∷ acts) = if p == q then a ∷ told q acts else told q acts

pub told-append : (q : Ptr) (a b : Acts) → told q (a ++ b) ≡ told q a ++ told q b
told-append q [] b = refl
told-append q ((p, x) ∷ a) b = ground (arith, told-append q a b)

-- An address that plays under no uid of the list is told nothing.
told-to_all_none :
    (h : Heap) (name : String) (a : Act) (us : UserStreamMap) (q : Ptr)
    → ((uid : ℕ) → find_user us uid ≢ some q)
    → AllPlay h name us
    → told q (to_all a us) ≡ []
unfolding find_user
told-to_all_none h name a [] q none_of all = refl
told-to_all_none h name a ((u, p) ∷ us) q none_of (here, new, rest) = elim (Bool-cases (p == q)) [
  | inl t ↦ absurd (none_of u (rw (==_refl u) (ap some ((==_iff p q).0 t))))
  | inr f ↦ rw f (told-to_all_none h name a us q later rest)
]
  where
    later : (uid : ℕ) → find_user us uid ≢ some q
    later uid e = elim (Bool-cases (u == uid)) [
      | inl t ↦
          let d : u ≡ uid = (==_iff u uid).0 t in
          let new' : find_user us uid ≡ none = rw d at new in
          let bad : none ≡ some q = sym new' ∙ e in cc
      | inr f ↦ none_of uid (rw f e)
    ]

-- The player of a uid is told once: two entries never share an address.
told-to_all_once :
    (h : Heap) (name : String) (a : Act) (us : UserStreamMap) (uid : ℕ) (q : Ptr)
    → find_user us uid ≡ some q
    → AllPlay h name us
    → told q (to_all a us) ≡ a ∷ []
unfolding find_user
told-to_all_once h name a [] uid q e all = cc
told-to_all_once h name a ((u, p) ∷ us) uid q e (here, new, rest) = elim (Bool-cases (u == uid)) [
  | inl t ↦
      let d : p ≡ q = (let e' : some p ≡ some q = rw t at e in cc) in
      let t' : (p == q) ≡ true = (==_iff p q).1 d in
      rw t' (ap (◌∷◌ a) (told-to_all_none h name a us q (no_other d) rest))
  | inr f ↦
      let e' : find_user us uid ≡ some q = rw f at e in
      elim (Bool-cases (p == q)) [
        | inl t ↦
            let d : p ≡ q = (==_iff p q).0 t in
            let same : uid ≡ u =
              (PlaysMany-same (h q) name name uid u (find_user-PlaysMany h name us uid q rest e')
                (rw d at here)).1 in
            absurd (ground arith)
        | inr g ↦ rw g (told-to_all_once h name a us uid q e' rest)
      ]
]
  where
    no_other : p ≡ q → (w : ℕ) → find_user us w ≢ some q
    no_other d w k =
        let same : w ≡ u =
          (PlaysMany-same (h q) name name w u (find_user-PlaysMany h name us w q rest k)
            (rw d at here)).1 in
        let new' : find_user us w ≡ none = rw (← same) at new in
        let bad : none ≡ some q = sym new' ∙ k in cc

module _ (m : Manager) (v : Inv m) (p : Ptr) (s : RtcStream) (here : m.heap p ≡ some s)
    (publisher : s.stream_type ≡ push) where
  on_rtp_packet-to_all :
      (k : MediaType) (packet : RtcPacket)
      → on_rtp_packet m p k packet
        ≡ to_all (send_packet k packet false) (users (m.multi_pull_streams s.stream_name))
  unfolding on_rtp_packet
  on_rtp_packet-to_all k packet = rw (here, from_stream) (rw publisher)

  -- A packet of a publisher goes once to every live player of its stream, and to nobody else.
  pub on_rtp_packet-fan_out :
      (k : MediaType) (packet : RtcPacket)
      → ((uid : ℕ) (q : Ptr)
          → find_pull_stream_m m uid s.stream_name ≡ some q
          → told q (on_rtp_packet m p k packet) ≡ send_packet k packet false ∷ [])
        × ((q : Ptr)
            → ((uid : ℕ) → find_pull_stream_m m uid s.stream_name ≢ some q)
            → told q (on_rtp_packet m p k packet) ≡ [])
  unfolding find_pull_stream_m
  on_rtp_packet-fan_out k packet =
      rw (on_rtp_packet-to_all k packet) (elim (Option-cases (m.multi_pull_streams s.stream_name)) [
        | inl e ↦ rw (e, find_pull_stream_m) ((λ uid q d. cc), (λ q d. refl))
        | inr (us, e) ↦
            rw (e, find_pull_stream_m)
              (
                (λ uid q d.
                    told-to_all_once m.heap s.stream_name _ us uid q d
                      (v.multi_ok s.stream_name us e).1),
                (λ q d.
                    told-to_all_none m.heap s.stream_name _ us q d
                      (v.multi_ok s.stream_name us e).1),
              )
      ])
