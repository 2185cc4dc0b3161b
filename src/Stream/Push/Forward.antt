-- ===== src/Stream/Push/Forward.antt =====
-- ProcessVideoPacket of src/stream/push_stream.cpp: the invariant, and order whatever arrives.
use xrtc_server.Base.{
  ℕ, zero, suc, ◌+◌, ◌%◌, ◌<◌, ◌≡◌, refl, sym, ◌∙◌, ◌≢◌, inl, inr, true, false, List, [], ◌∷◌, none,
  some, ◌==◌, ==_iff, length, arith, Bool-cases,
}
use xrtc_server.Base.Int.{ℤ, pos, negsuc}
use xrtc_server.Base.Seq.{SeqNum, SeqLaws, next16, prev16}
use xrtc_server.Stream.Packet.{RtcPacket}
use xrtc_server.Stream.Push.{
  PushStream, find_video_packet, cache_video_packet, forward_loop, process_video_packet, tell,
  is_minus_one,
}
use xrtc_server.Stream.Push.Cache.{Slots, cache-Slots, find-cache_ne, find-cache_self, find_none}
use xrtc_server.Stream.Push.Loop.{
  Consecutive, forward_loop-Consecutive, forward_loop-end, forward_loop_stops,
}

-- The cache is well placed and empty before the first packet, and the packet after the last one
-- that was handed on is not cached: all that could go on has gone on.
pub record Inv (s : PushStream) : Type 0 where
  pub slots : Slots s.video_data_buffer
  pub fresh : s.first_seq_time ≡ negsuc 0 → (i : ℕ) → s.video_data_buffer i ≡ none
  pub gap : find_video_packet s.video_data_buffer (next16 s.video_seq) ≡ none
  pub range : s.video_seq < 65536

-- A packet as the server builds it: a 16-bit number, and an arrival time that is not -1.
pub record IsArrival (p : RtcPacket) : Type 0 where
  pub wide : p.seq_num < 65536
  pub timed : p.ts ≢ negsuc 0

is_minus_one→eq : (t : ℤ) → is_minus_one t ≡ true → t ≡ negsuc 0
is_minus_one→eq (pos n) h = cc
is_minus_one→eq (negsuc zero) h = refl
is_minus_one→eq (negsuc (suc n)) h = cc

pub started_of : (t : ℤ) → is_minus_one t ≡ false → t ≢ negsuc 0
started_of t h e = let x : is_minus_one t ≡ true = rw e in cc

pub ne→is_minus_one : (t : ℤ) → t ≢ negsuc 0 → is_minus_one t ≡ false
ne→is_minus_one (pos n) h = refl
ne→is_minus_one (negsuc zero) h = absurd (h refl)
ne→is_minus_one (negsuc (suc n)) h = refl

module _ (c : SeqNum) (laws : SeqLaws c) where
  -- The next number is not at or behind the present one.
  pub next_is_new : (a : ℕ) → a < 65536 → c.ahead_or_at a (next16 a) ≡ false
  next_is_new a h = laws.far a (next16 a) h (omega arith) (omega arith)

  module _ (s : PushStream) (p : RtcPacket) (v : Inv s) (a : IsArrival p) where
    -- Caching a packet that is not the next one leaves the next one missing.
    cached-Inv :
        p.seq_num ≢ next16 s.video_seq
        → s.first_seq_time ≢ negsuc 0
        → Inv (record s { video_data_buffer = cache_video_packet s.video_data_buffer p })
    cached-Inv ne started = record {
      slots = cache-Slots s.video_data_buffer p a.wide v.slots;
      fresh = λ e. absurd (started e);
      gap = find-cache_ne s.video_data_buffer p (next16 s.video_seq) ne v.gap;
      range = v.range;
    }

    first-Inv :
        s.first_seq_time ≡ negsuc 0
        → Inv (record s {
          video_data_buffer = cache_video_packet s.video_data_buffer p;
          video_seq = p.seq_num;
          first_seq_time = p.ts;
        })
    first-Inv e = record {
      slots = cache-Slots s.video_data_buffer p a.wide v.slots;
      fresh = λ e. absurd (a.timed e);
      gap =
          find-cache_ne s.video_data_buffer p (next16 p.seq_num) (let w = a.wide in omega arith)
            (find_none s.video_data_buffer (next16 p.seq_num) (v.fresh e _));
      range = a.wide;
    }

    -- The state after the loop, and what the loop handed on.
    loop_end :
        next16 (prev16 (forward_loop 2049 (cache_video_packet s.video_data_buffer p) p.seq_num).0)
        ≡ (forward_loop 2049 (cache_video_packet s.video_data_buffer p) p.seq_num).0
    loop_end =
        let w = a.wide in
        omega (arith, forward_loop-end 2049 (cache_video_packet s.video_data_buffer p) p.seq_num w)

    advanced-Inv :
        s.first_seq_time ≢ negsuc 0
        → Inv (record s {
          video_data_buffer = cache_video_packet s.video_data_buffer p;
          video_seq =
              prev16 (forward_loop 2049 (cache_video_packet s.video_data_buffer p) p.seq_num).0;
        })
    advanced-Inv started = record {
      slots = cache-Slots s.video_data_buffer p a.wide v.slots;
      fresh = λ e. absurd (started e);
      gap =
          rw loop_end
            (forward_loop_stops (cache_video_packet s.video_data_buffer p) p.seq_num a.wide);
      range = omega arith;
    }

    behind_ne : c.ahead_or_at s.video_seq p.seq_num ≡ true → p.seq_num ≢ next16 s.video_seq
    behind_ne t e =
        let n : c.ahead_or_at s.video_seq p.seq_num ≡ false =
          rw e (next_is_new s.video_seq v.range) in
        cc

    -- The branches of ProcessVideoPacket: the first packet, one that is not the next, the next.
    process_cases {ℓ} :
        (P : PushStream × List RtcPacket → Type ℓ)
        → (s.first_seq_time ≡ negsuc 0
            → P (
              record s {
                video_data_buffer = cache_video_packet s.video_data_buffer p;
                video_seq = p.seq_num;
                first_seq_time = p.ts;
              },
              tell s (p ∷ []),
            ))
        → (s.first_seq_time ≢ negsuc 0
            → p.seq_num ≢ next16 s.video_seq
            → P (record s { video_data_buffer = cache_video_packet s.video_data_buffer p }, []))
        → (s.first_seq_time ≢ negsuc 0
            → p.seq_num ≡ next16 s.video_seq
            → P (
              record s {
                video_data_buffer = cache_video_packet s.video_data_buffer p;
                video_seq =
                    prev16
                      (forward_loop 2049 (cache_video_packet s.video_data_buffer p) p.seq_num).0;
              },
              tell s (forward_loop 2049 (cache_video_packet s.video_data_buffer p) p.seq_num).1,
            ))
        → P (process_video_packet c s p)
    unfolding process_video_packet
    process_cases P first other next = elim (Bool-cases (is_minus_one s.first_seq_time)) [
      | inl t ↦ rw t (first (is_minus_one→eq s.first_seq_time t))
      | inr t ↦ rw t (elim (Bool-cases (c.ahead_or_at s.video_seq p.seq_num)) [
        | inl b ↦ rw b (other (started_of s.first_seq_time t) (behind_ne b))
        | inr b ↦ rw b (elim (Bool-cases (p.seq_num == next16 s.video_seq)) [
          | inl q ↦ rw q (next (started_of s.first_seq_time t) ((==_iff _ _).0 q))
          | inr q ↦ rw q (other (started_of s.first_seq_time t) (ground arith))
        ])
      ])
    ]

    pub process_video_packet-Inv : Inv (process_video_packet c s p).0
    process_video_packet-Inv =
        process_cases (λ r. Inv r.0) first-Inv (λ st ne. cached-Inv ne st) (λ st e. advanced-Inv st)

    pub process_video_packet-cached :
        (process_video_packet c s p).0.video_data_buffer ≡ cache_video_packet s.video_data_buffer p
    process_video_packet-cached =
        process_cases (λ r. r.0.video_data_buffer ≡ cache_video_packet s.video_data_buffer p)
          (λ e. refl) (λ st ne. refl) (λ st e. refl)

    -- What the listener is told, and how far `video_seq` goes with it.
    abbrev Continues : PushStream × List RtcPacket → Type 0
    Continues r =
        Consecutive (next16 s.video_seq) r.1 × (r.0.video_seq ≡ (s.video_seq + length r.1) % 65536)

    pub process_video_packet-Continues :
        s.first_seq_time ≢ negsuc 0
        → s.has_listener ≡ true
        → Consecutive (next16 s.video_seq) (process_video_packet c s p).1
          × ((process_video_packet c s p).0.video_seq
              ≡ (s.video_seq + length (process_video_packet c s p).1) % 65536)
    process_video_packet-Continues started on =
        process_cases Continues (λ e. absurd (started e))
          (λ st ne. (tt, let w = v.range in omega arith))
          (λ st e. rw on (
            rw (← e) (forward_loop-Consecutive 2049 _ p.seq_num),
            let w = v.range in
                omega (
                  arith,
                  forward_loop-end 2049 (cache_video_packet s.video_data_buffer p) p.seq_num,
                ),
          ))

    pub process_video_packet-started :
        ((process_video_packet c s p).0.first_seq_time ≢ negsuc 0)
        × ((process_video_packet c s p).0.has_listener ≡ s.has_listener)
    process_video_packet-started =
        process_cases (λ r. (r.0.first_seq_time ≢ negsuc 0) × (r.0.has_listener ≡ s.has_listener))
          (λ e. (a.timed, refl)) (λ st ne. (st, refl)) (λ st e. (st, refl))

    -- One video packet at a started publisher with a listener: what is handed on continues the
    -- numbers without a gap, `video_seq` is the last number handed on, the next one is missing from
    -- the cache, and a packet of this number can be found for a retransmission.
    pub process_video_packet-in_order :
        s.first_seq_time ≢ negsuc 0
        → s.has_listener ≡ true
        → Consecutive (next16 s.video_seq) (process_video_packet c s p).1
          × ((process_video_packet c s p).0.video_seq
              ≡ (s.video_seq + length (process_video_packet c s p).1) % 65536)
          × (find_video_packet
                (process_video_packet c s p).0.video_data_buffer
                (next16 (process_video_packet c s p).0.video_seq)
              ≡ none)
          × (find_video_packet (process_video_packet c s p).0.video_data_buffer p.seq_num ≢ none)
    process_video_packet-in_order started on =
        let (ordered, last) = process_video_packet-Continues started on in
        let (q, found, _) = find-cache_self s.video_data_buffer p in
        (
          ordered,
          last,
          process_video_packet-Inv.gap,
          rw process_video_packet-cached (λ e. let bad : some q ≡ none = sym found ∙ e in cc),
        )
