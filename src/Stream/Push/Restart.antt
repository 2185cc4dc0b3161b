-- ===== src/Stream/Push/Restart.antt =====
-- OnFrame and ClearVideoPacketCache of src/stream/push_stream.cpp: a key frame restarts the order.
use xrtc_server.Base.{
  ℕ, zero, suc, ◌+◌, ◌-◌, ◌%◌, ◌≤◌, ◌<◌, ◌≡◌, refl, inl, inr, true, Option, none, some, length,
  get_elem?, arith, Bool-cases,
}
use xrtc_server.Base.Seq.{SeqNum, SeqLaws, next16, prev16, dist}
use xrtc_server.Stream.Packet.{RtpFrameObject}
use xrtc_server.Stream.Push.{
  PushStream, Buffer, find_video_packet, forward_loop, clear_loop, clear_video_packet_cache,
  on_frame, restart,
}
use xrtc_server.Stream.Push.Cache.{Slots, find_none}
use xrtc_server.Stream.Push.Loop.{
  Consecutive, forward_loop-Consecutive, forward_loop-end, find-forward_loop, forward_loop_stops,
  clear_loop-find_none,
}
use xrtc_server.Stream.Push.Forward.{Inv}

abbrev pub key_frame : ℕ → ℕ → RtpFrameObject
key_frame start last = record { is_key = true; first_seq_num = start; last_seq_num = last }

-- Clearing only ever empties slots.
clear_loop-keeps_none :
    (c : SeqNum) (n : ℕ) (f : Buffer) (start end i : ℕ)
    → f i ≡ none
    → clear_loop c n f start end i ≡ none
unfolding clear_loop
clear_loop-keeps_none c zero f start end i e = e
clear_loop-keeps_none c (suc n) f start end i e = elim (Bool-cases (c.ahead_or_at end start)) [
  | inl t ↦ rw (t, clear_loop) (clear_loop-keeps_none c n _ (next16 start) end i (ground arith))
  | inr t ↦ rw (t, clear_loop) e
]

clear_loop-Slots :
    (c : SeqNum) (n : ℕ) (f : Buffer) (start end : ℕ) → Slots f → Slots (clear_loop c n f start end)
unfolding clear_loop
clear_loop-Slots c zero f start end ok = ok
clear_loop-Slots c (suc n) f start end ok = elim (Bool-cases (c.ahead_or_at end start)) [
  | inl t ↦
      rw (t, clear_loop)
        (clear_loop-Slots c n _ (next16 start) end (λ i p e. ground (arith, ok i p)))
  | inr t ↦ rw (t, clear_loop) ok
]

module _ (c : SeqNum) (laws : SeqLaws c) where
  -- The loop reaches the k-th number of a range of less than half the circle, if it has the rounds.
  clear_loop-clears :
      (n : ℕ) (f : Buffer) (start end k : ℕ)
      → start < 65536
      → end < 65536
      → dist start end < 32768
      → k < n
      → k ≤ dist start end
      → clear_loop c n f start end ((start + k) % 65536 % 2048) ≡ none
  unfolding clear_loop
  clear_loop-clears zero f start end k hs he hd hn hk = absurd (omega arith)
  clear_loop-clears (suc n) f start end zero hs he hd hn hk =
      rw (laws.near end start he hs hd, clear_loop)
        (clear_loop-keeps_none c n _ (next16 start) end ((start + 0) % 65536 % 2048) (ground arith))
  clear_loop-clears (suc n) f start end (suc k) hs he hd hn hk =
      let q : (start + suc k) % 65536 ≡ (next16 start + k) % 65536 = omega arith in
      rw (laws.near end start he hs hd, clear_loop, q)
        (clear_loop-clears n _ (next16 start) end k (omega arith) he (omega arith) (omega arith)
          (omega arith))

  -- 2049 rounds are enough for the whole range: beyond 2048 numbers every slot has been reached.
  pub clear_video_packet_cache-clears :
      (f : Buffer) (start end k : ℕ)
      → start < 65536
      → end < 65536
      → dist start end < 32768
      → k ≤ dist start end
      → clear_video_packet_cache c f start end ((start + k) % 65536 % 2048) ≡ none
  unfolding clear_video_packet_cache
  clear_video_packet_cache-clears f start end k hs he hd hk =
      let q : (start + k) % 65536 % 2048 ≡ (start + k % 2048) % 65536 % 2048 = omega arith in
      rw q (clear_loop-clears 2049 f start end (k % 2048) hs he hd (omega arith) (omega arith))

  -- A range of 2048 numbers or more empties the whole cache.
  pub clear_video_packet_cache-empties :
      (f : Buffer) (start end i : ℕ)
      → start < 65536
      → end < 65536
      → dist start end < 32768
      → 2047 ≤ dist start end
      → i < 2048
      → clear_video_packet_cache c f start end i ≡ none
  clear_video_packet_cache-empties f start end i hs he hd long hi =
      let k : ℕ = (i + 2048 - start % 2048) % 2048 in
      let q : (start + k) % 65536 % 2048 ≡ i = omega arith in
      rw (← q) (clear_video_packet_cache-clears f start end k hs he hd (omega arith))

  module _ (s : PushStream) (start : ℕ) (v : Inv s) (hs : start < 65536)
      (ahead : c.ahead_of start s.video_seq ≡ true) where
    -- A number ahead of another is 1 to 32768 steps on.
    ahead_dist : (1 ≤ dist s.video_seq start) × (dist s.video_seq start ≤ 32768)
    ahead_dist = (ground (arith, laws.strict start s.video_seq hs v.range, v.range), near_enough)
      where
        near_enough : dist s.video_seq start ≤ 32768
        near_enough =
            ground (
              arith,
              laws.strict start s.video_seq hs v.range,
              laws.far start s.video_seq hs v.range,
            )

    restart-Inv : Inv (restart c s start (forward_loop 2049 s.video_data_buffer start)).0
    unfolding restart clear_video_packet_cache
    restart-Inv = record {
      slots = clear_loop-Slots c 2049 s.video_data_buffer _ _ v.slots;
      fresh = λ e i. clear_loop-keeps_none c 2049 s.video_data_buffer _ _ i (v.fresh e i);
      gap =
          let e : next16 (prev16 (forward_loop 2049 s.video_data_buffer start).0)
              ≡ (forward_loop 2049 s.video_data_buffer start).0 =
            omega (arith, forward_loop-end 2049 s.video_data_buffer start hs) in
          rw e (
            clear_loop-find_none c 2049 s.video_data_buffer _ _ _
              (forward_loop_stops s.video_data_buffer start hs));
      range = omega arith;
    }

    -- The numbers between the old front and the key frame are not found any more.
    restart-skipped :
        (k : ℕ)
        → suc k < dist s.video_seq start
        → find_video_packet
            (restart c s start (forward_loop 2049 s.video_data_buffer start)).0.video_data_buffer
            ((next16 s.video_seq + k) % 65536)
          ≡ none
    unfolding restart
    restart-skipped k h =
        let w = v.range in
        let (lo, hi) = ahead_dist in
        find_none _ _ (
          clear_video_packet_cache-clears s.video_data_buffer (next16 s.video_seq) (prev16 start) k
            (omega arith) (omega arith) (omega arith) (omega arith))

    restart-wiped :
        (seq : ℕ)
        → 2049 ≤ dist s.video_seq start
        → find_video_packet
            (restart c s start (forward_loop 2049 s.video_data_buffer start)).0.video_data_buffer
            seq
          ≡ none
    unfolding restart
    restart-wiped seq long =
        let w = v.range in
        let (lo, hi) = ahead_dist in
        find_none _ seq (
          clear_video_packet_cache-empties s.video_data_buffer (next16 s.video_seq) (prev16 start)
            (seq % 2048) (omega arith) (omega arith) (omega arith) (omega arith) (omega arith))

    module _ (last : ℕ) where
      on_frame-restart :
          on_frame c s (some (key_frame start last))
          ≡ restart c s start (forward_loop 2049 s.video_data_buffer start)
      unfolding on_frame
      on_frame-restart = rw ahead

      -- A key frame ahead of the front, in a publisher that meets the invariant of its cache and has a
      -- listener: the packets that are handed on are exactly those that the cache held before, one
      -- for each number from the frame's first on up to the first number that was not cached, whose
      -- predecessor `video_seq` then is; they carry consecutive numbers; and none of the numbers
      -- between the old front and the frame's first is found for a retransmission any more.
      pub on_frame-restarts :
          s.has_listener ≡ true
          → Consecutive start (on_frame c s (some (key_frame start last))).1
            × ((k : ℕ)
                → k < length (on_frame c s (some (key_frame start last))).1
                → find_video_packet s.video_data_buffer ((start + k) % 65536)
                  ≡ get_elem? (on_frame c s (some (key_frame start last))).1 k)
            × (find_video_packet s.video_data_buffer
                  ((start + length (on_frame c s (some (key_frame start last))).1) % 65536)
                ≡ none)
            × (next16 (on_frame c s (some (key_frame start last))).0.video_seq
                ≡ (start + length (on_frame c s (some (key_frame start last))).1) % 65536)
            × ((k : ℕ)
                → suc k < dist s.video_seq start
                → find_video_packet
                    (on_frame c s (some (key_frame start last))).0.video_data_buffer
                    ((next16 s.video_seq + k) % 65536)
                  ≡ none)
      unfolding restart
      on_frame-restarts on =
          let stop = forward_loop-end 2049 s.video_data_buffer start hs in
          rw (on_frame-restart, on)
            (
              forward_loop-Consecutive 2049 s.video_data_buffer start,
              λ (k : ℕ) lt. find-forward_loop 2049 s.video_data_buffer start k hs lt,
              rw (← stop) (forward_loop_stops s.video_data_buffer start hs),
              omega (arith, stop),
              restart-skipped,
            )

      -- After a key frame more than 2048 numbers ahead nothing at all is cached: clearing the range
      -- that was skipped also empties the slots of the frame that was just handed on.
      pub on_frame-wipes_cache :
          2049 ≤ dist s.video_seq start
          → (seq : ℕ)
          → find_video_packet (on_frame c s (some (key_frame start last))).0.video_data_buffer seq
            ≡ none
      on_frame-wipes_cache long seq = rw on_frame-restart (restart-wiped seq long)

  pub on_frame-Inv :
      (s : PushStream) (frame : Option RtpFrameObject)
      → Inv s
      → ((r : RtpFrameObject) → frame ≡ some r → r.first_seq_num < 65536)
      → Inv (on_frame c s frame).0
  unfolding on_frame
  on_frame-Inv s none v wide = v
  on_frame-Inv s (some r) v wide = elim (Bool-cases r.is_key) [
    | inr n ↦ rw n v
    | inl k ↦ elim (Bool-cases (c.ahead_of r.first_seq_num s.video_seq)) [
      | inl a ↦ rw (k, a) (restart-Inv s r.first_seq_num v (wide r refl) a)
      | inr a ↦ rw (k, a) v
    ]
  ]
