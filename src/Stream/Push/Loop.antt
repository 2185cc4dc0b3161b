-- ===== src/Stream/Push/Loop.antt =====
-- The loop that hands cached packets on, and the loop that clears a range of the cache.
use xrtc_server.Base.{
  ℕ, zero, suc, ◌+◌, ◌%◌, ◌<◌, ◌≡◌, ◌≢◌, ◌⊎◌, inl, inr, List, [], ◌∷◌, none, some, length,
  get_elem?, arith, Bool-cases, Option-cases,
}
use xrtc_server.Base.Seq.{SeqNum, next16}
use xrtc_server.Stream.Packet.{RtcPacket}
use xrtc_server.Stream.Push.{Buffer, find_video_packet, forward_loop, clear_loop}
use xrtc_server.Stream.Push.Cache.{find_sound, find-update-none}

-- The packets carry the numbers `seq`, `seq + 1`, … in this order.
abbrev pub Consecutive : ℕ → List RtcPacket → Type 0
Consecutive seq [] = Unit {0}
Consecutive seq (p ∷ ps) = (p.seq_num ≡ seq) × Consecutive (next16 seq) ps

pub forward_loop-Consecutive :
    (n : ℕ) (f : Buffer) (seq : ℕ) → Consecutive seq (forward_loop n f seq).1
unfolding forward_loop
forward_loop-Consecutive zero f seq = tt
forward_loop-Consecutive (suc n) f seq = elim (Option-cases (find_video_packet f seq)) [
  | inl e ↦ rw (e, forward_loop) tt
  | inr (p, e) ↦
      rw (e, forward_loop) ((find_sound f seq p e).0, forward_loop-Consecutive n f (next16 seq))
]

-- The number at which the loop stops is the first one that was not handed on.
pub forward_loop-end :
    (n : ℕ) (f : Buffer) (seq : ℕ)
    → seq < 65536
    → (forward_loop n f seq).0 ≡ (seq + length (forward_loop n f seq).1) % 65536
unfolding forward_loop
forward_loop-end zero f seq h = omega arith
forward_loop-end (suc n) f seq h = ground (arith, forward_loop-end n f (next16 seq))

-- What is handed on is what is found in the cache, number by number.
pub find-forward_loop :
    (n : ℕ) (f : Buffer) (seq k : ℕ)
    → seq < 65536
    → k < length (forward_loop n f seq).1
    → find_video_packet f ((seq + k) % 65536) ≡ get_elem? (forward_loop n f seq).1 k
unfolding forward_loop
find-forward_loop zero f seq k h lt = absurd (omega arith)
find-forward_loop (suc n) f seq k h lt = elim (Option-cases (find_video_packet f seq)) [
  | inl e ↦ let lt' : k < 0 = rw (e, forward_loop) at lt in absurd (omega arith)
  | inr (p, e) ↦
      let lt' : k < suc (length (forward_loop n f (next16 seq)).1) = rw (e, forward_loop) at lt in
      rw (e, forward_loop)
        (found_next f seq k p _ h e
          (λ j below. find-forward_loop n f (next16 seq) j (omega arith) below) lt')
]
  where
    found_next :
        (f : Buffer) (seq k : ℕ) (p : RtcPacket) (ps : List RtcPacket)
        → seq < 65536
        → find_video_packet f seq ≡ some p
        → ((j : ℕ)
            → j < length ps
            → find_video_packet f ((next16 seq + j) % 65536) ≡ get_elem? ps j)
        → k < suc (length ps)
        → find_video_packet f ((seq + k) % 65536) ≡ get_elem? (p ∷ ps) k
    found_next f seq zero p ps h e rest lt = let q : (seq + 0) % 65536 ≡ seq = omega arith in rw q e
    found_next f seq (suc k) p ps h e rest lt =
        let q : (seq + suc k) % 65536 ≡ (next16 seq + k) % 65536 = omega arith in
        rw q (rest k (omega arith))

-- The loop stops at a number that is not cached, or has met `n` cached numbers in a row.
full_step :
    (n : ℕ) (f : Buffer) (seq : ℕ)
    → seq < 65536
    → find_video_packet f seq ≢ none
    → ((k : ℕ) → k < n → find_video_packet f ((next16 seq + k) % 65536) ≢ none)
    → (k : ℕ) → k < suc n
    → find_video_packet f ((seq + k) % 65536) ≢ none
full_step n f seq h e full zero lt = let q : (seq + 0) % 65536 ≡ seq = omega arith in rw q e
full_step n f seq h e full (suc k) lt =
    let q : (seq + suc k) % 65536 ≡ (next16 seq + k) % 65536 = omega arith in
    rw q (full k (omega arith))

stops_or_full :
    (n : ℕ) (f : Buffer) (seq : ℕ)
    → seq < 65536
    → (find_video_packet f (forward_loop n f seq).0 ≡ none)
      ⊎ ((k : ℕ) → k < n → find_video_packet f ((seq + k) % 65536) ≢ none)
unfolding forward_loop
stops_or_full zero f seq h = inr (λ k lt. absurd (omega arith))
stops_or_full (suc n) f seq h = elim (Option-cases (find_video_packet f seq)) [
  | inl e ↦ inl (rw (e, forward_loop) e)
  | inr (p, e) ↦ elim (stops_or_full n f (next16 seq) (omega arith)) [
    | inl stop ↦ inl (rw (e, forward_loop) stop)
    | inr full ↦ inr (full_step n f seq h (λ d. cc) full)
  ]
]

-- Numbers 2048 apart share a slot, so one of them is missing.
slot_clash :
    (f : Buffer) (a b : ℕ)
    → a % 2048 ≡ b % 2048
    → a ≢ b
    → find_video_packet f a ≢ none
    → find_video_packet f b ≢ none
    → ⊥
slot_clash f a b s ne ha hb = elim (Option-cases (find_video_packet f a)) [
  | inl e ↦ ha e
  | inr (p, e) ↦ elim (Option-cases (find_video_packet f b)) [
    | inl d ↦ hb d
    | inr (q, d) ↦
        let (pa, fa) = find_sound f a p e in
        let (qb, fb) = find_sound f b q d in
        let fa' : f (b % 2048) ≡ some p = rw s at fa in ground arith
  ]
]

-- 2049 rounds never run out.
pub forward_loop_stops :
    (f : Buffer) (seq : ℕ) → seq < 65536 → find_video_packet f (forward_loop 2049 f seq).0 ≡ none
forward_loop_stops f seq h = elim (stops_or_full 2049 f seq h) [
  | inl stop ↦ stop
  | inr full ↦ absurd (
      slot_clash f ((seq + 0) % 65536) ((seq + 2048) % 65536) (omega arith) (omega arith)
        (full 0 (omega arith)) (full 2048 (omega arith)))
]

-- What clearing does not touch stays missing.
pub clear_loop-find_none :
    (c : SeqNum) (n : ℕ) (f : Buffer) (start end seq : ℕ)
    → find_video_packet f seq ≡ none
    → find_video_packet (clear_loop c n f start end) seq ≡ none
unfolding clear_loop
clear_loop-find_none c zero f start end seq e = e
clear_loop-find_none c (suc n) f start end seq e = elim (Bool-cases (c.ahead_or_at end start)) [
  | inl t ↦
      rw (t, clear_loop)
        (clear_loop-find_none c n _ (next16 start) end seq (find-update-none f _ seq e))
  | inr t ↦ rw (t, clear_loop) e
]
