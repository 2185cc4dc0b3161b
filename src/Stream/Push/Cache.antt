-- ===== src/Stream/Push/Cache.antt =====
-- The packet cache: src/stream/push_stream.cpp, FindVideoPacket and CacheVideoPacket.
use xrtc_server.Base.{
  ℕ, ◌%◌, ◌<◌, ◌≡◌, refl, ◌≢◌, inl, inr, true, false, Option, none, some, ◌==◌, ==_refl, not, ◌&&◌,
  is_some, if◌then◌else◌, arith, Bool-cases, Option-cases,
}
use xrtc_server.Stream.Packet.{RtcPacket}
use xrtc_server.Stream.Push.{Buffer, update, holds, find_video_packet, cache_video_packet}

-- Each slot holds a 16-bit sequence number that belongs into it.
abbrev pub Slots : Buffer → Type 0
Slots f = (i : ℕ) (p : RtcPacket) → f i ≡ some p → (p.seq_num % 2048 ≡ i) × (p.seq_num < 65536)

abbrev pub some_or : Option RtcPacket → RtcPacket → Option RtcPacket
some_or none p = some p
some_or (some q) p = some q

pub holds-none : (o : Option RtcPacket) (seq : ℕ) → o ≡ none → holds o seq ≡ false
holds-none o seq e = rw e

pub holds_eq :
    (o : Option RtcPacket) (seq : ℕ) (p : RtcPacket)
    → o ≡ some p
    → holds o seq ≡ true
    → p.seq_num ≡ seq
holds_eq none seq p e h = cc
holds_eq (some q) seq p e h = ground arith

-- What a search finds carries the number asked for, and lies in that number's slot.
pub find_sound :
    (f : Buffer) (seq : ℕ) (p : RtcPacket)
    → find_video_packet f seq ≡ some p
    → (p.seq_num ≡ seq) × (f (seq % 2048) ≡ some p)
unfolding find_video_packet
find_sound f seq p e = elim (Bool-cases (holds (f (seq % 2048)) seq)) [
  | inl h ↦
      let slot : f (seq % 2048) ≡ some p = rw h at e in
      (holds_eq (f (seq % 2048)) seq p slot h, slot)
  | inr h ↦ absurd (let bad : none ≡ some p = rw h at e in cc)
]

pub find_complete :
    (f : Buffer) (seq : ℕ) (p : RtcPacket)
    → f (seq % 2048) ≡ some p
    → p.seq_num ≡ seq
    → find_video_packet f seq ≡ some p
unfolding find_video_packet
find_complete f seq p e h = rw e (rw h (rw (==_refl seq)))

pub find_none : (f : Buffer) (seq : ℕ) → f (seq % 2048) ≡ none → find_video_packet f seq ≡ none
unfolding find_video_packet
find_none f seq e = rw e

pub find_other :
    (f : Buffer) (seq : ℕ) (p : RtcPacket)
    → f (seq % 2048) ≡ some p
    → p.seq_num ≢ seq
    → find_video_packet f seq ≡ none
unfolding find_video_packet
find_other f seq p e h = ground arith

pub cache-Slots :
    (f : Buffer) (p : RtcPacket) → p.seq_num < 65536 → Slots f → Slots (cache_video_packet f p)
unfolding cache_video_packet
cache-Slots f p lt ok i q e = ground (arith, ok i q)

-- A packet that was cached is found under its number, unless one of that number was there before:
-- then that one stays. Searches for other numbers are as before, but for the number it pushed out.
pub find-cache_self :
    (f : Buffer) (p : RtcPacket)
    → (q : RtcPacket) × (find_video_packet (cache_video_packet f p) p.seq_num ≡ some q)
      × (q.seq_num ≡ p.seq_num)
unfolding cache_video_packet find_video_packet
find-cache_self f p = elim (Option-cases (f (p.seq_num % 2048))) [
  | inl e ↦ (p, ground (arith), refl)
  | inr (q, e) ↦ elim (Bool-cases (q.seq_num == p.seq_num)) [
    | inl h ↦ (q, ground arith, ground arith)
    | inr h ↦ (p, ground arith, refl)
  ]
]

pub find-cache_ne :
    (f : Buffer) (p : RtcPacket) (seq : ℕ)
    → p.seq_num ≢ seq
    → find_video_packet f seq ≡ none
    → find_video_packet (cache_video_packet f p) seq ≡ none
unfolding cache_video_packet find_video_packet
find-cache_ne f p seq ne e = ground arith

pub find-update-none :
    (f : Buffer) (i seq : ℕ)
    → find_video_packet f seq ≡ none
    → find_video_packet (update f i none) seq ≡ none
unfolding find_video_packet
find-update-none f i seq e = ground arith

-- Searching after a packet was cached. Its own number finds the packet that was there under that
-- number, else the new one. Another number finds what it found before, unless the new packet
-- pushed it out of a shared slot.
pub find-cache :
    (f : Buffer) (p : RtcPacket) (seq : ℕ)
    → find_video_packet (cache_video_packet f p) seq ≡ (
        if p.seq_num == seq
        then some_or (find_video_packet f seq) p
        else if not (is_some (find_video_packet f p.seq_num)) && (p.seq_num % 2048 == seq % 2048)
        then none
        else find_video_packet f seq)
unfolding cache_video_packet find_video_packet
find-cache f p seq = ground arith
