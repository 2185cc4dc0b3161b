-- ===== src/Rtp/Nack/Gaps.antt =====
-- AddPacketsToNack of nack_requester.cpp: making room, and recording a gap.
use xrtc_server.Base.{
  ℕ, zero, suc, ◌+◌, ◌≤◌, ◌<◌, ◌≡◌, ◌∙◌, ◌&&◌, List, [], ◌∷◌, some, ltb, ◌==◌, ==_iff, length, All,
  if◌then◌else◌, arith, inl, inr, Bool-cases,
}
use xrtc_server.Base.Int.{ℤ}
use xrtc_server.Base.Seq.{SeqNum, next16, u16, dist}
use xrtc_server.Rtp.Nack.{
  NackInfo, find_nack, put_nack, drop_older, new_nack_info, max_nack_packets,
}
use xrtc_server.Rtp.Nack.Entries.{
  Unique, find-put_nack, put_nack-Unique, length-put_nack, All-put_nack,
}
use xrtc_server.Rtp.Nack.Receive.{remove_packets_until_key_frame, room_loop, fill_loop}

-- What a list keeps under every cut at its old end it keeps when room is made.
module _ {κ} (c : SeqNum) (P : List NackInfo → Type κ)
    (cut : (k : ℕ) (nl : List NackInfo) → P nl → P (drop_older c k nl)) where
  remove_packets_keep :
      (nl : List NackInfo) (ks : List ℕ) → P nl → P (remove_packets_until_key_frame c nl ks).0
  unfolding remove_packets_until_key_frame
  remove_packets_keep nl [] p = p
  remove_packets_keep nl (k ∷ ks) p = elim (Bool-cases (length (drop_older c k nl) == length nl)) [
    | inl t ↦ rw t (remove_packets_keep nl ks p)
    | inr f ↦ rw f (cut k nl p)
  ]

  pub room_loop_keep :
      (fuel count : ℕ) (nl : List NackInfo) (ks : List ℕ)
      → P nl
      → P (room_loop c fuel count nl ks).0
  unfolding room_loop
  room_loop_keep zero count nl ks p = p
  room_loop_keep (suc fuel) count nl ks p =
      let p' = remove_packets_keep nl ks p in
      let r = remove_packets_until_key_frame c nl ks in
      elim (Bool-cases (r.2 && ltb max_nack_packets (length r.0 + count))) [
        | inl t ↦ rw (t, room_loop) (room_loop_keep fuel count r.0 r.1 p')
        | inr f ↦ rw (f, room_loop) p'
      ]

module _ (c : SeqNum) (wait : ℕ) (clock : ℕ → ℤ) where
  abbrev pub gap_entry : ℕ → NackInfo
  gap_entry seq = new_nack_info seq (u16 (seq + wait)) (clock seq)

  pub fill_loop-Unique :
      (fuel : ℕ) (nl : List NackInfo) (seq end : ℕ)
      → Unique nl
      → Unique (fill_loop c wait clock fuel nl seq end)
  unfolding fill_loop
  fill_loop-Unique zero nl seq end u = u
  fill_loop-Unique (suc fuel) nl seq end u = elim (Bool-cases (seq == end)) [
    | inl t ↦ rw (t, fill_loop) u
    | inr f ↦
        rw (f, fill_loop)
          (fill_loop-Unique fuel _ (next16 seq) end (put_nack-Unique c nl (gap_entry seq) u))
  ]

  pub fill_loop-retries :
      (fuel : ℕ) (nl : List NackInfo) (seq end : ℕ)
      → All (λ x. x.retries < 10) nl
      → All (λ x. x.retries < 10) (fill_loop c wait clock fuel nl seq end)
  unfolding fill_loop
  fill_loop-retries zero nl seq end all = all
  fill_loop-retries (suc fuel) nl seq end all = elim (Bool-cases (seq == end)) [
    | inl t ↦ rw (t, fill_loop) all
    | inr f ↦
        rw (f, fill_loop)
          (fill_loop-retries fuel _ (next16 seq) end
            (All-put_nack (λ x. x.retries < 10) c nl (gap_entry seq) all (omega arith)))
  ]

  pub length-fill_loop :
      (fuel : ℕ) (nl : List NackInfo) (seq end : ℕ)
      → seq < 65536
      → end < 65536
      → length (fill_loop c wait clock fuel nl seq end) ≤ length nl + dist seq end
  unfolding fill_loop
  length-fill_loop zero nl seq end hs he = omega arith
  length-fill_loop (suc fuel) nl seq end hs he = elim (Bool-cases (seq == end)) [
    | inl t ↦ rw (t, fill_loop) (omega arith)
    | inr f ↦
        let one = length-put_nack c nl (gap_entry seq) in
        let ih =
          length-fill_loop fuel (put_nack c nl (gap_entry seq)) (next16 seq) end (omega arith) he in
        rw (f, fill_loop) (ground (arith, one, ih))
  ]

  -- With enough rounds every number from `seq` up to `end` is recorded, and nothing else changes.
  pub find-fill_loop :
      (fuel : ℕ) (nl : List NackInfo) (seq end j : ℕ)
      → seq < 65536
      → end < 65536
      → j < 65536
      → dist seq end ≤ fuel
      → find_nack (fill_loop c wait clock fuel nl seq end) j
        ≡ (if ltb (dist seq j) (dist seq end) then some (gap_entry j) else find_nack nl j)
  unfolding fill_loop
  find-fill_loop zero nl seq end j hs he hj h = ground arith
  find-fill_loop (suc fuel) nl seq end j hs he hj h = elim (Bool-cases (seq == end)) [
    | inl t ↦ rw (t, fill_loop) (ground arith)
    | inr f ↦
        rw (f, fill_loop)
          (find-fill_loop fuel (put_nack c nl (gap_entry seq)) (next16 seq) end j (omega arith) he
              hj (ground arith)
            ∙ elim (Bool-cases (seq == j)) [
              | inl s ↦
                  let e : seq ≡ j = (==_iff seq j).0 s in
                  ground (arith, find-put_nack c nl (gap_entry seq) j)
              | inr s ↦ ground (arith, find-put_nack c nl (gap_entry seq) j)
            ])
  ]
