-- ===== src/Rtp/Nack/Receive.antt =====
-- OnReceivedPacket of nack_requester.cpp and what it calls to record the numbers that are missing.
-- The clock is read once for each entry that is made; the readings are a function of its number.
use xrtc_server.Base.{
  ℕ, zero, suc, ◌+◌, ◌-◌, ◌%◌, Bool, true, false, ◌&&◌, List, [], ◌∷◌, Option, none, some, ltb,
  ◌==◌, length, if◌then◌else◌,
}
use xrtc_server.Base.Int.{ℤ}
use xrtc_server.Base.Seq.{SeqNum, next16, u16}
use xrtc_server.Rtp.Histogram
use xrtc_server.Rtp.Histogram.{Float}
use xrtc_server.Rtp.Nack.{
  NackInfo, NackRequester, find_nack, erase_nack, put_nack, drop_older, drop_older_keys, insert_key,
  new_nack_info, get_nack_batch, seq_num_only, max_packet_age, max_nack_packets,
}

-- `seq - kMaxPacketAge` as a uint16_t.
abbrev pub age_line : ℕ → ℕ
age_line seq = (seq + 65536 - max_packet_age) % 65536

-- RemovePacketsUntilKeyFrame: the entries and anchors that stay, and whether entries were removed.
unfoldable pub remove_packets_until_key_frame :
    SeqNum → List NackInfo → List ℕ → List NackInfo × List ℕ × Bool
remove_packets_until_key_frame c nl [] = (nl, [], false)
remove_packets_until_key_frame c nl (k ∷ ks) =
    if length (drop_older c k nl) == length nl
    then remove_packets_until_key_frame c nl ks
    else (drop_older c k nl, k ∷ ks, true)

-- `while (RemovePacketsUntilKeyFrame() && size + count > kMaxNackPackets) { }`
unfoldable pub room_loop : SeqNum → ℕ → ℕ → List NackInfo → List ℕ → List NackInfo × List ℕ
room_loop c zero count nl ks = (nl, ks)
room_loop c (suc fuel) count nl ks =
    let (nl', ks', removed) = remove_packets_until_key_frame c nl ks in
    elim (removed && ltb max_nack_packets (length nl' + count)) [
      | true ↦ room_loop c fuel count nl' ks'
      | false ↦ (nl', ks')
    ]

-- `for (seq = start; seq != end; ++seq)`; 65536 rounds reach every end.
unfoldable pub fill_loop : SeqNum → ℕ → (ℕ → ℤ) → ℕ → List NackInfo → ℕ → ℕ → List NackInfo
fill_loop c wait clock zero nl seq end = nl
fill_loop c wait clock (suc fuel) nl seq end = elim (seq == end) [
  | true ↦ nl
  | false ↦
      fill_loop c wait clock fuel (put_nack c nl (new_nack_info seq (u16 (seq + wait)) (clock seq)))
        (next16 seq) end
]

abbrev pub retries_of : Option NackInfo → ℕ
retries_of none = 0
retries_of (some x) = x.retries

module _ (f : Float) (c : SeqNum) (half : f.Carrier) where
  unfoldable pub wait_number_of_packets : NackRequester → ℕ
  wait_number_of_packets r =
      if Histogram.num_values r.reordering_histogram == 0
      then 0
      else Histogram.inverse_cdf f r.reordering_histogram half

  -- With the entries in `nl` and the anchors in `ks` there is room, or everything is given up.
  unfoldable pub record_missing :
      NackRequester → (ℕ → ℤ) → ℕ → ℕ → ℕ → List NackInfo × List ℕ → NackRequester
  record_missing r clock start end count (nl, ks) =
      if ltb max_nack_packets (length nl + count)
      then record r { nack_list = []; keyframe_list = ks }
      else record r {
        nack_list = fill_loop c (wait_number_of_packets r) clock 65536 nl start end;
        keyframe_list = ks;
      }

  unfoldable pub add_packets_to_nack : NackRequester → (ℕ → ℤ) → ℕ → ℕ → NackRequester
  unfolding record_missing
  add_packets_to_nack r clock start end =
      let nl = drop_older c (age_line end) r.nack_list in
      let count = c.forward_diff start end in
      record_missing r clock start end count (
        if ltb max_nack_packets (length nl + count)
        then room_loop c (suc (length nl)) count nl r.keyframe_list
        else (nl, r.keyframe_list))

  unfoldable pub update_reordering_stat : NackRequester → ℕ → NackRequester
  update_reordering_stat r seq = record r {
    reordering_histogram =
        Histogram.add r.reordering_histogram (c.reverse_diff r.newest_seq_num seq);
  }

  -- An older packet: a retransmission that was asked for, or one that was overtaken.
  abbrev pub on_old_packet : NackRequester → ℕ → Bool → NackRequester × ℕ × List ℕ
  on_old_packet r seq is_retransmitted =
      let r' = record r { nack_list = erase_nack r.nack_list seq } in
      let sent = retries_of (find_nack r.nack_list seq) in
      (if is_retransmitted then r' else update_reordering_stat r' seq, sent, [])

  -- A packet that moves the front on.
  abbrev pub on_new_packet : NackRequester → (ℕ → ℤ) → ℤ → ℕ → Bool → NackRequester × ℕ × List ℕ
  on_new_packet r clock now seq is_keyframe =
      let keys = if is_keyframe then insert_key c r.keyframe_list seq else r.keyframe_list in
      let r1 = record r { keyframe_list = drop_older_keys c (age_line seq) keys } in
      let r2 = add_packets_to_nack r1 clock (next16 r.newest_seq_num) seq in
      let (r3, batch) = get_nack_batch c (record r2 { newest_seq_num = seq }) seq_num_only now in
      (r3, 0, batch)

  -- The result is the number of requests that the packet took, and the batch of SignalNackSend.
  unfoldable pub on_received_packet :
      NackRequester → (ℕ → ℤ) → ℤ → ℕ → Bool → Bool → NackRequester × ℕ × List ℕ
  on_received_packet r clock now seq is_keyframe is_retransmitted =
      if r.initialized
      then if seq == r.newest_seq_num
        then (r, 0, [])
        else if c.ahead_of r.newest_seq_num seq
        then on_old_packet r seq is_retransmitted
        else on_new_packet r clock now seq is_keyframe
      else (
        record r {
          newest_seq_num = seq;
          keyframe_list = if is_keyframe then insert_key c r.keyframe_list seq else r.keyframe_list;
          initialized = true;
        },
        0,
        [],
      )
