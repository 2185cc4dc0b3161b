-- ===== src/Rtp/Nack/Missing.antt =====
-- OnReceivedPacket of nack_requester.cpp when the front moves on: the skipped numbers are recorded.
use xrtc_server.Base.{
  ℕ, ◌+◌, ◌≤◌, ◌<◌, ◌≡◌, refl, ap, ◌∙◌, Bool, true, false, List, some, ltb, lt→ltb, ◌==◌, length,
  is_some, if◌then◌else◌, if_true, if_false, arith,
}
use xrtc_server.Base.Int.{ℤ}
use xrtc_server.Base.Seq.{SeqNum, SeqLaws, next16, dist}
use xrtc_server.Rtp.Histogram.{Float}
use xrtc_server.Rtp.Nack.{
  NackInfo, NackRequester, NackFilterOptions, find_nack, drop_older, drop_older_keys, insert_key,
  get_nack_batch, seq_num_only, max_nack_packets,
}
use xrtc_server.Rtp.Nack.Entries.{length-drop_older}
use xrtc_server.Rtp.Nack.Batch.{find-batch_loop, outcome}
use xrtc_server.Rtp.Nack.Receive.{
  age_line, record_missing, add_packets_to_nack, on_new_packet, on_received_packet,
  wait_number_of_packets,
}
use xrtc_server.Rtp.Nack.Gaps.{gap_entry, find-fill_loop}
use xrtc_server.Rtp.Nack.Requests.{Inv, add_packets_to_nack-Inv}

-- A first request never gives an entry up.
is_some-outcome :
    (c : SeqNum) (r : NackRequester) (option : NackFilterOptions) (now : ℤ) (x : NackInfo)
    → x.retries ≡ 0
    → is_some (outcome c r option now (some x)) ≡ true
is_some-outcome c r option now x h = ground arith

module _ (f : Float) (c : SeqNum) (half : f.Carrier) (laws : SeqLaws c) where
  find-add_packets_to_nack :
      (r : NackRequester) (clock : ℕ → ℤ) (start end j : ℕ)
      → start < 65536
      → end < 65536
      → j < 65536
      → length r.nack_list + dist start end ≤ 1000
      → dist start j < dist start end
      → find_nack (add_packets_to_nack f c half r clock start end).nack_list j
        ≡ some (gap_entry c (wait_number_of_packets f c half r) clock j)
  unfolding add_packets_to_nack record_missing
  find-add_packets_to_nack r clock start end j hs he hj room inside =
      let nl = drop_older c (age_line end) r.nack_list in
      let w = wait_number_of_packets f c half r in
      let fits : ltb max_nack_packets (length nl + dist start end) ≡ false =
        ground (arith, length-drop_older c (age_line end) r.nack_list) in
      rw (laws.forward start end hs he, fits, fits)
        (find-fill_loop c w clock 65536 nl start end j hs he hj (omega arith)
          ∙ rw (lt→ltb (dist start j) (dist start end) inside) refl)

  on_new_packet-records :
      (r : NackRequester) (clock : ℕ → ℤ) (now : ℤ) (seq j : ℕ) (is_keyframe : Bool)
      → seq < 65536
      → j < 65536
      → Inv r
      → length r.nack_list + dist (next16 r.newest_seq_num) seq ≤ 1000
      → dist (next16 r.newest_seq_num) j < dist (next16 r.newest_seq_num) seq
      → is_some (find_nack (on_new_packet f c half r clock now seq is_keyframe).0.nack_list j)
        ≡ true
  unfolding get_nack_batch
  on_new_packet-records r clock now seq j is_keyframe hs hj v room inside =
      let keys = if is_keyframe then insert_key c r.keyframe_list seq else r.keyframe_list in
      let r1 = record r { keyframe_list = drop_older_keys c (age_line seq) keys } in
      let v1 : Inv r1 = record { sound = v.sound; newest = v.newest; histogram = v.histogram } in
      let start = next16 r.newest_seq_num in
      let r2 = add_packets_to_nack f c half r1 clock start seq in
      let v2 = add_packets_to_nack-Inv f c half laws r1 clock start seq (omega arith) hs v1 in
      let there = find-add_packets_to_nack r1 clock start seq j (omega arith) hs hj room inside in
      let w = wait_number_of_packets f c half r1 in
      let r3 = record r2 { newest_seq_num = seq } in
      ap is_some (find-batch_loop c r3 seq_num_only now r2.nack_list j v2.sound.unique)
      ∙ ap (λ o. is_some (outcome c r3 seq_num_only now o)) there
      ∙ is_some-outcome c r3 seq_num_only now (gap_entry c w clock j) refl

  -- When the front moves on and the list has room for the gap, each number between the old front
  -- and the new packet has its entry afterwards.
  pub on_received_packet-records :
      (r : NackRequester) (clock : ℕ → ℤ) (now : ℤ) (seq j : ℕ)
      (is_keyframe is_retransmitted : Bool)
      → seq < 65536
      → j < 65536
      → Inv r
      → r.initialized ≡ true
      → (seq == r.newest_seq_num) ≡ false
      → c.ahead_of r.newest_seq_num seq ≡ false
      → length r.nack_list + dist (next16 r.newest_seq_num) seq ≤ 1000
      → dist (next16 r.newest_seq_num) j < dist (next16 r.newest_seq_num) seq
      → is_some (
          find_nack
            (on_received_packet f c half r clock now seq is_keyframe is_retransmitted).0.nack_list
            j)
        ≡ true
  unfolding on_received_packet
  on_received_packet-records r clock now seq j is_keyframe is_retransmitted hs hj v i n a room
        inside =
      let P = λ (s : NackRequester × ℕ × List ℕ). is_some (find_nack s.0.nack_list j) ≡ true in
      if_true P r.initialized _ _ i (
        if_false P (seq == r.newest_seq_num) _ _ n (
          if_false P (c.ahead_of r.newest_seq_num seq) _ _ a
            (on_new_packet-records r clock now seq j is_keyframe hs hj v room inside)))
