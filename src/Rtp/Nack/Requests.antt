-- ===== src/Rtp/Nack/Requests.antt =====
-- The NACK requester as a whole: what each received packet and each timer tick keeps and does.
use xrtc_server.Base.{
  ℕ, suc, ◌+◌, ◌≤◌, ◌<◌, ◌≡◌, refl, Bool, true, false, List, [], none, ltb, ◌==◌, length, All,
  if◌then◌else◌, if_keep, arith, inl, inr, Bool-cases,
}
use xrtc_server.Base.Int.{ℤ}
use xrtc_server.Base.Seq.{SeqNum, SeqLaws, next16, dist}
use xrtc_server.Rtp.Histogram.{Float}
use xrtc_server.Rtp.Histogram.Window.{add-Inv}
use xrtc_server.Rtp.Histogram.Window
use xrtc_server.Rtp.Nack.{
  NackInfo, NackRequester, NackFilterOptions, find_nack, erase_nack, drop_older, drop_older_keys,
  insert_key, get_nack_batch, process_nacks, seq_num_only, time_only, max_nack_packets,
}
use xrtc_server.Rtp.Nack.Entries.{
  Unique, All-drop_older, drop_older-Unique, length-drop_older, All-erase_nack, erase_nack-Unique,
  length-erase_nack, find-erase_nack,
}
use xrtc_server.Rtp.Nack.Batch.{batch_loop-Unique, batch_loop-retries, length-batch_loop}
use xrtc_server.Rtp.Nack.Receive.{
  age_line, retries_of, record_missing, add_packets_to_nack, update_reordering_stat, on_old_packet,
  on_new_packet, on_received_packet, wait_number_of_packets,
}
use xrtc_server.Rtp.Nack.Gaps.{
  room_loop_keep, fill_loop-Unique, fill_loop-retries, length-fill_loop,
}

-- What holds of a list of missing packets: one entry for a number, none that has had ten requests,
-- and at most a thousand of them.
pub record Sound (nl : List NackInfo) : Type 0 where
  pub unique : Unique nl
  pub retries : All (λ x. x.retries < 10) nl
  pub bounded : length nl ≤ 1000

pub record Inv (r : NackRequester) : Type 0 where
  pub sound : Sound r.nack_list
  pub newest : r.newest_seq_num < 65536
  pub histogram : Window.Inv r.reordering_histogram

empty-Sound : Sound []
empty-Sound = record { unique = tt; retries = tt; bounded = omega arith }

drop_older-Sound : (c : SeqNum) (k : ℕ) (nl : List NackInfo) → Sound nl → Sound (drop_older c k nl)
drop_older-Sound c k nl s = record {
  unique = drop_older-Unique c k nl s.unique;
  retries = All-drop_older (λ x. x.retries < 10) c k nl s.retries;
  bounded = let b = s.bounded in omega (arith, length-drop_older c k nl);
}

erase_nack-Sound : (nl : List NackInfo) (seq : ℕ) → Sound nl → Sound (erase_nack nl seq)
erase_nack-Sound nl seq s = record {
  unique = erase_nack-Unique nl seq s.unique;
  retries = All-erase_nack (λ x. x.retries < 10) nl seq s.retries;
  bounded = let b = s.bounded in omega (arith, length-erase_nack nl seq);
}

get_nack_batch-Sound :
    (c : SeqNum) (r : NackRequester) (option : NackFilterOptions) (now : ℤ)
    → Sound r.nack_list
    → Sound (get_nack_batch c r option now).0.nack_list
unfolding get_nack_batch
get_nack_batch-Sound c r option now s = record {
  unique = batch_loop-Unique c r option now r.nack_list s.unique;
  retries = batch_loop-retries c r option now r.nack_list s.retries;
  bounded = let b = s.bounded in omega (arith, length-batch_loop c r option now r.nack_list);
}

get_nack_batch-Inv :
    (c : SeqNum) (r : NackRequester) (option : NackFilterOptions) (now : ℤ)
    → Inv r
    → Inv (get_nack_batch c r option now).0
unfolding get_nack_batch
get_nack_batch-Inv c r option now v = record {
  sound = get_nack_batch-Sound c r option now v.sound;
  newest = v.newest;
  histogram = v.histogram;
}

-- A timer tick keeps the invariant.
pub process_nacks-Inv :
    (c : SeqNum) (r : NackRequester) (now : ℤ) → Inv r → Inv (process_nacks c r now).0
unfolding process_nacks
process_nacks-Inv c r now v = get_nack_batch-Inv c r time_only now v

module _ (f : Float) (c : SeqNum) (half : f.Carrier) (laws : SeqLaws c) where
  record_missing-Sound :
      (r : NackRequester) (clock : ℕ → ℤ) (start end : ℕ) (nl : List NackInfo) (ks : List ℕ)
      → start < 65536
      → end < 65536
      → Sound nl
      → Sound (record_missing f c half r clock start end (dist start end) (nl, ks)).nack_list
  unfolding record_missing
  record_missing-Sound r clock start end nl ks hs he s =
      elim (Bool-cases (ltb max_nack_packets (length nl + dist start end))) [
        | inl t ↦ rw t empty-Sound
        | inr g ↦
            let w = wait_number_of_packets f c half r in
            let room : length nl + dist start end ≤ 1000 = ground arith in
            rw g (record {
              unique = fill_loop-Unique c w clock 65536 nl start end s.unique;
              retries = fill_loop-retries c w clock 65536 nl start end s.retries;
              bounded = omega (arith, length-fill_loop c w clock 65536 nl start end hs he);
            })
      ]

  add_packets_to_nack-Sound :
      (r : NackRequester) (clock : ℕ → ℤ) (start end : ℕ)
      → start < 65536
      → end < 65536
      → Sound r.nack_list
      → Sound (add_packets_to_nack f c half r clock start end).nack_list
  unfolding add_packets_to_nack
  add_packets_to_nack-Sound r clock start end hs he s =
      let s' = drop_older-Sound c (age_line end) r.nack_list s in
      let nl = drop_older c (age_line end) r.nack_list in
      rw (laws.forward start end hs he)
        (elim (Bool-cases (ltb max_nack_packets (length nl + dist start end))) [
          | inl t ↦ rw t (
              record_missing-Sound r clock start end _ _ hs he (
                room_loop_keep c Sound (drop_older-Sound c) (suc (length nl)) (dist start end) nl
                  r.keyframe_list s'))
          | inr g ↦ rw g (record_missing-Sound r clock start end nl r.keyframe_list hs he s')
        ])

  -- Recording a gap leaves the front and the histogram alone.
  record_missing-front :
      (r : NackRequester) (clock : ℕ → ℤ) (start end count : ℕ) (nlks : List NackInfo × List ℕ)
      → ((record_missing f c half r clock start end count nlks).newest_seq_num ≡ r.newest_seq_num)
        × ((record_missing f c half r clock start end count nlks).reordering_histogram
            ≡ r.reordering_histogram)
  unfolding record_missing
  record_missing-front r clock start end count (nl, ks) =
      elim (Bool-cases (ltb max_nack_packets (length nl + count))) [
        | inl t ↦ rw t (refl, refl)
        | inr g ↦ rw g (refl, refl)
      ]

  add_packets_to_nack-front :
      (r : NackRequester) (clock : ℕ → ℤ) (start end : ℕ)
      → ((add_packets_to_nack f c half r clock start end).newest_seq_num ≡ r.newest_seq_num)
        × ((add_packets_to_nack f c half r clock start end).reordering_histogram
            ≡ r.reordering_histogram)
  unfolding add_packets_to_nack
  add_packets_to_nack-front r clock start end =
      record_missing-front r clock start end (c.forward_diff start end) _

  pub add_packets_to_nack-Inv :
      (r : NackRequester) (clock : ℕ → ℤ) (start end : ℕ)
      → start < 65536
      → end < 65536
      → Inv r
      → Inv (add_packets_to_nack f c half r clock start end)
  add_packets_to_nack-Inv r clock start end hs he v =
      let front = add_packets_to_nack-front r clock start end in
      record {
        sound = add_packets_to_nack-Sound r clock start end hs he v.sound;
        newest = rw front.0 v.newest;
        histogram = rw front.1 v.histogram;
      }

  on_old_packet-Inv :
      (r : NackRequester) (seq : ℕ) (is_retransmitted : Bool)
      → Inv r
      → Inv (on_old_packet f c half r seq is_retransmitted).0
  unfolding update_reordering_stat
  on_old_packet-Inv r seq true v = record {
    sound = erase_nack-Sound r.nack_list seq v.sound;
    newest = v.newest;
    histogram = v.histogram;
  }
  on_old_packet-Inv r seq false v = record {
    sound = erase_nack-Sound r.nack_list seq v.sound;
    newest = v.newest;
    histogram = add-Inv r.reordering_histogram (c.reverse_diff r.newest_seq_num seq) v.histogram;
  }

  on_new_packet-Inv :
      (r : NackRequester) (clock : ℕ → ℤ) (now : ℤ) (seq : ℕ) (is_keyframe : Bool)
      → seq < 65536
      → Inv r
      → Inv (on_new_packet f c half r clock now seq is_keyframe).0
  on_new_packet-Inv r clock now seq is_keyframe hs v =
      let keys = if is_keyframe then insert_key c r.keyframe_list seq else r.keyframe_list in
      let r1 = record r { keyframe_list = drop_older_keys c (age_line seq) keys } in
      let v1 : Inv r1 = record { sound = v.sound; newest = v.newest; histogram = v.histogram } in
      let v2 = add_packets_to_nack-Inv r1 clock (next16 r.newest_seq_num) seq (omega arith) hs v1 in
      get_nack_batch-Inv c _ seq_num_only now
        (record { sound = v2.sound; newest = hs; histogram = v2.histogram })

  -- Every packet keeps the requester sound: one entry for a missing number, none that has had ten
  -- requests, at most 1000 entries, a 16-bit front and a histogram that counts its window.
  pub on_received_packet-Inv :
      (r : NackRequester) (clock : ℕ → ℤ) (now : ℤ) (seq : ℕ) (is_keyframe is_retransmitted : Bool)
      → seq < 65536
      → Inv r
      → Inv (on_received_packet f c half r clock now seq is_keyframe is_retransmitted).0
  unfolding on_received_packet
  on_received_packet-Inv r clock now seq is_keyframe is_retransmitted hs v =
      let P = λ (s : NackRequester × ℕ × List ℕ). Inv s.0 in
      if_keep P r.initialized _ _
        (if_keep P (seq == r.newest_seq_num) _ _ v (
          if_keep P (c.ahead_of r.newest_seq_num seq) _ _
            (on_old_packet-Inv r seq is_retransmitted v)
            (on_new_packet-Inv r clock now seq is_keyframe hs v)))
        (record { sound = v.sound; newest = hs; histogram = v.histogram })

  -- A packet from behind the front closes its own entry and no other, and the result is the number
  -- of requests that were sent for it.
  pub on_received_packet-closes :
      (r : NackRequester) (clock : ℕ → ℤ) (now : ℤ) (seq : ℕ) (is_keyframe is_retransmitted : Bool)
      → Inv r
      → r.initialized ≡ true
      → (seq == r.newest_seq_num) ≡ false
      → c.ahead_of r.newest_seq_num seq ≡ true
      → ((on_received_packet f c half r clock now seq is_keyframe is_retransmitted).1
          ≡ retries_of (find_nack r.nack_list seq))
        × ((j : ℕ)
            → find_nack
                (on_received_packet f c half r clock now seq is_keyframe
                  is_retransmitted).0.nack_list
                j
              ≡ (if seq == j then none else find_nack r.nack_list j))
  unfolding on_received_packet update_reordering_stat
  on_received_packet-closes r clock now seq is_keyframe true v i n a =
      rw (i, n, a) (refl, λ j. find-erase_nack r.nack_list seq j v.sound.unique)
  on_received_packet-closes r clock now seq is_keyframe false v i n a =
      rw (i, n, a) (refl, λ j. find-erase_nack r.nack_list seq j v.sound.unique)
