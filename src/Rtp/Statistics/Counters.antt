-- ===== src/Rtp/Statistics/Counters.antt =====
-- The loss ledger of UpdateCounters in receive_stat.cpp.
use xrtc_server.Base.{
  ℕ, ◌+◌, ◌*◌, ◌%◌, ◌≤◌, ◌<◌, ◌≡◌, refl, true, false, not, none, arith, inl, inr, ltb, Bool-cases,
  if_keep, if_true,
}
use xrtc_server.Base.Int.{
  ℤ, pos, negsuc, pos_part, neg_part, magnitude, magnitude_add-le, magnitude_sub-le, ◌+ℤ◌, ◌-ℤ◌,
  leb_ℤ, ltb_ℤ, +ℤ_parts, -ℤ_parts,
}
use xrtc_server.Rtp.Statistics.{
  Unwrapper, Packet, StreamStat, int32, deviation, is_plausible, update_jitter, update_out_of_order,
  update_counters, on_in_order, received_rtp_packet, max_reordering_threshold,
}
use xrtc_server.Rtp.Statistics.Jitter.{filter_jitter-bounded}

-- A value that fits is not changed by the conversion.
pub int32-small : (z : ℤ) → magnitude z < 2147483648 → int32 z ≡ z
unfolding int32
int32-small (pos n) h = ground arith
int32-small (negsuc n) h = ground arith

-- What webrtc documents of a fresh unwrapper: the first number is its own.
pub record UnwrapperLaws (u : Unwrapper) : Type 0 where
  pub first : (seq : ℕ) → u.unwrap u.fresh seq ≡ pos seq

-- loss + n = front - first + 1, without subtraction.
abbrev pub Balanced : ℤ → ℤ → ℤ → ℕ → Type 0
Balanced loss front first n =
    pos_part loss + n + pos_part first + neg_part front
    ≡ neg_part loss + neg_part first + pos_part front + 1

-- After `n` packets of a stream without jumps the ledger is what was expected less what came: the
-- numbers from the first to the front, less the packets.
pub record Ledger {u : Unwrapper} (s : StreamStat u) (n : ℕ) : Type 0 where
  pub started : leb_ℤ (pos 0) s.received_seq_first ≡ true
  pub no_jump : s.received_seq_out_of_order ≡ none
  pub balance : Balanced s.cumulative_loss s.received_seq_max s.received_seq_first n
  pub small : magnitude s.cumulative_loss ≤ 451 * n
  pub jitter : s.jitter_q4 ≤ 7199984

module _ {u : Unwrapper} where
  -- The jitter's part of a packet in order does not touch the ledger.
  update_jitter-Ledger :
      (s : StreamStat u) (p : Packet) (now : ℤ) (n : ℕ)
      → Ledger s n
      → Ledger (update_jitter s p now) n
  unfolding update_jitter
  update_jitter-Ledger s p now n l =
      let d =
        deviation (now -ℤ s.last_received_time_ms) p.frequency p.timestamp
          s.last_received_timestamp in
      elim (Bool-cases (is_plausible d)) [
        | inr f ↦ rw f l
        | inl t ↦ rw t (record {
          started = l.started;
          no_jump = l.no_jump;
          balance = l.balance;
          small = l.small;
          jitter = filter_jitter-bounded s.jitter_q4 d l.jitter t;
        })
      ]

  pub on_in_order-Ledger :
      (s : StreamStat u) (p : Packet) (now z : ℤ) (n : ℕ)
      → leb_ℤ (pos 0) s.received_seq_first ≡ true
      → s.received_seq_out_of_order ≡ none
      → Balanced (int32 (s.cumulative_loss +ℤ (z -ℤ s.received_seq_max))) z s.received_seq_first n
      → magnitude (int32 (s.cumulative_loss +ℤ (z -ℤ s.received_seq_max))) ≤ 451 * n
      → s.jitter_q4 ≤ 7199984
      → Ledger (on_in_order s p now z) n
  unfolding on_in_order
  on_in_order-Ledger s p now z n st nj b sm j =
      let s1 = record s {
        cumulative_loss = int32 (s.cumulative_loss +ℤ (z -ℤ s.received_seq_max));
        received_seq_max = z;
        seq_unwrapper = u.update_last s.seq_unwrapper z;
      } in
      let l1 : Ledger s1 n = record {
        started = st;
        no_jump = nj;
        balance = b;
        small = sm;
        jitter = j;
      } in
      let l2 : Ledger (update_jitter s1 p now) n = update_jitter-Ledger s1 p now n l1 in
      let keep = λ (s2 : StreamStat u).
        Ledger (record s2 { last_received_timestamp = p.timestamp; last_received_time_ms = now })
          n in
      if_keep keep _ _ _
        (record {
          started = l2.started;
          no_jump = l2.no_jump;
          balance = l2.balance;
          small = l2.small;
          jitter = l2.jitter;
        })
        (record { started = st; no_jump = nj; balance = b; small = sm; jitter = j })

  counted : (s : StreamStat u) → ℤ → StreamStat u
  counted s cum = record s { packets = (s.packets + 1) % 4294967296; cumulative_loss = cum }

  -- A packet within the reordering threshold of the front.
  pub update_counters-Ledger :
      (s : StreamStat u) (p : Packet) (now : ℤ) (n : ℕ)
      → Ledger s n
      → magnitude (u.unwrap s.seq_unwrapper p.seq_num -ℤ s.received_seq_max) ≤ 450
      → 451 * n ≤ 2147400000
      → Ledger (update_counters s p now) (n + 1)
  unfolding update_counters update_out_of_order received_rtp_packet
  update_counters-Ledger s p now n l near few =
      let z = u.unwrap s.seq_unwrapper p.seq_num in
      let sm = l.small in
      let b = l.balance in
      let lost : int32 (s.cumulative_loss -ℤ pos 1) ≡ s.cumulative_loss -ℤ pos 1 =
        int32-small (s.cumulative_loss -ℤ pos 1)
          (omega (arith, magnitude_sub-le s.cumulative_loss (pos 1))) in
      let cum = s.cumulative_loss -ℤ pos 1 in
      let d = z -ℤ s.received_seq_max in
      let threshold : ltb max_reordering_threshold (magnitude d) ≡ false = ground arith in
      let le1 = magnitude_sub-le s.cumulative_loss (pos 1) in
      let le2 = magnitude_add-le cum d in
      let p1 = -ℤ_parts s.cumulative_loss (pos 1) in
      let p2 = -ℤ_parts z s.received_seq_max in
      let p3 = +ℤ_parts cum d in
      let gap : int32 (cum +ℤ d) ≡ cum +ℤ d = int32-small (cum +ℤ d) (omega arith) in
      let P = λ (t : StreamStat u). Ledger t (n + 1) in
      if_true P (leb_ℤ (pos 0) s.received_seq_first) _ _ l.started (
        rw (l.no_jump, threshold, lost)
          (if_keep P (not (ltb_ℤ s.received_seq_max z)) _ _
            (record {
              started = l.started;
              no_jump = refl;
              balance = omega (arith, b, p1);
              small = omega arith;
              jitter = l.jitter;
            })
            (on_in_order-Ledger _ p now z (n + 1) l.started refl
              (rw gap (omega (arith, b, p1, p2, p3))) (rw gap (omega arith)) l.jitter)))
