-- ===== src/Rtp/Statistics.antt =====
-- src/modules/rtp_rtcp/receive_stat.cpp, one stream: the loss ledger, the jitter, the report block.
-- The sequence unwrapper of webrtc, which the server only calls, is a parameter.
pub mod Counters
pub mod Jitter
pub mod Balance
pub mod Reports
pub mod Streams
pub mod Registry
pub mod Turns
mod Examples
use xrtc_server.Base.{
  ℕ, zero, suc, ◌+◌, ◌-◌, ◌*◌, ◌/◌, ◌%◌, Bool, true, false, not, ◌&&◌, ◌||◌, List, [], ◌∷◌, ◌++◌,
  Option, none, some, ltb, leb, ◌==◌, if◌then◌else◌,
}
use xrtc_server.Base.Int.{ℤ, pos, negsuc, magnitude, ◌+ℤ◌, ◌-ℤ◌, ltb_ℤ, leb_ℤ}
use xrtc_server.Base.Seq.{u16}

abbrev pub max_reordering_threshold : ℕ
max_reordering_threshold = 450

abbrev pub stream_stat_timeout_ms : ℤ
stream_stat_timeout_ms = pos 8000

-- What the statistics read of a received packet.
pub record Packet : Type 0 where
  pub ssrc : ℕ
  pub seq_num : ℕ
  pub timestamp : ℕ
  pub frequency : ℕ

-- webrtc::Unwrapper<uint16_t>: UnwrapWithoutUpdate and UpdateLast.
pub record Unwrapper : Type 1 where
  pub State : Type 0
  pub fresh : State
  pub unwrap : State → ℕ → ℤ
  pub update_last : State → ℤ → State

-- Conversions to int32_t, uint32_t and uint8_t.
unfoldable pub int32 : ℤ → ℤ
int32 (pos n) =
    if ltb (n % 4294967296) 2147483648
    then pos (n % 4294967296)
    else negsuc (4294967295 - n % 4294967296)
int32 (negsuc n) =
    if ltb (n % 4294967296) 2147483648
    then negsuc (n % 4294967296)
    else pos (4294967295 - n % 4294967296)

unfoldable pub uint32 : ℤ → ℕ
uint32 (pos n) = n % 4294967296
uint32 (negsuc n) = 4294967295 - n % 4294967296

unfoldable pub uint8 : ℤ → ℕ
uint8 (pos n) = n % 256
uint8 (negsuc n) = 255 - n % 256

-- -n as an integer.
abbrev pub minus : ℕ → ℤ
minus zero = pos 0
minus (suc n) = negsuc n

-- a * b and a / b, the division cut towards zero.
unfoldable pub times : ℤ → ℕ → ℤ
times (pos n) k = pos (n * k)
times (negsuc n) k = minus (suc n * k)

unfoldable pub divided : ℤ → ℕ → ℤ
divided (pos n) k = pos (n / k)
divided (negsuc n) k = minus (suc n / k)

pub record StreamStat (u : Unwrapper) : Type 0 where
  pub ssrc : ℕ
  -- `transmitted.packets - retransmitted.packets`.
  pub packets : ℕ
  pub received_seq_out_of_order : Option ℕ
  pub seq_unwrapper : u.State
  pub cumulative_loss : ℤ
  pub received_seq_first : ℤ
  pub received_seq_max : ℤ
  pub last_report_seq_max : ℤ
  pub last_report_cumulative_loss : ℤ
  pub cumulative_loss_rtcp_offset : ℤ
  pub cumulative_loss_is_capped : Bool
  pub last_received_timestamp : ℕ
  pub last_received_time_ms : ℤ
  pub jitter_q4 : ℕ

unfoldable pub create : (u : Unwrapper) → ℕ → StreamStat u
create u ssrc = record {
  ssrc = ssrc;
  packets = 0;
  received_seq_out_of_order = none;
  seq_unwrapper = u.fresh;
  cumulative_loss = pos 0;
  received_seq_first = negsuc 0;
  received_seq_max = negsuc 0;
  last_report_seq_max = negsuc 0;
  last_report_cumulative_loss = pos 0;
  cumulative_loss_rtcp_offset = pos 0;
  cumulative_loss_is_capped = false;
  last_received_timestamp = 0;
  last_received_time_ms = pos 0;
  jitter_q4 = 0;
}

-- |x| of an int32_t that is given by its 32 bits; the least one is its own.
abbrev pub abs_bits : ℕ → ℕ
abs_bits x = if ltb x 2147483648 then x else 4294967296 - x

-- `x >> 4` of an int32_t that is given by its 32 bits.
abbrev pub shift_bits : ℕ → ℕ
shift_bits x = if ltb x 2147483648 then x / 16 else 4294967296 - (4294967296 - x + 15) / 16

-- The filter of UpdateJitter, on |D|.
unfoldable pub filter_jitter : ℕ → ℕ → ℕ
filter_jitter jitter d =
    (jitter + shift_bits (((d * 16 + 4294967296 - jitter) % 4294967296 + 8) % 4294967296))
    % 4294967296

-- |(Rj - Ri) - (Sj - Si)| in ticks.
unfoldable pub deviation : ℤ → ℕ → ℕ → ℕ → ℕ
deviation elapsed frequency timestamp last =
    let receive_diff_rtp = uint32 (divided (times elapsed frequency) 1000) in
    abs_bits
      ((receive_diff_rtp + 4294967296 - (timestamp + 4294967296 - last) % 4294967296) % 4294967296)

-- `time_diff_samples < 450000`, which the least int32_t also is.
abbrev pub is_plausible : ℕ → Bool
is_plausible d = ltb d 450000 || (d == 2147483648)

abbrev pub expects : Option ℕ → ℕ → Bool
expects none seq = false
expects (some a) seq = seq == u16 (a + 1)

module _ {u : Unwrapper} where
  unfoldable pub received_rtp_packet : StreamStat u → Bool
  received_rtp_packet s = leb_ℤ (pos 0) s.received_seq_first

  unfoldable pub update_jitter : StreamStat u → Packet → ℤ → StreamStat u
  update_jitter s p receive_time =
      let d =
        deviation (receive_time -ℤ s.last_received_time_ms) p.frequency p.timestamp
          s.last_received_timestamp in
      if is_plausible d then record s { jitter_q4 = filter_jitter s.jitter_q4 d } else s

  unfoldable pub update_out_of_order : StreamStat u → Packet → ℤ → StreamStat u × Bool
  update_out_of_order s p sequence_number =
      let s1 = record s { received_seq_out_of_order = none } in
      if expects s.received_seq_out_of_order p.seq_num
      then (record s1 { received_seq_max = sequence_number -ℤ pos 2 }, false)
      else if ltb max_reordering_threshold (magnitude (sequence_number -ℤ s.received_seq_max))
      then (
        record s1 {
          received_seq_out_of_order = some p.seq_num;
          cumulative_loss = int32 (s.cumulative_loss +ℤ pos 1);
        },
        true,
      )
      else (s1, not (ltb_ℤ s.received_seq_max sequence_number))

  -- The rest of UpdateCounters for a packet that moves the front on.
  unfoldable pub on_in_order : StreamStat u → Packet → ℤ → ℤ → StreamStat u
  on_in_order s p now sequence_number =
      let s1 = record s {
        cumulative_loss = int32 (s.cumulative_loss +ℤ (sequence_number -ℤ s.received_seq_max));
        received_seq_max = sequence_number;
        seq_unwrapper = u.update_last s.seq_unwrapper sequence_number;
      } in
      let s2 =
        if not (p.timestamp == s.last_received_timestamp) && ltb 1 s.packets
        then update_jitter s1 p now
        else s1 in
      record s2 { last_received_timestamp = p.timestamp; last_received_time_ms = now }

  unfoldable pub update_counters : StreamStat u → Packet → ℤ → StreamStat u
  update_counters s p now =
      let s1 = record s {
        packets = (s.packets + 1) % 4294967296;
        cumulative_loss = int32 (s.cumulative_loss -ℤ pos 1);
      } in
      let sequence_number = u.unwrap s.seq_unwrapper p.seq_num in
      if received_rtp_packet s
      then (let (s2, out_of_order) = update_out_of_order s1 p sequence_number in
          if out_of_order then s2 else on_in_order s2 p now sequence_number)
      else on_in_order
          (record s1 {
            received_seq_first = sequence_number;
            received_seq_max = sequence_number -ℤ pos 1;
          })
          p now sequence_number

pub record ReportBlock : Type 0 where
  pub media_ssrc : ℕ
  pub fraction_lost : ℕ
  pub cumulative_lost : ℤ
  pub ext_highest_seq_num : ℕ
  pub jitter : ℕ

-- `255 * loss / exp` as the uint8_t that SetFractionLost takes.
unfoldable pub fraction_lost_of : ℤ → ℤ → ℕ
fraction_lost_of exp loss =
    if ltb_ℤ (pos 0) exp && ltb_ℤ (pos 0) loss
    then uint8 (divided (int32 (times loss 255)) (magnitude exp))
    else 0

module _ {u : Unwrapper} where
  -- The block of a stream that is alive, and the stream with the new base line.
  unfoldable pub append_report_block : StreamStat u → StreamStat u × ReportBlock
  append_report_block s =
      let packets_lost = int32 (s.cumulative_loss +ℤ s.cumulative_loss_rtcp_offset) in
      let negative = ltb_ℤ packets_lost (pos 0) in
      let lost = if negative then pos 0 else packets_lost in
      let over = ltb_ℤ (pos 8388607) lost in
      (
        record s {
          cumulative_loss_rtcp_offset =
              if negative
              then int32 (pos 0 -ℤ s.cumulative_loss)
              else s.cumulative_loss_rtcp_offset;
          cumulative_loss_is_capped = s.cumulative_loss_is_capped || over;
          last_report_seq_max = s.received_seq_max;
          last_report_cumulative_loss = s.cumulative_loss;
        },
        record {
          media_ssrc = s.ssrc;
          fraction_lost =
              fraction_lost_of (s.received_seq_max -ℤ s.last_report_seq_max)
                (int32 (s.cumulative_loss -ℤ s.last_report_cumulative_loss));
          cumulative_lost = if over then pos 8388607 else lost;
          ext_highest_seq_num = uint32 s.received_seq_max;
          jitter = s.jitter_q4 / 16;
        },
      )

  unfoldable pub maybe_append_report_block_and_reset :
      StreamStat u → ℤ → List ReportBlock → StreamStat u × List ReportBlock
  maybe_append_report_block_and_reset s now result =
      if ltb_ℤ stream_stat_timeout_ms (now -ℤ s.last_received_time_ms)
      then (s, result)
      else if received_rtp_packet s
      then (let (s', block) = append_report_block s in (s', result ++ (block ∷ [])))
      else (s, result)
