-- ===== src/Rtp/Statistics/Examples.antt =====
-- Runs of the receive statistics, and the properties at them.
use xrtc_server.Base.{if◌then◌else◌, ℕ, ◌+◌, ◌*◌, ◌≡◌, refl, arith, List, [], ◌∷◌, inl}
use xrtc_server.Base.Int.{ℤ, pos, negsuc, ltb_ℤ, ◌+ℤ◌, ◌-ℤ◌, ◌≤ℤ◌}
use xrtc_server.Rtp.Statistics
use xrtc_server.Rtp.Statistics.{
  Unwrapper, Packet, StreamStat, filter_jitter, fraction_lost_of, append_report_block,
  update_counters,
}
use xrtc_server.Rtp.Statistics.Counters.{UnwrapperLaws}
use xrtc_server.Rtp.Statistics.Balance.{run, Steady, run-balances}
use xrtc_server.Rtp.Statistics.Reports.{capped, append_report_block-lost}
use xrtc_server.Rtp.Statistics.Streams.{fresh}
use xrtc_server.Rtp.Statistics.Turns.{Inv}

-- A stand-in for the unwrapper, for streams that do not wrap.
abbrev plain : Unwrapper
plain = record { State = ℕ; fresh = 0; unwrap = λ s seq. pos seq; update_last = λ s z. s }

plain-UnwrapperLaws : UnwrapperLaws plain
plain-UnwrapperLaws = record { first = λ seq. refl }

abbrev packet : ℕ → Packet
packet seq = record { ssrc = 7; seq_num = seq; timestamp = seq * 3000; frequency = 90000 }

-- 100, 103, 101: of four numbers one is missing.
abbrev arrivals : List (Packet × ℤ)
arrivals = (packet 103, pos 20) ∷ (packet 101, pos 30) ∷ []

arrivals-Steady :
    Steady (update_counters (Statistics.create plain 7) (packet 100) (pos 10)) arrivals
unfolding update_counters Statistics.create Statistics.update_out_of_order Statistics.on_in_order
    Statistics.update_jitter Statistics.received_rtp_packet Statistics.int32 ◌+ℤ◌ ◌-ℤ◌
    Statistics.deviation Statistics.filter_jitter Statistics.times Statistics.divided
    Statistics.uint32
arrivals-Steady = (omega arith, (omega arith, tt))

run-balances_example :
    (run (Statistics.create plain 7) ((packet 100, pos 10) ∷ arrivals)).cumulative_loss
      +ℤ pos (1 + 2)
    ≡ ((run (Statistics.create plain 7) ((packet 100, pos 10) ∷ arrivals)).received_seq_max
        -ℤ (run (Statistics.create plain 7) ((packet 100, pos 10) ∷ arrivals)).received_seq_first)
      +ℤ pos 1
run-balances_example =
    run-balances 7 (packet 100) (pos 10) arrivals plain-UnwrapperLaws arrivals-Steady (omega arith)

-- The ledger stands at -3: two packets were sent again.
abbrev overpaid : StreamStat plain
overpaid = record (Statistics.create plain 7) { cumulative_loss = negsuc 2 }

append_report_block-lost_example :
    (pos 0
      ≤ℤ overpaid.cumulative_loss +ℤ (append_report_block overpaid).0.cumulative_loss_rtcp_offset)
    × ((append_report_block overpaid).1.cumulative_lost
        ≡ capped (
            overpaid.cumulative_loss
            +ℤ (append_report_block overpaid).0.cumulative_loss_rtcp_offset))
    × ((append_report_block overpaid).0.cumulative_loss_rtcp_offset ≡ (
        if ltb_ℤ (overpaid.cumulative_loss +ℤ overpaid.cumulative_loss_rtcp_offset) (pos 0)
        then pos 0 -ℤ overpaid.cumulative_loss
        else overpaid.cumulative_loss_rtcp_offset))
unfolding Statistics.create ◌+ℤ◌
append_report_block-lost_example = append_report_block-lost overpaid (omega arith) (omega arith)

-- Two jumps of the numbers leave more lost than expected, and the eight bits of the fraction wrap.
fraction_wraps : fraction_lost_of (pos 1200) (pos 1500) ≡ 62
unfolding fraction_lost_of Statistics.uint8 Statistics.divided Statistics.times Statistics.int32
fraction_wraps = refl

fresh-Inv : Inv (fresh plain)
fresh-Inv = record { listed = tt; cursor = inl refl }
