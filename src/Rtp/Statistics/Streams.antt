-- ===== src/Rtp/Statistics/Streams.antt =====
-- ReceiveStat of receive_stat.cpp: the statistics of every stream, and whose turn it is to report.
-- The flat_map from ssrc to its statistics is an association list.
use xrtc_server.Base.{
  ℕ, zero, suc, ◌+◌, ◌%◌, true, false, List, [], ◌∷◌, ◌++◌, Option, none, some, ltb, ◌==◌, length,
  is_some, if◌then◌else◌,
}
use xrtc_server.Base.Int.{ℤ}
use xrtc_server.Rtp.Histogram.{at}
use xrtc_server.Rtp.Statistics
use xrtc_server.Rtp.Statistics.{
  Unwrapper, Packet, StreamStat, ReportBlock, update_counters, maybe_append_report_block_and_reset,
}

pub record ReceiveStat (u : Unwrapper) : Type 0 where
  pub stats : List (ℕ × StreamStat u)
  pub all_ssrcs : List ℕ
  pub last_returned_ssrc_idx : ℕ

abbrev pub fresh : (u : Unwrapper) → ReceiveStat u
fresh u = record { stats = []; all_ssrcs = []; last_returned_ssrc_idx = 0 }

module _ {u : Unwrapper} where
  unfoldable pub find_stat : List (ℕ × StreamStat u) → ℕ → Option (StreamStat u)
  find_stat [] ssrc = none
  find_stat ((k, s) ∷ rest) ssrc = if k == ssrc then some s else find_stat rest ssrc

  unfoldable pub put_stat : List (ℕ × StreamStat u) → ℕ → StreamStat u → List (ℕ × StreamStat u)
  put_stat [] ssrc s' = []
  put_stat ((k, s) ∷ rest) ssrc s' =
      if k == ssrc then (k, s') ∷ rest else (k, s) ∷ put_stat rest ssrc s'

  unfoldable pub get_or_create_stat : ReceiveStat u → ℕ → ReceiveStat u
  get_or_create_stat r ssrc = if is_some (find_stat r.stats ssrc) then r else record r {
    stats = (ssrc, Statistics.create u ssrc) ∷ r.stats;
    all_ssrcs = r.all_ssrcs ++ (ssrc ∷ []);
  }

  abbrev pub counted :
      Option (StreamStat u) → List (ℕ × StreamStat u) → Packet → ℤ → List (ℕ × StreamStat u)
  counted none stats p now = stats
  counted (some s) stats p now = put_stat stats p.ssrc (update_counters s p now)

  unfoldable pub on_rtp_packet : ReceiveStat u → Packet → ℤ → ReceiveStat u
  on_rtp_packet r p now =
      let r' = get_or_create_stat r p.ssrc in
      record r' { stats = counted (find_stat r'.stats p.ssrc) r'.stats p now }

  -- One stream's turn. An ssrc without statistics would be a null iterator; `Inv` excludes it.
  abbrev pub reported :
      Option (StreamStat u)
      → List (ℕ × StreamStat u)
      → ℕ
      → ℤ
      → List ReportBlock
      → List (ℕ × StreamStat u) × List ReportBlock
  reported none stats ssrc now result = (stats, result)
  reported (some s) stats ssrc now result =
      let (s', result') = maybe_append_report_block_and_reset s now result in
      (put_stat stats ssrc s', result')

  -- The loop of RtcpReportBlocks at its i-th round, with the rounds that are left.
  unfoldable pub report_loop :
      ReceiveStat u
      → ℤ
      → ℕ
      → ℕ
      → ℕ
      → ℕ
      → List (ℕ × StreamStat u)
      → List ReportBlock
      → List (ℕ × StreamStat u) × ℕ × List ReportBlock
  report_loop r now max_blocks zero i idx stats result = (stats, idx, result)
  report_loop r now max_blocks (suc left) i idx stats result =
      let idx' = (r.last_returned_ssrc_idx + 1 + i) % length r.all_ssrcs in
      let ssrc = at r.all_ssrcs idx' in
      let (stats', result') = reported (find_stat stats ssrc) stats ssrc now result in
      elim (ltb (length result) max_blocks) [
        | true ↦ report_loop r now max_blocks left (i + 1) idx' stats' result'
        | false ↦ (stats, idx, result)
      ]

  unfoldable pub rtcp_report_blocks : ReceiveStat u → ℤ → ℕ → ReceiveStat u × List ReportBlock
  rtcp_report_blocks r now max_blocks =
      let (stats, idx, result) = report_loop r now max_blocks (length r.all_ssrcs) 0 0 r.stats [] in
      (record r { stats = stats; last_returned_ssrc_idx = idx }, result)
