-- ===== src/Rtp/Statistics/Turns.antt =====
-- RtcpReportBlocks of receive_stat.cpp: each stream has its entry when its turn comes.
use xrtc_server.Base.{
  ℕ, zero, suc, ◌+◌, ◌%◌, ◌≤◌, ◌<◌, ◌≡◌, refl, ap, ◌∙◌, true, List, [], ◌∷◌, ◌++◌, Option, none,
  some, ltb, ltb→lt, ◌==◌, ==_iff, ==_refl, length, length-append, is_some, All, All-append,
  if_keep, arith, inl, inr, Bool-cases, Option-cases, ◌⊎◌,
}
use xrtc_server.Base.Int.{ℤ, ◌-ℤ◌, ltb_ℤ}
use native.Mathlib.Nat.{mod-lt}
use xrtc_server.Rtp.Histogram.{at}
use xrtc_server.Rtp.Statistics.{
  Unwrapper, Packet, StreamStat, ReportBlock, maybe_append_report_block_and_reset,
  append_report_block, received_rtp_packet, stream_stat_timeout_ms,
}
use xrtc_server.Rtp.Statistics.Streams.{
  ReceiveStat, find_stat, get_or_create_stat, on_rtp_packet, reported, report_loop,
  rtcp_report_blocks,
}
use xrtc_server.Rtp.Statistics.Registry.{find-put_stat, on_rtp_packet-isolates}

module _ {u : Unwrapper} where
  abbrev pub Listed : List (ℕ × StreamStat u) → List ℕ → Type 0
  Listed stats ssrcs = All (λ ssrc. is_some (find_stat stats ssrc) ≡ true) ssrcs

  -- Each listed stream has statistics, and the cursor is a place of the list.
  pub record Inv (r : ReceiveStat u) : Type 0 where
    pub listed : Listed r.stats r.all_ssrcs
    pub cursor : (r.last_returned_ssrc_idx ≡ 0) ⊎ (r.last_returned_ssrc_idx < length r.all_ssrcs)

  Listed-mono :
      (stats stats' : List (ℕ × StreamStat u)) (ssrcs : List ℕ)
      → ((j : ℕ) → is_some (find_stat stats j) ≡ true → is_some (find_stat stats' j) ≡ true)
      → Listed stats ssrcs
      → Listed stats' ssrcs
  Listed-mono stats stats' [] keep all = tt
  Listed-mono stats stats' (x ∷ xs) keep (a, all) = (keep x a, Listed-mono stats stats' xs keep all)

  on_rtp_packet-keeps :
      (r : ReceiveStat u) (p : Packet) (now : ℤ) (j : ℕ)
      → is_some (find_stat r.stats j) ≡ true
      → is_some (find_stat (on_rtp_packet r p now).stats j) ≡ true
  on_rtp_packet-keeps r p now j h =
      ap is_some (on_rtp_packet-isolates r p now j)
      ∙ if_keep (λ o. is_some o ≡ true) (p.ssrc == j) _ _ refl h

  on_rtp_packet-own :
      (r : ReceiveStat u) (p : Packet) (now : ℤ)
      → is_some (find_stat (on_rtp_packet r p now).stats p.ssrc) ≡ true
  on_rtp_packet-own r p now =
      ap is_some (on_rtp_packet-isolates r p now p.ssrc) ∙ rw (==_refl p.ssrc) refl

  -- A packet keeps every listed stream's statistics, and lists its own stream with them.
  pub on_rtp_packet-Inv :
      (r : ReceiveStat u) (p : Packet) (now : ℤ) → Inv r → Inv (on_rtp_packet r p now)
  unfolding on_rtp_packet get_or_create_stat
  on_rtp_packet-Inv r p now v =
      let keep =
        Listed-mono r.stats (on_rtp_packet r p now).stats r.all_ssrcs (on_rtp_packet-keeps r p now)
          v.listed in
      let own = on_rtp_packet-own r p now in
      let P = λ (r' : ReceiveStat u).
        Listed (on_rtp_packet r p now).stats r'.all_ssrcs
        × ((r'.last_returned_ssrc_idx ≡ 0) ⊎ (r'.last_returned_ssrc_idx < length r'.all_ssrcs)) in
      let c = v.cursor in
      let longer = length-append r.all_ssrcs (p.ssrc ∷ []) in
      let both =
        if_keep P (is_some (find_stat r.stats p.ssrc)) _ _ (keep, v.cursor)
          (
            All-append (λ k. is_some (find_stat (on_rtp_packet r p now).stats k) ≡ true) r.all_ssrcs
                (p.ssrc ∷ []) keep (own, tt),
            omega (arith, c),
          ) in
      record { listed = both.0; cursor = both.1 }

  reported-keeps :
      (stats : List (ℕ × StreamStat u)) (ssrc : ℕ) (now : ℤ) (result : List ReportBlock) (j : ℕ)
      → is_some (find_stat (reported (find_stat stats ssrc) stats ssrc now result).0 j)
        ≡ is_some (find_stat stats j)
  reported-keeps stats ssrc now result j = elim (Option-cases (find_stat stats ssrc)) [
    | inl e ↦ ap (λ o. is_some (find_stat (reported o stats ssrc now result).0 j)) e
    | inr (s, e) ↦
        ap (λ o. is_some (find_stat (reported o stats ssrc now result).0 j)) e
        ∙ ap is_some
            (find-put_stat stats ssrc (maybe_append_report_block_and_reset s now result).0 j)
        ∙ elim (Bool-cases (ssrc == j)) [
          | inr f ↦ rw f refl
          | inl t ↦
              let e' : find_stat stats j ≡ some s = rw ((==_iff ssrc j).0 t) at e in
              rw (t, e, e') refl
        ]
  ]

  length-append_block :
      (s : StreamStat u) (now : ℤ) (result : List ReportBlock)
      → length (maybe_append_report_block_and_reset s now result).1 ≤ length result + 1
  unfolding maybe_append_report_block_and_reset
  length-append_block s now result =
      let P = λ (t : StreamStat u × List ReportBlock). length t.1 ≤ length result + 1 in
      let block = append_report_block s in
      let longer = length-append result (block.1 ∷ []) in
      let unchanged : P (s, result) = omega arith in
      let added : P (block.0, result ++ (block.1 ∷ [])) = omega (arith, longer) in
      if_keep P (ltb_ℤ stream_stat_timeout_ms (now -ℤ s.last_received_time_ms)) _ _ unchanged
        (if_keep P (received_rtp_packet s) _ _ added unchanged)

  length-reported :
      (o : Option (StreamStat u)) (stats : List (ℕ × StreamStat u)) (ssrc : ℕ) (now : ℤ)
      (result : List ReportBlock)
      → length (reported o stats ssrc now result).1 ≤ length result + 1
  length-reported none stats ssrc now result = omega arith
  length-reported (some s) stats ssrc now result = length-append_block s now result

  module _ (r : ReceiveStat u) (now : ℤ) (max_blocks : ℕ) where
    -- What holds of the loop's state at every round.
    abbrev Kept : List (ℕ × StreamStat u) × ℕ × List ReportBlock → Type 0
    Kept (stats, idx, result) =
        Listed stats r.all_ssrcs
        × ((idx ≡ 0) ⊎ (idx < length r.all_ssrcs))
        × (length result ≤ max_blocks)

    report_loop-Kept :
        (left i idx : ℕ) (stats : List (ℕ × StreamStat u)) (result : List ReportBlock)
        → 0 < length r.all_ssrcs
        → Kept (stats, idx, result)
        → Kept (report_loop r now max_blocks left i idx stats result)
    unfolding report_loop
    report_loop-Kept zero i idx stats result some_stream k = k
    report_loop-Kept (suc left) i idx stats result some_stream k =
        let idx' = (r.last_returned_ssrc_idx + 1 + i) % length r.all_ssrcs in
        let ssrc = at r.all_ssrcs idx' in
        let next = reported (find_stat stats ssrc) stats ssrc now result in
        elim (Bool-cases (ltb (length result) max_blocks)) [
          | inr f ↦ rw (f, report_loop) k
          | inl t ↦
              rw (t, report_loop)
                (report_loop-Kept left (i + 1) idx' next.0 next.1 some_stream (
                  Listed-mono stats next.0 r.all_ssrcs
                      (λ j h. reported-keeps stats ssrc now result j ∙ h) k.0,
                  inr (mod-lt (r.last_returned_ssrc_idx + 1 + i) some_stream),
                  ground (arith, length-reported (find_stat stats ssrc) stats ssrc now result),
                ))
        ]

  -- A round of reports makes at most the blocks that were asked for, keeps the statistics of every
  -- listed stream, and leaves the cursor at a place of the list.
  pub rtcp_report_blocks-Inv :
      (r : ReceiveStat u) (now : ℤ) (max_blocks : ℕ)
      → Inv r
      → Inv (rtcp_report_blocks r now max_blocks).0
        × (length (rtcp_report_blocks r now max_blocks).1 ≤ max_blocks)
  unfolding rtcp_report_blocks report_loop
  rtcp_report_blocks-Inv r now max_blocks v =
      let c = v.cursor in
      elim (Bool-cases (ltb 0 (length r.all_ssrcs))) [
        | inl t ↦
            let k =
              report_loop-Kept r now max_blocks (length r.all_ssrcs) 0 0 r.stats []
                (ltb→lt 0 (length r.all_ssrcs) t) (v.listed, inl refl, omega arith) in
            (record { listed = k.0; cursor = k.1 }, k.2)
        | inr f ↦
            let none_listed : length r.all_ssrcs ≡ 0 = ground arith in
            rw none_listed (record { listed = v.listed; cursor = inl refl }, omega arith)
      ]
