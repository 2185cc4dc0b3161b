-- ===== src/Rtp/Statistics/Registry.antt =====
-- ReceiveStat of receive_stat.cpp: its streams are kept apart, and each that is listed has its entry.
use xrtc_server.Base.{
  ℕ, ◌≡◌, refl, sym, ap, ◌∙◌, List, [], ◌∷◌, Option, none, some, ◌==◌, ==_iff, ==_refl, is_some,
  if◌then◌else◌, arith, inl, inr, Bool-cases, Option-cases,
}
use xrtc_server.Base.Int.{ℤ}
use xrtc_server.Rtp.Statistics
use xrtc_server.Rtp.Statistics.{
  Unwrapper, Packet, StreamStat, ReportBlock, update_counters, maybe_append_report_block_and_reset,
}
use xrtc_server.Rtp.Statistics.Streams.{
  ReceiveStat, find_stat, put_stat, get_or_create_stat, counted, on_rtp_packet,
}

module _ {u : Unwrapper} where
  pub find-put_stat :
      (stats : List (ℕ × StreamStat u)) (ssrc : ℕ) (s' : StreamStat u) (j : ℕ)
      → find_stat (put_stat stats ssrc s') j ≡ (
          if ssrc == j
          then (if is_some (find_stat stats ssrc) then some s' else none)
          else find_stat stats j)
  unfolding find_stat put_stat
  find-put_stat [] ssrc s' j = ground arith
  find-put_stat ((k, s) ∷ rest) ssrc s' j = ground (arith, find-put_stat rest ssrc s' j)

  -- The statistics that a packet's stream has, or those of a new stream.
  abbrev pub known_or_new : Option (StreamStat u) → ℕ → StreamStat u
  known_or_new none ssrc = Statistics.create u ssrc
  known_or_new (some s) ssrc = s

  find-get_or_create_stat :
      (r : ReceiveStat u) (ssrc j : ℕ)
      → find_stat (get_or_create_stat r ssrc).stats j ≡ (
          if ssrc == j
          then some (known_or_new (find_stat r.stats ssrc) ssrc)
          else find_stat r.stats j)
  unfolding get_or_create_stat find_stat
  find-get_or_create_stat r ssrc j = elim (Option-cases (find_stat r.stats ssrc)) [
    | inl e ↦ rw e refl
    | inr (s, e) ↦ rw e (elim (Bool-cases (ssrc == j)) [
      | inl t ↦ rw t (ap (find_stat r.stats) (sym ((==_iff ssrc j).0 t)) ∙ e)
      | inr f ↦ rw f refl
    ])
  ]

  find-counted :
      (stats : List (ℕ × StreamStat u)) (p : Packet) (now : ℤ) (s : StreamStat u) (j : ℕ)
      → find_stat stats p.ssrc ≡ some s
      → find_stat (counted (find_stat stats p.ssrc) stats p now) j
        ≡ (if p.ssrc == j then some (update_counters s p now) else find_stat stats j)
  find-counted stats p now s j e =
      ap (λ o. find_stat (counted o stats p now) j) e
      ∙ find-put_stat stats p.ssrc (update_counters s p now) j
      ∙ rw e refl

  -- A packet counts for its own stream, whose statistics are made when it is the first, and for no
  -- other.
  pub on_rtp_packet-isolates :
      (r : ReceiveStat u) (p : Packet) (now : ℤ) (j : ℕ)
      → find_stat (on_rtp_packet r p now).stats j ≡ (
          if p.ssrc == j
          then some (update_counters (known_or_new (find_stat r.stats p.ssrc) p.ssrc) p now)
          else find_stat r.stats j)
  unfolding on_rtp_packet
  on_rtp_packet-isolates r p now j =
      let r' = get_or_create_stat r p.ssrc in
      let s = known_or_new (find_stat r.stats p.ssrc) p.ssrc in
      let e : find_stat r'.stats p.ssrc ≡ some s =
        find-get_or_create_stat r p.ssrc p.ssrc ∙ rw (==_refl p.ssrc) refl in
      find-counted r'.stats p now s j e ∙ elim (Bool-cases (p.ssrc == j)) [
        | inl t ↦ rw t refl
        | inr f ↦ rw f (find-get_or_create_stat r p.ssrc j ∙ rw f refl)
      ]
