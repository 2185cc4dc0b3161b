-- ===== src/Rtp/Statistics/Balance.antt =====
-- Runs of UpdateCounters of receive_stat.cpp over the packets of a stream.
use xrtc_server.Base.{ℕ, ◌+◌, ◌*◌, ◌≤◌, ◌≡◌, refl, subst, List, [], ◌∷◌, length, arith}
use xrtc_server.Base.Int.{ℤ, pos, negsuc, magnitude, ◌+ℤ◌, ◌-ℤ◌, +ℤ_parts, -ℤ_parts, eq_of_parts}
use xrtc_server.Rtp.Statistics.{
  Unwrapper, Packet, StreamStat, create, int32, update_counters, received_rtp_packet,
}
use xrtc_server.Rtp.Statistics.Counters.{
  UnwrapperLaws, Ledger, update_counters-Ledger, on_in_order-Ledger,
}

-- The first packet pays the debt that it opens.
first_loss : (n : ℕ) → int32 (negsuc 0 +ℤ (pos n -ℤ (pos n -ℤ pos 1))) ≡ pos 0
unfolding int32
first_loss n =
    let one : pos n -ℤ (pos n -ℤ pos 1) ≡ pos 1 =
      eq_of_parts _ _
        (omega (arith, -ℤ_parts (pos n) (pos 1), -ℤ_parts (pos n) (pos n -ℤ pos 1))) in
    let sum : negsuc 0 +ℤ pos 1 ≡ pos 0 =
      eq_of_parts _ _ (omega (arith, +ℤ_parts (negsuc 0) (pos 1))) in
    rw (one, sum) refl

minus_one : int32 (pos 0 -ℤ pos 1) ≡ negsuc 0
unfolding int32 ◌-ℤ◌
minus_one = refl

module _ {u : Unwrapper} where
  -- The packets of a stream, each with its time of arrival.
  unfoldable pub run : StreamStat u → List (Packet × ℤ) → StreamStat u
  run s [] = s
  run s ((p, now) ∷ ps) = run (update_counters s p now) ps

  -- Each packet comes within the reordering threshold of the front.
  abbrev pub Steady : StreamStat u → List (Packet × ℤ) → Type 0
  Steady s [] = Unit {0}
  Steady s ((p, now) ∷ ps) =
      (magnitude (u.unwrap s.seq_unwrapper p.seq_num -ℤ s.received_seq_max) ≤ 450)
      × Steady (update_counters s p now) ps

  run-Ledger :
      (s : StreamStat u) (ps : List (Packet × ℤ)) (n : ℕ)
      → Ledger s n
      → Steady s ps
      → 451 * (n + length ps) ≤ 2147400000
      → Ledger (run s ps) (n + length ps)
  unfolding run
  run-Ledger s [] n l steady few = subst (λ m. Ledger s m) (omega arith) l
  run-Ledger s ((p, now) ∷ ps) n l (near, steady) few =
      subst (λ m. Ledger (run (update_counters s p now) ps) m) (omega arith)
        (run-Ledger (update_counters s p now) ps (n + 1)
          (update_counters-Ledger s p now n l near (omega arith)) steady (omega arith))

  first-Ledger :
      (ssrc : ℕ) (p : Packet) (now : ℤ)
      → UnwrapperLaws u
      → Ledger (update_counters (create u ssrc) p now) 1
  unfolding update_counters create received_rtp_packet
  first-Ledger ssrc p now laws =
      let one : int32 (pos 0 -ℤ pos 1) ≡ negsuc 0 = minus_one in
      rw (laws.first p.seq_num) (
        on_in_order-Ledger _ p now (pos p.seq_num) 1 (ground arith) refl
          (rw (one, first_loss p.seq_num) (omega arith))
          (rw (one, first_loss p.seq_num) (omega arith)) (omega arith))

  -- A stream whose packets all come within the reordering threshold of the front: whatever order
  -- they come in, and however often one is repeated, the loss count is the number of sequence
  -- numbers from the first to the front less the number of packets, with no overflow below four
  -- million packets.
  pub run-balances :
      (ssrc : ℕ) (p : Packet) (now : ℤ) (ps : List (Packet × ℤ))
      → UnwrapperLaws u
      → Steady (update_counters (create u ssrc) p now) ps
      → length ps ≤ 4000000
      → (run (create u ssrc) ((p, now) ∷ ps)).cumulative_loss +ℤ pos (1 + length ps)
        ≡ ((run (create u ssrc) ((p, now) ∷ ps)).received_seq_max
            -ℤ (run (create u ssrc) ((p, now) ∷ ps)).received_seq_first)
          +ℤ pos 1
  unfolding run
  run-balances ssrc p now ps laws steady few =
      let s = run (update_counters (create u ssrc) p now) ps in
      let l =
        run-Ledger (update_counters (create u ssrc) p now) ps 1 (first-Ledger ssrc p now laws)
          steady (omega arith) in
      let b = l.balance in
      eq_of_parts _ _ (
        omega (
          arith,
          b,
          +ℤ_parts s.cumulative_loss (pos (1 + length ps)),
          -ℤ_parts s.received_seq_max s.received_seq_first,
          +ℤ_parts (s.received_seq_max -ℤ s.received_seq_first) (pos 1),
        ))
