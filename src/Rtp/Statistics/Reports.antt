-- ===== src/Rtp/Statistics/Reports.antt =====
-- Report blocks of receive_stat.cpp: what MaybeAppendReportBlockAndReset puts in them.
use xrtc_server.Base.{
  if◌then◌else◌, ℕ, ◌*◌, ◌/◌, ◌≤◌, ◌<◌, ◌≡◌, refl, true, arith, inl, inr, Bool-cases,
}
use xrtc_server.Base.Int.{
  ℤ, pos, magnitude, ◌+ℤ◌, ◌-ℤ◌, ◌≤ℤ◌, ltb_ℤ, magnitude_sub-le, +ℤ_parts, -ℤ_parts, eq_of_parts,
}
use native.Mathlib.Nat.{div-le_of_le-mul}
use xrtc_server.Rtp.Statistics.{
  Unwrapper, StreamStat, int32, uint8, times, divided, fraction_lost_of, append_report_block,
}
use xrtc_server.Rtp.Statistics.Counters.{int32-small}

-- A loss as the 23 bits of the field hold it: the greatest such number stands for all above it.
abbrev pub capped : ℤ → ℤ
capped loss = if ltb_ℤ (pos 8388607) loss then pos 8388607 else loss

module _ {u : Unwrapper} (s : StreamStat u)
    (fits : magnitude (s.cumulative_loss +ℤ s.cumulative_loss_rtcp_offset) < 2147483648)
    (loss_fits : magnitude s.cumulative_loss < 2147483648) where
  -- When the loss, and the loss plus the offset, fit in 32 bits: the loss plus the offset that the
  -- report leaves is never negative, and it is what is reported, or 8388607 when it is more than that;
  -- the offset changes only when the loss plus the old one is negative, and then to minus the loss.
  pub append_report_block-lost :
      (pos 0 ≤ℤ s.cumulative_loss +ℤ (append_report_block s).0.cumulative_loss_rtcp_offset)
      × ((append_report_block s).1.cumulative_lost
          ≡ capped (s.cumulative_loss +ℤ (append_report_block s).0.cumulative_loss_rtcp_offset))
      × ((append_report_block s).0.cumulative_loss_rtcp_offset ≡ (
          if ltb_ℤ (s.cumulative_loss +ℤ s.cumulative_loss_rtcp_offset) (pos 0)
          then pos 0 -ℤ s.cumulative_loss
          else s.cumulative_loss_rtcp_offset))
  unfolding append_report_block
  append_report_block-lost =
      let sum = s.cumulative_loss +ℤ s.cumulative_loss_rtcp_offset in
      let e1 = int32-small sum fits in
      let e2 : int32 (pos 0 -ℤ s.cumulative_loss) ≡ pos 0 -ℤ s.cumulative_loss =
        int32-small (pos 0 -ℤ s.cumulative_loss)
          (omega (arith, magnitude_sub-le (pos 0) s.cumulative_loss)) in
      let zero : s.cumulative_loss +ℤ (pos 0 -ℤ s.cumulative_loss) ≡ pos 0 = eq_of_parts _ _ (
        omega (
          arith,
          -ℤ_parts (pos 0) s.cumulative_loss,
          +ℤ_parts s.cumulative_loss (pos 0 -ℤ s.cumulative_loss),
        )) in
      rw e1 (elim (Bool-cases (ltb_ℤ sum (pos 0))) [
        | inl t ↦ rw (t, e2, zero) (omega arith, refl, refl)
        | inr f ↦
            let nonneg : pos 0 ≤ℤ sum = ground arith in
            rw f (elim (Bool-cases (ltb_ℤ (pos 8388607) sum)) [
              | inl t ↦ rw t (nonneg, refl, refl)
              | inr g ↦ rw g (nonneg, refl, refl)
            ])
      ])

-- When no more was lost than expected, the fraction is the share of the lost in 255 parts, and the
-- eight bits of the field hold it.
pub fraction_lost_of-share :
    (expected lost : ℕ)
    → 0 < lost
    → lost ≤ expected
    → lost ≤ 8421504
    → (fraction_lost_of (pos expected) (pos lost) ≡ lost * 255 / expected)
      × (lost * 255 / expected ≤ 255)
unfolding fraction_lost_of uint8 divided times
fraction_lost_of-share expected lost h le fits =
    let small : int32 (pos (lost * 255)) ≡ pos (lost * 255) =
      int32-small (pos (lost * 255)) (omega arith) in
    let eight : lost * 255 / expected ≤ 255 = div-le_of_le-mul expected (omega arith) in
    let exp_pos : ltb_ℤ (pos 0) (pos expected) ≡ true = ground arith in
    let lost_pos : ltb_ℤ (pos 0) (pos lost) ≡ true = ground arith in
    let whole : magnitude (pos expected) ≡ expected = omega arith in
    (rw (exp_pos, lost_pos, small, whole) (omega arith), eight)
