-- ===== src/Base/Seq.antt =====
-- webrtc's rtc_base/numerics/sequence_number_util.h, which the server calls and does not contain:
-- 16-bit sequence numbers compared along the circle. The laws are that header's documentation.
use xrtc_server.Base.Tests.{ltb, ◌==◌, if◌then◌else◌}
use Prim.Native.Nat.{ℕ, ◌+◌, ◌-◌, ◌%◌, ◌<◌}
use mathlib.Core.Path.{◌≡◌}
use mathlib.Core.Bool.{Bool, true, false, not, ◌&&◌}
use native.Mathlib.Omega.{arith}

-- Conversion to `uint16_t`, and ++ and -- on it.
abbrev pub u16 : ℕ → ℕ
u16 n = n % 65536

abbrev pub next16 : ℕ → ℕ
next16 n = (n + 1) % 65536

abbrev pub prev16 : ℕ → ℕ
prev16 n = (n + 65535) % 65536

-- The steps forward from `a` to `b`.
abbrev pub dist : ℕ → ℕ → ℕ
dist a b = (b + 65536 - a) % 65536

pub record SeqNum : Type 0 where
  pub forward_diff : ℕ → ℕ → ℕ
  pub reverse_diff : ℕ → ℕ → ℕ
  pub ahead_or_at : ℕ → ℕ → Bool
  pub ahead_of : ℕ → ℕ → Bool

-- What the header documents, for arguments that are 16-bit values.
pub record SeqLaws (c : SeqNum) : Type 0 where
  pub forward : (a b : ℕ) → a < 65536 → b < 65536 → c.forward_diff a b ≡ dist a b
  pub reverse : (a b : ℕ) → a < 65536 → b < 65536 → c.reverse_diff a b ≡ dist b a
  pub near : (a b : ℕ) → a < 65536 → b < 65536 → dist b a < 32768 → c.ahead_or_at a b ≡ true
  pub far : (a b : ℕ) → a < 65536 → b < 65536 → 32768 < dist b a → c.ahead_or_at a b ≡ false
  -- At the greatest distance the larger number counts as ahead.
  pub half : (a b : ℕ) → a < 65536 → b < 65536 → dist b a ≡ 32768 → c.ahead_or_at a b ≡ ltb b a
  pub strict :
      (a b : ℕ) → a < 65536 → b < 65536 → c.ahead_of a b ≡ not (a == b) && c.ahead_or_at a b

-- A concrete function for each helper, at which the laws hold.
unfoldable pub circle : SeqNum
circle = record {
  forward_diff = dist;
  reverse_diff = λ a b. dist b a;
  ahead_or_at = λ a b. if dist b a == 32768 then ltb b a else ltb (dist b a) 32768;
  ahead_of = λ a b. not (a == b) && (if dist b a == 32768 then ltb b a else ltb (dist b a) 32768);
}

pub circle-SeqLaws : SeqLaws circle
unfolding circle
circle-SeqLaws = record {
  forward = λ a b ha hb. ground arith;
  reverse = λ a b ha hb. ground arith;
  near = λ a b ha hb h. ground arith;
  far = λ a b ha hb h. ground arith;
  half = λ a b ha hb h. ground arith;
  strict = λ a b ha hb. ground arith;
}
