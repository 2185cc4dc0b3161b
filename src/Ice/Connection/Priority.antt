-- ===== src/Ice/Connection/Priority.antt =====
-- The pair priority of src/ice/ice_connection.cpp against the formula of RFC 5245, 5.7.2.
use xrtc_server.Base.{ℕ, ◌+◌, ◌*◌, ◌<◌, ◌^◌, ◌≡◌, max, min, ltb, if◌then◌else◌, arith}
use xrtc_server.Ice.Connection.{IceConnection, priority}

-- The formula, over the integers.
abbrev pub pair_priority : ℕ → ℕ → ℕ
pair_priority g d = 2 ^ 32 * min g d + 2 * max g d + (if ltb d g then 1 else 0)

-- For the priorities of a 32-bit field the pair priority is that of the formula, less 2 ^ 32 when
-- the larger of the two is 2 ^ 31 or more.
pub priority-pair_priority :
    (c : IceConnection)
    → c.local_priority < 2 ^ 32
    → c.remote_priority < 2 ^ 32
    → priority c + (if ltb (max c.local_priority c.remote_priority) (2 ^ 31) then 0 else 2 ^ 32)
      ≡ pair_priority c.local_priority c.remote_priority
unfolding priority
priority-pair_priority c g d = ground arith

-- Of two pairs with the same local candidate, that with the larger remote priority is preferred, as
-- long as the priorities are below 2 ^ 31.
pub priority-increasing :
    (a b : IceConnection)
    → a.local_priority ≡ b.local_priority
    → a.local_priority < 2 ^ 31
    → b.remote_priority < 2 ^ 31
    → a.remote_priority < b.remote_priority
    → priority a < priority b
unfolding priority
priority-increasing a b e l r h = ground arith
