-- ===== src/Ice/Connection.antt =====
-- src/ice/ice_connection.h, src/ice/ice_connection.cpp, src/ice/ice_def.cpp: one candidate pair, its
-- pings and what they tell of it. An operation gives the connection and the signals it emits, in order;
-- a signal carries the connection as its slot finds it. Times are milliseconds of rtc::TimeMillis.
-- rtc::GetNextMovingAverage is a parameter. After `delete this` there is no connection.
pub mod Updates
pub mod Histories
pub mod Silence
pub mod Priority
pub mod Announced
mod Examples
use xrtc_server.Base.{
  ℕ, ◌+◌, ◌-◌, ◌*◌, ◌%◌, ◌^◌, Bool, true, false, not, ◌&&◌, ◌||◌, List, [], ◌∷◌, ◌++◌, Option, none,
  some, ltb, leb, ◌==◌, length, get_elem?, if◌then◌else◌, max, min,
}
use xrtc_server.Base.Int.{ℤ, pos, negsuc, ltb_ℤ}
use xrtc_server.Ice.Stun.Checks.{same_bytes}

abbrev pub connection_write_connect_fails : ℕ
connection_write_connect_fails = 5

abbrev pub connection_write_connect_timeout : ℕ
connection_write_connect_timeout = 5000

abbrev pub connection_write_timeout : ℕ
connection_write_timeout = 15000

abbrev pub weak_connection_receive_timeout : ℕ
weak_connection_receive_timeout = 2500

abbrev pub rtt_ratio : ℕ
rtt_ratio = 3

abbrev pub min_rtt : ℕ
min_rtt = 100

abbrev pub max_rtt : ℕ
max_rtt = 60000

pub data WriteState : Type 0 where
  state_writable state_write_unreliable state_write_init state_write_timeout : WriteState

-- The value of the enumeration.
abbrev pub rank : WriteState → ℕ
rank state_writable = 0
rank state_write_unreliable = 1
rank state_write_init = 2
rank state_write_timeout = 3

pub data PairState : Type 0 where
  waiting in_progress succeeded failed : PairState

pub record SentPing : Type 0 where
  pub id : List ℕ
  pub sent_time : ℕ

pub record IceConnection : Type 0 where
  pub remote_username : List ℕ
  pub remote_password : List ℕ
  pub remote_priority : ℕ
  pub local_priority : ℕ
  pub write_state : WriteState
  pub receiving : Bool
  pub last_ping_sent : ℕ
  pub last_ping_received : ℕ
  pub last_ping_response_received : ℕ
  pub last_data_received : ℕ
  pub num_pings_sent : ℕ
  pub pings_since_last_response : List SentPing
  pub rtt : ℕ
  pub rtt_samples : ℕ
  pub state : PairState

pub data Signal : Type 0 where
  state_change : IceConnection → Signal
  connection_destroy : IceConnection → Signal

-- The members' initial values, for a remote candidate and the priority of the local one.
unfoldable pub create :
    (username password : List ℕ) → (remote_priority local_priority : ℕ) → IceConnection
create username password remote_priority local_priority = record {
  remote_username = username;
  remote_password = password;
  remote_priority = remote_priority;
  local_priority = local_priority;
  write_state = state_write_init;
  receiving = false;
  last_ping_sent = 0;
  last_ping_received = 0;
  last_ping_response_received = 0;
  last_data_received = 0;
  num_pings_sent = 0;
  pings_since_last_response = [];
  rtt = 3000;
  rtt_samples = 0;
  state = waiting;
}

-- The conversion of an int64_t to an int.
unfoldable pub int32 : ℕ → ℤ
int32 n = if ltb (n % 2 ^ 32) (2 ^ 31) then pos (n % 2 ^ 32) else negsuc (2 ^ 32 - 1 - n % 2 ^ 32)

abbrev pub writable : IceConnection → Bool
writable c = rank c.write_state == 0

abbrev pub weak : IceConnection → Bool
weak c = not (writable c && c.receiving)

abbrev pub active : IceConnection → Bool
active c = not (rank c.write_state == 3)

abbrev pub last_received : IceConnection → ℕ
last_received c = max (max c.last_ping_received c.last_ping_response_received) c.last_data_received

unfoldable pub is_receiving : IceConnection → ℕ → Bool
is_receiving c now =
    if ltb c.last_ping_sent c.last_ping_response_received
    then true
    else ltb 0 (last_received c) && ltb now (last_received c + weak_connection_receive_timeout)

abbrev pub same : Bool → Bool → Bool
same true b = b
same false b = not b

abbrev pub Done : Type 0
Done = IceConnection × List Signal

unfoldable pub update_receiving : IceConnection → ℕ → Done
update_receiving c now =
    let changed = record c { receiving = is_receiving c now } in
    if same c.receiving (is_receiving c now) then (c, []) else (changed, state_change changed ∷ [])

unfoldable pub set_write_state : IceConnection → WriteState → Done
set_write_state c s =
    let changed = record c { write_state = s } in
    (changed, (if rank c.write_state == rank s then [] else state_change changed ∷ []))

unfoldable pub set_state : IceConnection → PairState → IceConnection
set_state c s = record c { state = s }

-- A second operation after a first.
abbrev pub then_do : Done → (IceConnection → Done) → Done
then_do (c, signals) f = ((f c).0, signals ++ (f c).1)

abbrev pub GetNextMovingAverage : Type 0
GetNextMovingAverage = (prev_average cur ratio : ℕ) → ℕ

unfoldable pub with_rtt : GetNextMovingAverage → IceConnection → ℕ → IceConnection
with_rtt average c rtt = record c {
  rtt = if ltb 0 c.rtt_samples then average c.rtt rtt rtt_ratio else rtt;
  rtt_samples = c.rtt_samples + 1;
}

unfoldable pub received_ping_response : GetNextMovingAverage → IceConnection → ℕ → ℕ → Done
received_ping_response average c rtt now =
    let answered = record (with_rtt average c rtt) {
      last_ping_response_received = now;
      pings_since_last_response = [];
    } in
    let written =
      then_do (update_receiving answered now)
        (λ (d : IceConnection). set_write_state d state_writable) in
    (set_state written.0 succeeded, written.1)

abbrev pub sent_time_at : List SentPing → ℕ → Option ℕ
sent_time_at pings i = elim (get_elem? pings i) [ none ↦ none | some p ↦ some p.sent_time ]

abbrev pub is_after : ℕ → Option ℕ → (ℕ → ℤ) → Bool
is_after now none due = false
is_after now (some t) due = ltb_ℤ (due t) (pos now)

-- `expected_response_time` is an int.
unfoldable pub too_many_ping_fails : IceConnection → ℕ → ℕ → ℕ → Bool
too_many_ping_fails c max_pings rtt now =
    if ltb (length c.pings_since_last_response) max_pings
    then false
    else is_after now (sent_time_at c.pings_since_last_response (max_pings - 1))
        (λ (t : ℕ). int32 (t + rtt))

unfoldable pub too_long_without_response : IceConnection → ℕ → ℕ → Bool
too_long_without_response c min_time now =
    is_after now (sent_time_at c.pings_since_last_response 0) (λ (t : ℕ). pos (t + min_time))

-- Twice the round trip time, between MIN_RTT and MAX_RTT.
unfoldable pub clamped_rtt : IceConnection → ℕ
clamped_rtt c =
    if ltb (2 * c.rtt) min_rtt
    then min_rtt
    else if ltb max_rtt (2 * c.rtt)
    then max_rtt
    else 2 * c.rtt

-- What an operation that may delete the connection leaves.
abbrev pub Survival : Type 0
Survival = Option IceConnection × List Signal

unfoldable pub fail_and_destroy : IceConnection → Survival
fail_and_destroy c = (none, connection_destroy (set_state c failed) ∷ [])

-- The tests of UpdateState.
unfoldable pub is_unresponsive : IceConnection → ℕ → Bool
is_unresponsive c now =
    rank c.write_state == 0
    && too_many_ping_fails c connection_write_connect_fails (clamped_rtt c) now
    && too_long_without_response c connection_write_connect_timeout now

abbrev pub may_time_out : WriteState → Bool
may_time_out s = rank s == 1 || rank s == 2

unfoldable pub is_expired : IceConnection → ℕ → Bool
is_expired c now =
    may_time_out c.write_state && too_long_without_response c connection_write_timeout now

unfoldable pub mark_unreliable : IceConnection → ℕ → Done
mark_unreliable c now =
    if is_unresponsive c now then set_write_state c state_write_unreliable else (c, [])

abbrev pub after : List Signal → Survival → Survival
after signals (survivor, more) = (survivor, signals ++ more)

abbrev pub destroy_after : Done → Survival
destroy_after (c, signals) = after signals (fail_and_destroy c)

abbrev pub survive : Done → Survival
survive (c, signals) = (some c, signals)

-- What follows the first test.
unfoldable pub time_out_or_receive : IceConnection → ℕ → Survival
time_out_or_receive c now =
    if is_expired c now
    then destroy_after (set_write_state c state_write_timeout)
    else survive (update_receiving c now)

-- UpdateState up to FailAndDestroy; what the source then does with the deleted object has no model.
unfoldable pub update_state : IceConnection → ℕ → Survival
update_state c now =
    let marked = mark_unreliable c now in after marked.1 (time_out_or_receive marked.0 now)

abbrev pub is_recoverable : ℕ → Bool
is_recoverable code = code == 401 || code == 420 || code == 500

unfoldable pub on_request_error_response : IceConnection → ℕ → Survival
on_request_error_response c code = if is_recoverable code then (some c, []) else fail_and_destroy c

-- The arithmetic of uint32_t stands under the uint64_t sum.
unfoldable pub priority : IceConnection → ℕ
priority c =
    let g = c.local_priority in
    let d = c.remote_priority in
    (min g d * 2 ^ 32 + 2 * max g d % 2 ^ 32 + (if ltb d g then 1 else 0)) % 2 ^ 64

unfoldable pub maybe_set_remote_ice_params : IceConnection → List ℕ → List ℕ → IceConnection
maybe_set_remote_ice_params c ufrag pwd =
    if same_bytes c.remote_username ufrag && length c.remote_password == 0
    then record c { remote_password = pwd }
    else c

-- `waiting` is an int.
unfoldable pub miss_response : IceConnection → ℕ → Bool
miss_response c now = elim (sent_time_at c.pings_since_last_response 0) [
  | none ↦ false
  | some t ↦ ltb_ℤ (pos (2 * c.rtt)) (int32 (now - t))
]

unfoldable pub stable : IceConnection → ℕ → Bool
stable c now = ltb (rtt_ratio + 1) c.rtt_samples && not (miss_response c now)

-- The identifier is the transaction's, drawn at random.
unfoldable pub ping : IceConnection → List ℕ → ℕ → IceConnection
ping c id now = record (set_state c in_progress) {
  last_ping_sent = now;
  pings_since_last_response =
      c.pings_since_last_response ++ (record { id = id; sent_time = now } ∷ []);
  num_pings_sent = c.num_pings_sent + 1;
}

-- What OnReadPacket notes of a packet that is no STUN message, and of a ping.
unfoldable pub receive_data : IceConnection → ℕ → IceConnection
receive_data c now = record c { last_data_received = now }

unfoldable pub receive_ping : IceConnection → ℕ → IceConnection
receive_ping c now = record c { last_ping_received = now }
