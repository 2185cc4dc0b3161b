-- ===== src/Ice/Connection/Examples.antt =====
-- Connections of src/ice/ice_connection.cpp at work.
use xrtc_server.Base.{
  true, false, ℕ, ◌+◌, ◌*◌, ◌/◌, ◌^◌, ◌≡◌, refl, ◌↔◌, ◌⊎◌, List, [], ◌∷◌, ◌++◌, none, some, max,
  ltb, if◌then◌else◌, arith,
}
use xrtc_server.Ice.Connection.{
  IceConnection, SentPing, GetNextMovingAverage, create, ping, update_state, received_ping_response,
  state_writable, succeeded, in_progress, is_receiving, int32, clamped_rtt, too_many_ping_fails,
  too_long_without_response, is_unresponsive, is_expired, mark_unreliable, time_out_or_receive,
  update_receiving, set_write_state, set_state, with_rtt, state_write_unreliable, priority,
}
use xrtc_server.Ice.Connection.Updates.{Expires, Unresponsive, destroyed_iff, update_state-survivor}
use xrtc_server.Ice.Connection.Histories.{
  Event, pinged, responded, updated, got_data, IsValid, run, step, run-create-IsValid,
}
use xrtc_server.Ice.Connection.Silence.{silent-destroyed}
use xrtc_server.Ice.Connection.Priority.{pair_priority, priority-pair_priority}

abbrev average : GetNextMovingAverage
average prev_average cur ratio = (prev_average * ratio + cur) / (ratio + 1)

abbrev sent : ℕ → SentPing
sent t = record { id = 7 ∷ []; sent_time = t }

-- A writable connection that five pings have left without an answer.
abbrev unanswered : IceConnection
unanswered = record {
  remote_username = 97 ∷ [];
  remote_password = 98 ∷ [];
  remote_priority = 1000;
  local_priority = 2000;
  write_state = state_writable;
  receiving = true;
  last_ping_sent = 5000;
  last_ping_received = 900;
  last_ping_response_received = 950;
  last_data_received = 0;
  num_pings_sent = 6;
  pings_since_last_response = sent 1000 ∷ sent 2000 ∷ sent 3000 ∷ sent 4000 ∷ sent 5000 ∷ [];
  rtt = 40;
  rtt_samples = 1;
  state = in_progress;
}

destroyed_iff_example : ((update_state unanswered 16001).0 ≡ none) ↔ Expires unanswered 16001
destroyed_iff_example = destroyed_iff unanswered 16001

abbrev silent : IceConnection
silent = record unanswered { write_state = state_write_unreliable; receiving = false }

becomes_unreliable : (update_state unanswered 7000).0 ≡ some silent
unfolding update_state time_out_or_receive mark_unreliable is_unresponsive is_expired
    too_many_ping_fails too_long_without_response clamped_rtt int32 set_write_state update_receiving
    is_receiving
becomes_unreliable = refl

update_state-survivor_example :
    (Unresponsive unanswered 7000
      × (silent ≡ record unanswered {
        write_state = state_write_unreliable;
        receiving = is_receiving unanswered 7000;
      }))
    ⊎ ((Unresponsive unanswered 7000 → ⊥)
        × (silent ≡ record unanswered { receiving = is_receiving unanswered 7000 }))
update_state-survivor_example = update_state-survivor unanswered silent 7000 becomes_unreliable

abbrev pinged_once : IceConnection
pinged_once = record {
  remote_username = 97 ∷ [];
  remote_password = 98 ∷ [];
  remote_priority = 1000;
  local_priority = 2000;
  write_state = state_writable;
  receiving = true;
  last_ping_sent = 100;
  last_ping_received = 0;
  last_ping_response_received = 130;
  last_data_received = 0;
  num_pings_sent = 1;
  pings_since_last_response = [];
  rtt = 30;
  rtt_samples = 1;
  state = succeeded;
}

abbrev answered : List Event
answered = pinged (7 ∷ []) 100 ∷ responded 30 130 ∷ []

answered_state :
    run average (some (create (97 ∷ []) (98 ∷ []) 1000 2000)) answered ≡ some pinged_once
unfolding run step create ping received_ping_response set_state set_write_state with_rtt
    update_receiving is_receiving
answered_state = refl

run-create-IsValid_example : IsValid pinged_once
run-create-IsValid_example =
    run-create-IsValid average (97 ∷ []) (98 ∷ []) 1000 2000 answered pinged_once answered_state

silent-destroyed_example :
    run average (some unanswered) ((got_data 5500 ∷ updated 6000 ∷ []) ++ (updated 70000 ∷ []))
    ≡ none
silent-destroyed_example =
    silent-destroyed average unanswered (got_data 5500 ∷ updated 6000 ∷ []) 5000 70000 (omega arith)
      (tt, (tt, tt)) (omega arith, (omega arith, (omega arith, (omega arith, (omega arith, tt)))))
      (omega arith) (omega arith)

priority-pair_priority_example :
    priority unanswered + (if ltb (max 2000 1000) (2 ^ 31) then 0 else 2 ^ 32)
    ≡ pair_priority 2000 1000
priority-pair_priority_example = priority-pair_priority unanswered (omega arith) (omega arith)
