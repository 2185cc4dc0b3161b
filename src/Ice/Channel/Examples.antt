-- ===== src/Ice/Channel/Examples.antt =====
-- A channel of src/ice/ice_transport_channel.cpp at work.
use xrtc_server.Base.{◌≡◌, refl, ◌+◌, ◌*◌, ◌/◌, true, List, [], ◌∷◌, none, some}
use xrtc_server.Ice.Connection.{IceConnection, GetNextMovingAverage, state_writable, succeeded}
use xrtc_server.Ice.Connection.Announced.{Announced, step-Announced}
use xrtc_server.Ice.Connection.Histories.{responded, step}
use xrtc_server.Ice.Controller
use xrtc_server.Ice.Controller.{View}
use xrtc_server.Ice.Channel.{IceTransportChannel, create, on_connection_destroyed}
use xrtc_server.Ice.Channel.Current.{IsCurrent}
use xrtc_server.Ice.Channel.Histories.{
  Call, connects, has_event, pings, calls, calls-create-IsCurrent,
}
use xrtc_server.Ice.Channel.Stale.{destroyed-stale}

abbrev average : GetNextMovingAverage
average prev_average cur ratio = (prev_average * ratio + cur) / (ratio + 1)

abbrev good : IceConnection
good = record {
  remote_username = 97 ∷ [];
  remote_password = 98 ∷ [];
  remote_priority = 1000;
  local_priority = 2000;
  write_state = state_writable;
  receiving = true;
  last_ping_sent = 0;
  last_ping_received = 0;
  last_ping_response_received = 130;
  last_data_received = 0;
  num_pings_sent = 1;
  pings_since_last_response = [];
  rtt = 30;
  rtt_samples = 1;
  state = succeeded;
}

abbrev store : View
store p = good

step-Announced_example : Announced good (step average good (responded 30 150))
step-Announced_example = step-Announced average good (responded 30 150)

abbrev life : List Call
life = connects 10 1 good ∷ pings 60 (7 ∷ []) ∷ has_event 90 1 average (responded 30 90) ∷ []

calls-create-IsCurrent_example : IsCurrent (calls (create store) life).0
calls-create-IsCurrent_example = calls-create-IsCurrent store life

abbrev one_selected : IceTransportChannel
one_selected = record (create store) {
  selected_connection = some 1;
  controller = record Controller.create { selected_connection = some 1; connections = 1 ∷ [] };
}

destroyed-stale_example :
    ((on_connection_destroyed 50 1 one_selected).0.selected_connection ≡ none)
    × ((on_connection_destroyed 50 1 one_selected).0.controller.selected_connection ≡ some 1)
destroyed-stale_example = destroyed-stale 50 1 one_selected refl refl refl
