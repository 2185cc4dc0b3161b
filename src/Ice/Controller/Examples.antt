-- ===== src/Ice/Controller/Examples.antt =====
-- The controller of src/ice/ice_controller.cpp at work.
use xrtc_server.Base.{
  ℕ, ◌≡◌, refl, ◌↔◌, ◌==◌, true, [], ◌∷◌, none, some, count, if◌then◌else◌, subst, arith,
}
use xrtc_server.Ice.Connection.{state_writable, succeeded}
use xrtc_server.Ice.Controller.{
  View, IceController, create, add_connection, set_insert, insert_ordered, any,
  sort_and_switch_connection,
}
use xrtc_server.Ice.Controller.Partition.{
  IsPartition, Steps, done, then_step, adds, steps-IsPartition,
}
use xrtc_server.Ice.Controller.Switching.{Wins, sort_and_switch_iff}
use xrtc_server.Ice.Controller.Fairness.{Turn, Pinged, pings, unpinged-Pinged}

-- Writable connections, whose round trip time falls with the address.
abbrev view : View
view p = record {
  remote_username = 97 ∷ [];
  remote_password = 98 ∷ [];
  remote_priority = 1000;
  local_priority = 2000;
  write_state = state_writable;
  receiving = true;
  last_ping_sent = 0;
  last_ping_received = 0;
  last_ping_response_received = 130;
  last_data_received = 0;
  num_pings_sent = 1;
  pings_since_last_response = [];
  rtt = if p == 1 then 50 else 30;
  rtt_samples = 1;
  state = succeeded;
}

abbrev two : IceController
two = record {
  selected_connection = none;
  connections = 1 ∷ 2 ∷ [];
  unpinged_connections = 1 ∷ 2 ∷ [];
  pinged_connections = [];
}

two_added : add_connection (add_connection create 1) 2 ≡ two
unfolding add_connection set_insert insert_ordered any
two_added = refl

abbrev two_steps : Steps create (add_connection (add_connection create 1) 2)
unfolding add_connection
two_steps = then_step (then_step done (adds 1 refl)) (adds 2 refl)

steps-IsPartition_example : IsPartition (add_connection (add_connection create 1) 2)
steps-IsPartition_example = steps-IsPartition two_steps

two-IsPartition : IsPartition two
two-IsPartition = subst IsPartition two_added (steps-IsPartition two_steps)

sort_and_switch_iff_example :
    (((sort_and_switch_connection view two).1 ≡ some 2)
      ↔ Wins view none (sort_and_switch_connection view two).0.connections 2)
    × ((p : ℕ)
        → count p (sort_and_switch_connection view two).0.connections ≡ count p two.connections)
sort_and_switch_iff_example = sort_and_switch_iff view two 2

abbrev at_time : ℕ → Turn
at_time t = record { view = view; now = t }

unpinged-Pinged_example : Pinged 2 (pings two (at_time 100 ∷ at_time 200 ∷ []))
unpinged-Pinged_example =
    unpinged-Pinged two (at_time 100 ∷ at_time 200 ∷ []) 2 two-IsPartition refl
      (λ (p : ℕ). refl, (λ (p : ℕ). refl, tt)) (omega arith) (omega arith)
