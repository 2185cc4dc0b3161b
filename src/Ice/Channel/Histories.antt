-- ===== src/Ice/Channel/Histories.antt =====
-- Any sequence of the calls of a channel of src/ice/ice_transport_channel.cpp.
use xrtc_server.Base.{ℕ, ◌≡◌, refl, List, [], ◌∷◌, Option, none, some, if_keep, sym, ap, ◌∙◌}
use xrtc_server.Base.Int.{ℤ, sub_ℕ, leb_ℤ, ◌+ℤ◌, pos}
use xrtc_server.Ice.Connection
use xrtc_server.Ice.Connection.{
  IceConnection, Signal, state_change, connection_destroy, Survival, active, ping,
  maybe_set_remote_ice_params,
}
use xrtc_server.Ice.Connection.Announced.{step-Announced}
use xrtc_server.Ice.Controller.{
  View, IceController, any, mark_connection_pinged, select_connection_to_ping,
}
use xrtc_server.Ice.Channel.{
  IceTransportChannel, rank, Done, then_do, create, put, any_receiving, any_active,
  compute_ice_transport_state, run_connection, update_connection_states, add_connection,
  on_new_connection, set_params, set_remote_ice_params, ping_connection, check_and_ping,
  on_check_and_ping,
}
use xrtc_server.Ice.Controller.{
  new_turn, find_beside, find_in_turn, find_next_pingable_connection, selected_is_due, is_pingable,
  set_insert_all, contains, ping_interval, set_insert, erase,
}
use xrtc_server.Ice.Connection.{GetNextMovingAverage}
use xrtc_server.Ice.Connection.Histories.{Event, updated, step}
use xrtc_server.Ice.Channel.Current.{IsCurrent, sort_and_update-IsCurrent}
use xrtc_server.Ice.Channel.Signals.{put-IsCurrent, run_connection-IsCurrent}

-- A search and a mark leave the list of connections.
new_turn-list :
    (view : View) (s : IceController) (now : ℕ) → (new_turn view s now).connections ≡ s.connections
unfolding new_turn
new_turn-list view s now =
    if_keep (λ (t : IceController). t.connections ≡ s.connections)
      (any (λ (p : ℕ). is_pingable view s p now) s.unpinged_connections) s
      (record s {
        unpinged_connections = set_insert_all s.pinged_connections s.unpinged_connections;
        pinged_connections = [];
      })
      refl refl

find-list :
    (view : View) (s : IceController) (now : ℕ) (o : Option ℕ)
    → (find_beside view s now o).0.connections ≡ s.connections
unfolding find_beside
find-list view s now none = new_turn-list view s now
find-list view s now (some p) =
    if_keep (λ (r : IceController × Option ℕ). r.0.connections ≡ s.connections)
      (selected_is_due view s p now) (s, some p) (find_in_turn view s now) refl
      (new_turn-list view s now)

select-list :
    (view : View) (s : IceController) (last : ℤ) (now : ℕ)
    → (select_connection_to_ping view s last now).0.connections ≡ s.connections
unfolding select_connection_to_ping
select-list view s last now =
    let found = find_next_pingable_connection view s now in
    if_keep (λ (r : IceController × Option ℕ × ℕ). r.0.connections ≡ s.connections)
      (leb_ℤ (last +ℤ pos (ping_interval view s)) (pos now))
      (found.0, found.1, ping_interval view s) (s, none, ping_interval view s)
      (find-list view s now s.selected_connection) refl

mark-list :
    (s : IceController) (o : Option ℕ) → (mark_connection_pinged s o).connections ≡ s.connections
unfolding mark_connection_pinged
mark-list s none = refl
mark-list s (some p) =
    if_keep (λ (t : IceController). t.connections ≡ s.connections) (contains s.pinged_connections p)
      s
      (record s {
        pinged_connections = set_insert p s.pinged_connections;
        unpinged_connections = erase p s.unpinged_connections;
      })
      refl refl

-- Another controller with the same list.
relisted-IsCurrent :
    (k : IceController) (ch : IceTransportChannel)
    → IsCurrent ch
    → k.connections ≡ ch.controller.connections
    → IsCurrent (record ch { controller = k })
relisted-IsCurrent k ch h e = record {
  writable_now = h.writable_now;
  receiving_now = h.receiving_now ∙ ap (any_receiving ch.store) (sym e);
  state_now =
      h.state_now
      ∙ ap
          (λ (ps : List ℕ). rank (
            compute_ice_transport_state ch.had_connection (any_active ch.store ps)
              ch.has_been_connection ch.writable))
          (sym e);
}

ping_connection-IsCurrent :
    (now : ℕ) (id : List ℕ) (o : Option ℕ) (ch : IceTransportChannel)
    → IsCurrent ch
    → IsCurrent (ping_connection now id o ch)
unfolding ping Connection.set_state
ping_connection-IsCurrent now id none ch h = h
ping_connection-IsCurrent now id (some p) ch h =
    let pinged = put p (ping (ch.store p) id now) ch in
    let current = put-IsCurrent p (ping (ch.store p) id now) ch h (refl, refl) in
    let listed =
      relisted-IsCurrent (mark_connection_pinged ch.controller (some p)) pinged current
        (mark-list ch.controller (some p)) in
    record {
      writable_now = listed.writable_now;
      receiving_now = listed.receiving_now;
      state_now = listed.state_now;
    }

check_and_ping-IsCurrent :
    (now : ℕ) (id : List ℕ) (ch : IceTransportChannel)
    → IsCurrent ch
    → IsCurrent (check_and_ping now id ch)
check_and_ping-IsCurrent now id ch h =
    let last = sub_ℕ ch.last_ping_sent 5 in
    let result = select_connection_to_ping ch.store ch.controller last now in
    let searched = record ch { controller = result.0 } in
    let pinged =
      ping_connection-IsCurrent now id result.1 searched
        (relisted-IsCurrent result.0 ch h (select-list ch.store ch.controller last now)) in
    record {
      writable_now = pinged.writable_now;
      receiving_now = pinged.receiving_now;
      state_now = pinged.state_now;
    }

module _ (average : GetNextMovingAverage) where
  update_states-IsCurrent :
      (now : ℕ) (ps : List ℕ) (ch : IceTransportChannel)
      → IsCurrent ch
      → IsCurrent (update_connection_states now ps ch).0
  unfolding update_connection_states step
  update_states-IsCurrent now [] ch h = h
  update_states-IsCurrent now (p ∷ ps) ch h =
      update_states-IsCurrent now ps
        (run_connection now p (Connection.update_state (ch.store p) now) ch).0
        (run_connection-IsCurrent now p (Connection.update_state (ch.store p) now) ch h
          (step-Announced average (ch.store p) (updated now)))

-- What happens to a channel: a new connection, an event of a connection, the parameters of the peer,
-- the timer.
pub data Call : Type 0 where
  connects : (now p : ℕ) (c : IceConnection) → Call
  has_event : (now p : ℕ) (average : GetNextMovingAverage) (e : Event) → Call
  gets_params : (now : ℕ) (ufrag pwd : List ℕ) → Call
  pings : (now : ℕ) (id : List ℕ) → Call

unfoldable pub call : IceTransportChannel → Call → Done
call ch (connects now p c) = on_new_connection now p c ch
call ch (has_event now p average e) = run_connection now p (step average (ch.store p) e) ch
call ch (gets_params now ufrag pwd) = set_remote_ice_params now ufrag pwd ch
call ch (pings now id) = on_check_and_ping now id ch

unfoldable pub calls : IceTransportChannel → List Call → Done
calls ch [] = (ch, [])
calls ch (c ∷ cs) = then_do (call ch c) (λ (d : IceTransportChannel). calls d cs)

call-IsCurrent : (ch : IceTransportChannel) (c : Call) → IsCurrent ch → IsCurrent (call ch c).0
unfolding call on_new_connection set_remote_ice_params on_check_and_ping
call-IsCurrent ch (connects now p c) h = sort_and_update-IsCurrent now (add_connection p c ch)
call-IsCurrent ch (has_event now p average e) h =
    run_connection-IsCurrent now p (step average (ch.store p) e) ch h
      (step-Announced average (ch.store p) e)
call-IsCurrent ch (gets_params now ufrag pwd) h =
    sort_and_update-IsCurrent now (set_params ufrag pwd ch.controller.connections ch)
call-IsCurrent ch (pings now id) h =
    check_and_ping-IsCurrent now id (update_connection_states now ch.controller.connections ch).0
      (update_states-IsCurrent (λ (a b c : ℕ). a) now ch.controller.connections ch h)

calls-IsCurrent :
    (ch : IceTransportChannel) (cs : List Call) → IsCurrent ch → IsCurrent (calls ch cs).0
unfolding calls
calls-IsCurrent ch [] h = h
calls-IsCurrent ch (c ∷ cs) h = calls-IsCurrent (call ch c).0 cs (call-IsCurrent ch c h)

-- From a new channel, after any sequence of new connections, of events of connections, of parameters of
-- the peer and of rounds of the timer: the channel is writable exactly when a connection is selected
-- that is, receiving exactly when a listed connection is, and its state is the one computed from these
-- and from the listed connections that have not timed out.
pub calls-create-IsCurrent : (store : View) (cs : List Call) → IsCurrent (calls (create store) cs).0
unfolding any compute_ice_transport_state
calls-create-IsCurrent store cs =
    calls-IsCurrent (create store) cs
      record { writable_now = refl; receiving_now = refl; state_now = refl }
