-- ===== src/Ice/Channel.antt =====
-- src/ice/ice_transport_channel.h, src/ice/ice_transport_channel.cpp: a channel, its controller and its
-- connections. `store` gives the connection behind a pointer; a deleted one stays there as it was. The
-- clock stands still within a call. An operation gives the channel and what it emits, in order.
pub mod Current
pub mod Signals
pub mod Histories
pub mod Stale
mod Examples
use xrtc_server.Base.{
  ℕ, ◌+◌, ◌-◌, Bool, true, false, not, ◌&&◌, ◌||◌, List, [], ◌∷◌, ◌++◌, Option, none, some, ◌==◌,
  if◌then◌else◌,
}
use xrtc_server.Base.Int.{ℤ, sub_ℕ}
use xrtc_server.Ice.Connection
use xrtc_server.Ice.Connection.{
  IceConnection, Signal, state_change, connection_destroy, Survival, active, ping,
  maybe_set_remote_ice_params,
}
use xrtc_server.Ice.Controller
use xrtc_server.Ice.Controller.{
  View, IceController, any, set_selected_connection, mark_connection_pinged,
  select_connection_to_ping, sort_and_switch_connection, has_pingable_connection,
}

pub data IceTransportState : Type 0 where
  new checking connected completed failed disconnected closed : IceTransportState

abbrev pub rank : IceTransportState → ℕ
rank new = 0
rank checking = 1
rank connected = 2
rank completed = 3
rank failed = 4
rank disconnected = 5
rank closed = 6

pub record IceTransportChannel : Type 0 where
  pub store : View
  pub controller : IceController
  pub selected_connection : Option ℕ
  pub had_connection : Bool
  pub has_been_connection : Bool
  pub writable : Bool
  pub receiving : Bool
  pub state : IceTransportState
  pub start_pinging : Bool
  pub last_ping_sent : ℕ
  pub cur_ping_interval : ℕ

pub data ChannelSignal : Type 0 where
  writable_state receiving_state : ChannelSignal
  ice_state_changed : IceTransportState → ChannelSignal

abbrev pub Done : Type 0
Done = IceTransportChannel × List ChannelSignal

abbrev pub then_do : Done → (IceTransportChannel → Done) → Done
then_do (c, emitted) f = ((f c).0, emitted ++ (f c).1)

abbrev pub create : View → IceTransportChannel
create store = record {
  store = store;
  controller = Controller.create;
  selected_connection = none;
  had_connection = false;
  has_been_connection = false;
  writable = false;
  receiving = false;
  state = new;
  start_pinging = false;
  last_ping_sent = 0;
  cur_ping_interval = Controller.weak_ping_interval;
}

-- A connection is written to its place.
abbrev pub put : ℕ → IceConnection → IceTransportChannel → IceTransportChannel
put p c ch = record ch { store = λ (q : ℕ). if q == p then c else ch.store q }

abbrev pub same : Bool → Bool → Bool
same true b = b
same false b = not b

unfoldable pub set_writable : Bool → IceTransportChannel → Done
set_writable w ch = if same ch.writable w then (ch, []) else (
  record ch { writable = w; has_been_connection = w || ch.has_been_connection },
  writable_state ∷ [],
)

unfoldable pub set_receiving : Bool → IceTransportChannel → Done
set_receiving r ch =
    if same ch.receiving r then (ch, []) else (record ch { receiving = r }, receiving_state ∷ [])

abbrev pub selected_writable : View → Option ℕ → Bool
selected_writable store none = false
selected_writable store (some p) = Connection.writable (store p)

abbrev pub any_receiving : View → List ℕ → Bool
any_receiving store ps = any (λ (p : ℕ). (store p).receiving) ps

abbrev pub any_active : View → List ℕ → Bool
any_active store ps = any (λ (p : ℕ). active (store p)) ps

unfoldable pub compute_ice_transport_state :
    (had_connection has_connection has_been_connection writable : Bool) → IceTransportState
compute_ice_transport_state had has been writable =
    if had && not has
    then failed
    else if been && not writable
    then disconnected
    else if not had && not has
    then new
    else if has && not writable
    then checking
    else connected

abbrev pub computed_state : IceTransportChannel → IceTransportState
computed_state ch =
    compute_ice_transport_state ch.had_connection (any_active ch.store ch.controller.connections)
      ch.has_been_connection ch.writable

unfoldable pub set_state : IceTransportState → IceTransportChannel → Done
set_state s ch =
    if rank s == rank ch.state
    then (ch, [])
    else (record ch { state = s }, ice_state_changed s ∷ [])

unfoldable pub update_state : IceTransportChannel → Done
update_state ch =
    then_do
      (then_do (set_writable (selected_writable ch.store ch.selected_connection) ch)
        (λ (c : IceTransportChannel).
          set_receiving (any_receiving c.store c.controller.connections) c))
      (λ (c : IceTransportChannel). set_state (computed_state c) c)

-- The controller is not told when no connection is selected.
unfoldable pub switch_selected_connection : Option ℕ → IceTransportChannel → IceTransportChannel
switch_selected_connection none ch = record ch { selected_connection = none }
switch_selected_connection (some p) ch = record ch {
  selected_connection = some p;
  controller = set_selected_connection ch.controller (some p);
}

abbrev pub maybe_switch : Option ℕ → IceTransportChannel → IceTransportChannel
maybe_switch none ch = ch
maybe_switch (some p) ch = switch_selected_connection (some p) ch

unfoldable pub maybe_start_pinging : ℕ → IceTransportChannel → IceTransportChannel
maybe_start_pinging now ch = record ch {
  start_pinging = ch.start_pinging || has_pingable_connection ch.store ch.controller now;
}

abbrev pub sorted : IceTransportChannel → IceTransportChannel
sorted ch =
    let r = sort_and_switch_connection ch.store ch.controller in
    maybe_switch r.1 (record ch { controller = r.0 })

unfoldable pub sort_and_update_state : ℕ → IceTransportChannel → Done
sort_and_update_state now ch =
    let updated = update_state (sorted ch) in (maybe_start_pinging now updated.0, updated.1)

abbrev pub is_selected : Option ℕ → ℕ → Bool
is_selected none p = false
is_selected (some q) p = q == p

unfoldable pub on_connection_destroyed : ℕ → ℕ → IceTransportChannel → Done
on_connection_destroyed now p ch =
    let removed = record ch { controller = Controller.on_connection_destroyed ch.controller p } in
    if is_selected ch.selected_connection p
    then sort_and_update_state now (switch_selected_connection none removed)
    else update_state removed

-- The slots of the signals that the connection at p emits.
unfoldable pub on_signal : ℕ → ℕ → Signal → IceTransportChannel → Done
on_signal now p (state_change c) ch = sort_and_update_state now (put p c ch)
on_signal now p (connection_destroy c) ch = on_connection_destroyed now p (put p c ch)

unfoldable pub on_signals : ℕ → ℕ → List Signal → IceTransportChannel → Done
on_signals now p [] ch = (ch, [])
on_signals now p (s ∷ ss) ch = then_do (on_signal now p s ch) (on_signals now p ss)

abbrev pub leave : ℕ → Option IceConnection → IceTransportChannel → IceTransportChannel
leave p none ch = ch
leave p (some c) ch = put p c ch

-- An operation of the connection at p: its signals reach the channel before it ends.
unfoldable pub run_connection : ℕ → ℕ → Survival → IceTransportChannel → Done
run_connection now p (survivor, signals) ch =
    let d = on_signals now p signals ch in (leave p survivor d.0, d.1)

unfoldable pub update_connection_states : ℕ → List ℕ → IceTransportChannel → Done
update_connection_states now [] ch = (ch, [])
update_connection_states now (p ∷ ps) ch =
    then_do (run_connection now p (Connection.update_state (ch.store p) now) ch)
      (update_connection_states now ps)

unfoldable pub add_connection : ℕ → IceConnection → IceTransportChannel → IceTransportChannel
add_connection p c ch = record (put p c ch) {
  had_connection = true;
  controller = Controller.add_connection ch.controller p;
}

-- A new peer-reflexive connection, once the port has made it.
unfoldable pub on_new_connection : ℕ → ℕ → IceConnection → IceTransportChannel → Done
on_new_connection now p c ch = sort_and_update_state now (add_connection p c ch)

unfoldable pub set_params : List ℕ → List ℕ → List ℕ → IceTransportChannel → IceTransportChannel
set_params ufrag pwd [] ch = ch
set_params ufrag pwd (p ∷ ps) ch =
    set_params ufrag pwd ps (put p (maybe_set_remote_ice_params (ch.store p) ufrag pwd) ch)

unfoldable pub set_remote_ice_params : ℕ → List ℕ → List ℕ → IceTransportChannel → Done
set_remote_ice_params now ufrag pwd ch =
    sort_and_update_state now (set_params ufrag pwd ch.controller.connections ch)

-- The connection that was found is pinged, with an identifier drawn for it, and marked.
abbrev pub ping_connection : ℕ → List ℕ → Option ℕ → IceTransportChannel → IceTransportChannel
ping_connection now id none ch = ch
ping_connection now id (some p) ch =
    let pinged = put p (ping (ch.store p) id now) ch in
    record pinged {
      last_ping_sent = now;
      controller = mark_connection_pinged ch.controller (some p);
    }

abbrev pub check_and_ping : ℕ → List ℕ → IceTransportChannel → IceTransportChannel
check_and_ping now id ch =
    let result = select_connection_to_ping ch.store ch.controller (sub_ℕ ch.last_ping_sent 5) now in
    record (ping_connection now id result.1 (record ch { controller = result.0 })) {
      cur_ping_interval = result.2;
    }

unfoldable pub on_check_and_ping : ℕ → List ℕ → IceTransportChannel → Done
on_check_and_ping now id ch =
    let updated = update_connection_states now ch.controller.connections ch in
    (check_and_ping now id updated.0, updated.1)
